-- ===== src/Events/Fenced.antt =====
-- events.py: writes that are made only while the caller's lease on the task is current.
use auto_lean.Base.{
  Bool, false, not, Option, none, some, List, [], ◌∷◌, String, lookup, Result, ok, value_error,
  stale_fence, idempotency_conflict, ◌>>=◌, ◌>>◌, guard, ◌==◌, string_Eq,
}
use auto_lean.Base.Text.{is_blank}
use auto_lean.Json.{Json, Codec, str, get}
use auto_lean.Leases.{Lease, utc_now, assert_row}
use auto_lean.Events.{NewEvent, StoredEvent, Idempotency, AttestationNonce, Db, Env, Request}
use auto_lean.Events.Read.{existing_idempotency}
use auto_lean.Events.Append.{validate_append_request, append_new}

-- `isinstance(value, str)` and `value == text`
abbrev pub is_text : String → Option Json → Bool
is_text text (some (str s)) = s == text
is_text text _ = false

abbrev pub is_nonempty_text : Option Json → Bool
is_nonempty_text (some (str s)) = not (s == "")
is_nonempty_text _ = false

unfoldable pub validate_fenced_task_binding : String → List NewEvent → Result (Unit {0})
validate_fenced_task_binding task_id [] = ok tt
validate_fenced_task_binding task_id (event ∷ events) = do
  guard (is_nonempty_text (get "bundle_id" event.payload)) value_error
  guard (is_text task_id (get "bundle_id" event.payload)) value_error
  validate_fenced_task_binding task_id events

unfoldable pub assert_fenced_replay_task_binding : String → List StoredEvent → Result (Unit {0})
assert_fenced_replay_task_binding task_id [] = ok tt
assert_fenced_replay_task_binding task_id (event ∷ events) = do
  guard (is_text task_id (get "bundle_id" event.payload)) idempotency_conflict
  assert_fenced_replay_task_binding task_id events

module _ (c : Codec) where
  unfoldable pub assert_current_fence : Env → String → Lease → Db c.Doc → Result (Unit {0})
  assert_current_fence env task_id lease db = do
    guard (lease.job_id == task_id) stale_fence
    now ← utc_now env.fence_clock
    assert_row now lease (lookup task_id db.leases.worker_leases)

  unfoldable pub replay_or_fenced :
      String
      → Db c.Doc
      → Option (List StoredEvent)
      → Result (List StoredEvent × Db c.Doc)
      → Result (List StoredEvent × Db c.Doc)
  replay_or_fenced task_id db (some events) new = do
    assert_fenced_replay_task_binding task_id events
    ok (events, db)
  replay_or_fenced task_id db none new = new

  unfoldable pub append_fenced :
      Env
      → String
      → Lease
      → Request
      → Option Idempotency
      → Option AttestationNonce
      → Db c.Doc
      → Result (List StoredEvent × Db c.Doc)
  append_fenced env task_id lease r idempotency nonce db = do
    validate_append_request r
    guard (not (is_blank task_id)) value_error
    validate_fenced_task_binding task_id r.new_events
    existing ← existing_idempotency c db idempotency
    replay_or_fenced task_id db existing
        (assert_current_fence env task_id lease db >> append_new c env r idempotency nonce db)
