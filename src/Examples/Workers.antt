-- ===== src/Examples/Workers.antt =====
-- events.py, leases.py: a worker's fenced write, a spent nonce, and a worker whose lease is gone.
use auto_lean.Base.{
  ◌≡◌, ◌⊎◌, refl, false, some, none, [], ◌∷◌, ok, err, arith, lookup, put, attestation_replay,
}
use auto_lean.Base.Int.{pos}
use auto_lean.Base.Text.{is_blank}
use auto_lean.Base.Lists.{All, any}
use auto_lean.Json.{str, field, end}
use auto_lean.Json.Equality.{value_codec}
use auto_lean.Leases.{Lease, aware, claim, assert_current, assert_row, LeaseDb, no_leases}
use auto_lean.Leases.Inversion.{lease_of}
use auto_lean.Leases.Fencing
use auto_lean.Events.{StoredEvent, Db, Request}
use auto_lean.Events.Read.{existing_idempotency}
use auto_lean.Events.Append.{append, validate_append_request}
use auto_lean.Events.Fenced.{
  append_fenced, replay_or_fenced, assert_fenced_replay_task_binding, validate_fenced_task_binding,
  assert_current_fence,
}
use auto_lean.Events.Log.Effect.{Effect}
use auto_lean.Events.Log.History.{empty_db, Reach, Step}
use auto_lean.Events.Log.Nonces.{nonce_is_spent_once}
use auto_lean.Events.Log.Authority.{
  NamesTask, fenced_write_is_authorized, superseded_worker_cannot_write,
}
use auto_lean.Examples.Events.{
  env_at, note, first_key, first_nonce, first_request, claimed_event, claimed_db, second_key,
  append_first, first_is_fresh, runs,
}
use auto_lean.Json.{Json, obj}

abbrev pub lease1 : Lease
lease1 = lease_of "bundle" "w1" 1 100

abbrev pub leases1 : LeaseDb
leases1 = record {
  worker_leases =
      ("bundle", record { holder_id = "w1"; fencing_token = 1; expires_at = 100; updated_at = 0 })
      ∷ [];
  lease_counters = ("bundle", 1) ∷ [];
}

claim1 : claim (aware 0) "bundle" "w1" (pos 100) no_leases ≡ ok (lease1, leases1)
unfolding claim lookup put is_blank
claim1 = refl

abbrev claimed_leases : Db Json
claimed_leases = record claimed_db { leases = leases1 }

to_claimed_leases : Reach value_codec claimed_db claimed_leases
to_claimed_leases =
    Reach.next Reach.here (
      Step.leases leases1 (Fencing.Step.claims (aware 0) "bundle" "w1" (pos 100) lease1 claim1)
        refl)

abbrev submission : Request
submission = record first_request {
  expected_sequence = pos 1;
  new_events = note "task.submitted" (field "bundle_id" (str "bundle") end) ∷ [];
}

second_is_fresh_later : existing_idempotency value_codec claimed_leases (some second_key) ≡ ok none
unfolding runs
second_is_fresh_later = refl

lease1_is_current :
    assert_current_fence value_codec (env_at 9 "e2") "bundle" lease1 claimed_leases ≡ ok tt
unfolding runs assert_current_fence assert_row
lease1_is_current = refl

nonce_is_spent_once_example :
    ((false ≡ false)
      → append value_codec
          (env_at 9 "e2")
          submission
          (some second_key)
          (some first_nonce)
          claimed_leases
        ≡ err attestation_replay)
    × (is_blank "bundle" ≡ false
        → validate_fenced_task_binding "bundle" submission.new_events ≡ ok tt
        → assert_current_fence value_codec (env_at 9 "e2") "bundle" lease1 claimed_leases ≡ ok tt
        → append_fenced value_codec
            (env_at 9 "e2")
            "bundle"
            lease1
            submission
            (some second_key)
            (some first_nonce)
            claimed_leases
          ≡ err attestation_replay)
unfolding validate_append_request any is_blank
nonce_is_spent_once_example =
    nonce_is_spent_once value_codec (env_at 5 "e1") (env_at 9 "e2") first_request submission
      (some first_key) (some second_key) first_nonce first_nonce empty_db claimed_db claimed_leases
      (claimed_event ∷ []) "bundle" lease1 first_is_fresh append_first to_claimed_leases refl
      second_is_fresh_later refl

abbrev worker_db : Db Json
worker_db = record empty_db { leases = leases1 }

to_worker_db : Reach value_codec empty_db worker_db
to_worker_db =
    Reach.next Reach.here (
      Step.leases leases1 (Fencing.Step.claims (aware 0) "bundle" "w1" (pos 100) lease1 claim1)
        refl)

abbrev fenced_request : Request
fenced_request = record submission { expected_sequence = pos 0 }

abbrev submitted_event : StoredEvent
submitted_event = record claimed_event {
  event_type = "task.submitted";
  payload = field "bundle_id" (str "bundle") end;
}

abbrev submitted_db : Db Json
submitted_db = record claimed_db {
  leases = leases1;
  attestation_nonce_uses = [];
  events =
      record {
        global_position = 1;
        event_id = "e1";
        entity_type = "task";
        entity_id = "bundle";
        entity_sequence = 1;
        event_type = "task.submitted";
        payload_json = obj (field "bundle_id" (str "bundle") end);
        metadata_json = obj end;
        recorded_at = 5;
      }
      ∷ [];
}

fenced_write :
    append_fenced value_codec
      (env_at 5 "e1")
      "bundle"
      lease1
      fenced_request
      (some first_key)
      none
      worker_db
    ≡ ok (submitted_event ∷ [], submitted_db)
unfolding runs append_fenced validate_fenced_task_binding replay_or_fenced assert_current_fence
    assert_row
fenced_write = refl

fenced_write_is_authorized_example :
    All (NamesTask value_codec "bundle") fenced_request.new_events
    × (((existing_idempotency value_codec worker_db (some first_key)
            ≡ ok (some (submitted_event ∷ [])))
          × (submitted_db ≡ worker_db))
        ⊎ ((lease1.job_id ≡ "bundle")
            × (assert_current (aware 5) lease1 leases1 ≡ ok tt)
            × Effect value_codec
                (env_at 5 "e1")
                fenced_request
                (some first_key)
                none
                worker_db
                (submitted_event ∷ [])
                submitted_db))
fenced_write_is_authorized_example =
    fenced_write_is_authorized value_codec (env_at 5 "e1") "bundle" lease1 fenced_request
      (some first_key) none worker_db submitted_db (submitted_event ∷ []) fenced_write

abbrev lease2 : Lease
lease2 = lease_of "bundle" "w2" 2 300

abbrev leases2 : LeaseDb
leases2 = record {
  worker_leases =
      ("bundle", record { holder_id = "w2"; fencing_token = 2; expires_at = 300; updated_at = 200 })
      ∷ [];
  lease_counters = ("bundle", 2) ∷ [];
}

claim2 : claim (aware 200) "bundle" "w2" (pos 100) leases1 ≡ ok (lease2, leases2)
unfolding claim lookup put is_blank
claim2 = refl

abbrev later_db : Db Json
later_db = record submitted_db { leases = leases2 }

-- The first worker sends its command again after its lease has passed to the second.
repeated_write :
    append_fenced value_codec
      (env_at 210 "e2")
      "bundle"
      lease1
      fenced_request
      (some first_key)
      none
      later_db
    ≡ ok (submitted_event ∷ [], later_db)
unfolding runs append_fenced validate_fenced_task_binding replay_or_fenced
    assert_fenced_replay_task_binding
repeated_write = refl

to_submitted_db : Reach value_codec worker_db submitted_db
to_submitted_db = Reach.next Reach.here (
    Step.fences (env_at 5 "e1") "bundle" lease1 fenced_request (some first_key) none
      (submitted_event ∷ []) fenced_write)

lease1_was_current : assert_current (aware 4) lease1 leases1 ≡ ok tt
unfolding assert_current lookup
lease1_was_current = refl

superseded_worker_cannot_write_example :
    (later_db ≡ later_db)
    × (existing_idempotency value_codec later_db (some first_key)
        ≡ ok (some (submitted_event ∷ [])))
superseded_worker_cannot_write_example =
    superseded_worker_cannot_write value_codec lease1 lease2 (aware 4) (aware 200) "w2" (pos 100)
      leases2 to_worker_db lease1_was_current to_submitted_db claim2 (omega arith) refl Reach.here
      (env_at 210 "e2") "bundle" fenced_request (some first_key) none (submitted_event ∷ [])
      later_db repeated_write
