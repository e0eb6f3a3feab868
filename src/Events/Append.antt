-- ===== src/Events/Append.antt =====
-- events.py: `append` and the part of every write that runs inside the transaction.
use auto_lean.Base.{
  ℕ, ◌+◌, Bool, not, ◌&&◌, ◌||◌, Option, none, some, List, [], ◌∷◌, ◌++◌, String, lookup, put,
  insert, Result, ok, err, value_error, integrity_error, attestation_replay, concurrency_error,
  ◌>>=◌, ◌>>◌, guard, ◌==◌, string_Eq, pair_Eq, nat_Eq, if◌then◌else◌,
}
use auto_lean.Base.Int.{pos, is_negative, pos_part, int_Eq}
use auto_lean.Base.Lists.{length, any, is_empty}
use auto_lean.Base.Text.{is_blank}
use auto_lean.Json.{Codec, obj, arr, texts, canonical_json}
use auto_lean.Leases.{utc_now}
use auto_lean.Events.{
  NewEvent, StoredEvent, Idempotency, AttestationNonce, EventRow, Db, Env, Request,
}
use auto_lean.Events.Read.{existing_idempotency, events_by_ids, current_sequence}

unfoldable pub validate_append_request : Request → Result (Unit {0})
validate_append_request r = do
  guard (not (is_blank r.entity_type || is_blank r.entity_id)) value_error
  guard (not (is_negative r.expected_sequence)) value_error
  guard (not (is_empty r.new_events)) value_error
  guard (not (any (λ event. is_blank event.event_type) r.new_events)) value_error

-- Purpose, key and nonce are the primary key of `attestation_nonce_uses`.
abbrev pub nonce_key : AttestationNonce → String × (String × String)
nonce_key n = (n.purpose, (n.key_id, n.nonce))

abbrev pub is_registration : NewEvent → Bool
is_registration event = event.event_type == "task.registered"

module _ (c : Codec) where
  unfoldable pub consume_attestation_nonce :
      Env → AttestationNonce → String → String → Db c.Doc → Result (Db c.Doc)
  consume_attestation_nonce env value entity_type entity_id db =
      elim (lookup (nonce_key value) db.attestation_nonce_uses) [
        | some used ↦ err attestation_replay
        | none ↦ utc_now env.nonce_clock >>= λ now.
            insert (nonce_key value)
              (record {
                payload_hash = value.payload_hash;
                entity_type = entity_type;
                entity_id = entity_id;
                consumed_at = now;
              })
              db.attestation_nonce_uses
            >>= λ uses. ok (record db { attestation_nonce_uses = uses })
      ]

  unfoldable pub consume_optional_nonce :
      Env → Option AttestationNonce → String → String → Db c.Doc → Result (Db c.Doc)
  consume_optional_nonce env none entity_type entity_id db = ok db
  consume_optional_nonce env (some value) entity_type entity_id db =
      consume_attestation_nonce env value entity_type entity_id db

  -- The comparison with `entity_versions`, and its update.
  unfoldable pub advance_version : Request → Db c.Doc → Result (Db c.Doc)
  advance_version r db =
      let actual = current_sequence c r.entity_type r.entity_id db in
      if pos actual == r.expected_sequence
      then ok (record db {
        entity_versions =
            put (r.entity_type, r.entity_id) (pos_part r.expected_sequence + length r.new_events)
              db.entity_versions;
      })
      else err (concurrency_error r.entity_type r.entity_id actual)

  -- The two UNIQUE constraints of `events`.
  abbrev pub collides : EventRow c.Doc → EventRow c.Doc → Bool
  collides row old =
      old.event_id == row.event_id
      || (old.entity_type == row.entity_type
          && old.entity_id == row.entity_id
          && old.entity_sequence == row.entity_sequence)

  unfoldable pub insert_event : EventRow c.Doc → Db c.Doc → Result (Db c.Doc)
  insert_event row db =
      if any (collides row) db.events
      then err integrity_error
      else ok (record db { events = db.events ++ row ∷ []; last_position = row.global_position })

  -- One round of the loop over the new events.
  unfoldable pub insert_new_event :
      Env → String → String → ℕ → ℕ → ℕ → NewEvent → Db c.Doc → Result (Db c.Doc)
  insert_new_event env entity_type entity_id expected recorded_at offset event db = do
    payload ← canonical_json c (obj event.payload)
    metadata ← canonical_json c (obj event.metadata)
    insert_event
        (record {
          global_position = db.last_position + 1;
          event_id = env.uuid4 offset;
          entity_type = entity_type;
          entity_id = entity_id;
          entity_sequence = expected + offset;
          event_type = event.event_type;
          payload_json = payload;
          metadata_json = metadata;
          recorded_at = recorded_at;
        })
        db

  -- The loop; `offset` counts from 1. The identifiers of the events come back in order.
  unfoldable pub insert_events :
      Env → String → String → ℕ → ℕ → ℕ → List NewEvent → Db c.Doc → Result (List String × Db c.Doc)
  insert_events env entity_type entity_id expected recorded_at offset [] db = ok ([], db)
  insert_events env entity_type entity_id expected recorded_at offset (event ∷ events) db = do
    db' ← insert_new_event env entity_type entity_id expected recorded_at offset event db
    rest ← insert_events env entity_type entity_id expected recorded_at (offset + 1) events db'
    ok (env.uuid4 offset ∷ rest.0, rest.1)

  unfoldable pub record_idempotency : Idempotency → List String → ℕ → Db c.Doc → Result (Db c.Doc)
  record_idempotency value event_ids recorded_at db = do
    ids ← canonical_json c (arr (texts event_ids))
    records ←
        insert (value.scope, value.key)
          (record {
            request_hash = value.request_hash;
            event_ids_json = ids;
            created_at = recorded_at;
          })
          db.idempotency_records
    ok (record db { idempotency_records = records })

  unfoldable pub record_optional_idempotency :
      Option Idempotency → List String → ℕ → Db c.Doc → Result (Db c.Doc)
  record_optional_idempotency none event_ids recorded_at db = ok db
  record_optional_idempotency (some value) event_ids recorded_at db =
      record_idempotency value event_ids recorded_at db

  -- `_append_locked` behind its own lookup of the idempotency record.
  unfoldable pub append_new :
      Env
      → Request
      → Option Idempotency
      → Option AttestationNonce
      → Db c.Doc
      → Result (List StoredEvent × Db c.Doc)
  append_new env r idempotency nonce db = do
    consumed ← consume_optional_nonce env nonce r.entity_type r.entity_id db
    advanced ← advance_version r consumed
    recorded_at ← utc_now env.append_clock
    written ←
        insert_events env r.entity_type r.entity_id (pos_part r.expected_sequence) recorded_at 1
          r.new_events advanced
    recorded ← record_optional_idempotency idempotency written.0 recorded_at written.1
    events ← events_by_ids c recorded.events written.0
    ok (events, recorded)

  unfoldable pub replay_or :
      Db c.Doc
      → Option (List StoredEvent)
      → Result (List StoredEvent × Db c.Doc)
      → Result (List StoredEvent × Db c.Doc)
  replay_or db (some events) new = ok (events, db)
  replay_or db none new = new

  -- `_append_locked(..., idempotency_checked=False)`
  unfoldable pub append_locked :
      Env
      → Request
      → Option Idempotency
      → Option AttestationNonce
      → Db c.Doc
      → Result (List StoredEvent × Db c.Doc)
  append_locked env r idempotency nonce db = do
    existing ← existing_idempotency c db idempotency
    replay_or db existing (append_new env r idempotency nonce db)

  unfoldable pub append :
      Env
      → Request
      → Option Idempotency
      → Option AttestationNonce
      → Db c.Doc
      → Result (List StoredEvent × Db c.Doc)
  append env r idempotency nonce db = do
    validate_append_request r
    guard (not (r.entity_type == "task" && any is_registration r.new_events)) value_error
    append_locked env r idempotency nonce db
