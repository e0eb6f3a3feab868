-- ===== src/Examples/Events.antt =====
-- events.py on one task: a registration, a fenced write, and what later writes see.
use auto_lean.Base.{
  ℕ, ◌+◌, ◌≡◌, ◌≢◌, refl, some, none, [], ◌∷◌, String, ok, err, eq_iff, lookup, put, insert,
  idempotency_conflict, concurrency_error,
}
use auto_lean.Base.Int.{pos}
use auto_lean.Base.Text.{is_blank}
use auto_lean.Base.Lists.{length, any, contains, distinct}
use auto_lean.Json.{
  Json, Fields, obj, str, field, end, canonical_json, load_canonical_json,
  load_canonical_json_object, get, texts, unique_keys, has_key, arr, cons, nil,
}
use auto_lean.Json.Equality.{value_codec, value_codec-DecodesTexts, json_eq, items_eq, fields_eq}
use auto_lean.Leases.{no_leases, aware, utc_now}
use auto_lean.Events.{
  NewEvent, StoredEvent, Idempotency, AttestationNonce, EventRow, Db, Env, Request,
}
use auto_lean.Events.Read.{
  nonempty_texts, unique_ids, event_id_list, row_to_event, find_event, events_by_ids,
  resolve_idempotency, resolve_row, lookup_idempotency, existing_idempotency, current_sequence,
}
use auto_lean.Events.Append.{
  validate_append_request, consume_attestation_nonce, consume_optional_nonce, advance_version,
  insert_event, nonce_key, insert_new_event, insert_events, record_idempotency,
  record_optional_idempotency, append_new, replay_or, append_locked, append,
}
use auto_lean.Events.Log.History.{
  empty_db, Step, Reach, Extends, history_is_append_only, Reach-IsGapFree,
}
use auto_lean.Events.Log.Sequences.{IsGapFree}
use auto_lean.Events.Log.Identifiers.{NamesEvents}
use auto_lean.Events.Log.Replay.{retry_returns_first_answer, key_reuse_conflicts}
use auto_lean.Events.Log.Versions.{expected_version_is_used_once}

abbrev pub env_at : ℕ → String → Env
env_at t name = record {
  fence_clock = aware t;
  nonce_clock = aware t;
  append_clock = aware t;
  uuid4 = λ k. name;
}

abbrev pub note : String → Fields → NewEvent
note kind payload = record { event_type = kind; payload = payload; metadata = end }

abbrev pub first_key : Idempotency
first_key = record {
  scope = "claim";
  key = "k1";
  request_hash = "aaaaaaaaaaaaaaaaaaaaaaaaaaaaaaaaaaaaaaaaaaaaaaaaaaaaaaaaaaaaaaaa";
}

abbrev pub first_nonce : AttestationNonce
first_nonce = record {
  purpose = "attest";
  key_id = "verifier";
  nonce = "0123456789abcdef0123456789abcdef";
  payload_hash = "bbbbbbbbbbbbbbbbbbbbbbbbbbbbbbbbbbbbbbbbbbbbbbbbbbbbbbbbbbbbbbbb";
}

abbrev pub first_request : Request
first_request = record {
  entity_type = "task";
  entity_id = "bundle";
  expected_sequence = pos 0;
  new_events = note "task.claimed" (field "worker_id" (str "w1") end) ∷ [];
}

-- Names on one line what a run of `append` computes with.
unfoldable pub runs : Unit {0}
unfolding append append_locked append_new replay_or validate_append_request consume_optional_nonce
    consume_attestation_nonce advance_version insert_events insert_new_event insert_event
    record_optional_idempotency record_idempotency events_by_ids row_to_event find_event
    existing_idempotency lookup_idempotency resolve_row resolve_idempotency event_id_list unique_ids
    nonempty_texts current_sequence canonical_json load_canonical_json load_canonical_json_object
    unique_keys has_key texts get lookup put insert any contains distinct is_blank utc_now json_eq
    items_eq fields_eq
runs = tt

abbrev claimed_row : EventRow Json
claimed_row = record {
  global_position = 1;
  event_id = "e1";
  entity_type = "task";
  entity_id = "bundle";
  entity_sequence = 1;
  event_type = "task.claimed";
  payload_json = obj (field "worker_id" (str "w1") end);
  metadata_json = obj end;
  recorded_at = 5;
}

abbrev pub claimed_event : StoredEvent
claimed_event = record {
  global_position = 1;
  event_id = "e1";
  entity_type = "task";
  entity_id = "bundle";
  entity_sequence = 1;
  event_type = "task.claimed";
  payload = field "worker_id" (str "w1") end;
  metadata = end;
  recorded_at = 5;
}

abbrev pub claimed_db : Db Json
claimed_db = record {
  leases = no_leases;
  events = claimed_row ∷ [];
  last_position = 1;
  entity_versions = (("task", "bundle"), 1) ∷ [];
  idempotency_records =
      (
        ("claim", "k1"),
        record {
          request_hash = "aaaaaaaaaaaaaaaaaaaaaaaaaaaaaaaaaaaaaaaaaaaaaaaaaaaaaaaaaaaaaaaa";
          event_ids_json = arr (cons (str "e1") nil);
          created_at = 5;
        },
      )
      ∷ [];
  attestation_nonce_uses =
      (
        nonce_key first_nonce,
        record {
          payload_hash = first_nonce.payload_hash;
          entity_type = "task";
          entity_id = "bundle";
          consumed_at = 5;
        },
      )
      ∷ [];
  contract_revision_bindings = [];
}

pub append_first :
    append value_codec (env_at 5 "e1") first_request (some first_key) (some first_nonce) empty_db
    ≡ ok (claimed_event ∷ [], claimed_db)
unfolding runs
append_first = refl

-- Every identifier that the environment supplies is a text of its own.
env_at-names : (t : ℕ) → NamesEvents (env_at t "e1")
env_at-names t = record { names = λ k. refl }

to_claimed_db : Reach value_codec empty_db claimed_db
to_claimed_db = Reach.next Reach.here (
    Step.appends (env_at 5 "e1") first_request (some first_key) (some first_nonce)
      (claimed_event ∷ []) append_first)

history_is_append_only_example : Extends value_codec empty_db claimed_db
history_is_append_only_example = history_is_append_only value_codec to_claimed_db

Reach-IsGapFree_example : IsGapFree value_codec claimed_db
Reach-IsGapFree_example = Reach-IsGapFree value_codec to_claimed_db

-- The same key with another expected sequence.
abbrev retry_request : Request
retry_request = record first_request { expected_sequence = pos 1 }

retry_returns_first_answer_example :
    append value_codec (env_at 9 "e2") retry_request (some first_key) none claimed_db
    ≡ ok (claimed_event ∷ [], claimed_db)
unfolding validate_append_request any is_blank
retry_returns_first_answer_example =
    retry_returns_first_answer value_codec value_codec-DecodesTexts (env_at 5 "e1") (env_at 9 "e2")
      first_request retry_request first_key (some first_nonce) none empty_db claimed_db claimed_db
      (claimed_event ∷ []) (env_at-names 5) append_first Reach.here refl refl

abbrev other_key : Idempotency
other_key = record first_key {
  request_hash = "cccccccccccccccccccccccccccccccccccccccccccccccccccccccccccccccc";
}

hashes_differ : other_key.request_hash ≢ first_key.request_hash
hashes_differ p = cc ((eq_iff other_key.request_hash first_key.request_hash).1 p)

key_reuse_conflicts_example :
    append value_codec (env_at 9 "e2") retry_request (some other_key) none claimed_db
    ≡ err idempotency_conflict
unfolding validate_append_request any is_blank
key_reuse_conflicts_example =
    key_reuse_conflicts value_codec value_codec-DecodesTexts (env_at 5 "e1") (env_at 9 "e2")
      first_request retry_request first_key other_key (some first_nonce) none empty_db claimed_db
      claimed_db (claimed_event ∷ []) (env_at-names 5) append_first Reach.here refl refl refl refl
      hashes_differ

abbrev pub second_key : Idempotency
second_key = record first_key { key = "k2" }

pub first_is_fresh : existing_idempotency value_codec empty_db (some first_key) ≡ ok none
unfolding runs
first_is_fresh = refl

pub second_is_fresh : existing_idempotency value_codec claimed_db (some second_key) ≡ ok none
unfolding runs
second_is_fresh = refl

expected_version_is_used_once_example :
    (first_request.expected_sequence ≡ pos (current_sequence value_codec "task" "bundle" empty_db))
    × (current_sequence value_codec "task" "bundle" claimed_db
        ≡ current_sequence value_codec "task" "bundle" empty_db + length first_request.new_events)
    × (append value_codec
          (env_at 9 "e2")
          first_request
          (some second_key)
          (some first_nonce)
          claimed_db
        ≢ ok (claimed_event ∷ [], claimed_db))
    × (append value_codec (env_at 9 "e2") first_request (some second_key) none claimed_db
        ≡ err (
            concurrency_error "task" "bundle"
              (current_sequence value_codec "task" "bundle" claimed_db)))
unfolding validate_append_request any is_blank
expected_version_is_used_once_example =
    expected_version_is_used_once value_codec (env_at 5 "e1") (env_at 9 "e2") first_request
      first_request (some first_key) (some second_key) (some first_nonce) (some first_nonce)
      empty_db claimed_db claimed_db claimed_db (claimed_event ∷ []) (claimed_event ∷ [])
      first_is_fresh append_first Reach.here (refl, refl) refl second_is_fresh refl refl
