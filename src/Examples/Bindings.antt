-- ===== src/Examples/Bindings.antt =====
-- events.py on one contract revision: its registration, and a redelivery under another key.
use auto_lean.Base.{◌≡◌, inl, refl, [], ◌∷◌, String, ok}
use auto_lean.Base.Int.{pos}
use auto_lean.Base.Text.{is_blank, is_sha256}
use auto_lean.Json.{Json, Fields, str, int, field, end, obj, arr, cons, nil}
use auto_lean.Json.Equality.{value_codec}
use auto_lean.Events.{NewEvent, StoredEvent, ContractRevisionBinding, Db, make_binding}
use auto_lean.Events.Registration.{
  registration_binding_from_payload, registration_binding_from_projection_row, find_bundle,
  select_binding_row, insert_contract_revision_binding, assert_projected,
  assert_registration_events_match, link_registration, redeliver_registration, register_new,
  register_locked, append_contract_revision_registration, first_id, binding_key,
}
use auto_lean.Events.Log.History.{empty_db, Reach}
use auto_lean.Events.Log.Bindings.{registration_is_unique}
use mathlib.Core.List.{Memᴰ}
use auto_lean.Events.{EventRow}
use auto_lean.Events.Read.{select, order_by, order_row}
use auto_lean.Events.Startup.{
  initialize_contract_revision_bindings, collect_expected, project_rows, all_expected, backfill,
  backfill_row, registration_binding_from_event_row,
}
use auto_lean.Events.Log.Projection.{Projects}
use auto_lean.Events.Log.Startup.{startup_covers_the_log}
use auto_lean.Examples.Events.{
  env_at, note, first_key, first_nonce, second_key, claimed_event, claimed_db, runs,
}

abbrev a_hash : String
a_hash = "aaaaaaaaaaaaaaaaaaaaaaaaaaaaaaaaaaaaaaaaaaaaaaaaaaaaaaaaaaaaaaaa"

abbrev binding : ContractRevisionBinding
binding = record {
  contract_id = "contract";
  revision = pos 1;
  bundle_id = "bundle";
  bundle_hash = a_hash;
  contract_hash = a_hash;
}

abbrev bound_payload : Fields
bound_payload = field "contract_id" (str "contract") (
    field "revision" (int (pos 1)) (
      field "bundle_id" (str "bundle")
        (field "bundle_hash" (str a_hash) (field "contract_hash" (str a_hash) end))))

abbrev registration : NewEvent
registration = note "task.registered" bound_payload

abbrev registered_event : StoredEvent
registered_event = record claimed_event { event_type = "task.registered"; payload = bound_payload }

abbrev registered_row : EventRow Json
registered_row = record {
  global_position = 1;
  event_id = "e1";
  entity_type = "task";
  entity_id = "bundle";
  entity_sequence = 1;
  event_type = "task.registered";
  payload_json = obj bound_payload;
  metadata_json = obj end;
  recorded_at = 5;
}

abbrev registered_db : Db Json
registered_db = record claimed_db {
  events = registered_row ∷ [];
  contract_revision_bindings =
      (
        binding_key binding,
        record {
          bundle_id = "bundle";
          bundle_hash = a_hash;
          contract_hash = a_hash;
          registration_event_id = "e1";
        },
      )
      ∷ [];
}

abbrev relinked_db : Db Json
relinked_db = record registered_db {
  idempotency_records =
      (
        ("claim", "k2"),
        record {
          request_hash = second_key.request_hash;
          event_ids_json = arr (cons (str "e1") nil);
          created_at = 9;
        },
      )
      ∷ registered_db.idempotency_records;
}

binding_is_admitted : make_binding "contract" (pos 1) "bundle" a_hash a_hash ≡ ok binding
unfolding make_binding is_blank is_sha256
binding_is_admitted = refl

-- Names on one line what a registration computes with.
registers : Unit {0}
unfolding runs append_contract_revision_registration register_locked register_new
    redeliver_registration link_registration select_binding_row find_bundle
    insert_contract_revision_binding assert_registration_events_match assert_projected
    registration_binding_from_payload registration_binding_from_projection_row make_binding
    is_sha256
registers = tt

register_first :
    append_contract_revision_registration value_codec
      (env_at 5 "e1")
      binding
      registration
      first_key
      first_nonce
      empty_db
    ≡ ok (registered_event ∷ [], registered_db)
unfolding registers
register_first = refl

register_again :
    append_contract_revision_registration value_codec
      (env_at 9 "e2")
      binding
      registration
      second_key
      first_nonce
      registered_db
    ≡ ok (registered_event ∷ [], relinked_db)
unfolding registers
register_again = refl

registration_is_unique_example :
    (binding ≡ binding) × (first_id (registered_event ∷ []) ≡ first_id (registered_event ∷ []))
registration_is_unique_example =
    registration_is_unique value_codec (env_at 5 "e1") (env_at 9 "e2") binding binding registration
      registration first_key second_key first_nonce first_nonce (registered_event ∷ [])
      (registered_event ∷ []) binding_is_admitted binding_is_admitted Reach.here register_first
      Reach.here register_again (inl refl)

-- A database from before the projection existed.
abbrev legacy_db : Db Json
legacy_db = record registered_db { contract_revision_bindings = [] }

-- The start-up adds the missing row.
backfilled : initialize_contract_revision_bindings value_codec legacy_db ≡ ok registered_db
unfolding registers initialize_contract_revision_bindings collect_expected project_rows all_expected
    backfill backfill_row registration_binding_from_event_row select order_by order_row
backfilled = refl

startup_covers_the_log_example :
    (registered_db.events ≡ legacy_db.events)
    × (b : ContractRevisionBinding) × (registration_binding_from_event_row value_codec
          registered_row
        ≡ ok b)
    × Projects registered_db.contract_revision_bindings b "e1"
startup_covers_the_log_example =
    startup_covers_the_log value_codec legacy_db registered_db registered_row backfilled
      (Memᴰ.head refl) refl
