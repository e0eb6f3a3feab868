-- ===== src/Events/Registration.antt =====
-- events.py: the projection of contract revisions to bundles, and the registration that writes it.
use auto_lean.Base.{
  Bool, ◌&&◌, ◌||◌, Option, none, some, List, [], ◌∷◌, String, Table, lookup, insert, Result, ok,
  err, value_error, projection_error, integrity_error, contract_revision_conflict, ◌>>=◌, ◌>>◌,
  guard, ◌==◌, string_Eq, pair_Eq, if◌then◌else◌,
}
use auto_lean.Base.Int.{ℤ, pos, int_Eq}
use auto_lean.Base.Lists.{any}
use auto_lean.Json.{Json, Fields, Codec, str, int, get}
use auto_lean.Leases.{utc_now}
use auto_lean.Events.{
  NewEvent, StoredEvent, Idempotency, AttestationNonce, ContractRevisionBinding, binding_Eq,
  make_binding, BindingRow, Db, Env, Request,
}
use auto_lean.Events.Read.{existing_idempotency, events_by_ids}
use auto_lean.Events.Append.{
  validate_append_request, append_new, consume_attestation_nonce, record_idempotency,
  is_registration,
}

-- An exception of one kind turned into another, as in `except ValueError as error: raise ...`.
abbrev pub on_value_error {ℓ} : {A : Type ℓ} → Result A → Result A
on_value_error (err value_error) = err projection_error
on_value_error r = r

abbrev pub on_integrity_error {ℓ} : {A : Type ℓ} → Result A → Result A
on_integrity_error (err integrity_error) = err contract_revision_conflict
on_integrity_error r = r

-- `required_text` inside `_registration_binding_from_payload`
abbrev pub text_or_raise : Option Json → Result String
text_or_raise (some (str s)) = if s == "" then err projection_error else ok s
text_or_raise _ = err projection_error

abbrev pub required_text : String → Fields → Result String
required_text key payload = text_or_raise (get key payload)

abbrev pub int_or_raise : Option Json → Result ℤ
int_or_raise (some (int n)) = ok n
int_or_raise _ = err projection_error

unfoldable pub registration_binding_from_payload : Fields → Result ContractRevisionBinding
registration_binding_from_payload payload = do
  revision ← int_or_raise (get "revision" payload)
  contract_id ← required_text "contract_id" payload
  bundle_id ← required_text "bundle_id" payload
  bundle_hash ← required_text "bundle_hash" payload
  contract_hash ← required_text "contract_hash" payload
  on_value_error (make_binding contract_id revision bundle_id bundle_hash contract_hash)

-- The key of the row is the contract and the revision.
unfoldable pub registration_binding_from_projection_row :
    String × ℤ → BindingRow → Result ContractRevisionBinding
registration_binding_from_projection_row key row =
    on_value_error (make_binding key.0 key.1 row.bundle_id row.bundle_hash row.contract_hash)

-- `SELECT ... WHERE bundle_id = ?`
unfoldable pub find_bundle :
    String → Table (String × ℤ) BindingRow → Option ((String × ℤ) × BindingRow)
find_bundle bundle_id [] = none
find_bundle bundle_id ((key, row) ∷ rows) =
    if row.bundle_id == bundle_id then some (key, row) else find_bundle bundle_id rows

abbrev pub binding_key : ContractRevisionBinding → String × ℤ
binding_key b = (b.contract_id, b.revision)

abbrev pub with_key {ℓ} : {A : Type ℓ} → String × ℤ → Option A → Option ((String × ℤ) × A)
with_key key none = none
with_key key (some a) = some (key, a)

abbrev pub or_else {ℓ} : {A : Type ℓ} → Option A → Option A → Option A
or_else (some a) b = some a
or_else none b = b

-- The selected row: that of the contract revision, else that of the bundle.
unfoldable pub select_binding_row :
    ContractRevisionBinding → Table (String × ℤ) BindingRow → Option ((String × ℤ) × BindingRow)
select_binding_row b rows =
    or_else (with_key (binding_key b) (lookup (binding_key b) rows)) (find_bundle b.bundle_id rows)

-- The UNIQUE constraints on the bundle and on the event; `insert` checks the primary key.
abbrev pub binding_collides : BindingRow → (String × ℤ) × BindingRow → Bool
binding_collides row (key, old) =
    old.bundle_id == row.bundle_id || old.registration_event_id == row.registration_event_id

unfoldable pub insert_contract_revision_binding :
    ContractRevisionBinding
    → String
    → Table (String × ℤ) BindingRow
    → Result (Table (String × ℤ) BindingRow)
insert_contract_revision_binding b event_id rows =
    let row : BindingRow = record {
      bundle_id = b.bundle_id;
      bundle_hash = b.bundle_hash;
      contract_hash = b.contract_hash;
      registration_event_id = event_id;
    } in
    if any (binding_collides row) rows then err integrity_error else insert (binding_key b) row rows

unfoldable pub assert_projected :
    ContractRevisionBinding → String → Option BindingRow → Result (Unit {0})
assert_projected b event_id none = err projection_error
assert_projected b event_id (some row) = do
  projected ← registration_binding_from_projection_row (binding_key b) row
  guard (projected == b && row.registration_event_id == event_id) projection_error

unfoldable pub assert_registration_events_match :
    Table (String × ℤ) BindingRow → ContractRevisionBinding → List StoredEvent → Result (Unit {0})
assert_registration_events_match rows b (event ∷ []) = do
  guard
      (event.entity_type == "task"
        && event.entity_id == b.bundle_id
        && event.event_type == "task.registered")
      projection_error
  bound ← registration_binding_from_payload event.payload
  guard (bound == b) projection_error
  assert_projected b event.event_id (lookup (binding_key b) rows)
assert_registration_events_match rows b _ = err projection_error

abbrev pub first_id : List StoredEvent → String
first_id [] = ""
first_id (event ∷ events) = event.event_id

module _ (c : Codec) where
  abbrev pub registration_request : ContractRevisionBinding → NewEvent → Request
  registration_request b event = record {
    entity_type = "task";
    entity_id = b.bundle_id;
    expected_sequence = pos 0;
    new_events = event ∷ [];
  }

  -- A replayed idempotency key.
  unfoldable pub replay_registration :
      ContractRevisionBinding → List StoredEvent → Db c.Doc → Result (List StoredEvent × Db c.Doc)
  replay_registration b events db = do
    assert_registration_events_match db.contract_revision_bindings b events
    ok (events, db)

  -- The same binding again: linked to its event, and the nonce is not consumed.
  unfoldable pub link_registration :
      Env
      → ContractRevisionBinding
      → Idempotency
      → BindingRow
      → Db c.Doc
      → Result (List StoredEvent × Db c.Doc)
  link_registration env b idempotency row db = do
    events ← events_by_ids c db.events (row.registration_event_id ∷ [])
    assert_registration_events_match db.contract_revision_bindings b events
    recorded_at ← utc_now env.append_clock
    db' ← record_idempotency c idempotency (row.registration_event_id ∷ []) recorded_at db
    ok (events, db')

  -- Another binding: the nonce that is consumed first comes back with the rollback.
  unfoldable pub refuse_registration :
      Env
      → ContractRevisionBinding
      → AttestationNonce
      → Db c.Doc
      → Result (List StoredEvent × Db c.Doc)
  refuse_registration env b nonce db = do
    consumed ← consume_attestation_nonce c env nonce "task" b.bundle_id db
    err contract_revision_conflict

  -- The contract revision or the bundle is bound already.
  unfoldable pub redeliver_registration :
      Env
      → ContractRevisionBinding
      → Idempotency
      → AttestationNonce
      → (String × ℤ) × BindingRow
      → Db c.Doc
      → Result (List StoredEvent × Db c.Doc)
  redeliver_registration env b idempotency nonce (key, row) db =
      registration_binding_from_projection_row key row >>= λ projected.
      if projected == b
      then link_registration env b idempotency row db
      else refuse_registration env b nonce db

  -- A first registration of the revision and of the bundle.
  unfoldable pub register_new :
      Env
      → ContractRevisionBinding
      → NewEvent
      → Idempotency
      → AttestationNonce
      → Db c.Doc
      → Result (List StoredEvent × Db c.Doc)
  register_new env b event idempotency nonce db = do
    written ← append_new c env (registration_request b event) (some idempotency) (some nonce) db
    rows ← on_integrity_error (
        insert_contract_revision_binding b (first_id written.0)
          written.1.contract_revision_bindings)
    ok (written.0, record written.1 { contract_revision_bindings = rows })

  unfoldable pub register_locked :
      Env
      → ContractRevisionBinding
      → NewEvent
      → Idempotency
      → AttestationNonce
      → Db c.Doc
      → Option (List StoredEvent)
      → Option ((String × ℤ) × BindingRow)
      → Result (List StoredEvent × Db c.Doc)
  register_locked env b event idempotency nonce db (some events) selected =
      replay_registration b events db
  register_locked env b event idempotency nonce db none (some bound) =
      redeliver_registration env b idempotency nonce bound db
  register_locked env b event idempotency nonce db none none =
      register_new env b event idempotency nonce db

  unfoldable pub append_contract_revision_registration :
      Env
      → ContractRevisionBinding
      → NewEvent
      → Idempotency
      → AttestationNonce
      → Db c.Doc
      → Result (List StoredEvent × Db c.Doc)
  append_contract_revision_registration env b event idempotency nonce db = do
    guard (is_registration event) value_error
    validate_append_request (registration_request b event)
    existing ← existing_idempotency c db (some idempotency)
    register_locked env b event idempotency nonce db existing
        (select_binding_row b db.contract_revision_bindings)
