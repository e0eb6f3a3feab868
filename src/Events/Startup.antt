-- ===== src/Events/Startup.antt =====
-- events.py: `_initialize_contract_revision_bindings`, which a store runs when it opens a database:
-- the projection is compared with the registration events, and its missing rows are added.
use auto_lean.Base.{
  Bool, true, false, not, ◌&&◌, Option, none, some, List, [], ◌∷◌, ◌++◌, String, Table, lookup,
  Result, ok, err, integrity_error, projection_error, ◌>>=◌, ◌>>◌, guard, ◌==◌, string_Eq, pair_Eq,
}
use auto_lean.Base.Int.{ℤ, int_Eq}
use auto_lean.Json.{Codec, load_canonical_json_object}
use auto_lean.Events.{ContractRevisionBinding, binding_Eq, BindingRow, EventRow, Db}
use auto_lean.Events.Read.{select, order_by}
use auto_lean.Events.Registration.{
  registration_binding_from_payload, registration_binding_from_projection_row, binding_key,
  insert_contract_revision_binding,
}

-- A binding beside the identifier of its registration event.
abbrev pub Registered : Type 0
Registered = ContractRevisionBinding × String

abbrev pub is_absent {ℓ} : {A : Type ℓ} → Option A → Bool
is_absent none = true
is_absent (some a) = false

-- `projected`; the keys of the table differ.
unfoldable pub project_rows : Table (String × ℤ) BindingRow → Result (Table (String × ℤ) Registered)
project_rows [] = ok []
project_rows ((key, row) ∷ rows) = do
  binding ← registration_binding_from_projection_row key row
  rest ← project_rows rows
  ok ((key, (binding, row.registration_event_id)) ∷ rest)

-- `projected.keys() - expected.keys()` is empty.
unfoldable pub all_expected : Table (String × ℤ) Registered → Table (String × ℤ) Registered → Bool
all_expected expected [] = true
all_expected expected ((key, value) ∷ rest) =
    not (is_absent (lookup key expected)) && all_expected expected rest

abbrev pub on_backfill_error {ℓ} : {A : Type ℓ} → Result A → Result A
on_backfill_error (err integrity_error) = err projection_error
on_backfill_error r = r

-- One round of the last loop.
unfoldable pub backfill_row :
    Registered
    → Option Registered
    → Table (String × ℤ) BindingRow
    → Result (Table (String × ℤ) BindingRow)
backfill_row value (some existing) rows = do guard (existing == value) projection_error; ok rows
backfill_row (binding, event_id) none rows =
    on_backfill_error (insert_contract_revision_binding binding event_id rows)

unfoldable pub backfill :
    Table (String × ℤ) Registered
    → Table (String × ℤ) Registered
    → Table (String × ℤ) BindingRow
    → Result (Table (String × ℤ) BindingRow)
backfill projected [] rows = ok rows
backfill projected ((key, value) ∷ expected) rows = do
  rows' ← backfill_row value (lookup key projected) rows
  backfill projected expected rows'

module _ (c : Codec) where
  unfoldable pub registration_binding_from_event_row :
      EventRow c.Doc → Result ContractRevisionBinding
  registration_binding_from_event_row row = do
    payload ← load_canonical_json_object c row.payload_json
    binding ← registration_binding_from_payload payload
    guard (row.entity_id == binding.bundle_id) projection_error
    ok binding

  abbrev pub is_registration_row : EventRow c.Doc → Bool
  is_registration_row row = row.entity_type == "task" && row.event_type == "task.registered"

  -- `expected` in the order of its keys, and `expected_bundle_ids`.
  unfoldable pub collect_expected :
      List (EventRow c.Doc)
      → Table (String × ℤ) Registered
      → Table String (String × ℤ)
      → Result (Table (String × ℤ) Registered)
  collect_expected [] expected bundle_ids = ok expected
  collect_expected (row ∷ rows) expected bundle_ids = do
    binding ← registration_binding_from_event_row row
    guard (is_absent (lookup (binding_key binding) expected)) projection_error
    guard (is_absent (lookup binding.bundle_id bundle_ids)) projection_error
    collect_expected rows (expected ++ (binding_key binding, (binding, row.event_id)) ∷ [])
        ((binding.bundle_id, binding_key binding) ∷ bundle_ids)

  unfoldable pub initialize_contract_revision_bindings : Db c.Doc → Result (Db c.Doc)
  initialize_contract_revision_bindings db = do
    expected ←
        collect_expected
          (order_by c (λ row. row.global_position) (select c is_registration_row db.events)) [] []
    projected ← project_rows db.contract_revision_bindings
    guard (all_expected expected projected) projection_error
    rows ← backfill projected expected db.contract_revision_bindings
    ok (record db { contract_revision_bindings = rows })
