-- ===== src/Events/Log/Agreement.antt =====
-- events.py: after the start-up the projection agrees with the registration events of the log.
use auto_lean.Base.{
  ◌≡◌, sym, ◌∙◌, ap, subst, ◌⊎◌, inl, inr, false, Option, none, some, [], ◌∷◌, String, Table,
  lookup, Result, ok, err, guard_then-eq-ok, >>=-eq-ok, projection_error, arith, ◌==◌, string_Eq,
  pair_Eq, beq→eq, Bool-cases, Option-cases, lookup-cons_self,
}
use auto_lean.Base.Int.{ℤ, int_Eq}
use auto_lean.Base.Lists.{All}
use auto_lean.Events.{ContractRevisionBinding, binding_Eq, make_binding, BindingRow}
use auto_lean.Events.Registration.{
  binding_key, on_value_error, registration_binding_from_projection_row,
  insert_contract_revision_binding,
}
use auto_lean.Events.Startup.{Registered, project_rows, on_backfill_error, backfill_row, backfill}
use auto_lean.Events.Log.Projection.{
  IsAdmitted, Rows, Projects, insert_binding-eq-ok, inserted-Projects, Projects-cons,
}

abbrev pub Entries : Type 0
Entries = Table (String × ℤ) Registered

-- An entry of `expected` stands under its own key, with a binding that the constructor admits.
abbrev pub IsEntry : (String × ℤ) × Registered → Type 0
IsEntry (key, (b, event_id)) = (binding_key b ≡ key) × IsAdmitted b

raised-eq-ok :
    (r : Result ContractRevisionBinding) (b : ContractRevisionBinding)
    → on_value_error r ≡ ok b
    → r ≡ ok b
raised-eq-ok (ok x) b h = h
raised-eq-ok (err e) b h = ground arith

make_binding-fields :
    (contract_id : String) (revision : ℤ) (bundle_id bundle_hash contract_hash : String)
    (b : ContractRevisionBinding)
    → make_binding contract_id revision bundle_id bundle_hash contract_hash ≡ ok b
    → (b.contract_id ≡ contract_id)
      × (b.revision ≡ revision)
      × (b.bundle_id ≡ bundle_id)
      × (b.bundle_hash ≡ bundle_hash)
      × (b.contract_hash ≡ contract_hash)
unfolding make_binding
make_binding-fields contract_id revision bundle_id bundle_hash contract_hash b h =
    (ground arith, ground arith, ground arith, ground arith, ground arith)

pub make_binding-IsAdmitted :
    (contract_id : String) (revision : ℤ) (bundle_id bundle_hash contract_hash : String)
    (b : ContractRevisionBinding)
    → on_value_error (make_binding contract_id revision bundle_id bundle_hash contract_hash) ≡ ok b
    → (binding_key b ≡ (contract_id, revision)) × IsAdmitted b
make_binding-IsAdmitted contract_id revision bundle_id bundle_hash contract_hash b h =
    let made = raised-eq-ok _ b h in
    let (e1, e2, e3, e4, e5) =
      make_binding-fields contract_id revision bundle_id bundle_hash contract_hash b made in
    ((λ i. (e1 i, e2 i)), (λ i. make_binding (e1 i) (e2 i) (e3 i) (e4 i) (e5 i)) ∙ made)

row-IsAdmitted :
    (key : String × ℤ) (row : BindingRow) (b : ContractRevisionBinding)
    → registration_binding_from_projection_row key row ≡ ok b
    → (binding_key b ≡ key) × IsAdmitted b
unfolding registration_binding_from_projection_row
row-IsAdmitted key row b h =
    make_binding-IsAdmitted key.0 key.1 row.bundle_id row.bundle_hash row.contract_hash b h

lookup-other :
    {V : Type 0} (k j : String × ℤ) (v : V) (m : Table (String × ℤ) V)
    → (k == j) ≡ false
    → lookup j ((k, v) ∷ m) ≡ lookup j m
unfolding lookup
lookup-other k j v m differ = rw differ

-- The rows of the projection as the start-up reads them.
pub project_rows-Projects :
    (rows : Rows) (projected : Entries) (k : String × ℤ) (b : ContractRevisionBinding)
    (event_id : String)
    → project_rows rows ≡ ok projected
    → lookup k projected ≡ some (b, event_id)
    → (binding_key b ≡ k) × Projects rows b event_id
unfolding project_rows lookup
project_rows-Projects [] projected k b event_id h found = cc
project_rows-Projects ((key, row) ∷ rows) projected k b event_id h found =
    let (bound, read, h1) = >>=-eq-ok (registration_binding_from_projection_row key row) _ h in
    let (rest, others, same) = >>=-eq-ok (project_rows rows) _ h1 in
    let listed : projected ≡ (key, (bound, row.registration_event_id)) ∷ rest =
      ground (arith, same) in
    let found' : lookup k ((key, (bound, row.registration_event_id)) ∷ rest) ≡ some (b, event_id) =
      ap (lookup k) (sym listed) ∙ found in
    elim (Bool-cases (key == k)) [
      | inl e ↦
          let value : (bound, row.registration_event_id) ≡ (b, event_id) = cc (rw e at found') in
          let bound_eq : bound ≡ b = ap (λ (v : Registered). v.0) value in
          let keyed = (row-IsAdmitted key row bound read).0 in
          let key_eq : binding_key b ≡ key = ap binding_key (sym bound_eq) ∙ keyed in
          (
            key_eq ∙ beq→eq key k e,
            record {
              row = row;
              found = ap (λ j. lookup j ((key, row) ∷ rows)) key_eq ∙ lookup-cons_self key row rows;
              projects =
                  ap (λ j. registration_binding_from_projection_row j row) key_eq
                  ∙ read
                  ∙ ap ok bound_eq;
              by_event = ap (λ (v : Registered). v.1) value;
            },
          )
      | inr e ↦
          let (keyed, p) = project_rows-Projects rows rest k b event_id others (rw e at found') in
          let other : (key == binding_key b) ≡ false =
            subst (λ j. (key == j) ≡ false) (sym keyed) e in
          (
            keyed,
            record {
              row = p.row;
              found = lookup-other key (binding_key b) row rows other ∙ p.found;
              projects = p.projects;
              by_event = p.by_event;
            },
          )
    ]

inserted_row : (r : Result Rows) (rows' : Rows) → on_backfill_error r ≡ ok rows' → r ≡ ok rows'
inserted_row (ok rows) rows' h = h
inserted_row (err e) rows' h = ground arith

-- A row that an entry already has is compared, and a missing one is inserted.
backfill_row-Projects :
    (rows rows' : Rows) (projected : Entries) (key : String × ℤ) (b : ContractRevisionBinding)
    (event_id : String)
    → IsEntry (key, (b, event_id))
    → ((b : ContractRevisionBinding) (event_id : String)
        → lookup key projected ≡ some (b, event_id)
        → Projects rows b event_id)
    → backfill_row (b, event_id) (lookup key projected) rows ≡ ok rows'
    → Projects rows' b event_id
unfolding backfill_row
backfill_row-Projects rows rows' projected key b event_id entry has h =
    elim (Option-cases (lookup key projected)) [
      | inl e ↦
          let inserted =
            inserted_row (insert_contract_revision_binding b event_id rows) rows' (rw e at h) in
          inserted-Projects b event_id rows rows' entry.1 inserted
      | inr (value, e) ↦
          let (compared, h1) =
            guard_then-eq-ok (value == (b, event_id)) projection_error (ok rows) (rw e at h) in
          let value_eq : value ≡ (b, event_id) = beq→eq value (b, event_id) compared in
          subst (λ rows. Projects rows b event_id) (ground (arith, h1))
            (has b event_id (e ∙ ap some value_eq))
    ]

-- An insertion keeps what the projection has.
backfill_row-keeps :
    (rows rows' : Rows) (value : Registered) (existing : Option Registered)
    (b : ContractRevisionBinding) (event_id : String)
    → backfill_row value existing rows ≡ ok rows'
    → Projects rows b event_id
    → Projects rows' b event_id
unfolding backfill_row
backfill_row-keeps rows rows' value (some existing) b event_id h p =
    let (compared, same) = guard_then-eq-ok (existing == value) projection_error (ok rows) h in
    subst (λ rows. Projects rows b event_id) (ground (arith, same)) p
backfill_row-keeps rows rows' (new, new_id) none b event_id h p =
    let inserted = inserted_row (insert_contract_revision_binding new new_id rows) rows' h in
    let (_, fresh, same) = insert_binding-eq-ok new new_id rows rows' inserted in
    subst (λ rows. Projects rows b event_id) (sym same)
      (Projects-cons new b new_id event_id rows fresh p)

abbrev pub Has : Entries → Rows → Type 0
Has projected rows =
    (key : String × ℤ) (b : ContractRevisionBinding) (event_id : String)
    → lookup key projected ≡ some (b, event_id)
    → Projects rows b event_id

pub backfill-Projects :
    (projected expected : Entries) (rows rows' : Rows) (key : String × ℤ)
    (b : ContractRevisionBinding) (event_id : String)
    → All IsEntry expected
    → Has projected rows
    → backfill projected expected rows ≡ ok rows'
    → lookup key expected ≡ some (b, event_id) ⊎ Projects rows b event_id
    → Projects rows' b event_id
unfolding backfill lookup
backfill-Projects projected [] rows rows' key b event_id entries has h (inl found) = cc
backfill-Projects projected [] rows rows' key b event_id entries has h (inr p) =
    subst (λ rows. Projects rows b event_id) (ground arith) p
backfill-Projects projected ((k, (b0, id0)) ∷ expected) rows rows' key b event_id (entry, entries)
      has h given =
    let (mid, first, rest) = >>=-eq-ok (backfill_row (b0, id0) (lookup k projected) rows) _ h in
    let added = backfill_row-Projects rows mid projected k b0 id0 entry (has k) first in
    let kept : Has projected mid = λ j c i found.
      backfill_row-keeps rows mid (b0, id0) (lookup k projected) c i first (has j c i found) in
    backfill-Projects projected expected mid rows' key b event_id entries kept rest (elim given [
      | inr p ↦ inr (backfill_row-keeps rows mid (b0, id0) (lookup k projected) b event_id first p)
      | inl found ↦ elim (Bool-cases (k == key)) [
        | inl e ↦
            let value : (b0, id0) ≡ (b, event_id) = cc (rw e at found) in
            inr (subst (λ (v : Registered). Projects mid v.0 v.1) value added)
        | inr e ↦ inl (rw e at found)
      ]
    ])
