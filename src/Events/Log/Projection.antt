-- ===== src/Events/Log/Projection.antt =====
-- events.py: the rows of the contract-revision projection, and the one that an insertion adds.
use auto_lean.Base.{
  ◌≡◌, ◌≢◌, refl, sym, ◌∙◌, ap, subst, ◌⊎◌, inl, inr, false, ◌&&◌, Option, none, some, List, [],
  ◌∷◌, String, Table, lookup, insert-eq-ok, lookup-cons_self, lookup-cons_fresh, ok,
  guard_then-eq-ok, guard-eq-ok, >>=-eq-ok, projection_error, arith, ◌==◌, string_Eq, pair_Eq,
  beq→eq, eq_iff, Bool-cases,
}
use auto_lean.Base.Int.{ℤ, int_Eq, int_eq_iff}
use auto_lean.Base.Lists.{any}
use auto_lean.Events.{StoredEvent, ContractRevisionBinding, binding_Eq, make_binding, BindingRow}
use auto_lean.Events.Registration.{
  binding_key, binding_collides, first_id, on_value_error, registration_binding_from_projection_row,
  registration_binding_from_payload, insert_contract_revision_binding, assert_projected,
  assert_registration_events_match,
}

-- What the constructor of a binding admits.
abbrev pub IsAdmitted : ContractRevisionBinding → Type 0
IsAdmitted b =
    make_binding b.contract_id b.revision b.bundle_id b.bundle_hash b.contract_hash ≡ ok b

abbrev pub Rows : Type 0
Rows = Table (String × ℤ) BindingRow

-- The projection has the binding, registered by the event of an identifier.
pub record Projects (rows : Rows) (b : ContractRevisionBinding) (event_id : String) : Type 0 where
  pub row : BindingRow
  pub found : lookup (binding_key b) rows ≡ some row
  pub projects : registration_binding_from_projection_row (binding_key b) row ≡ ok b
  pub by_event : row.registration_event_id ≡ event_id

assert_projected-Projects :
    (b : ContractRevisionBinding) (event_id : String) (rows : Rows) (o : Option BindingRow)
    → lookup (binding_key b) rows ≡ o
    → assert_projected b event_id o ≡ ok tt
    → Projects rows b event_id
unfolding assert_projected
assert_projected-Projects b event_id rows none found h = cc
assert_projected-Projects b event_id rows (some row) found h =
    let (projected, projects, h1) =
      >>=-eq-ok (registration_binding_from_projection_row (binding_key b) row) _ h in
    let both =
      guard-eq-ok (projected == b && row.registration_event_id == event_id) projection_error h1 in
    let same : projected ≡ b = beq→eq projected b (ground (arith, both)) in
    record {
      row = row;
      found = found;
      projects = projects ∙ ap ok same;
      by_event = beq→eq row.registration_event_id event_id (ground (arith, both));
    }

pub matches-Projects :
    (rows : Rows) (b : ContractRevisionBinding) (events : List StoredEvent)
    → assert_registration_events_match rows b events ≡ ok tt
    → Projects rows b (first_id events)
unfolding assert_registration_events_match
matches-Projects rows b [] h = cc
matches-Projects rows b (event ∷ []) h =
    let (_, h1) =
      guard_then-eq-ok
        (event.entity_type == "task"
          && event.entity_id == b.bundle_id
          && event.event_type == "task.registered")
        projection_error _ h in
    let (bound, _, h2) = >>=-eq-ok (registration_binding_from_payload event.payload) _ h1 in
    let (_, h3) = guard_then-eq-ok (bound == b) projection_error _ h2 in
    assert_projected-Projects b event.event_id rows _ refl h3
matches-Projects rows b (event ∷ other ∷ events) h = cc

abbrev pub row_of : ContractRevisionBinding → String → BindingRow
row_of b event_id = record {
  bundle_id = b.bundle_id;
  bundle_hash = b.bundle_hash;
  contract_hash = b.contract_hash;
  registration_event_id = event_id;
}

pub insert_binding-eq-ok :
    (b : ContractRevisionBinding) (event_id : String) (rows rows' : Rows)
    → insert_contract_revision_binding b event_id rows ≡ ok rows'
    → (any (binding_collides (row_of b event_id)) rows ≡ false)
      × (lookup (binding_key b) rows ≡ none)
      × (rows' ≡ (binding_key b, row_of b event_id) ∷ rows)
unfolding insert_contract_revision_binding
insert_binding-eq-ok b event_id rows rows' h =
    elim (Bool-cases (any (binding_collides (row_of b event_id)) rows)) [
      | inl e ↦ cc (rw e at h)
      | inr e ↦
          let facts = insert-eq-ok (binding_key b) (row_of b event_id) rows (rw e at h) in
          (e, facts.0, facts.1)
    ]

pub inserted-Projects :
    (b : ContractRevisionBinding) (event_id : String) (rows rows' : Rows)
    → IsAdmitted b
    → insert_contract_revision_binding b event_id rows ≡ ok rows'
    → Projects rows' b event_id
unfolding lookup registration_binding_from_projection_row
inserted-Projects b event_id rows rows' admitted h =
    let (_, _, same) = insert_binding-eq-ok b event_id rows rows' h in
    record {
      row = row_of b event_id;
      found =
          ap (lookup (binding_key b)) same
          ∙ lookup-cons_self (binding_key b) (row_of b event_id) rows;
      projects = ap on_value_error admitted;
      by_event = refl;
    }

-- No two contract revisions share a bundle.
pub record IsInjective (rows : Rows) : Type 0 where
  pub injective :
      (k k' : String × ℤ) (row row' : BindingRow)
      → lookup k rows ≡ some row
      → lookup k' rows ≡ some row'
      → row.bundle_id ≡ row'.bundle_id
      → k ≡ k'

collides-bundle :
    (new : BindingRow) (rows : Rows) (k : String × ℤ) (row : BindingRow)
    → any (binding_collides new) rows ≡ false
    → lookup k rows ≡ some row
    → row.bundle_id ≢ new.bundle_id
unfolding any lookup
collides-bundle new [] k row h found e = cc
collides-bundle new ((j, r) ∷ rows) k row h found e =
    ground (arith, eq_iff r.bundle_id new.bundle_id, collides-bundle new rows k row)

lookup_new :
    (b : ContractRevisionBinding) (event_id : String) (rows : Rows) (k : String × ℤ)
    (row : BindingRow)
    → lookup k ((binding_key b, row_of b event_id) ∷ rows) ≡ some row
    → ((k ≡ binding_key b) × (row.bundle_id ≡ b.bundle_id)) ⊎ (lookup k rows ≡ some row)
unfolding lookup
lookup_new b event_id rows k row h =
    ground (arith, eq_iff b.contract_id k.0, int_eq_iff b.revision k.1)

pub inserted-IsInjective :
    (b : ContractRevisionBinding) (event_id : String) (rows rows' : Rows)
    → insert_contract_revision_binding b event_id rows ≡ ok rows'
    → IsInjective rows
    → IsInjective rows'
inserted-IsInjective b event_id rows rows' h v =
    let (free, fresh, same) = insert_binding-eq-ok b event_id rows rows' h in
    subst IsInjective (sym same) (record {
      injective = λ k k' row row' found found' e. elim (lookup_new b event_id rows k row found) [
        | inl (new, named) ↦ elim (lookup_new b event_id rows k' row' found') [
          | inl (new', named') ↦ new ∙ sym new'
          | inr old' ↦
              absurd (collides-bundle (row_of b event_id) rows k' row' free old' (sym e ∙ named))
        ]
        | inr old ↦ elim (lookup_new b event_id rows k' row' found') [
          | inl (new', named') ↦
              absurd (collides-bundle (row_of b event_id) rows k row free old (e ∙ named'))
          | inr old' ↦ v.injective k k' row row' old old' e
        ]
      ];
    })

pub Projects-cons :
    (new b : ContractRevisionBinding) (new_id event_id : String) (rows : Rows)
    → lookup (binding_key new) rows ≡ none
    → Projects rows b event_id
    → Projects ((binding_key new, row_of new new_id) ∷ rows) b event_id
Projects-cons new b new_id event_id rows fresh p = record {
  row = p.row;
  found =
      lookup-cons_fresh (binding_key new) (binding_key b) (row_of new new_id) p.row rows fresh
        p.found;
  projects = p.projects;
  by_event = p.by_event;
}

Projects-same_key :
    (rows : Rows) (a b : ContractRevisionBinding) (x y : String)
    → Projects rows a x
    → Projects rows b y
    → binding_key a ≡ binding_key b
    → (a ≡ b) × (x ≡ y)
Projects-same_key rows a b x y p q e =
    let row_eq : p.row ≡ q.row =
      ground (arith, sym p.found ∙ ap (λ k. lookup k rows) e ∙ q.found) in
    (
      ground (
        arith,
        sym p.projects
            ∙ ap (λ k. registration_binding_from_projection_row k p.row) e
            ∙ ap (registration_binding_from_projection_row (binding_key b)) row_eq
            ∙ q.projects,
      ),
      sym p.by_event ∙ ap (λ (r : BindingRow). r.registration_event_id) row_eq ∙ q.by_event,
    )

make_binding-bundle :
    (contract_id : String) (revision : ℤ) (bundle_id bundle_hash contract_hash : String)
    (b : ContractRevisionBinding)
    → on_value_error (make_binding contract_id revision bundle_id bundle_hash contract_hash) ≡ ok b
    → bundle_id ≡ b.bundle_id
unfolding make_binding
make_binding-bundle contract_id revision bundle_id bundle_hash contract_hash b h = ground arith

projection-bundle :
    (key : String × ℤ) (row : BindingRow) (b : ContractRevisionBinding)
    → registration_binding_from_projection_row key row ≡ ok b
    → row.bundle_id ≡ b.bundle_id
unfolding registration_binding_from_projection_row
projection-bundle key row b h =
    make_binding-bundle key.0 key.1 row.bundle_id row.bundle_hash row.contract_hash b h

-- Two bindings of one projection that share the contract revision or the bundle are the same.
pub Projects-unique :
    (rows : Rows) (a b : ContractRevisionBinding) (x y : String)
    → IsInjective rows
    → Projects rows a x
    → Projects rows b y
    → (binding_key a ≡ binding_key b) ⊎ (a.bundle_id ≡ b.bundle_id)
    → (a ≡ b) × (x ≡ y)
Projects-unique rows a b x y v p q (inl same) = Projects-same_key rows a b x y p q same
Projects-unique rows a b x y v p q (inr bundle) =
    let same_bundle : p.row.bundle_id ≡ q.row.bundle_id =
      projection-bundle (binding_key a) p.row a p.projects
      ∙ bundle
      ∙ sym (projection-bundle (binding_key b) q.row b q.projects) in
    Projects-same_key rows a b x y p q
      (v.injective (binding_key a) (binding_key b) p.row q.row p.found q.found same_bundle)
