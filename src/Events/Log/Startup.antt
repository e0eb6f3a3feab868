-- ===== src/Events/Log/Startup.antt =====
-- events.py: the start-up of the store projects every registration event of the log.
use mathlib.Core.List.{Memᴰ}
use auto_lean.Base.{
  ◌≡◌, refl, sym, ◌∙◌, ap, subst, inl, inr, Bool, true, Option, none, some, List, [], ◌∷◌, ◌++◌,
  String, Table, lookup, ok, guard_then-eq-ok, >>=-eq-ok, projection_error, arith, ◌==◌, string_Eq,
  pair_Eq, beq_refl, Bool-cases, ℕ, leb,
}
use auto_lean.Base.Int.{ℤ, int_Eq}
use auto_lean.Base.Lists.{All}
use auto_lean.Json.{Codec, Fields, get, load_canonical_json_object}
use auto_lean.Events.{ContractRevisionBinding, binding_Eq, EventRow, Db}
use auto_lean.Events.Read.{select, order_row, order_by}
use auto_lean.Events.Registration.{
  binding_key, required_text, int_or_raise, registration_binding_from_payload,
}
use auto_lean.Events.Startup.{
  Registered, is_absent, project_rows, all_expected, backfill, registration_binding_from_event_row,
  is_registration_row, collect_expected, initialize_contract_revision_bindings,
}
use auto_lean.Events.Log.Projection.{IsAdmitted, Projects}
use auto_lean.Events.Log.Agreement.{
  Entries, IsEntry, Has, make_binding-IsAdmitted, project_rows-Projects, backfill-Projects,
}

module _ {V : Type 0} where
  lookup-append_old :
      (k : String × ℤ) (xs ys : Table (String × ℤ) V) (v : V)
      → lookup k xs ≡ some v
      → lookup k (xs ++ ys) ≡ some v
  unfolding lookup
  lookup-append_old k [] ys v h = cc
  lookup-append_old k ((j, w) ∷ xs) ys v h = elim (Bool-cases (j == k)) [
    | inl e ↦ rw e (rw e at h)
    | inr e ↦ rw e (lookup-append_old k xs ys v (rw e at h))
  ]

  lookup-append_new :
      (k : String × ℤ) (xs : Table (String × ℤ) V) (v : V)
      → lookup k xs ≡ none
      → lookup k (xs ++ (k, v) ∷ []) ≡ some v
  unfolding lookup
  lookup-append_new k [] v h = rw (beq_refl k)
  lookup-append_new k ((j, w) ∷ xs) v h = elim (Bool-cases (j == k)) [
    | inl e ↦ cc (rw e at h)
    | inr e ↦ rw e (lookup-append_new k xs v (rw e at h))
  ]

All-append :
    (P : (String × ℤ) × Registered → Type 0) (xs : Entries) (x : (String × ℤ) × Registered)
    → All P xs
    → P x
    → All P (xs ++ x ∷ [])
All-append P [] x all p = (p, tt)
All-append P (y ∷ xs) x (q, all) p = (q, All-append P xs x all p)

payload-IsAdmitted :
    (payload : Fields) (b : ContractRevisionBinding)
    → registration_binding_from_payload payload ≡ ok b
    → IsAdmitted b
unfolding registration_binding_from_payload
payload-IsAdmitted payload b h =
    let (revision, _, h1) = >>=-eq-ok (int_or_raise (get "revision" payload)) _ h in
    let (contract_id, _, h2) = >>=-eq-ok (required_text "contract_id" payload) _ h1 in
    let (bundle_id, _, h3) = >>=-eq-ok (required_text "bundle_id" payload) _ h2 in
    let (bundle_hash, _, h4) = >>=-eq-ok (required_text "bundle_hash" payload) _ h3 in
    let (contract_hash, _, h5) = >>=-eq-ok (required_text "contract_hash" payload) _ h4 in
    (make_binding-IsAdmitted contract_id revision bundle_id bundle_hash contract_hash b h5).1

module _ (c : Codec) where
  event_row-IsAdmitted :
      (row : EventRow c.Doc) (b : ContractRevisionBinding)
      → registration_binding_from_event_row c row ≡ ok b
      → IsAdmitted b
  unfolding registration_binding_from_event_row
  event_row-IsAdmitted row b h =
      let (payload, _, h1) = >>=-eq-ok (load_canonical_json_object c row.payload_json) _ h in
      let (bound, read, h2) = >>=-eq-ok (registration_binding_from_payload payload) _ h1 in
      let (_, same) =
        guard_then-eq-ok (row.entity_id == bound.bundle_id) projection_error (ok bound) h2 in
      subst IsAdmitted (ground (arith, same)) (payload-IsAdmitted payload bound read)

  -- What the loop over the registration events has collected.
  collect-Entries :
      (rows : List (EventRow c.Doc)) (expected final : Entries)
      (bundles : Table String (String × ℤ))
      → collect_expected c rows expected bundles ≡ ok final
      → All IsEntry expected
      → All IsEntry final
        × ((k : String × ℤ) (v : Registered) → lookup k expected ≡ some v → lookup k final ≡ some v)
        × ((row : EventRow c.Doc)
            → Memᴰ row rows
            → (b : ContractRevisionBinding) × (registration_binding_from_event_row c row ≡ ok b)
              × (lookup (binding_key b) final ≡ some (b, row.event_id)))
  unfolding collect_expected
  collect-Entries [] expected final bundles h entries =
      let same : expected ≡ final = ground arith in
      (
        subst (All IsEntry) same entries,
        λ k v found. ap (lookup k) (sym same) ∙ found,
        λ row m. elim m [ ],
      )
  collect-Entries (row ∷ rows) expected final bundles h entries =
      let (b, read, h1) = >>=-eq-ok (registration_binding_from_event_row c row) _ h in
      let (absent, h2) =
        guard_then-eq-ok (is_absent (lookup (binding_key b) expected)) projection_error _ h1 in
      let (_, h3) =
        guard_then-eq-ok (is_absent (lookup b.bundle_id bundles)) projection_error _ h2 in
      let fresh : lookup (binding_key b) expected ≡ none = absent-none _ absent in
      let (all, keeps, finds) =
        collect-Entries rows (expected ++ (binding_key b, (b, row.event_id)) ∷ []) final _ h3 (
          All-append IsEntry expected (binding_key b, (b, row.event_id)) entries
            (refl, event_row-IsAdmitted row b read)) in
      (
        all,
        λ k v found. keeps k v (lookup-append_old k expected _ v found),
        λ other m. elim m [
          | Memᴰ.head same ↦ (
            b,
            ap (registration_binding_from_event_row c) same ∙ read,
            keeps (binding_key b) (b, row.event_id)
                  (lookup-append_new (binding_key b) expected (b, row.event_id) fresh)
                ∙ ap (λ (r : EventRow c.Doc). some (b, r.event_id)) (sym same),
          )
          | Memᴰ.tail m ↦ finds other m
        ],
      )
    where
      absent-none : (o : Option Registered) → is_absent o ≡ true → o ≡ none
      absent-none none h = refl
      absent-none (some v) h = cc

  Mem-select :
      (test : EventRow c.Doc → Bool) (rows : List (EventRow c.Doc)) (row : EventRow c.Doc)
      → Memᴰ row rows
      → test row ≡ true
      → Memᴰ row (select c test rows)
  unfolding select
  Mem-select test (r ∷ rows) row (Memᴰ.head same) h =
      let kept : test r ≡ true = ap test (sym same) ∙ h in rw kept (Memᴰ.head same)
  Mem-select test (r ∷ rows) row (Memᴰ.tail m) h = elim (Bool-cases (test r)) [
    | inl e ↦ rw e (Memᴰ.tail (Mem-select test rows row m h))
    | inr e ↦ rw e (Mem-select test rows row m h)
  ]
  Mem-select test [] row m h = elim m [ ]

  Mem-order_row :
      (key : EventRow c.Doc → ℕ) (r : EventRow c.Doc) (rows : List (EventRow c.Doc))
      (row : EventRow c.Doc)
      → Memᴰ row (r ∷ rows)
      → Memᴰ row (order_row c key r rows)
  unfolding order_row
  Mem-order_row key r [] row m = m
  Mem-order_row key r (s ∷ rows) row m = elim (Bool-cases (leb (key r) (key s))) [
    | inl e ↦ rw e m
    | inr e ↦ elim m [
      | Memᴰ.head same ↦ rw e (Memᴰ.tail (Mem-order_row key r rows row (Memᴰ.head same)))
      | Memᴰ.tail (Memᴰ.head same) ↦ rw e (Memᴰ.head same)
      | Memᴰ.tail (Memᴰ.tail m) ↦ rw e (Memᴰ.tail (Mem-order_row key r rows row (Memᴰ.tail m)))
    ]
  ]

  Mem-order_by :
      (key : EventRow c.Doc → ℕ) (rows : List (EventRow c.Doc)) (row : EventRow c.Doc)
      → Memᴰ row rows
      → Memᴰ row (order_by c key rows)
  unfolding order_by
  Mem-order_by key (r ∷ rows) row (Memᴰ.head same) =
      Mem-order_row key r (order_by c key rows) row (Memᴰ.head same)
  Mem-order_by key (r ∷ rows) row (Memᴰ.tail m) =
      Mem-order_row key r (order_by c key rows) row (Memᴰ.tail (Mem-order_by key rows row m))
  Mem-order_by key [] row m = elim m [ ]

  -- When the start-up of a store returns, the events are unchanged, every registration event of the
  -- log has a binding in its payload, and the projection holds that binding under that event.
  pub startup_covers_the_log :
      (db db' : Db c.Doc) (row : EventRow c.Doc)
      → initialize_contract_revision_bindings c db ≡ ok db'
      → Memᴰ row db.events
      → is_registration_row c row ≡ true
      → (db'.events ≡ db.events)
        × (b : ContractRevisionBinding) × (registration_binding_from_event_row c row ≡ ok b)
        × Projects db'.contract_revision_bindings b row.event_id
  unfolding initialize_contract_revision_bindings
  startup_covers_the_log db db' row h member registers =
      let ordered =
        order_by c (λ r. r.global_position) (select c (is_registration_row c) db.events) in
      let (expected, collected, h1) = >>=-eq-ok (collect_expected c ordered [] []) _ h in
      let (projected, read, h2) = >>=-eq-ok (project_rows db.contract_revision_bindings) _ h1 in
      let (_, h3) = guard_then-eq-ok (all_expected expected projected) projection_error _ h2 in
      let (rows, filled, same) =
        >>=-eq-ok (backfill projected expected db.contract_revision_bindings) _ h3 in
      let (all, _, finds) = collect-Entries ordered [] expected [] collected tt in
      let (b, bound, found) = finds row (
        Mem-order_by (λ r. r.global_position) (select c (is_registration_row c) db.events) row
          (Mem-select (is_registration_row c) db.events row member registers)) in
      let has : Has projected db.contract_revision_bindings =
        λ k a i e. (project_rows-Projects db.contract_revision_bindings projected k a i read e).1 in
      let there =
        backfill-Projects projected expected db.contract_revision_bindings rows (binding_key b) b
          row.event_id all has filled (inl found) in
      let after : db' ≡ record db { contract_revision_bindings = rows } = ground (arith, same) in
      (
        ap (λ (d : Db c.Doc). d.events) after,
        b,
        bound,
        subst (λ (d : Db c.Doc). Projects d.contract_revision_bindings b row.event_id) (sym after)
            there,
      )
