-- ===== src/Service/Stored.antt =====
-- service.py: an event that a command reads back from a stream stands in the log.
use auto_lean.Base.{
  ◌<◌, lookup, guard_then-eq-ok, invalid_transition, ℕ, ◌≡◌, ◌⊎◌, inl, inr, refl, sym, ap, ◌∙◌,
  Bool, Bool-cases, true, ◌&&◌, some, List, [], ◌∷◌, String, ok, arith, ◌==◌, string_Eq, eq_iff,
  >>=-eq-ok, or_raise, or_raise-eq-ok, task_not_found, leb, ltb,
}
use mathlib.Core.List.{Memᴰ}
use auto_lean.Json.{Codec, load_canonical_json_object}
use auto_lean.Leases.{Reading, aware, Lease, LeaseRow, LeaseDb}
use auto_lean.Leases.Inversion.{assert_current-eq-ok}
use auto_lean.Events.{StoredEvent, EventRow, Db}
use auto_lean.Events.Read.{
  row_to_event, rows_to_events, in_stream, select, order_row, order_by, read_stream,
}
use auto_lean.Service.Binding.{
  TaskBinding, binding_from_event, first_of_type, get_binding, assert_lease,
}
use auto_lean.Service.Verdicts.{proof_event}
use auto_lean.Service.Terms.{first_of_type-eq-some}

Memᴰ-cons {ℓ} : {A : Type ℓ} (a x : A) (xs : List A) → Memᴰ a (x ∷ xs) → (a ≡ x) ⊎ Memᴰ a xs
Memᴰ-cons a x xs (Memᴰ.head same) = inl same
Memᴰ-cons a x xs (Memᴰ.tail m) = inr m

module _ (c : Codec) where
  -- The event is what a row of the log decodes to, which is of the stream and of the type.
  pub record IsStored (entity_type entity_id event_type : String) (event : StoredEvent)
      (db : Db c.Doc) : Type 0 where
    pub row : EventRow c.Doc
    pub logged : Memᴰ row db.events
    pub of_entity_type : row.entity_type ≡ entity_type
    pub of_entity : row.entity_id ≡ entity_id
    pub of_type : row.event_type ≡ event_type
    pub decoded : row_to_event c row ≡ ok event

  select-Memᴰ :
      (test : EventRow c.Doc → Bool) (rows : List (EventRow c.Doc)) (row : EventRow c.Doc)
      → Memᴰ row (select c test rows)
      → Memᴰ row rows × (test row ≡ true)
  unfolding select
  select-Memᴰ test [] row m = elim m [ ]
  select-Memᴰ test (r ∷ rows) row m = elim (Bool-cases (test r)) [
    | inl passes ↦ elim (Memᴰ-cons row r (select c test rows) (rw passes at m)) [
      | inl same ↦ (Memᴰ.head same, ap test same ∙ passes)
      | inr m' ↦ let (there, passed) = select-Memᴰ test rows row m' in (Memᴰ.tail there, passed)
    ]
    | inr fails ↦
        let (there, passed) = select-Memᴰ test rows row (rw fails at m) in (Memᴰ.tail there, passed)
  ]

  order_row-Memᴰ :
      (key : EventRow c.Doc → ℕ) (r : EventRow c.Doc) (rows : List (EventRow c.Doc))
      (row : EventRow c.Doc)
      → Memᴰ row (order_row c key r rows)
      → Memᴰ row (r ∷ rows)
  unfolding order_row
  order_row-Memᴰ key r [] row m = m
  order_row-Memᴰ key r (s ∷ rows) row m = elim (Bool-cases (leb (key r) (key s))) [
    | inl first ↦ rw first at m
    | inr later ↦ elim (Memᴰ-cons row s (order_row c key r rows) (rw later at m)) [
      | inl same ↦ Memᴰ.tail (Memᴰ.head same)
      | inr m' ↦ elim (Memᴰ-cons row r rows (order_row-Memᴰ key r rows row m')) [
        | inl same ↦ Memᴰ.head same
        | inr there ↦ Memᴰ.tail (Memᴰ.tail there)
      ]
    ]
  ]

  order_by-Memᴰ :
      (key : EventRow c.Doc → ℕ) (rows : List (EventRow c.Doc)) (row : EventRow c.Doc)
      → Memᴰ row (order_by c key rows)
      → Memᴰ row rows
  unfolding order_by
  order_by-Memᴰ key [] row m = m
  order_by-Memᴰ key (r ∷ rows) row m =
      elim (Memᴰ-cons row r (order_by c key rows)
        (order_row-Memᴰ key r (order_by c key rows) row m)) [
          | inl same ↦ Memᴰ.head same
          | inr m' ↦ Memᴰ.tail (order_by-Memᴰ key rows row m')
        ]

  rows_to_events-Memᴰ :
      (rows : List (EventRow c.Doc)) (events : List StoredEvent) (event : StoredEvent)
      → rows_to_events c rows ≡ ok events
      → Memᴰ event events
      → (row : EventRow c.Doc) × Memᴰ row rows × (row_to_event c row ≡ ok event)
  unfolding rows_to_events
  rows_to_events-Memᴰ [] events event h m =
      let none_read : [] ≡ events = ground (arith, h) in elim (rw (sym none_read) at m) [ ]
  rows_to_events-Memᴰ (row ∷ rows) events event h m =
      let (first, decoded, h1) = >>=-eq-ok (row_to_event c row) _ h in
      let (others, rest, h2) = >>=-eq-ok (rows_to_events c rows) _ h1 in
      let is : first ∷ others ≡ events = ground (arith, h2) in
      elim (Memᴰ-cons event first others (rw (sym is) at m)) [
        | inl same ↦ (row, Memᴰ.head refl, decoded ∙ ap ok (sym same))
        | inr m' ↦
            let (found, there, read) = rows_to_events-Memᴰ rows others event rest m' in
            (found, Memᴰ.tail there, read)
      ]

  row_to_event-event_type :
      (row : EventRow c.Doc) (event : StoredEvent)
      → row_to_event c row ≡ ok event
      → row.event_type ≡ event.event_type
  unfolding row_to_event
  row_to_event-event_type row event h =
      let (payload, _, h1) = >>=-eq-ok (load_canonical_json_object c row.payload_json) _ h in
      let (metadata, _, h2) = >>=-eq-ok (load_canonical_json_object c row.metadata_json) _ h1 in
      ground (arith, h2)

  read_stream-IsStored :
      (entity_type entity_id event_type : String) (db : Db c.Doc) (events : List StoredEvent)
      (event : StoredEvent)
      → read_stream c entity_type entity_id 0 db ≡ ok events
      → first_of_type event_type events ≡ some event
      → IsStored entity_type entity_id event_type event db
  unfolding read_stream
  read_stream-IsStored entity_type entity_id event_type db events event read first =
      let test : EventRow c.Doc → Bool =
        λ row. in_stream c entity_type entity_id row && ltb 0 row.entity_sequence in
      let (member, typed) = first_of_type-eq-some event_type events event first in
      let (row, ordered, decoded) = rows_to_events-Memᴰ _ events event read member in
      let selected = order_by-Memᴰ (λ r. r.entity_sequence) (select c test db.events) row ordered in
      let (logged, passed) = select-Memᴰ test db.events row selected in
      record {
        row = row;
        logged = logged;
        of_entity_type = ground (arith, passed, eq_iff row.entity_type entity_type);
        of_entity = ground (arith, passed, eq_iff row.entity_id entity_id);
        of_type = row_to_event-event_type row event decoded ∙ typed;
        decoded = decoded;
      }

  pub proof_event-IsStored :
      (proof_id : String) (db : Db c.Doc) (submitted : StoredEvent)
      → proof_event c proof_id db ≡ ok submitted
      → IsStored "proof" proof_id "proof.submitted" submitted db
  unfolding proof_event
  proof_event-IsStored proof_id db submitted h =
      let (events, read, found) = >>=-eq-ok (read_stream c "proof" proof_id 0 db) _ h in
      read_stream-IsStored "proof" proof_id "proof.submitted" db events submitted read
        (or_raise-eq-ok _ task_not_found found)

  pub get_binding-IsStored :
      (bundle_id : String) (db : Db c.Doc) (binding : TaskBinding)
      → get_binding c bundle_id db ≡ ok binding
      → (registered : StoredEvent) × IsStored "task" bundle_id "task.registered" registered db
        × (binding_from_event registered ≡ ok binding)
  unfolding get_binding
  get_binding-IsStored bundle_id db binding h =
      let (events, read, h1) = >>=-eq-ok (read_stream c "task" bundle_id 0 db) _ h in
      let (registered, found, decoded) =
        >>=-eq-ok (or_raise (first_of_type "task.registered" events) task_not_found) _ h1 in
      (
        registered,
        read_stream-IsStored "task" bundle_id "task.registered" db events registered read
            (or_raise-eq-ok _ task_not_found found),
        decoded,
      )

-- The lease is for the bundle, and at the clock its row is live with its holder and token.
pub record IsLive (clock : Reading) (bundle_id : String) (lease : Lease) (db : LeaseDb)
    : Type 0 where
  pub now : ℕ
  pub row : LeaseRow
  pub read : clock ≡ aware now
  pub job : lease.job_id ≡ bundle_id
  pub found : lookup bundle_id db.worker_leases ≡ some row
  pub holder : row.holder_id ≡ lease.holder_id
  pub token : row.fencing_token ≡ lease.fencing_token
  pub live : now < row.expires_at

pub assert_lease-IsLive :
    (c : Codec) (clock : Reading) (bundle_id : String) (lease : Lease) (db : Db c.Doc)
    → assert_lease c clock bundle_id lease db ≡ ok tt
    → IsLive clock bundle_id lease db.leases
unfolding assert_lease
assert_lease-IsLive c clock bundle_id lease db h =
    let (same, current) = guard_then-eq-ok (lease.job_id == bundle_id) invalid_transition _ h in
    let (now, row, read, found, holder, token, live) =
      assert_current-eq-ok clock lease db.leases current in
    let job : lease.job_id ≡ bundle_id = (eq_iff lease.job_id bundle_id).0 same in
    record {
      now = now;
      row = row;
      read = read;
      job = job;
      found = ap (λ j. lookup j db.leases.worker_leases) (sym job) ∙ found;
      holder = holder;
      token = token;
      live = live;
    }
