-- ===== src/Events/Log/Registrations.antt =====
-- events.py: the paths on which the registration of a contract revision returns.
use auto_lean.Base.{
  ℕ, ◌≡◌, refl, sym, ◌∙◌, ap, ◌⊎◌, inl, inr, Option, none, some, List, [], ◌∷◌, String, Table,
  Result, ok, arith, >>=-eq-ok, >>-eq-ok, guard_then-eq-ok, value_error, string_Eq, pair_Eq,
  Bool-cases, ◌==◌, beq→eq,
}
use auto_lean.Base.Int.{ℤ, int_Eq}
use auto_lean.Json.{Codec}
use auto_lean.Leases.{utc_now}
use auto_lean.Events.{
  NewEvent, StoredEvent, Idempotency, AttestationNonce, ContractRevisionBinding, binding_Eq,
  BindingRow, Db, Env,
}
use auto_lean.Events.Read.{existing_idempotency, events_by_ids}
use auto_lean.Events.Append.{
  validate_append_request, append_new, is_registration, record_idempotency,
  consume_attestation_nonce,
}
use auto_lean.Events.Registration.{
  registration_request, replay_registration, link_registration, refuse_registration,
  redeliver_registration, register_new, register_locked, append_contract_revision_registration,
  assert_registration_events_match, registration_binding_from_projection_row, select_binding_row,
  insert_contract_revision_binding, on_integrity_error, first_id,
}
use auto_lean.Events.Log.Outcomes.{Replayed}

module _ (c : Codec) where
  -- A binding that is projected already: only an idempotency record is written.
  pub record Linked (b : ContractRevisionBinding) (idempotency : Idempotency) (db : Db c.Doc)
      (events : List StoredEvent) (db' : Db c.Doc) : Type 0 where
    pub key : String × ℤ
    pub row : BindingRow
    pub at : ℕ
    pub selected : select_binding_row b db.contract_revision_bindings ≡ some (key, row)
    pub projects : registration_binding_from_projection_row key row ≡ ok b
    pub found : events_by_ids c db.events (row.registration_event_id ∷ []) ≡ ok events
    pub matches : assert_registration_events_match db.contract_revision_bindings b events ≡ ok tt
    pub records : record_idempotency c idempotency (row.registration_event_id ∷ []) at db ≡ ok db'

  -- A first registration: the event, and then the row of the projection.
  pub record Registered (env : Env) (b : ContractRevisionBinding) (event : NewEvent)
      (idempotency : Idempotency) (attestation : AttestationNonce) (db : Db c.Doc)
      (events : List StoredEvent) (db' : Db c.Doc) : Type 0 where
    pub mid : Db c.Doc
    pub rows : Table (String × ℤ) BindingRow
    pub selected : select_binding_row b db.contract_revision_bindings ≡ none
    pub made :
        append_new c env (registration_request c b event) (some idempotency) (some attestation) db
        ≡ ok (events, mid)
    pub inserted :
        insert_contract_revision_binding b (first_id events) mid.contract_revision_bindings
        ≡ ok rows
    pub tables : db' ≡ record mid { contract_revision_bindings = rows }

  on_integrity_error-eq-ok {ℓ} :
      {A : Type ℓ} (r : Result A) {a : A} → on_integrity_error r ≡ ok a → r ≡ ok a
  on_integrity_error-eq-ok r h = ground arith

  register_new-eq-ok :
      (env : Env) (b : ContractRevisionBinding) (event : NewEvent) (idempotency : Idempotency)
      (attestation : AttestationNonce) (db : Db c.Doc) (events : List StoredEvent) (db' : Db c.Doc)
      → select_binding_row b db.contract_revision_bindings ≡ none
      → register_new c env b event idempotency attestation db ≡ ok (events, db')
      → Registered env b event idempotency attestation db events db'
  unfolding register_new
  register_new-eq-ok env b event idempotency attestation db events db' selected h =
      let (written, made, h1) =
        >>=-eq-ok
          (append_new c env (registration_request c b event) (some idempotency) (some attestation)
            db)
          _ h in
      let (rows, inserted, same) =
        >>=-eq-ok
          (on_integrity_error (
            insert_contract_revision_binding b (first_id written.0)
              written.1.contract_revision_bindings))
          _ h1 in
      let same_events : written.0 ≡ events = ground (arith, same) in
      record {
        mid = written.1;
        rows = rows;
        selected = selected;
        made = made ∙ ap (λ (es : List StoredEvent). ok (es, written.1)) same_events;
        inserted =
            ap
              (λ (es : List StoredEvent).
                insert_contract_revision_binding b (first_id es)
                  written.1.contract_revision_bindings)
              (sym same_events)
            ∙ on_integrity_error-eq-ok _ inserted;
        tables = ground (arith, same);
      }

  link_registration-eq-ok :
      (env : Env) (b : ContractRevisionBinding) (idempotency : Idempotency) (key : String × ℤ)
      (row : BindingRow) (db : Db c.Doc) (events : List StoredEvent) (db' : Db c.Doc)
      → select_binding_row b db.contract_revision_bindings ≡ some (key, row)
      → registration_binding_from_projection_row key row ≡ ok b
      → link_registration c env b idempotency row db ≡ ok (events, db')
      → Linked b idempotency db events db'
  unfolding link_registration
  link_registration-eq-ok env b idempotency key row db events db' selected projects h =
      let (es, found, h1) =
        >>=-eq-ok (events_by_ids c db.events (row.registration_event_id ∷ [])) _ h in
      let (matches, h2) =
        >>-eq-ok (assert_registration_events_match db.contract_revision_bindings b es) _ h1 in
      let (at, _, h3) = >>=-eq-ok (utc_now env.append_clock) _ h2 in
      let (recorded, records, same) =
        >>=-eq-ok (record_idempotency c idempotency (row.registration_event_id ∷ []) at db) _ h3 in
      let same_events : es ≡ events = ground (arith, same) in
      let same_db : recorded ≡ db' = ground (arith, same) in
      record {
        key = key;
        row = row;
        at = at;
        selected = selected;
        projects = projects;
        found = found ∙ ap ok same_events;
        matches =
            ap (assert_registration_events_match db.contract_revision_bindings b) (sym same_events)
            ∙ matches;
        records = records ∙ ap ok same_db;
      }

  redeliver_registration-eq-ok :
      (env : Env) (b : ContractRevisionBinding) (idempotency : Idempotency)
      (attestation : AttestationNonce) (key : String × ℤ) (row : BindingRow) (db : Db c.Doc)
      (events : List StoredEvent) (db' : Db c.Doc)
      → select_binding_row b db.contract_revision_bindings ≡ some (key, row)
      → redeliver_registration c env b idempotency attestation (key, row) db ≡ ok (events, db')
      → Linked b idempotency db events db'
  unfolding redeliver_registration refuse_registration
  redeliver_registration-eq-ok env b idempotency attestation key row db events db' selected h =
      let (projected, projects, h1) =
        >>=-eq-ok (registration_binding_from_projection_row key row) _ h in
      elim (Bool-cases (projected == b)) [
        | inl same ↦
            link_registration-eq-ok env b idempotency key row db events db' selected
              (projects ∙ ap ok (beq→eq projected b same)) (rw same at h1)
        | inr other ↦
            let (consumed, _, refused) =
              >>=-eq-ok (consume_attestation_nonce c env attestation "task" b.bundle_id db) _
                (rw other at h1) in
            cc refused
      ]

  register_locked-eq-ok :
      (env : Env) (b : ContractRevisionBinding) (event : NewEvent) (idempotency : Idempotency)
      (attestation : AttestationNonce) (db : Db c.Doc) (events : List StoredEvent) (db' : Db c.Doc)
      (existing : Option (List StoredEvent)) (selected : Option ((String × ℤ) × BindingRow))
      → select_binding_row b db.contract_revision_bindings ≡ selected
      → register_locked c env b event idempotency attestation db existing selected
        ≡ ok (events, db')
      → ((existing ≡ some events)
          × (assert_registration_events_match db.contract_revision_bindings b events ≡ ok tt)
          × (db' ≡ db))
        ⊎ ((existing ≡ none)
            × (Linked b idempotency db events db'
                ⊎ Registered env b event idempotency attestation db events db'))
  unfolding register_locked replay_registration
  register_locked-eq-ok env b event idempotency attestation db events db' (some es) selected found
        h =
      let (matches, same) =
        >>-eq-ok (assert_registration_events_match db.contract_revision_bindings b es) _ h in
      inl (ground (arith, same), ground (arith, same, matches), ground (arith, same))
  register_locked-eq-ok env b event idempotency attestation db events db' none (some (key, row))
        found h =
      inr (
        refl,
        inl (
            redeliver_registration-eq-ok env b idempotency attestation key row db events db' found
              h),
      )
  register_locked-eq-ok env b event idempotency attestation db events db' none none found h =
      inr (refl, inr (register_new-eq-ok env b event idempotency attestation db events db' found h))

  -- The three ways in which a registration returns.
  pub registration-eq-ok :
      (env : Env) (b : ContractRevisionBinding) (event : NewEvent) (idempotency : Idempotency)
      (attestation : AttestationNonce) (db : Db c.Doc) (events : List StoredEvent) (db' : Db c.Doc)
      → append_contract_revision_registration c env b event idempotency attestation db
        ≡ ok (events, db')
      → (Replayed c (some idempotency) db events db'
          × (assert_registration_events_match db.contract_revision_bindings b events ≡ ok tt))
        ⊎ ((existing_idempotency c db (some idempotency) ≡ ok none)
            × (Linked b idempotency db events db'
                ⊎ Registered env b event idempotency attestation db events db'))
  unfolding append_contract_revision_registration
  registration-eq-ok env b event idempotency attestation db events db' h =
      let (_, h1) = guard_then-eq-ok (is_registration event) value_error _ h in
      let (_, h2) = >>-eq-ok (validate_append_request (registration_request c b event)) _ h1 in
      let (existing, found, h3) = >>=-eq-ok (existing_idempotency c db (some idempotency)) _ h2 in
      elim (register_locked-eq-ok env b event idempotency attestation db events db' existing _ refl
        h3) [
          | inl (e, matches, same) ↦ inl ((found ∙ ap ok e, same), matches)
          | inr (e, how) ↦ inr (found ∙ ap ok e, how)
        ]
