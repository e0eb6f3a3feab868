-- ===== src/Events/Log/Bindings.antt =====
-- events.py: one binding for a contract revision and for a bundle.
use auto_lean.Base.{
  ◌≡◌, sym, ◌∙◌, ap, subst, ◌⊎◌, inl, inr, List, [], String, lookup, ok, string_Eq, pair_Eq,
}
use auto_lean.Base.Int.{int_Eq}
use auto_lean.Json.{Codec}
use auto_lean.Events.{
  NewEvent, StoredEvent, Idempotency, AttestationNonce, ContractRevisionBinding, binding_Eq, Db,
  Env,
}
use auto_lean.Events.Registration.{
  binding_key, first_id, insert_contract_revision_binding, append_contract_revision_registration,
}
use auto_lean.Events.Log.Registrations.{registration-eq-ok}
use auto_lean.Events.Log.History.{
  Reach, Step, Outcome, Step-Outcome, Linked-record, Registered-Effect, empty_db,
}
use auto_lean.Events.Log.Projection.{
  IsAdmitted, Projects, matches-Projects, insert_binding-eq-ok, inserted-Projects, IsInjective,
  inserted-IsInjective, Projects-cons, Projects-unique,
}

module _ (c : Codec) where
  -- A transaction leaves the projection or adds the row of a new binding.
  Outcome-bindings :
      {db db' : Db c.Doc}
      → Outcome c db db'
      → (db'.contract_revision_bindings ≡ db.contract_revision_bindings)
        ⊎ ((b : ContractRevisionBinding) × (event_id : String) × (insert_contract_revision_binding b
                event_id db.contract_revision_bindings
              ≡ ok db'.contract_revision_bindings))
  Outcome-bindings (Outcome.unchanged same) =
      inl (ap (λ (d : Db c.Doc). d.contract_revision_bindings) same)
  Outcome-bindings (Outcome.made env r idempotency attestation events e) = inl e.bindings
  Outcome-bindings {db} {db'} (Outcome.linked b idempotency events link) = inl (
      ap (λ (d : Db c.Doc). d.contract_revision_bindings)
        (Linked-record c b idempotency db events db' link).1)
  Outcome-bindings {db} {db'} (Outcome.registered env b event idempotency attestation events done) =
      let e = Registered-Effect c env b event idempotency attestation db events db' done in
      inr (
        b,
        first_id events,
        ap (insert_contract_revision_binding b (first_id events)) (sym e.bindings)
            ∙ done.inserted
            ∙ ap (λ (d : Db c.Doc). ok d.contract_revision_bindings) (sym done.tables),
      )
  Outcome-bindings (Outcome.leased after step same) =
      inl (ap (λ (d : Db c.Doc). d.contract_revision_bindings) same)

  Outcome-Projects :
      {db db' : Db c.Doc} (b : ContractRevisionBinding) (event_id : String)
      → Outcome c db db'
      → Projects db.contract_revision_bindings b event_id
      → Projects db'.contract_revision_bindings b event_id
  Outcome-Projects {db} {db'} b event_id outcome p = elim (Outcome-bindings outcome) [
    | inl same ↦ subst (λ rows. Projects rows b event_id) (sym same) p
    | inr (new, new_id, inserted) ↦
        let (_, fresh, same) =
          insert_binding-eq-ok new new_id db.contract_revision_bindings
            db'.contract_revision_bindings inserted in
        subst (λ rows. Projects rows b event_id) (sym same)
          (Projects-cons new b new_id event_id db.contract_revision_bindings fresh p)
  ]

  Reach-Projects :
      {db later : Db c.Doc} (b : ContractRevisionBinding) (event_id : String)
      → Reach c db later
      → Projects db.contract_revision_bindings b event_id
      → Projects later.contract_revision_bindings b event_id
  Reach-Projects b event_id Reach.here p = p
  Reach-Projects b event_id (Reach.next r s) p =
      Outcome-Projects b event_id (Step-Outcome c s) (Reach-Projects b event_id r p)

  Outcome-IsInjective :
      {db db' : Db c.Doc}
      → Outcome c db db'
      → IsInjective db.contract_revision_bindings
      → IsInjective db'.contract_revision_bindings
  Outcome-IsInjective {db} {db'} outcome v = elim (Outcome-bindings outcome) [
    | inl same ↦ subst IsInjective (sym same) v
    | inr (new, new_id, inserted) ↦
        inserted-IsInjective new new_id db.contract_revision_bindings db'.contract_revision_bindings
          inserted v
  ]

  Reach-IsInjective :
      {db later : Db c.Doc}
      → Reach c db later
      → IsInjective db.contract_revision_bindings
      → IsInjective later.contract_revision_bindings
  Reach-IsInjective Reach.here v = v
  Reach-IsInjective (Reach.next r s) v =
      Outcome-IsInjective (Step-Outcome c s) (Reach-IsInjective r v)

  empty-IsInjective : IsInjective []
  unfolding lookup
  empty-IsInjective = record { injective = λ k k' row row' found found' e. cc }

  -- After a registration returned, the projection has its binding, with the event that it returned.
  registration-Projects :
      (env : Env) (b : ContractRevisionBinding) (event : NewEvent) (idempotency : Idempotency)
      (attestation : AttestationNonce) (db : Db c.Doc) (events : List StoredEvent) (db' : Db c.Doc)
      → IsAdmitted b
      → append_contract_revision_registration c env b event idempotency attestation db
        ≡ ok (events, db')
      → Projects db'.contract_revision_bindings b (first_id events)
  registration-Projects env b event idempotency attestation db events db' admitted h =
      elim (registration-eq-ok c env b event idempotency attestation db events db' h) [
        | inl (replayed, matches) ↦
            subst (λ (d : Db c.Doc). Projects d.contract_revision_bindings b (first_id events))
              (sym replayed.1) (matches-Projects db.contract_revision_bindings b events matches)
        | inr (fresh, inl link) ↦
            subst (λ (d : Db c.Doc). Projects d.contract_revision_bindings b (first_id events))
              (sym (Linked-record c b idempotency db events db' link).1)
              (matches-Projects db.contract_revision_bindings b events link.matches)
        | inr (fresh, inr done) ↦
            subst (λ (d : Db c.Doc). Projects d.contract_revision_bindings b (first_id events))
              (sym done.tables)
              (inserted-Projects b (first_id events) done.mid.contract_revision_bindings done.rows
                admitted done.inserted)
      ]

  -- In a history from the empty database, two registrations that return, at any times and under
  -- any idempotency keys and nonces, and that share the contract revision or the bundle, are of
  -- the same binding, and the events that they return have the same identifier.
  pub registration_is_unique :
      {db db1 db2 db3 : Db c.Doc} (env env' : Env) (b b' : ContractRevisionBinding)
      (event event' : NewEvent) (idempotency idempotency' : Idempotency)
      (attestation attestation' : AttestationNonce) (events events' : List StoredEvent)
      → IsAdmitted b
      → IsAdmitted b'
      → Reach c empty_db db
      → append_contract_revision_registration c env b event idempotency attestation db
        ≡ ok (events, db1)
      → Reach c db1 db2
      → append_contract_revision_registration c env' b' event' idempotency' attestation' db2
        ≡ ok (events', db3)
      → (binding_key b ≡ binding_key b') ⊎ (b.bundle_id ≡ b'.bundle_id)
      → (b ≡ b') × (first_id events ≡ first_id events')
  registration_is_unique {db} {db1} {db2} {db3} env env' b b' event event' idempotency idempotency'
        attestation attestation' events events' admitted admitted' start h between h' shared =
      let first = Step.registers env b event idempotency attestation events h in
      let second = Step.registers env' b' event' idempotency' attestation' events' h' in
      let p1 = registration-Projects env b event idempotency attestation db events db1 admitted h in
      let p3 =
        Outcome-Projects b (first_id events) (Step-Outcome c second)
          (Reach-Projects b (first_id events) between p1) in
      let q3 =
        registration-Projects env' b' event' idempotency' attestation' db2 events' db3 admitted'
          h' in
      let v1 =
        Outcome-IsInjective (Step-Outcome c first) (Reach-IsInjective start empty-IsInjective) in
      let v3 = Outcome-IsInjective (Step-Outcome c second) (Reach-IsInjective between v1) in
      Projects-unique db3.contract_revision_bindings b b' (first_id events) (first_id events') v3 p3
        q3 shared
