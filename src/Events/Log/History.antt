-- ===== src/Events/Log/History.antt =====
-- events.py, leases.py: any history of committed transactions on the shared database.
use mathlib.Core.List.{append_assoc, append-nil}
use auto_lean.Base.{
  ◌≡◌, refl, sym, ◌∙◌, ap, subst, inl, inr, Option, some, List, [], ◌++◌, String, lookup, ok, arith,
  string_Eq, pair_Eq,
}
use auto_lean.Json.{Codec}
use auto_lean.Leases.{Lease, LeaseDb, no_leases}
use auto_lean.Leases.Fencing
use auto_lean.Events.{
  NewEvent, StoredEvent, Idempotency, AttestationNonce, ContractRevisionBinding, EventRow,
  IdempotencyRow, Db, Env, Request,
}
use auto_lean.Events.Read.{current_sequence}
use auto_lean.Events.Append.{append}
use auto_lean.Events.Fenced.{append_fenced}
use auto_lean.Events.Registration.{append_contract_revision_registration, registration_request}
use auto_lean.Events.Log.Writes.{with_record, record_idempotency-eq-ok}
use auto_lean.Events.Log.Effect.{Effect, append_new-Effect}
use auto_lean.Events.Log.Sequences.{IsGapFree, sequences, positions, count_from, Effect-IsGapFree}
use auto_lean.Events.Log.Outcomes.{append-eq-ok, append_fenced-eq-ok}
use auto_lean.Events.Log.Registrations.{registration-eq-ok, Registered, Linked}

-- The tables as `_initialize` creates them.
abbrev pub empty_db : {Doc : Type 0} → Db Doc
empty_db = record {
  leases = no_leases;
  events = [];
  last_position = 0;
  entity_versions = [];
  idempotency_records = [];
  attestation_nonce_uses = [];
  contract_revision_bindings = [];
}

module _ (c : Codec) where
  -- One committed transaction of the event store or of the lease store.
  pub data Step : Db c.Doc → Db c.Doc → Type 0 where
    appends :
        {db db' : Db c.Doc} (env : Env) (r : Request) (idempotency : Option Idempotency)
        (attestation : Option AttestationNonce) (events : List StoredEvent)
        → append c env r idempotency attestation db ≡ ok (events, db')
        → Step db db'
    fences :
        {db db' : Db c.Doc} (env : Env) (task_id : String) (lease : Lease) (r : Request)
        (idempotency : Option Idempotency) (attestation : Option AttestationNonce)
        (events : List StoredEvent)
        → append_fenced c env task_id lease r idempotency attestation db ≡ ok (events, db')
        → Step db db'
    registers :
        {db db' : Db c.Doc} (env : Env) (b : ContractRevisionBinding) (event : NewEvent)
        (idempotency : Idempotency) (attestation : AttestationNonce) (events : List StoredEvent)
        → append_contract_revision_registration c env b event idempotency attestation db
          ≡ ok (events, db')
        → Step db db'
    leases :
        {db db' : Db c.Doc} (after : LeaseDb)
        → Fencing.Step db.leases after
        → db' ≡ record db { leases = after }
        → Step db db'

  pub data Reach (db : Db c.Doc) : Db c.Doc → Type 0 where
    here : Reach db db
    next : {mid db' : Db c.Doc} → Reach db mid → Step mid db' → Reach db db'

  -- What a transaction has done: nothing, new events (with a row of the projection for a
  -- registration), an idempotency record for an old event, or a change of the leases.
  pub data Outcome (db db' : Db c.Doc) : Type 0 where
    unchanged : db' ≡ db → Outcome db db'
    made :
        (env : Env) (r : Request) (idempotency : Option Idempotency)
        (attestation : Option AttestationNonce) (events : List StoredEvent)
        → Effect c env r idempotency attestation db events db'
        → Outcome db db'
    linked :
        (b : ContractRevisionBinding) (idempotency : Idempotency) (events : List StoredEvent)
        → Linked c b idempotency db events db'
        → Outcome db db'
    registered :
        (env : Env) (b : ContractRevisionBinding) (event : NewEvent) (idempotency : Idempotency)
        (attestation : AttestationNonce) (events : List StoredEvent)
        → Registered c env b event idempotency attestation db events db'
        → Outcome db db'
    leased :
        (after : LeaseDb)
        → Fencing.Step db.leases after
        → db' ≡ record db { leases = after }
        → Outcome db db'

  pub Step-Outcome : {db db' : Db c.Doc} → Step db db' → Outcome db db'
  Step-Outcome {db} {db'} (appends env r idempotency attestation events h) =
      elim (append-eq-ok c env r idempotency attestation db events db' h) [
        | inl (found, same) ↦ unchanged same
        | inr (found, new) ↦
            made env r idempotency attestation events
              (append_new-Effect c env r idempotency attestation db events db' new)
      ]
  Step-Outcome {db} {db'} (fences env task_id lease r idempotency attestation events h) =
      elim (append_fenced-eq-ok c env task_id lease r idempotency attestation db events db' h).1 [
        | inl (replayed, belongs) ↦ unchanged replayed.1
        | inr (current, new) ↦
            made env r idempotency attestation events
              (append_new-Effect c env r idempotency attestation db events db' new.1)
      ]
  Step-Outcome {db} {db'} (registers env b event idempotency attestation events h) =
      elim (registration-eq-ok c env b event idempotency attestation db events db' h) [
        | inl (replayed, matches) ↦ unchanged replayed.1
        | inr (found, inl link) ↦ linked b idempotency events link
        | inr (found, inr new) ↦ registered env b event idempotency attestation events new
      ]
  Step-Outcome (leases after step same) = leased after step same

  -- A transaction only adds rows to the log.
  pub record Extends (db db' : Db c.Doc) : Type 0 where
    pub rows : List (EventRow c.Doc)
    pub extends : db'.events ≡ db.events ++ rows

  Extends-same : (db db' : Db c.Doc) → db'.events ≡ db.events → Extends db db'
  Extends-same db db' h = record { rows = []; extends = h ∙ sym (append-nil db.events) }

  pub Registered-Effect :
      (env : Env) (b : ContractRevisionBinding) (event : NewEvent) (idempotency : Idempotency)
      (attestation : AttestationNonce) (db : Db c.Doc) (events : List StoredEvent) (db' : Db c.Doc)
      (done : Registered c env b event idempotency attestation db events db')
      → Effect c env
          (registration_request c b event)
          (some idempotency)
          (some attestation)
          db
          events
          done.mid
  Registered-Effect env b event idempotency attestation db events db' done =
      append_new-Effect c env (registration_request c b event) (some idempotency) (some attestation)
        db events done.mid done.made

  pub Linked-record :
      (b : ContractRevisionBinding) (idempotency : Idempotency) (db : Db c.Doc)
      (events : List StoredEvent) (db' : Db c.Doc)
      → Linked c b idempotency db events db'
      → (row : IdempotencyRow c.Doc) × (db' ≡ with_record c idempotency row db)
  Linked-record b idempotency db events db' link =
      let (fresh, doc, encoded, same) =
        record_idempotency-eq-ok c idempotency _ link.at db link.records in
      (_, same)

  pub Outcome-Extends : {db db' : Db c.Doc} → Outcome db db' → Extends db db'
  Outcome-Extends {db} {db'} (unchanged same) =
      Extends-same db db' (ap (λ (d : Db c.Doc). d.events) same)
  Outcome-Extends (made env r idempotency attestation events e) = record {
    rows = e.rows;
    extends = e.appended;
  }
  Outcome-Extends {db} {db'} (linked b idempotency events link) =
      Extends-same db db'
        (ap (λ (d : Db c.Doc). d.events) (Linked-record b idempotency db events db' link).1)
  Outcome-Extends {db} {db'} (registered env b event idempotency attestation events done) =
      let e = Registered-Effect env b event idempotency attestation db events db' done in
      record { rows = e.rows; extends = ap (λ (d : Db c.Doc). d.events) done.tables ∙ e.appended }
  Outcome-Extends {db} {db'} (leased after step same) =
      Extends-same db db' (ap (λ (d : Db c.Doc). d.events) same)

  -- Over any history of committed transactions, the events that a database held are the first
  -- events of every later database, unchanged and in the same order.
  pub history_is_append_only : {db db' : Db c.Doc} → Reach db db' → Extends db db'
  history_is_append_only {db} here = Extends-same db db refl
  history_is_append_only {db} {db'} (next r s) =
      let first = history_is_append_only r in
      let second = Outcome-Extends (Step-Outcome s) in
      record {
        rows = first.rows ++ second.rows;
        extends =
            second.extends
            ∙ ap (λ es. es ++ second.rows) first.extends
            ∙ append_assoc db.events first.rows second.rows;
      }

  IsGapFree-cast :
      (db db' : Db c.Doc)
      → db'.events ≡ db.events
      → db'.last_position ≡ db.last_position
      → db'.entity_versions ≡ db.entity_versions
      → IsGapFree c db
      → IsGapFree c db'
  unfolding current_sequence
  IsGapFree-cast db db' es ps vs v = record {
    streams = λ t i. ground (arith, v.streams t i);
    log = ground (arith, v.log);
  }

  Outcome-IsGapFree : {db db' : Db c.Doc} → Outcome db db' → IsGapFree c db → IsGapFree c db'
  Outcome-IsGapFree {db} {db'} (unchanged same) v = subst (IsGapFree c) (sym same) v
  Outcome-IsGapFree {db} {db'} (made env r idempotency attestation events e) v =
      Effect-IsGapFree c env r idempotency attestation db events db' e v
  Outcome-IsGapFree {db} {db'} (linked b idempotency events link) v =
      subst (IsGapFree c) (sym (Linked-record b idempotency db events db' link).1)
        (IsGapFree-cast db _ refl refl refl v)
  Outcome-IsGapFree {db} {db'} (registered env b event idempotency attestation events done) v =
      let e = Registered-Effect env b event idempotency attestation db events db' done in
      subst (IsGapFree c) (sym done.tables) (
        IsGapFree-cast done.mid _ refl refl refl
          (Effect-IsGapFree c env _ _ _ db events done.mid e v))
  Outcome-IsGapFree {db} {db'} (leased after step same) v =
      subst (IsGapFree c) (sym same) (IsGapFree-cast db _ refl refl refl v)

  empty-IsGapFree : IsGapFree c empty_db
  unfolding current_sequence sequences positions count_from lookup
  empty-IsGapFree = record { streams = λ t i. refl; log = refl }

  -- In every database that committed transactions reach from the empty one, the sequence numbers
  -- of each stream are 1, 2, ... up to the version that the store reports for the stream, and the
  -- positions of the log are 1, 2, ... up to the last one.
  pub Reach-IsGapFree : {db : Db c.Doc} → Reach empty_db db → IsGapFree c db
  Reach-IsGapFree here = empty-IsGapFree
  Reach-IsGapFree (next r s) = Outcome-IsGapFree (Step-Outcome s) (Reach-IsGapFree r)
