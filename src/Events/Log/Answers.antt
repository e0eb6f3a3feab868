-- ===== src/Events/Log/Answers.antt =====
-- events.py: what the record of an idempotency key resolves to.
use auto_lean.Base.{
  ◌≡◌, refl, ◌∙◌, ap, inl, inr, Option, none, some, List, [], ◌∷◌, ◌++◌, String, Table, lookup, ok,
  or_raise, idempotency_conflict, projection_error, runtime_error, arith, >>=-eq-ok,
  guard_then-eq-ok, or_raise-eq-ok, ◌==◌, string_Eq, pair_Eq, eq_iff, Option-cases,
}
use auto_lean.Json.{Codec, load_canonical_json}
use auto_lean.Events.{StoredEvent, Idempotency, EventRow, IdempotencyRow, Db}
use auto_lean.Events.Read.{
  event_id_list, row_to_event, find_event, events_by_ids, resolve_idempotency, resolve_row,
  lookup_idempotency, existing_idempotency,
}
use auto_lean.Events.Log.Writes.{record_idempotency-eq-ok}
use auto_lean.Events.Log.Effect.{Recorded}
use auto_lean.Events.Log.History.{
  Reach, Outcome, Step-Outcome, Outcome-Extends, Extends, Registered-Effect,
}

module _ (c : Codec) where
  find_event-append :
      (id : String) (rows more : List (EventRow c.Doc)) (row : EventRow c.Doc)
      → find_event c id rows ≡ some row
      → find_event c id (rows ++ more) ≡ some row
  unfolding find_event
  find_event-append id [] more row h = cc
  find_event-append id (r ∷ rows) more row h = ground (arith, find_event-append id rows more row)

  events_by_ids-append :
      (ids : List String) (rows more : List (EventRow c.Doc)) (events : List StoredEvent)
      → events_by_ids c rows ids ≡ ok events
      → events_by_ids c (rows ++ more) ids ≡ ok events
  unfolding events_by_ids
  events_by_ids-append [] rows more events h = h
  events_by_ids-append (id ∷ ids) rows more events h =
      let (row, found, h1) = >>=-eq-ok (or_raise (find_event c id rows) runtime_error) _ h in
      let (event, decoded, h2) = >>=-eq-ok (row_to_event c row) _ h1 in
      let (rest, others, same) = >>=-eq-ok (events_by_ids c rows ids) _ h2 in
      let later : find_event c id (rows ++ more) ≡ some row =
        find_event-append id rows more row (or_raise-eq-ok _ runtime_error found) in
      rw (later, decoded, events_by_ids-append ids rows more rest others) same

  -- The record of a key, and what it resolves to.
  abbrev pub Resolves : Db c.Doc → Idempotency → List StoredEvent → Type 0
  Resolves db value events =
      (row : IdempotencyRow c.Doc) × (lookup (value.scope, value.key) db.idempotency_records
        ≡ some row)
      × (resolve_idempotency c db row value ≡ ok events)

  pub existing-Resolves :
      (db : Db c.Doc) (value : Idempotency) (events : List StoredEvent)
      → existing_idempotency c db (some value) ≡ ok (some events)
      → Resolves db value events
  unfolding existing_idempotency lookup_idempotency resolve_row
  existing-Resolves db value events h =
      elim (Option-cases (lookup (value.scope, value.key) db.idempotency_records)) [
        | inl e ↦ cc (rw (e, resolve_row) at h)
        | inr (row, e) ↦
            let (es, resolved, same) =
              >>=-eq-ok (resolve_idempotency c db row value) _ (rw (e, resolve_row) at h) in
            (row, e, resolved ∙ ground (arith, same))
      ]

  pub Resolves-existing :
      (db : Db c.Doc) (value : Idempotency) (events : List StoredEvent)
      → Resolves db value events
      → existing_idempotency c db (some value) ≡ ok (some events)
  unfolding existing_idempotency lookup_idempotency resolve_row
  Resolves-existing db value events (row, found, resolved) = rw (found, resolve_row, resolved)

  resolve_idempotency-Extends :
      (db db' : Db c.Doc) (row : IdempotencyRow c.Doc) (value : Idempotency)
      (events : List StoredEvent)
      → Extends c db db'
      → resolve_idempotency c db row value ≡ ok events
      → resolve_idempotency c db' row value ≡ ok events
  unfolding resolve_idempotency
  resolve_idempotency-Extends db db' row value events more h =
      let (same_hash, h1) =
        guard_then-eq-ok (row.request_hash == value.request_hash) idempotency_conflict _ h in
      let (decoded, loads, h2) = >>=-eq-ok (load_canonical_json c row.event_ids_json) _ h1 in
      let (ids, listed, found) =
        >>=-eq-ok (or_raise (event_id_list decoded) projection_error) _ h2 in
      let later : events_by_ids c db'.events ids ≡ ok events =
        ap (λ es. events_by_ids c es ids) more.extends
        ∙ events_by_ids-append ids db.events more.rows events found in
      rw (same_hash, loads, or_raise-eq-ok _ projection_error listed) later

  record-kept :
      (idempotency : Option Idempotency) (ids : List String)
      (records records' : Table (String × String) (IdempotencyRow c.Doc)) (key : String × String)
      (row : IdempotencyRow c.Doc)
      → Recorded c idempotency ids records records'
      → lookup key records ≡ some row
      → lookup key records' ≡ some row
  unfolding lookup
  record-kept none ids records records' key row h found = ground arith
  record-kept (some value) ids records records' key row (fresh, new, _, _, same) found =
      rw same (ground (arith, fresh, found, eq_iff value.scope key.0, eq_iff value.key key.1))

  Outcome-record :
      {db db' : Db c.Doc} (key : String × String) (row : IdempotencyRow c.Doc)
      → Outcome c db db'
      → lookup key db.idempotency_records ≡ some row
      → lookup key db'.idempotency_records ≡ some row
  Outcome-record {db} {db'} key row (Outcome.unchanged same) found =
      ap (λ (d : Db c.Doc). lookup key d.idempotency_records) same ∙ found
  Outcome-record {db} {db'} key row (Outcome.made env r idempotency attestation events e) found =
      record-kept idempotency _ _ _ key row e.recorded found
  Outcome-record {db} {db'} key row (Outcome.linked b idempotency events link) found =
      let (fresh, doc, encoded, same) =
        record_idempotency-eq-ok c idempotency _ link.at db link.records in
      record-kept (some idempotency) _ _ _ key row
        (fresh, _, refl, encoded, ap (λ (d : Db c.Doc). d.idempotency_records) same) found
  Outcome-record {db} {db'} key row
        (Outcome.registered env b event idempotency attestation events done) found =
      let e = Registered-Effect c env b event idempotency attestation db events db' done in
      ap (λ (d : Db c.Doc). lookup key d.idempotency_records) done.tables
      ∙ record-kept (some idempotency) _ _ _ key row e.recorded found
  Outcome-record {db} {db'} key row (Outcome.leased after step same) found =
      ap (λ (d : Db c.Doc). lookup key d.idempotency_records) same ∙ found

  pub Reach-Resolves :
      {db later : Db c.Doc} (value : Idempotency) (events : List StoredEvent)
      → Reach c db later
      → Resolves db value events
      → Resolves later value events
  Reach-Resolves value events Reach.here h = h
  Reach-Resolves {db} {later} value events (Reach.next {mid} r s) h =
      let (row, found, resolved) = Reach-Resolves value events r h in
      let outcome = Step-Outcome c s in
      (
        row,
        Outcome-record (value.scope, value.key) row outcome found,
        resolve_idempotency-Extends mid later row value events (Outcome-Extends c outcome) resolved,
      )

  -- An answer that an idempotency key has once is its answer in every later database.
  Reach-existing :
      {db later : Db c.Doc} (value : Idempotency) (events : List StoredEvent)
      → Reach c db later
      → existing_idempotency c db (some value) ≡ ok (some events)
      → existing_idempotency c later (some value) ≡ ok (some events)
  Reach-existing {db} {later} value events r h =
      Resolves-existing later value events
        (Reach-Resolves value events r (existing-Resolves db value events h))
