-- ===== src/Events/Log/Effect.antt =====
-- events.py: the whole effect of a write that made new events.
use auto_lean.Base.{
  ℕ, ◌+◌, ◌≡◌, refl, sym, ap, subst, Table, Option, none, some, List, ◌∷◌, ◌++◌, String, lookup,
  put, ok, arith, string_Eq, pair_Eq,
}
use auto_lean.Base.Int.{pos, pos_part}
use auto_lean.Base.Lists.{length}
use auto_lean.Json.{Codec, arr, texts, canonical_json}
use auto_lean.Events.{
  StoredEvent, Idempotency, AttestationNonce, EventRow, IdempotencyRow, NonceUse, Db, Env, Request,
}
use auto_lean.Events.Read.{events_by_ids, current_sequence}
use auto_lean.Events.Append.{
  nonce_key, consume_optional_nonce, record_optional_idempotency, append_new,
}
use auto_lean.Events.Log.Writes.{
  Stages, append_new-Stages, advance_version-eq-ok, consume_attestation_nonce-eq-ok,
  record_idempotency-eq-ok,
}
use auto_lean.Events.Log.Rows.{AreRowsOf, insert_events-eq-ok, row_ids, with_rows}

module _ (c : Codec) where
  -- The nonce was unused, and is used now.
  abbrev pub Spent :
      Option AttestationNonce
      → Table (String × (String × String)) NonceUse
      → Table (String × (String × String)) NonceUse
      → Type 0
  Spent none uses uses' = uses' ≡ uses
  Spent (some value) uses uses' =
      (lookup (nonce_key value) uses ≡ none)
      × (use_row : NonceUse) × (uses' ≡ (nonce_key value, use_row) ∷ uses)

  -- The idempotency key was new, and leads to the identifiers now.
  abbrev pub Recorded :
      Option Idempotency
      → List String
      → Table (String × String) (IdempotencyRow c.Doc)
      → Table (String × String) (IdempotencyRow c.Doc)
      → Type 0
  Recorded none ids records records' = records' ≡ records
  Recorded (some value) ids records records' =
      (lookup (value.scope, value.key) records ≡ none)
      × (row : IdempotencyRow c.Doc) × (row.request_hash ≡ value.request_hash)
      × (canonical_json c (arr (texts ids)) ≡ ok row.event_ids_json)
      × (records' ≡ ((value.scope, value.key), row) ∷ records)

  pub record Effect (env : Env) (r : Request) (idempotency : Option Idempotency)
      (attestation : Option AttestationNonce) (db : Db c.Doc) (events : List StoredEvent)
      (db' : Db c.Doc) : Type 0 where
    pub rows : List (EventRow c.Doc)
    pub expected : r.expected_sequence ≡ pos (current_sequence c r.entity_type r.entity_id db)
    pub written :
        AreRowsOf c env r.entity_type r.entity_id
          (current_sequence c r.entity_type r.entity_id db)
          1
          db.last_position
          r.new_events
          rows
    pub appended : db'.events ≡ db.events ++ rows
    pub position : db'.last_position ≡ db.last_position + length rows
    pub versions :
        db'.entity_versions
        ≡ put
            (r.entity_type, r.entity_id)
            (current_sequence c r.entity_type r.entity_id db + length r.new_events)
            db.entity_versions
    pub spent : Spent attestation db.attestation_nonce_uses db'.attestation_nonce_uses
    pub recorded :
        Recorded idempotency (row_ids c rows) db.idempotency_records db'.idempotency_records
    pub leases : db'.leases ≡ db.leases
    pub bindings : db'.contract_revision_bindings ≡ db.contract_revision_bindings
    pub returned : events_by_ids c db'.events (row_ids c rows) ≡ ok events

  -- What the two optional stages leave alone.
  record Consumed (attestation : Option AttestationNonce) (db db' : Db c.Doc) : Type 0 where
    spent : Spent attestation db.attestation_nonce_uses db'.attestation_nonce_uses
    events : db'.events ≡ db.events
    position : db'.last_position ≡ db.last_position
    versions : db'.entity_versions ≡ db.entity_versions
    records : db'.idempotency_records ≡ db.idempotency_records
    leases : db'.leases ≡ db.leases
    bindings : db'.contract_revision_bindings ≡ db.contract_revision_bindings

  consume_optional_nonce-Consumed :
      (env : Env) (attestation : Option AttestationNonce) (t i : String) (db db' : Db c.Doc)
      → consume_optional_nonce c env attestation t i db ≡ ok db'
      → Consumed attestation db db'
  unfolding consume_optional_nonce
  consume_optional_nonce-Consumed env none t i db db' h = ground arith
  consume_optional_nonce-Consumed env (some value) t i db db' h =
      let (fresh, use_row, same) = consume_attestation_nonce-eq-ok c env value t i db h in
      record {
        spent = (fresh, use_row, ap (λ (d : Db c.Doc). d.attestation_nonce_uses) same);
        events = ap (λ (d : Db c.Doc). d.events) same;
        position = ap (λ (d : Db c.Doc). d.last_position) same;
        versions = ap (λ (d : Db c.Doc). d.entity_versions) same;
        records = ap (λ (d : Db c.Doc). d.idempotency_records) same;
        leases = ap (λ (d : Db c.Doc). d.leases) same;
        bindings = ap (λ (d : Db c.Doc). d.contract_revision_bindings) same;
      }

  record Kept (idempotency : Option Idempotency) (ids : List String) (db db' : Db c.Doc)
      : Type 0 where
    recorded : Recorded idempotency ids db.idempotency_records db'.idempotency_records
    events : db'.events ≡ db.events
    position : db'.last_position ≡ db.last_position
    versions : db'.entity_versions ≡ db.entity_versions
    uses : db'.attestation_nonce_uses ≡ db.attestation_nonce_uses
    leases : db'.leases ≡ db.leases
    bindings : db'.contract_revision_bindings ≡ db.contract_revision_bindings

  record_optional_idempotency-Kept :
      (idempotency : Option Idempotency) (ids : List String) (at : ℕ) (db db' : Db c.Doc)
      → record_optional_idempotency c idempotency ids at db ≡ ok db'
      → Kept idempotency ids db db'
  unfolding record_optional_idempotency
  record_optional_idempotency-Kept none ids at db db' h = ground arith
  record_optional_idempotency-Kept (some value) ids at db db' h =
      let (fresh, doc, encoded, same) = record_idempotency-eq-ok c value ids at db h in
      record {
        recorded = (
          fresh,
          record { request_hash = value.request_hash; event_ids_json = doc; created_at = at },
          refl,
          encoded,
          ap (λ (d : Db c.Doc). d.idempotency_records) same,
        );
        events = ap (λ (d : Db c.Doc). d.events) same;
        position = ap (λ (d : Db c.Doc). d.last_position) same;
        versions = ap (λ (d : Db c.Doc). d.entity_versions) same;
        uses = ap (λ (d : Db c.Doc). d.attestation_nonce_uses) same;
        leases = ap (λ (d : Db c.Doc). d.leases) same;
        bindings = ap (λ (d : Db c.Doc). d.contract_revision_bindings) same;
      }

  module _ (env : Env) (r : Request) (idempotency : Option Idempotency)
      (attestation : Option AttestationNonce) (db : Db c.Doc) (events : List StoredEvent)
      (db' : Db c.Doc) where
    assemble :
        (consumed advanced inserted : Db c.Doc) (ids : List String) (rows : List (EventRow c.Doc))
        → Consumed attestation db consumed
        → (r.expected_sequence ≡ pos (current_sequence c r.entity_type r.entity_id consumed))
          × (advanced ≡ record consumed {
            entity_versions =
                put
                  (r.entity_type, r.entity_id)
                  (current_sequence c r.entity_type r.entity_id consumed + length r.new_events)
                  consumed.entity_versions;
          })
        → AreRowsOf c env r.entity_type r.entity_id
            (pos_part r.expected_sequence)
            1
            advanced.last_position
            r.new_events
            rows
        → inserted ≡ with_rows c rows advanced
        → ids ≡ row_ids c rows
        → Kept idempotency ids inserted db'
        → events_by_ids c db'.events ids ≡ ok events
        → Effect env r idempotency attestation db events db'
    unfolding current_sequence
    assemble consumed advanced inserted ids rows first second are tables names fourth returns =
        let n = current_sequence c r.entity_type r.entity_id db in
        let expected : r.expected_sequence ≡ pos n = ground (arith, first.versions, second.0) in
        let uses : db'.attestation_nonce_uses ≡ consumed.attestation_nonce_uses =
          ground (arith, fourth.uses, tables, second.1) in
        let records : inserted.idempotency_records ≡ db.idempotency_records =
          ground (arith, first.records, tables, second.1) in
        record {
          rows = rows;
          expected = expected;
          written =
              subst
                (λ m.
                  AreRowsOf c env r.entity_type r.entity_id m 1 db.last_position r.new_events rows)
                (ap pos_part expected)
                (subst
                  (λ p.
                    AreRowsOf c env r.entity_type r.entity_id (pos_part r.expected_sequence) 1 p
                      r.new_events rows)
                  (ground (arith, first.position, second.1)) are);
          appended = ground (arith, first.events, second.1, tables, fourth.events);
          position = ground (arith, first.position, second.1, tables, fourth.position);
          versions = ground (arith, first.versions, second.1, tables, fourth.versions);
          spent = subst (Spent attestation db.attestation_nonce_uses) (sym uses) first.spent;
          recorded =
              subst (λ t. Recorded idempotency (row_ids c rows) t db'.idempotency_records) records
                (subst
                  (λ is.
                    Recorded idempotency is inserted.idempotency_records db'.idempotency_records)
                  names fourth.recorded);
          leases = ground (arith, first.leases, second.1, tables, fourth.leases);
          bindings = ground (arith, first.bindings, second.1, tables, fourth.bindings);
          returned = subst (λ is. events_by_ids c db'.events is ≡ ok events) names returns;
        }

    Stages-Effect :
        Stages c env r idempotency attestation db events db'
        → Effect env r idempotency attestation db events db'
    Stages-Effect s =
        let (rows, are, tables, names) =
          insert_events-eq-ok c env r.entity_type r.entity_id (pos_part r.expected_sequence) s.at 1
            r.new_events s.advanced s.ids s.inserted s.inserts in
        assemble s.consumed s.advanced s.inserted s.ids rows
          (consume_optional_nonce-Consumed env attestation r.entity_type r.entity_id db s.consumed
            s.consumes)
          (advance_version-eq-ok c r s.consumed s.advances) are tables names
          (record_optional_idempotency-Kept idempotency s.ids s.at s.inserted db' s.records)
          s.returns

    -- A write that made new events.
    pub append_new-Effect :
        append_new c env r idempotency attestation db ≡ ok (events, db')
        → Effect env r idempotency attestation db events db'
    append_new-Effect h = Stages-Effect (append_new-Stages c env r idempotency attestation db h)
