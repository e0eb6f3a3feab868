-- ===== src/Events/Log/Writes.antt =====
-- events.py: what a write that returned has done to the tables.
use auto_lean.Base.{
  ℕ, ◌+◌, ◌≡◌, sym, ◌∙◌, ap, inl, inr, false, Option, none, List, [], ◌∷◌, ◌++◌, String, lookup,
  put, insert, ok, arith, string_Eq, pair_Eq, Option-cases, >>=-eq-ok, insert-eq-ok,
}
use auto_lean.Base.Int.{pos, pos_part, int_Eq, int_eq_iff}
use auto_lean.Base.Lists.{length, any}
use auto_lean.Json.{Codec, arr, texts, canonical_json}
use auto_lean.Leases.{utc_now}
use auto_lean.Events.{
  StoredEvent, Idempotency, AttestationNonce, EventRow, IdempotencyRow, NonceUse, Db, Env, Request,
}
use auto_lean.Events.Read.{events_by_ids, current_sequence}
use auto_lean.Events.Append.{
  nonce_key, consume_attestation_nonce, consume_optional_nonce, advance_version, collides,
  insert_event, insert_events, record_idempotency, record_optional_idempotency, append_new,
}

module _ (c : Codec) where
  pub insert_event-eq-ok :
      (row : EventRow c.Doc) (db : Db c.Doc) {db' : Db c.Doc}
      → insert_event c row db ≡ ok db'
      → (any (collides c row) db.events ≡ false)
        × (db' ≡ record db { events = db.events ++ row ∷ []; last_position = row.global_position })
  unfolding insert_event
  insert_event-eq-ok row db h = ground arith

  pub advance_version-eq-ok :
      (r : Request) (db : Db c.Doc) {db' : Db c.Doc}
      → advance_version c r db ≡ ok db'
      → (r.expected_sequence ≡ pos (current_sequence c r.entity_type r.entity_id db))
        × (db' ≡ record db {
          entity_versions =
              put
                (r.entity_type, r.entity_id)
                (current_sequence c r.entity_type r.entity_id db + length r.new_events)
                db.entity_versions;
        })
  unfolding advance_version
  advance_version-eq-ok r db h = ground (
    arith,
    int_eq_iff (pos (current_sequence c r.entity_type r.entity_id db)) r.expected_sequence,
  )

  -- The tables with one more use of a nonce.
  abbrev pub with_nonce_use : AttestationNonce → NonceUse → Db c.Doc → Db c.Doc
  with_nonce_use value use_row db = record db {
    attestation_nonce_uses = (nonce_key value, use_row) ∷ db.attestation_nonce_uses;
  }

  pub consume_attestation_nonce-eq-ok :
      (env : Env) (value : AttestationNonce) (entity_type entity_id : String) (db : Db c.Doc)
      {db' : Db c.Doc}
      → consume_attestation_nonce c env value entity_type entity_id db ≡ ok db'
      → (lookup (nonce_key value) db.attestation_nonce_uses ≡ none)
        × (use_row : NonceUse) × (db' ≡ with_nonce_use value use_row db)
  unfolding consume_attestation_nonce
  consume_attestation_nonce-eq-ok env value entity_type entity_id db {db'} h =
      elim (Option-cases (lookup (nonce_key value) db.attestation_nonce_uses)) [
        | inr (used, e) ↦ cc (rw (e, consume_attestation_nonce) at h)
        | inl e ↦
            let (now, at, rest) =
              >>=-eq-ok (utc_now env.nonce_clock) _ (rw (e, consume_attestation_nonce) at h) in
            let (uses, inserted, same) =
              >>=-eq-ok (insert (nonce_key value) _ db.attestation_nonce_uses) _ rest in
            let facts = insert-eq-ok (nonce_key value) _ db.attestation_nonce_uses inserted in
            (
              e,
              record {
                payload_hash = value.payload_hash;
                entity_type = entity_type;
                entity_id = entity_id;
                consumed_at = now;
              },
              ground (arith, same, facts.1),
            )
      ]

  -- The tables with one more idempotency record.
  abbrev pub with_record : Idempotency → IdempotencyRow c.Doc → Db c.Doc → Db c.Doc
  with_record value row db = record db {
    idempotency_records = ((value.scope, value.key), row) ∷ db.idempotency_records;
  }

  pub record_idempotency-eq-ok :
      (value : Idempotency) (ids : List String) (at : ℕ) (db : Db c.Doc) {db' : Db c.Doc}
      → record_idempotency c value ids at db ≡ ok db'
      → (lookup (value.scope, value.key) db.idempotency_records ≡ none)
        × (doc : c.Doc) × (canonical_json c (arr (texts ids)) ≡ ok doc)
        × (db'
            ≡ with_record value
                (record {
                  request_hash = value.request_hash;
                  event_ids_json = doc;
                  created_at = at;
                })
                db)
  unfolding record_idempotency
  record_idempotency-eq-ok value ids at db h =
      let (doc, encoded, rest) = >>=-eq-ok (canonical_json c (arr (texts ids))) _ h in
      let (records, inserted, same) =
        >>=-eq-ok (insert (value.scope, value.key) _ db.idempotency_records) _ rest in
      let facts = insert-eq-ok (value.scope, value.key) _ db.idempotency_records inserted in
      (facts.0, doc, encoded, ground (arith, same, facts.1))

  -- The stages of a write behind the lookup of its idempotency record.
  pub record Stages (env : Env) (r : Request) (idempotency : Option Idempotency)
      (attestation : Option AttestationNonce) (db : Db c.Doc) (events : List StoredEvent)
      (db' : Db c.Doc) : Type 0 where
    pub consumed : Db c.Doc
    pub advanced : Db c.Doc
    pub at : ℕ
    pub ids : List String
    pub inserted : Db c.Doc
    pub consumes :
        consume_optional_nonce c env attestation r.entity_type r.entity_id db ≡ ok consumed
    pub advances : advance_version c r consumed ≡ ok advanced
    pub inserts :
        insert_events c env r.entity_type r.entity_id
          (pos_part r.expected_sequence)
          at
          1
          r.new_events
          advanced
        ≡ ok (ids, inserted)
    pub records : record_optional_idempotency c idempotency ids at inserted ≡ ok db'
    pub returns : events_by_ids c db'.events ids ≡ ok events

  pub append_new-Stages :
      (env : Env) (r : Request) (idempotency : Option Idempotency)
      (attestation : Option AttestationNonce) (db : Db c.Doc) {events : List StoredEvent}
      {db' : Db c.Doc}
      → append_new c env r idempotency attestation db ≡ ok (events, db')
      → Stages env r idempotency attestation db events db'
  unfolding append_new
  append_new-Stages env r idempotency attestation db {events} {db'} h =
      let (consumed, consumes, h1) =
        >>=-eq-ok (consume_optional_nonce c env attestation r.entity_type r.entity_id db) _ h in
      let (advanced, advances, h2) = >>=-eq-ok (advance_version c r consumed) _ h1 in
      let (at, _, h3) = >>=-eq-ok (utc_now env.append_clock) _ h2 in
      let (written, inserts, h4) =
        >>=-eq-ok
          (insert_events c env r.entity_type r.entity_id (pos_part r.expected_sequence) at 1
            r.new_events advanced)
          _ h3 in
      let (recorded, records, h5) =
        >>=-eq-ok (record_optional_idempotency c idempotency written.0 at written.1) _ h4 in
      let (found, returns, same) = >>=-eq-ok (events_by_ids c recorded.events written.0) _ h5 in
      let same_db : recorded ≡ db' = ground (arith, same) in
      let same_events : found ≡ events = ground (arith, same) in
      record {
        consumed = consumed;
        advanced = advanced;
        at = at;
        ids = written.0;
        inserted = written.1;
        consumes = consumes;
        advances = advances;
        inserts = inserts;
        records = records ∙ ap ok same_db;
        returns =
            ap (λ (d : Db c.Doc). events_by_ids c d.events written.0) (sym same_db)
            ∙ returns
            ∙ ap ok same_events;
      }
