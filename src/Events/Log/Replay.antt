-- ===== src/Events/Log/Replay.antt =====
-- events.py: a command that is sent again under its idempotency key.
use auto_lean.Base.{
  ◌≡◌, ◌≢◌, refl, sym, ◌∙◌, ap, subst, inl, inr, false, not, ◌&&◌, Option, some, List, lookup, ok,
  err, idempotency_conflict, arith, >>-eq-ok, guard_then-eq-ok, ◌==◌, string_Eq, pair_Eq, eq_iff,
  beq_refl, value_error,
}
use auto_lean.Base.Int.{pos_part}
use auto_lean.Base.Lists.{any, is_empty}
use auto_lean.Json.{Codec, DecodesTexts, load_canonical_json-texts}
use auto_lean.Events.{StoredEvent, Idempotency, AttestationNonce, IdempotencyRow, Db, Env, Request}
use auto_lean.Events.Read.{
  resolve_idempotency, resolve_row, lookup_idempotency, existing_idempotency,
}
use auto_lean.Events.Append.{
  validate_append_request, is_registration, replay_or, append_new, append_locked, append,
  record_optional_idempotency,
}
use auto_lean.Events.Log.Writes.{append_new-Stages, record_idempotency-eq-ok}
use auto_lean.Events.Log.Identifiers.{NamesEvents, event_id_list-ids}
use auto_lean.Events.Log.Outcomes.{append-eq-ok}
use auto_lean.Events.Log.History.{Reach}
use auto_lean.Events.Log.Answers.{Resolves, existing-Resolves, Resolves-existing, Reach-Resolves}

module _ (c : Codec) where
  append_new-Resolves :
      DecodesTexts c
      → (env : Env) (r : Request) (value : Idempotency) (attestation : Option AttestationNonce)
        (db : Db c.Doc) (events : List StoredEvent) (db' : Db c.Doc)
      → NamesEvents env
      → is_empty r.new_events ≡ false
      → append_new c env r (some value) attestation db ≡ ok (events, db')
      → Resolves c db' value events
  unfolding record_optional_idempotency resolve_idempotency lookup
  append_new-Resolves lawful env r value attestation db events db' named some_event h =
      let s = append_new-Stages c env r (some value) attestation db h in
      let (fresh, doc, encoded, same) =
        record_idempotency-eq-ok c value s.ids s.at s.inserted s.records in
      let listed =
        event_id_list-ids c env r.entity_type r.entity_id (pos_part r.expected_sequence) s.at named
          1 r.new_events s.advanced s.ids s.inserted s.inserts some_event in
      (
        record { request_hash = value.request_hash; event_ids_json = doc; created_at = s.at },
        ap (λ (d : Db c.Doc). lookup (value.scope, value.key) d.idempotency_records) same
            ∙ rw (beq_refl value.scope, beq_refl value.key) refl,
        rw
            (
              beq_refl value.request_hash,
              load_canonical_json-texts c lawful s.ids doc encoded,
              listed,
            )
            s.returns,
      )

  pub append-request :
      (env : Env) (r : Request) (idempotency : Option Idempotency)
      (attestation : Option AttestationNonce) (db : Db c.Doc) (events : List StoredEvent)
      (db' : Db c.Doc)
      → append c env r idempotency attestation db ≡ ok (events, db')
      → is_empty r.new_events ≡ false
  unfolding append validate_append_request
  append-request env r idempotency attestation db events db' h =
      let (valid, _) = >>-eq-ok (validate_append_request r) _ h in
      let (_, h1) = guard_then-eq-ok _ value_error _ valid in
      let (_, h2) = guard_then-eq-ok _ value_error _ h1 in
      let (some_event, _) = guard_then-eq-ok (not (is_empty r.new_events)) value_error _ h2 in
      ground (arith, some_event)

  -- After an `append` under an idempotency key returned, the key resolves to the same events in
  -- every later database.
  append-Resolves :
      DecodesTexts c
      → (env : Env) (r : Request) (value : Idempotency) (attestation : Option AttestationNonce)
        (db db' later : Db c.Doc) (events : List StoredEvent)
      → NamesEvents env
      → append c env r (some value) attestation db ≡ ok (events, db')
      → Reach c db' later
      → Resolves c later value events
  append-Resolves lawful env r value attestation db db' later events named h after =
      elim (append-eq-ok c env r (some value) attestation db events db' h) [
        | inl (found, same) ↦ Reach-Resolves c value events after (
            subst (λ d. Resolves c d value events) (sym same)
              (existing-Resolves c db value events found))
        | inr (fresh, made) ↦ Reach-Resolves c value events after (
            append_new-Resolves lawful env r value attestation db events db' named
              (append-request env r (some value) attestation db events db' h) made)
      ]

  -- After an `append` under an idempotency key returned, any well-formed `append` under the same
  -- key and request hash, at any later time and whatever its entity, expected sequence, events and
  -- nonce are, returns the same events and writes nothing. Identifiers of events are not empty,
  -- and lists of texts decode as they were encoded.
  pub retry_returns_first_answer :
      DecodesTexts c
      → (env env' : Env) (r r' : Request) (value : Idempotency)
        (attestation attestation' : Option AttestationNonce) (db db' later : Db c.Doc)
        (events : List StoredEvent)
      → NamesEvents env
      → append c env r (some value) attestation db ≡ ok (events, db')
      → Reach c db' later
      → validate_append_request r' ≡ ok tt
      → (r'.entity_type == "task" && any is_registration r'.new_events) ≡ false
      → append c env' r' (some value) attestation' later ≡ ok (events, later)
  unfolding append append_locked replay_or
  retry_returns_first_answer lawful env env' r r' value attestation attestation' db db' later events
        named h after valid other =
      rw (
        valid,
        other,
        Resolves-existing c later value events
            (append-Resolves lawful env r value attestation db db' later events named h after),
      )

  resolve_conflict :
      (db : Db c.Doc) (row : IdempotencyRow c.Doc) (value value' : Idempotency)
      (events : List StoredEvent)
      → resolve_idempotency c db row value ≡ ok events
      → value'.request_hash ≢ value.request_hash
      → resolve_idempotency c db row value' ≡ err idempotency_conflict
  unfolding resolve_idempotency
  resolve_conflict db row value value' events h differs =
      let (same_hash, _) =
        guard_then-eq-ok (row.request_hash == value.request_hash) idempotency_conflict _ h in
      let wrong : (row.request_hash == value'.request_hash) ≡ false = ground (
        arith,
        same_hash,
        eq_iff row.request_hash value.request_hash,
        eq_iff row.request_hash value'.request_hash,
      ) in
      rw wrong

  -- After an `append` under an idempotency key returned, any well-formed `append` that reuses the
  -- scope and the key for another request hash is refused with an idempotency conflict, at any
  -- later time, under the same assumptions.
  pub key_reuse_conflicts :
      DecodesTexts c
      → (env env' : Env) (r r' : Request) (value value' : Idempotency)
        (attestation attestation' : Option AttestationNonce) (db db' later : Db c.Doc)
        (events : List StoredEvent)
      → NamesEvents env
      → append c env r (some value) attestation db ≡ ok (events, db')
      → Reach c db' later
      → validate_append_request r' ≡ ok tt
      → (r'.entity_type == "task" && any is_registration r'.new_events) ≡ false
      → value'.scope ≡ value.scope
      → value'.key ≡ value.key
      → value'.request_hash ≢ value.request_hash
      → append c env' r' (some value') attestation' later ≡ err idempotency_conflict
  unfolding append append_locked replay_or existing_idempotency lookup_idempotency resolve_row
  key_reuse_conflicts lawful env env' r r' value value' attestation attestation' db db' later events
        named h after valid other same_scope same_key differs =
      let (row, found, resolved) =
        append-Resolves lawful env r value attestation db db' later events named h after in
      rw (
        valid,
        other,
        same_scope,
        same_key,
        found,
        resolve_row,
        resolve_conflict later row value value' events resolved differs,
      )
