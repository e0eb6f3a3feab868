-- ===== src/Events/Log/Versions.antt =====
-- events.py: optimistic concurrency on the version of a stream.
use auto_lean.Base.{
  ℕ, ◌+◌, ◌≤◌, ◌<◌, ◌≡◌, ◌≢◌, sym, ◌∙◌, ap, inl, inr, false, ◌&&◌, Option, none, some, List, [],
  ◌∷◌, String, ok, err, concurrency_error, arith, ◌==◌, string_Eq, pair_Eq, nat_Eq, eq_iff,
  beq_refl,
}
use auto_lean.Base.Int.{pos, int_Eq, int_eq_iff}
use auto_lean.Base.Lists.{any, length, is_empty}
use auto_lean.Json.{Codec}
use auto_lean.Events.{NewEvent, StoredEvent, Idempotency, AttestationNonce, Db, Env, Request}
use auto_lean.Events.Read.{existing_idempotency, current_sequence}
use auto_lean.Events.Append.{
  validate_append_request, is_registration, replay_or, append_new, append_locked, append,
  advance_version, consume_optional_nonce,
}
use auto_lean.Events.Log.Effect.{Effect, append_new-Effect}
use auto_lean.Events.Log.Sequences.{current_sequence-put}
use auto_lean.Events.Log.Outcomes.{append-eq-ok}
use auto_lean.Events.Log.History.{Reach, Outcome, Step-Outcome, Linked-record, Registered-Effect}
use auto_lean.Events.Log.Replay.{append-request}
use auto_lean.Events.Registration.{registration_request}

length_pos : (events : List NewEvent) → is_empty events ≡ false → 0 < length events
length_pos [] h = cc
length_pos (event ∷ events) h = omega arith

module _ (c : Codec) where
  abbrev version : String → String → Db c.Doc → ℕ
  version t i db = current_sequence c t i db

  version-same :
      (t i : String) (db db' : Db c.Doc)
      → db'.entity_versions ≡ db.entity_versions
      → version t i db' ≡ version t i db
  unfolding current_sequence
  version-same t i db db' h = ground arith

  Effect-version :
      (env : Env) (r : Request) (idempotency : Option Idempotency)
      (attestation : Option AttestationNonce) (db : Db c.Doc) (events : List StoredEvent)
      (db' : Db c.Doc) (t i : String)
      → Effect c env r idempotency attestation db events db'
      → version t i db ≤ version t i db'
  Effect-version env r idempotency attestation db events db' t i e = ground (
    arith,
    current_sequence-put c r.entity_type r.entity_id t i _ db db' e.versions,
    eq_iff r.entity_type t,
    eq_iff r.entity_id i,
  )

  Outcome-version :
      {db db' : Db c.Doc} (t i : String) → Outcome c db db' → version t i db ≤ version t i db'
  Outcome-version {db} {db'} t i (Outcome.unchanged same) =
      omega (arith, version-same t i db db' (ap (λ (d : Db c.Doc). d.entity_versions) same))
  Outcome-version {db} {db'} t i (Outcome.made env r idempotency attestation events e) =
      Effect-version env r idempotency attestation db events db' t i e
  Outcome-version {db} {db'} t i (Outcome.linked b idempotency events link) = omega (
    arith,
    version-same t i db db' (
        ap (λ (d : Db c.Doc). d.entity_versions)
          (Linked-record c b idempotency db events db' link).1),
  )
  Outcome-version {db} {db'} t i
        (Outcome.registered env b event idempotency attestation events done) =
      let e = Registered-Effect c env b event idempotency attestation db events db' done in
      omega (
        arith,
        version-same t i done.mid db' (ap (λ (d : Db c.Doc). d.entity_versions) done.tables),
        Effect-version env (registration_request c b event) (some idempotency) (some attestation) db
            events done.mid t i e,
      )
  Outcome-version {db} {db'} t i (Outcome.leased after step same) =
      omega (arith, version-same t i db db' (ap (λ (d : Db c.Doc). d.entity_versions) same))

  pub Reach-version :
      {db later : Db c.Doc} (t i : String) → Reach c db later → version t i db ≤ version t i later
  Reach-version t i Reach.here = omega arith
  Reach-version t i (Reach.next r s) =
      omega (arith, Reach-version t i r, Outcome-version t i (Step-Outcome c s))

  append_new-stale :
      (env : Env) (r : Request) (idempotency : Option Idempotency) (db : Db c.Doc)
      → r.expected_sequence ≢ pos (version r.entity_type r.entity_id db)
      → append_new c env r idempotency none db
        ≡ err (concurrency_error r.entity_type r.entity_id (version r.entity_type r.entity_id db))
  unfolding append_new consume_optional_nonce advance_version
  append_new-stale env r idempotency db other =
      ground (arith, int_eq_iff (pos (version r.entity_type r.entity_id db)) r.expected_sequence)

  append-made :
      (env : Env) (r : Request) (idempotency : Option Idempotency)
      (attestation : Option AttestationNonce) (db : Db c.Doc) (events : List StoredEvent)
      (db' : Db c.Doc)
      → existing_idempotency c db idempotency ≡ ok none
      → append c env r idempotency attestation db ≡ ok (events, db')
      → append_new c env r idempotency attestation db ≡ ok (events, db')
  append-made env r idempotency attestation db events db' fresh h =
      elim (append-eq-ok c env r idempotency attestation db events db' h) [
        | inl (found, _) ↦ cc (sym fresh ∙ found)
        | inr (_, new) ↦ new
      ]

  -- An `append` that is no replay returns only if the expected sequence is the version of the
  -- stream. It raises the version by the number of new events. In every later database a
  -- well-formed `append` whose key has no record, or that has no key, and that expects the same
  -- sequence of the same stream does not return, with whatever nonce; without a nonce it is refused
  -- with a concurrency error that reports the version there.
  pub expected_version_is_used_once :
      (env env' : Env) (r r' : Request) (idempotency idempotency' : Option Idempotency)
      (attestation attestation' : Option AttestationNonce) (db db' later last : Db c.Doc)
      (events events' : List StoredEvent)
      → existing_idempotency c db idempotency ≡ ok none
      → append c env r idempotency attestation db ≡ ok (events, db')
      → Reach c db' later
      → (r'.entity_type ≡ r.entity_type) × (r'.entity_id ≡ r.entity_id)
      → r'.expected_sequence ≡ r.expected_sequence
      → existing_idempotency c later idempotency' ≡ ok none
      → validate_append_request r' ≡ ok tt
      → (r'.entity_type == "task" && any is_registration r'.new_events) ≡ false
      → (r.expected_sequence ≡ pos (current_sequence c r.entity_type r.entity_id db))
        × (current_sequence c r.entity_type r.entity_id db'
            ≡ current_sequence c r.entity_type r.entity_id db + length r.new_events)
        × (append c env' r' idempotency' attestation' later ≢ ok (events', last))
        × (append c env' r' idempotency' none later
            ≡ err (
                concurrency_error r.entity_type r.entity_id
                  (current_sequence c r.entity_type r.entity_id later)))
  unfolding append append_locked replay_or
  expected_version_is_used_once env env' r r' idempotency idempotency' attestation attestation' db
        db' later last events events' fresh h after same_stream same_expected unrecorded valid
        other =
      let made = append-made env r idempotency attestation db events db' fresh h in
      let e = append_new-Effect c env r idempotency attestation db events db' made in
      let some_event = append-request c env r idempotency attestation db events db' h in
      let raised : version r.entity_type r.entity_id db'
          ≡ version r.entity_type r.entity_id db + length r.new_events =
        ground (
          arith,
          current_sequence-put c r.entity_type r.entity_id r.entity_type r.entity_id _ db db'
              e.versions,
          beq_refl r.entity_type,
          beq_refl r.entity_id,
        ) in
      let grown : version r.entity_type r.entity_id db < version r.entity_type r.entity_id db' =
        ground (arith, raised, length_pos r.new_events) in
      let kept = Reach-version r.entity_type r.entity_id after in
      let refused = append_new-stale env' r' idempotency' later in
      (
        e.expected,
        raised,
        λ again.
            let made' =
              append-made env' r' idempotency' attestation' later events' last unrecorded again in
            let f =
              append_new-Effect c env' r' idempotency' attestation' later events' last made' in
            let expected : pos (version r.entity_type r.entity_id db)
                ≡ pos (version r.entity_type r.entity_id later) =
              ground (arith, f.expected, e.expected, same_stream, same_expected) in
            ground (arith, expected, grown, kept),
        rw (valid, other, unrecorded)
            (ground (arith, refused, same_stream, same_expected, e.expected, grown, kept)),
      )
