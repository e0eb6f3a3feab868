-- ===== src/Events/Log/Nonces.antt =====
-- events.py: a signed authority nonce is spent at most once.
use auto_lean.Base.{
  ◌≡◌, refl, sym, ◌∙◌, ap, inl, inr, false, ◌&&◌, Option, none, some, List, String, Table, lookup,
  ok, err, attestation_replay, arith, ◌==◌, string_Eq, pair_Eq, eq_iff, beq_refl,
}
use auto_lean.Base.Text.{is_blank}
use auto_lean.Base.Lists.{any}
use auto_lean.Json.{Codec}
use auto_lean.Leases.{Lease}
use auto_lean.Events.{StoredEvent, Idempotency, AttestationNonce, NonceUse, Db, Env, Request}
use auto_lean.Events.Read.{existing_idempotency}
use auto_lean.Events.Append.{
  validate_append_request, is_registration, replay_or, append_new, append_locked, append, nonce_key,
  consume_attestation_nonce, consume_optional_nonce,
}
use auto_lean.Events.Fenced.{
  append_fenced, validate_fenced_task_binding, assert_current_fence, replay_or_fenced,
}
use auto_lean.Events.Log.Effect.{Spent, append_new-Effect}
use auto_lean.Events.Log.Outcomes.{append-eq-ok}
use auto_lean.Events.Log.History.{Reach, Outcome, Step-Outcome, Linked-record, Registered-Effect}

module _ (c : Codec) where
  Spent-kept :
      (attestation : Option AttestationNonce)
      (uses uses' : Table (String × (String × String)) NonceUse) (key : String × (String × String))
      (use_row : NonceUse)
      → Spent c attestation uses uses'
      → lookup key uses ≡ some use_row
      → lookup key uses' ≡ some use_row
  unfolding lookup
  Spent-kept none uses uses' key use_row h found = ground arith
  Spent-kept (some n) uses uses' key use_row (fresh, new, same) found = rw same (
      ground (
        arith,
        fresh,
        found,
        eq_iff n.purpose key.0,
        eq_iff n.key_id key.1.0,
        eq_iff n.nonce key.1.1,
      ))

  Outcome-use :
      {db db' : Db c.Doc} (key : String × (String × String)) (use_row : NonceUse)
      → Outcome c db db'
      → lookup key db.attestation_nonce_uses ≡ some use_row
      → lookup key db'.attestation_nonce_uses ≡ some use_row
  Outcome-use {db} {db'} key use_row (Outcome.unchanged same) found =
      ap (λ (d : Db c.Doc). lookup key d.attestation_nonce_uses) same ∙ found
  Outcome-use {db} {db'} key use_row (Outcome.made env r idempotency attestation events e) found =
      Spent-kept attestation _ _ key use_row e.spent found
  Outcome-use {db} {db'} key use_row (Outcome.linked b idempotency events link) found =
      ap (λ (d : Db c.Doc). lookup key d.attestation_nonce_uses)
        (Linked-record c b idempotency db events db' link).1
      ∙ found
  Outcome-use {db} {db'} key use_row
        (Outcome.registered env b event idempotency attestation events done) found =
      let e = Registered-Effect c env b event idempotency attestation db events db' done in
      ap (λ (d : Db c.Doc). lookup key d.attestation_nonce_uses) done.tables
      ∙ Spent-kept (some attestation) _ _ key use_row e.spent found
  Outcome-use {db} {db'} key use_row (Outcome.leased after step same) found =
      ap (λ (d : Db c.Doc). lookup key d.attestation_nonce_uses) same ∙ found

  Reach-use :
      {db later : Db c.Doc} (key : String × (String × String)) (use_row : NonceUse)
      → Reach c db later
      → lookup key db.attestation_nonce_uses ≡ some use_row
      → lookup key later.attestation_nonce_uses ≡ some use_row
  Reach-use key use_row Reach.here found = found
  Reach-use key use_row (Reach.next r s) found =
      Outcome-use key use_row (Step-Outcome c s) (Reach-use key use_row r found)

  append_new-spends :
      (env : Env) (r : Request) (idempotency : Option Idempotency) (n : AttestationNonce)
      (db : Db c.Doc) (events : List StoredEvent) (db' : Db c.Doc)
      → append_new c env r idempotency (some n) db ≡ ok (events, db')
      → (use_row : NonceUse) × (lookup (nonce_key n) db'.attestation_nonce_uses ≡ some use_row)
  unfolding lookup
  append_new-spends env r idempotency n db events db' h =
      let e = append_new-Effect c env r idempotency (some n) db events db' h in
      let (fresh, use_row, same) = e.spent in
      (
        use_row,
        ap (lookup (nonce_key n)) same
            ∙ rw (beq_refl n.purpose, beq_refl n.key_id, beq_refl n.nonce) refl,
      )

  append_new-replayed :
      (env : Env) (r : Request) (idempotency : Option Idempotency) (n : AttestationNonce)
      (db : Db c.Doc) (use_row : NonceUse)
      → lookup (nonce_key n) db.attestation_nonce_uses ≡ some use_row
      → append_new c env r idempotency (some n) db ≡ err attestation_replay
  unfolding append_new consume_optional_nonce consume_attestation_nonce
  append_new-replayed env r idempotency n db use_row found = rw (found, consume_attestation_nonce)

  -- Once an `append` has made new events under an attestation nonce, no later write makes new
  -- events under the same purpose, key and nonce: a well-formed `append`, and an `append_fenced`
  -- under a current lease, whose idempotency keys have no record, are refused as a replay.
  pub nonce_is_spent_once :
      (env env' : Env) (r r' : Request) (idempotency idempotency' : Option Idempotency)
      (n n' : AttestationNonce) (db db' later : Db c.Doc) (events : List StoredEvent)
      (task_id : String) (lease : Lease)
      → existing_idempotency c db idempotency ≡ ok none
      → append c env r idempotency (some n) db ≡ ok (events, db')
      → Reach c db' later
      → nonce_key n' ≡ nonce_key n
      → existing_idempotency c later idempotency' ≡ ok none
      → validate_append_request r' ≡ ok tt
      → ((r'.entity_type == "task" && any is_registration r'.new_events) ≡ false
          → append c env' r' idempotency' (some n') later ≡ err attestation_replay)
        × (is_blank task_id ≡ false
            → validate_fenced_task_binding task_id r'.new_events ≡ ok tt
            → assert_current_fence c env' task_id lease later ≡ ok tt
            → append_fenced c env' task_id lease r' idempotency' (some n') later
              ≡ err attestation_replay)
  unfolding append append_locked append_fenced replay_or replay_or_fenced
  nonce_is_spent_once env env' r r' idempotency idempotency' n n' db db' later events task_id lease
        fresh h after same unrecorded valid =
      let made : append_new c env r idempotency (some n) db ≡ ok (events, db') =
        elim (append-eq-ok c env r idempotency (some n) db events db' h) [
          | inl (found, _) ↦ cc (sym fresh ∙ found)
          | inr (_, new) ↦ new
        ] in
      let (use_row, spent) = append_new-spends env r idempotency n db events db' made in
      let spent_later = Reach-use (nonce_key n) use_row after spent in
      let replayed =
        append_new-replayed env' r' idempotency' n' later use_row
          (ap (λ k. lookup k later.attestation_nonce_uses) same ∙ spent_later) in
      (
        λ other. rw (valid, other, unrecorded) replayed,
        λ named bound current. rw (valid, named, bound, unrecorded, current) replayed,
      )
