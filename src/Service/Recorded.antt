-- ===== src/Service/Recorded.antt =====
-- service.py: what a `verify_submission` that returned has checked and written.
use auto_lean.Base.{
  ◌≡◌, ◌≢◌, inl, inr, refl, sym, ap, subst, ◌∙◌, Option, none, some, List, [], String, Result, ok,
  err, arith, string_Eq, pair_Eq, nat_Eq, >>=-eq-ok,
}
use auto_lean.Base.Lists.{is_empty}
use auto_lean.Json.{Codec, Fields}
use auto_lean.Leases.{Reading, Lease}
use auto_lean.Artifacts.{Files, ArtifactRef, put_json}
use auto_lean.Events.{StoredEvent, Idempotency, AttestationNonce, Db, Env}
use auto_lean.Events.Read.{lookup_idempotency, existing_idempotency}
use auto_lean.Events.Append.{append_new}
use auto_lean.Events.Fenced.{append_fenced}
use auto_lean.Events.Log.Effect.{Effect, append_new-Effect}
use auto_lean.Events.Log.Outcomes.{append_fenced-eq-ok}
use auto_lean.Service.Verification.{
  VerificationReport, VerifierAttestation, VerificationOutcome, Gateway, attestation_nonce,
  verdict_payload, on_terminal, only_event, first_event,
}
use auto_lean.Service.Verdicts.{
  verdict_request, json_object, replayed_event, one_event, check_report, record_verdict, put_report,
  verify_checked, verify_started, start_verification, verify_idempotency, verify_submission,
}

on_terminal-eq-ok {ℓ} : {A : Type ℓ} (m : Result A) {a : A} → on_terminal m ≡ ok a → m ≡ ok a
on_terminal-eq-ok m h = ground (arith, h)

first_event-eq-ok :
    (events : List StoredEvent) {event : StoredEvent} → first_event events ≡ ok event → events ≢ []
first_event-eq-ok events h = ground (arith, h)

module _ (c : Codec) (g : Gateway c) where
  -- What a verdict that is no repetition has checked and written.
  pub record IsVerdict (clock : Reading) (env : Env) (bundle_id : String) (lease : Lease)
      (report : VerificationReport) (idempotency : Idempotency) (db : Db c.Doc)
      (outcome : VerificationOutcome) (db' : Db c.Doc) : Type 0 where
    pub attestation : VerifierAttestation
    pub payload : Fields
    pub once : AttestationNonce
    pub events : List StoredEvent
    pub checked :
        check_report c g clock bundle_id lease report db ≡ ok (outcome.reasons, attestation)
    pub verdict : outcome.accepted ≡ is_empty outcome.reasons
    pub wrote :
        append_fenced c env bundle_id lease
          (verdict_request report outcome.reasons payload)
          (some idempotency)
          (some once)
          db
        ≡ ok (events, db')

  record_verdict-IsVerdict :
      (clock : Reading) (env : Env) (bundle_id : String) (lease : Lease)
      (report : VerificationReport) (idempotency : Idempotency) (reasons : List String)
      (attestation : VerifierAttestation) (artifact : ArtifactRef) (db db' : Db c.Doc)
      (outcome : VerificationOutcome)
      → check_report c g clock bundle_id lease report db ≡ ok (reasons, attestation)
      → record_verdict c g env bundle_id lease report idempotency (reasons, attestation) artifact db
        ≡ ok (outcome, db')
      → IsVerdict clock env bundle_id lease report idempotency db outcome db'
  unfolding record_verdict
  record_verdict-IsVerdict clock env bundle_id lease report idempotency reasons attestation artifact
        db db' outcome checked h =
      let (payload, _, h1) =
        >>=-eq-ok
          (json_object c (verdict_payload bundle_id lease report reasons attestation artifact)) _
          h in
      let (once, _, h2) = >>=-eq-ok (attestation_nonce attestation) _ h1 in
      let write =
        append_fenced c env bundle_id lease (verdict_request report reasons payload)
          (some idempotency) (some once) db in
      let (written, wrote, h3) = >>=-eq-ok (on_terminal write) _ h2 in
      let (event, _, h4) = >>=-eq-ok (first_event written.0) _ h3 in
      let made : VerificationOutcome = record {
        accepted = is_empty reasons;
        reasons = reasons;
        event = event;
      } in
      let is : made ≡ outcome = ground (arith, h4) in
      let is_db : written.1 ≡ db' = ground (arith, h4) in
      subst (λ o. IsVerdict clock env bundle_id lease report idempotency db o db') is
        (record {
          attestation = attestation;
          payload = payload;
          once = once;
          events = written.0;
          checked = checked;
          verdict = refl;
          wrote = on_terminal-eq-ok write wrote ∙ ap (λ d. ok (written.0, d)) is_db;
        })

  put_report-IsVerdict :
      (clock : Reading) (env : Env) (bundle_id : String) (lease : Lease)
      (report : VerificationReport) (idempotency : Idempotency) (reasons : List String)
      (attestation : VerifierAttestation) (db db' : Db c.Doc) (files files' : Files)
      (put : Result (ArtifactRef × Files)) (outcome : VerificationOutcome)
      → check_report c g clock bundle_id lease report db ≡ ok (reasons, attestation)
      → put_report c g env bundle_id lease report idempotency (reasons, attestation) db files put
        ≡ (ok (outcome, db'), files')
      → IsVerdict clock env bundle_id lease report idempotency db outcome db'
  unfolding put_report
  put_report-IsVerdict clock env bundle_id lease report idempotency reasons attestation db db' files
        files' (err e) outcome checked h =
      let refused : err e ≡ ok (outcome, db') =
        ap (λ (p : Result (VerificationOutcome × Db c.Doc) × Files). p.0) h in
      cc
  put_report-IsVerdict clock env bundle_id lease report idempotency reasons attestation db db' files
        files' (ok (artifact, later)) outcome checked h =
      record_verdict-IsVerdict clock env bundle_id lease report idempotency reasons attestation
        artifact db db' outcome checked
        (ap (λ (p : Result (VerificationOutcome × Db c.Doc) × Files). p.0) h)

  verify_checked-IsVerdict :
      (clock : Reading) (env : Env) (bundle_id : String) (lease : Lease)
      (report : VerificationReport) (idempotency : Idempotency)
      (checks : Result (List String × VerifierAttestation)) (db db' : Db c.Doc)
      (files files' : Files) (outcome : VerificationOutcome)
      → check_report c g clock bundle_id lease report db ≡ checks
      → verify_checked c g env bundle_id lease report idempotency checks db files
        ≡ (ok (outcome, db'), files')
      → IsVerdict clock env bundle_id lease report idempotency db outcome db'
  unfolding verify_checked
  verify_checked-IsVerdict clock env bundle_id lease report idempotency (err e) db db' files files'
        outcome checked h =
      let refused : err e ≡ ok (outcome, db') =
        ap (λ (p : Result (VerificationOutcome × Db c.Doc) × Files). p.0) h in
      cc
  verify_checked-IsVerdict clock env bundle_id lease report idempotency (ok (reasons, attestation))
        db db' files files' outcome checked h =
      put_report-IsVerdict clock env bundle_id lease report idempotency reasons attestation db db'
        files files' (put_json g.sha256 c g.encode (g.report_dump report) files) outcome checked h

  pub verify_submission-IsVerdict :
      (clock : Reading) (env : Env) (bundle_id : String) (lease : Lease)
      (report : VerificationReport) (key : String) (idempotency : Idempotency) (db db' : Db c.Doc)
      (files files' : Files) (outcome : VerificationOutcome)
      → start_verification c g bundle_id lease report key db ≡ ok (idempotency, none)
      → verify_submission c g clock env bundle_id lease report key db files
        ≡ (ok (outcome, db'), files')
      → IsVerdict clock env bundle_id lease report idempotency db outcome db'
  unfolding verify_submission verify_started
  verify_submission-IsVerdict clock env bundle_id lease report key idempotency db db' files files'
        outcome started h =
      verify_checked-IsVerdict clock env bundle_id lease report idempotency
        (check_report c g clock bundle_id lease report db) db db' files files' outcome refl
        (ap (λ s. verify_started c g clock env bundle_id lease report s db files) (sym started) ∙ h)

  one_event-eq-none : (o : Option (List StoredEvent)) → one_event c o ≡ ok none → o ≡ none
  one_event-eq-none none h = refl
  one_event-eq-none (some events) h =
      let (event, _, same) = >>=-eq-ok (only_event events) _ h in
      let other : some event ≡ none = ground (arith, same) in cc

  -- A started command whose key has no record has none in the event store.
  pub started-unrecorded :
      (bundle_id : String) (lease : Lease) (report : VerificationReport) (key : String)
      (idempotency : Idempotency) (db : Db c.Doc)
      → start_verification c g bundle_id lease report key db ≡ ok (idempotency, none)
      → existing_idempotency c db (some idempotency) ≡ ok none
  unfolding start_verification replayed_event existing_idempotency
  started-unrecorded bundle_id lease report key idempotency db h =
      let (i, _, h1) = >>=-eq-ok (verify_idempotency c g bundle_id lease report key) _ h in
      let (found, replay, h2) = >>=-eq-ok (replayed_event c i db) _ h1 in
      let (listed, looked, one) = >>=-eq-ok (lookup_idempotency c db i) _ replay in
      let is : i ≡ idempotency = ground (arith, h2) in
      let absent : found ≡ none = ground (arith, h2) in
      let unlisted = one_event-eq-none listed (one ∙ ap ok absent) in
      ap (lookup_idempotency c db) (sym is) ∙ looked ∙ ap ok unlisted

  -- The write of a verdict under a fresh key is an append of one event to an empty stream.
  pub IsVerdict-Effect :
      (clock : Reading) (env : Env) (bundle_id : String) (lease : Lease)
      (report : VerificationReport) (idempotency : Idempotency) (db db' : Db c.Doc)
      (outcome : VerificationOutcome)
      → existing_idempotency c db (some idempotency) ≡ ok none
      → (v : IsVerdict clock env bundle_id lease report idempotency db outcome db')
      → Effect c env
          (verdict_request report outcome.reasons v.payload)
          (some idempotency)
          (some v.once)
          db
          v.events
          db'
  IsVerdict-Effect clock env bundle_id lease report idempotency db db' outcome fresh v =
      let r = verdict_request report outcome.reasons v.payload in
      let (_, how) =
        append_fenced-eq-ok c env bundle_id lease r (some idempotency) (some v.once) db v.events db'
          v.wrote in
      let made : append_new c env r (some idempotency) (some v.once) db ≡ ok (v.events, db') =
        elim how [ inl ((found, _), _) ↦ cc (sym fresh ∙ found) | inr (_, (_, new)) ↦ new ] in
      append_new-Effect c env r (some idempotency) (some v.once) db v.events db' made
