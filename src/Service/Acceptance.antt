-- ===== src/Service/Acceptance.antt =====
-- service.py: what an acceptance means, and that a proof has one verdict.
use auto_lean.Base.{
  ◌+◌, true, ◌↔◌, ◌≡◌, ◌≢◌, sym, ap, ◌∙◌, none, String, ok, arith, string_Eq, beq_refl, pair_Eq,
  nat_Eq, >>=-eq-ok, >>-eq-ok,
}
use auto_lean.Base.Int.{pos}
use auto_lean.Base.Lists.{is_empty}
use auto_lean.Json.{Codec}
use auto_lean.Leases.{Reading, Lease}
use auto_lean.Artifacts.{Files}
use auto_lean.Events.{StoredEvent, Idempotency, Db, Env}
use auto_lean.Events.Read.{current_sequence}
use auto_lean.Events.Log.Sequences.{current_sequence-put}
use auto_lean.Events.Log.History.{Reach}
use auto_lean.Events.Log.Versions.{Reach-version}
use auto_lean.Service.Binding.{TaskBinding, get_binding, binding_from_event, assert_lease}
use auto_lean.Service.Verification.{
  VerificationReport, VerificationOutcome, Gateway, verification_failures,
  validate_verification_binding,
}
use auto_lean.Service.Verdicts.{proof_event, check_report, start_verification, verify_submission}
use auto_lean.Service.Boundary.{passes_boundary, no_failures_iff}
use auto_lean.Service.Terms.{
  IsWithin, Binds, passes_boundary-IsWithin, validate_verification_binding-Binds,
}
use auto_lean.Service.Stored.{
  IsStored, IsLive, proof_event-IsStored, get_binding-IsStored, assert_lease-IsLive,
}
use auto_lean.Service.Recorded.{verify_submission-IsVerdict, IsVerdict-Effect, started-unrecorded}

module _ (c : Codec) (g : Gateway c) where
  -- Once a `verify_submission` whose key had no record returned a verdict on a proof, no later
  -- `verify_submission` on the same proof whose key has no record returns one, whoever calls it
  -- with whatever lease, report and attestation.
  pub proof_gets_one_verdict :
      (clock clock' : Reading) (env env' : Env) (bundle_id bundle_id' : String)
      (lease lease' : Lease) (report report' : VerificationReport) (key key' : String)
      (idempotency idempotency' : Idempotency) (db db' later last : Db c.Doc)
      (files files' files2 files3 : Files) (outcome outcome' : VerificationOutcome)
      → start_verification c g bundle_id lease report key db ≡ ok (idempotency, none)
      → verify_submission c g clock env bundle_id lease report key db files
        ≡ (ok (outcome, db'), files')
      → Reach c db' later
      → report'.proof_id ≡ report.proof_id
      → start_verification c g bundle_id' lease' report' key' later ≡ ok (idempotency', none)
      → verify_submission c g clock' env' bundle_id' lease' report' key' later files2
        ≢ (ok (outcome', last), files3)
  proof_gets_one_verdict clock clock' env env' bundle_id bundle_id' lease lease' report report' key
        key' idempotency idempotency' db db' later last files files' files2 files3 outcome outcome'
        started h after same started' again =
      let v =
        verify_submission-IsVerdict c g clock env bundle_id lease report key idempotency db db'
          files files' outcome started h in
      let e =
        IsVerdict-Effect c g clock env bundle_id lease report idempotency db db' outcome
          (started-unrecorded c g bundle_id lease report key idempotency db started) v in
      let w =
        verify_submission-IsVerdict c g clock' env' bundle_id' lease' report' key' idempotency'
          later last files2 files3 outcome' started' again in
      let f =
        IsVerdict-Effect c g clock' env' bundle_id' lease' report' idempotency' later last outcome'
          (started-unrecorded c g bundle_id' lease' report' key' idempotency' later started') w in
      let written : current_sequence c "verification" report.proof_id db'
          ≡ 1 + current_sequence c "verification" report.proof_id db =
        ground (
          arith,
          current_sequence-put c "verification" report.proof_id "verification" report.proof_id _ db
              db' e.versions,
          beq_refl {A = String} "verification",
          beq_refl report.proof_id,
        ) in
      let kept = Reach-version c "verification" report.proof_id after in
      let empty : pos 0 ≡ pos (current_sequence c "verification" report.proof_id later) =
        f.expected ∙ ap (λ id. pos (current_sequence c "verification" id later)) same in
      ground (arith, written, kept, empty)

  -- A `verify_submission` whose key had no record and that returned found the frozen task in the
  -- registration event of the bundle and the proof in a submission event of that proof's stream. At
  -- its clock the lease was for the bundle and its row was live with its holder and token. The
  -- report is for the task's contract, boundary, environment and axiom profile, and the submitted
  -- proof names the same contract and boundary. The command accepted the proof exactly if every
  -- check of the report passed, no sorryAx was observed, every observed axiom is allowed by the
  -- task, and none was observed under the strict profile.
  pub acceptance_iff_passes_boundary :
      (clock : Reading) (env : Env) (bundle_id : String) (lease : Lease)
      (report : VerificationReport) (key : String) (idempotency : Idempotency) (db db' : Db c.Doc)
      (files files' : Files) (outcome : VerificationOutcome)
      → start_verification c g bundle_id lease report key db ≡ ok (idempotency, none)
      → verify_submission c g clock env bundle_id lease report key db files
        ≡ (ok (outcome, db'), files')
      → (binding : TaskBinding) × (registered : StoredEvent) × (submitted : StoredEvent) × IsStored
          c "task" bundle_id "task.registered" registered db
        × (binding_from_event registered ≡ ok binding)
        × IsStored c "proof" report.proof_id "proof.submitted" submitted db
        × IsLive clock bundle_id lease db.leases
        × Binds binding report submitted
        × ((outcome.accepted ≡ true) ↔ IsWithin binding report)
  unfolding check_report assert_lease
  acceptance_iff_passes_boundary clock env bundle_id lease report key idempotency db db' files
        files' outcome started h =
      let v =
        verify_submission-IsVerdict c g clock env bundle_id lease report key idempotency db db'
          files files' outcome started h in
      let (binding, bound, h1) = >>=-eq-ok (get_binding c bundle_id db) _ v.checked in
      let (current, h2) = >>-eq-ok (assert_lease c clock bundle_id lease db) _ h1 in
      let (submitted, found, h3) = >>=-eq-ok (proof_event c report.proof_id db) _ h2 in
      let (valid, h4) = >>-eq-ok (validate_verification_binding binding report submitted) _ h3 in
      let (signed, _, h5) = >>=-eq-ok (g.verify_attestation binding report submitted lease) _ h4 in
      let reasons : verification_failures binding report ≡ outcome.reasons = ground (arith, h5) in
      let (registered, stored, is) = get_binding-IsStored c bundle_id db binding bound in
      let accepted : outcome.accepted ≡ passes_boundary binding report =
        v.verdict ∙ ap is_empty (sym reasons) ∙ no_failures_iff binding report in
      let terms = passes_boundary-IsWithin binding report in
      (
        binding,
        registered,
        submitted,
        stored,
        is,
        proof_event-IsStored c report.proof_id db submitted found,
        assert_lease-IsLive c clock bundle_id lease db current,
        validate_verification_binding-Binds binding report submitted valid,
        (λ yes. terms.0 (sym accepted ∙ yes), λ within. accepted ∙ terms.1 within),
      )
