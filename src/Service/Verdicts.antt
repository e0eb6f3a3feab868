-- ===== src/Service/Verdicts.antt =====
-- service.py: the command `verify_submission`. What it leaves in the artifact store stands beside
-- its result, since a blob that was put stays when the write of the event is refused.
use auto_lean.Base.{
  Option, none, some, List, [], ◌∷◌, String, Result, ok, err, type_error, task_not_found,
  runtime_error, ◌>>=◌, ◌>>◌, or_raise, if◌then◌else◌,
}
use auto_lean.Base.Int.{pos}
use auto_lean.Base.Lists.{is_empty}
use auto_lean.Json.{Json, Fields, Codec, str, obj, end, field, canonical_json}
use auto_lean.Leases.{Reading, Lease}
use auto_lean.Artifacts.{Files, ArtifactRef, put_json}
use auto_lean.Events.{StoredEvent, Idempotency, check_idempotency, Db, Env, Request}
use auto_lean.Events.Read.{read_stream, lookup_idempotency}
use auto_lean.Events.Fenced.{append_fenced}
use auto_lean.Service.Binding.{first_of_type, get_binding, assert_lease}
use auto_lean.Service.Verification.{
  VerificationReport, VerifierAttestation, VerificationOutcome, Gateway, verification_failures,
  validate_verification_binding, attestation_nonce, lease_identity, verdict_payload, on_terminal,
  only_event, first_event, verification_outcome_from_event,
}

abbrev as_payload : Json → Result Fields
as_payload (obj fields) = ok fields
as_payload _ = err type_error

abbrev pub verdict_request : VerificationReport → List String → Fields → Request
verdict_request report reasons payload = record {
  entity_type = "verification";
  entity_id = report.proof_id;
  expected_sequence = pos 0;
  new_events =
      record {
        event_type = if is_empty reasons then "verification.accepted" else "verification.rejected";
        payload = payload;
        metadata = end;
      }
      ∷ [];
}

module _ (c : Codec) where
  -- `_json_object`
  unfoldable pub json_object : Json → Result Fields
  unfolding canonical_json
  json_object value = do
    doc ← canonical_json c value
    loaded ← or_raise (c.loads doc) runtime_error
    as_payload loaded

  abbrev pub one_event : Option (List StoredEvent) → Result (Option StoredEvent)
  one_event none = ok none
  one_event (some events) = only_event events >>= λ event. ok (some event)

  -- `_replayed_event`
  unfoldable pub replayed_event : Idempotency → Db c.Doc → Result (Option StoredEvent)
  replayed_event idempotency db = do found ← lookup_idempotency c db idempotency; one_event found

  -- `_proof_event`
  unfoldable pub proof_event : String → Db c.Doc → Result StoredEvent
  unfolding first_of_type
  proof_event proof_id db = do
    events ← read_stream c "proof" proof_id 0 db
    or_raise (first_of_type "proof.submitted" events) task_not_found

  module _ (g : Gateway c) where
    -- `_idempotency`, with the checks of its constructor.
    unfoldable pub verify_idempotency :
        String → Lease → VerificationReport → String → Result Idempotency
    unfolding check_idempotency
    verify_idempotency bundle_id lease report key =
        let value : Idempotency = record {
          scope = "verify_submission";
          key = key;
          request_hash = g.request_hash (
              obj (
                field "bundle_id" (str bundle_id) (
                  field "lease" (lease_identity lease)
                    (field "report" (g.report_dump report) end))));
        } in
        check_idempotency value >> ok value

    -- The checks of the command, before anything is written.
    unfoldable pub check_report :
        Reading
        → String
        → Lease
        → VerificationReport
        → Db c.Doc
        → Result (List String × VerifierAttestation)
    unfolding get_binding assert_lease proof_event validate_verification_binding
    check_report clock bundle_id lease report db = do
      binding ← get_binding c bundle_id db
      assert_lease c clock bundle_id lease db
      submitted ← proof_event report.proof_id db
      validate_verification_binding binding report submitted
      attestation ← g.verify_attestation binding report submitted lease
      ok (verification_failures binding report, attestation)

    unfoldable pub record_verdict :
        Env
        → String
        → Lease
        → VerificationReport
        → Idempotency
        → List String × VerifierAttestation
        → ArtifactRef
        → Db c.Doc
        → Result (VerificationOutcome × Db c.Doc)
    unfolding json_object attestation_nonce
    record_verdict env bundle_id lease report idempotency (reasons, attestation) artifact db = do
      payload ← json_object (verdict_payload bundle_id lease report reasons attestation artifact)
      once ← attestation_nonce attestation
      written ← on_terminal (
          append_fenced c env bundle_id lease (verdict_request report reasons payload)
            (some idempotency) (some once) db)
      event ← first_event written.0
      ok (record { accepted = is_empty reasons; reasons = reasons; event = event }, written.1)

    -- `_put_model` on the report, and what follows it.
    unfoldable pub put_report :
        Env
        → String
        → Lease
        → VerificationReport
        → Idempotency
        → List String × VerifierAttestation
        → Db c.Doc
        → Files
        → Result (ArtifactRef × Files)
        → Result (VerificationOutcome × Db c.Doc) × Files
    unfolding record_verdict
    put_report env bundle_id lease report idempotency checks db files (err e) = (err e, files)
    put_report env bundle_id lease report idempotency checks db files (ok (artifact, files')) =
        (record_verdict env bundle_id lease report idempotency checks artifact db, files')

    unfoldable pub verify_checked :
        Env
        → String
        → Lease
        → VerificationReport
        → Idempotency
        → Result (List String × VerifierAttestation)
        → Db c.Doc
        → Files
        → Result (VerificationOutcome × Db c.Doc) × Files
    unfolding put_report
    verify_checked env bundle_id lease report idempotency (err e) db files = (err e, files)
    verify_checked env bundle_id lease report idempotency (ok checks) db files =
        put_report env bundle_id lease report idempotency checks db files
          (put_json g.sha256 c g.encode (g.report_dump report) files)

    -- The command once it is known whether its key has a record.
    unfoldable pub verify_started :
        Reading
        → Env
        → String
        → Lease
        → VerificationReport
        → Result (Idempotency × Option StoredEvent)
        → Db c.Doc
        → Files
        → Result (VerificationOutcome × Db c.Doc) × Files
    unfolding verification_outcome_from_event check_report verify_checked
    verify_started clock env bundle_id lease report (err e) db files = (err e, files)
    verify_started clock env bundle_id lease report (ok (idempotency, some event)) db files =
        (verification_outcome_from_event event >>= λ outcome. ok (outcome, db), files)
    verify_started clock env bundle_id lease report (ok (idempotency, none)) db files =
        verify_checked env bundle_id lease report idempotency
          (check_report clock bundle_id lease report db) db files

    unfoldable pub start_verification :
        String
        → Lease
        → VerificationReport
        → String
        → Db c.Doc
        → Result (Idempotency × Option StoredEvent)
    unfolding verify_idempotency replayed_event
    start_verification bundle_id lease report key db = do
      idempotency ← verify_idempotency bundle_id lease report key
      found ← replayed_event idempotency db
      ok (idempotency, found)

    unfoldable pub verify_submission :
        Reading
        → Env
        → String
        → Lease
        → VerificationReport
        → String
        → Db c.Doc
        → Files
        → Result (VerificationOutcome × Db c.Doc) × Files
    unfolding start_verification verify_started
    verify_submission clock env bundle_id lease report key db files =
        verify_started clock env bundle_id lease report
          (start_verification bundle_id lease report key db) db files
