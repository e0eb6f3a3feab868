-- ===== src/Examples/Service.antt =====
-- service.py: a verifier's report on the proof of a registered bundle.
use auto_lean.Base.{◌↔◌, ◌≡◌, ◌≢◌, refl, true, none, [], ◌∷◌, String, Result, ok, err}
use auto_lean.Base.Int.{pos}
use auto_lean.Base.Text.{is_sha256, is_nonce}
use auto_lean.Base.Lists.{all}
use auto_lean.Json.{Json, Fields, obj, str, int, arr, field, end, cons, nil}
use auto_lean.Json.Equality.{value_codec}
use auto_lean.Leases.{aware, assert_current, assert_row}
use auto_lean.Artifacts.{
  Files, put_json, put_bytes, path_for_digest, make_artifact_ref, make_directories, publish, verify,
  link_new, read_all, read_chunk, blob_place, shard, assert_no_link,
}
use auto_lean.Artifacts.Refinement.{new_files}
use auto_lean.Events.{EventRow, StoredEvent, Idempotency, check_idempotency, check_nonce, Db}
use auto_lean.Events.Read.{read_stream, rows_to_events, select, order_by, order_row}
use auto_lean.Events.Fenced.{
  append_fenced, replay_or_fenced, validate_fenced_task_binding, assert_current_fence,
}
use auto_lean.Events.Log.History.{Reach, empty_db}
use auto_lean.Service.Payload.{
  required_text, optional_text, required_int, required_object, required_list, required_texts,
  text_items,
}
use auto_lean.Service.Binding.{
  TaskBinding, stored_artifact, all_objects, binding_from_event, first_of_type, get_binding,
  assert_lease,
}
use auto_lean.Service.Verification.{
  VerificationReport, VerifierAttestation, VerificationOutcome, Gateway, unapproved, sorted, join,
  verification_failures, validate_verification_binding, attestation_nonce,
}
use auto_lean.Service.Verdicts.{
  json_object, replayed_event, proof_event, verify_idempotency, check_report, record_verdict,
  put_report, verify_checked, verify_started, start_verification, verify_submission,
}
use auto_lean.Service.Terms.{IsWithin, Binds}
use auto_lean.Service.Stored.{IsStored, IsLive}
use auto_lean.Service.Acceptance.{acceptance_iff_passes_boundary, proof_gets_one_verdict}
use auto_lean.Examples.Events.{env_at, runs}
use auto_lean.Examples.Workers.{lease1, leases1}

abbrev hash : String
hash = "aaaaaaaaaaaaaaaaaaaaaaaaaaaaaaaaaaaaaaaaaaaaaaaaaaaaaaaaaaaaaaaa"

abbrev registered_payload : Fields
registered_payload = field "bundle_id" (str "bundle") (
    field "bundle_hash" (str hash) (
      field "contract_id" (str "contract") (
        field "revision" (int (pos 1)) (
          field "contract_hash" (str hash) (
            field "proof_boundary_hash" (str hash) (
              field "environment_hash" (str hash) (
                field "lean_version" (str "4") (
                  field "mathlib_revision" (str "m") (
                    field "worker_image_digest" (str hash) (
                      field "wrapper_protocol" (str "w") (
                        field "command_policy_hash" (str hash) (
                          field "axiom_profile" (str "explicit_allowlist") (
                            field "axioms_allowlist" (arr (cons (str "propext") nil)) (
                              field "bundle_artifact"
                                (obj (field "digest" (str hash) (field "size" (int (pos 2)) end)))
                                (field "graph_nodes" (arr nil) end)))))))))))))))

abbrev submitted_payload : Fields
submitted_payload =
    field "bundle_id" (str "bundle")
      (field "contract_hash" (str hash) (field "proof_boundary_hash" (str hash) end))

abbrev row_at : Fields → String → String → String → EventRow Json
row_at payload entity_type entity_id event_type = record {
  global_position = 1;
  event_id = entity_type;
  entity_type = entity_type;
  entity_id = entity_id;
  entity_sequence = 1;
  event_type = event_type;
  payload_json = obj payload;
  metadata_json = obj end;
  recorded_at = 1;
}

abbrev submitted_db : Db Json
submitted_db = record empty_db {
  leases = leases1;
  events =
      row_at registered_payload "task" "bundle" "task.registered"
      ∷ row_at submitted_payload "proof" "proof" "proof.submitted"
      ∷ [];
  last_position = 2;
}

abbrev report : VerificationReport
report = record {
  report_id = "report";
  proof_id = "proof";
  contract_hash = hash;
  proof_boundary_hash = hash;
  independent = true;
  kernel_passed = true;
  build_passed = true;
  dependency_check_passed = true;
  clean_environment = true;
  environment_hash = hash;
  axiom_profile = "explicit_allowlist";
  observed_axioms = "propext" ∷ [];
}

abbrev signed : VerifierAttestation
signed = record {
  purpose = "verification";
  key_id = "verifier";
  nonce = "0123456789abcdef0123456789abcdef";
  payload_hash = hash;
  evidence_identity = "evidence";
  expires_at = "later";
}

abbrev gateway : Gateway value_codec
gateway = record {
  report_dump = λ r. str r.report_id;
  request_hash = λ j. hash;
  sha256 = λ bytes. hash;
  encode = λ d. [];
  verify_attestation = λ binding r event lease. ok signed;
}

abbrev run : Result (VerificationOutcome × Db Json) × Files
run =
    verify_submission value_codec gateway (aware 9) (env_at 9 "e3") "bundle" lease1 report "key"
      submitted_db new_files

abbrev no_event : StoredEvent
no_event = record {
  global_position = 0;
  event_id = "";
  entity_type = "";
  entity_id = "";
  entity_sequence = 0;
  event_type = "";
  payload = end;
  metadata = end;
  recorded_at = 0;
}

abbrev outcome_of : Result (VerificationOutcome × Db Json) → VerificationOutcome
outcome_of (ok (outcome, db)) = outcome
outcome_of (err e) = record { accepted = true; reasons = []; event = no_event }

abbrev db_of : Result (VerificationOutcome × Db Json) → Db Json
db_of (ok (outcome, db)) = db
db_of (err e) = submitted_db

-- Names on one line what a run of `verify_submission` computes with.
unfoldable verifies : Unit {0}
unfolding runs verify_submission start_verification verify_started verify_checked put_report
    record_verdict json_object attestation_nonce check_nonce is_nonce is_sha256 all check_report
    get_binding assert_lease proof_event validate_verification_binding verify_idempotency
    check_idempotency replayed_event read_stream rows_to_events select order_by order_row
    first_of_type binding_from_event stored_artifact all_objects required_text optional_text
    required_int required_object required_list required_texts text_items assert_current assert_row
    verification_failures unapproved sorted join append_fenced replay_or_fenced
    validate_fenced_task_binding assert_current_fence put_json put_bytes path_for_digest
    make_artifact_ref make_directories publish verify link_new read_all read_chunk blob_place shard
    assert_no_link
verifies = tt

abbrev verify_key : Idempotency
verify_key = record { scope = "verify_submission"; key = "key"; request_hash = hash }

started :
    start_verification value_codec gateway "bundle" lease1 report "key" submitted_db
    ≡ ok (verify_key, none)
unfolding verifies
started = refl

verified : run ≡ (ok (outcome_of run.0, db_of run.0), run.1)
unfolding verifies
verified = refl

accepted : (outcome_of run.0).accepted ≡ true
unfolding verifies
accepted = refl

acceptance_iff_passes_boundary_example :
    (binding : TaskBinding) × (registered : StoredEvent) × (submitted : StoredEvent) × IsStored
      value_codec "task" "bundle" "task.registered" registered submitted_db
    × (binding_from_event registered ≡ ok binding)
    × IsStored value_codec "proof" "proof" "proof.submitted" submitted submitted_db
    × IsLive (aware 9) "bundle" lease1 submitted_db.leases
    × Binds binding report submitted
    × (((outcome_of run.0).accepted ≡ true) ↔ IsWithin binding report)
acceptance_iff_passes_boundary_example =
    acceptance_iff_passes_boundary value_codec gateway (aware 9) (env_at 9 "e3") "bundle" lease1
      report "key" verify_key submitted_db (db_of run.0) new_files run.1 (outcome_of run.0) started
      verified

abbrev other_key : Idempotency
other_key = record { scope = "verify_submission"; key = "other"; request_hash = hash }

started_again :
    start_verification value_codec gateway "bundle" lease1 report "other" (db_of run.0)
    ≡ ok (other_key, none)
unfolding verifies
started_again = refl

proof_gets_one_verdict_example :
    verify_submission value_codec gateway
      (aware 9)
      (env_at 9 "e4")
      "bundle"
      lease1
      report
      "other"
      (db_of run.0)
      run.1
    ≢ (ok (outcome_of run.0, db_of run.0), run.1)
proof_gets_one_verdict_example =
    proof_gets_one_verdict value_codec gateway (aware 9) (aware 9) (env_at 9 "e3") (env_at 9 "e4")
      "bundle" "bundle" lease1 lease1 report report "key" "other" verify_key other_key submitted_db
      (db_of run.0) (db_of run.0) (db_of run.0) new_files run.1 run.1 run.1 (outcome_of run.0)
      (outcome_of run.0) started verified Reach.here refl started_again
