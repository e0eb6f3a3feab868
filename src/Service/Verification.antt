-- ===== src/Service/Verification.antt =====
-- service.py: `verify_submission`, which records one verdict on a submitted proof.
use auto_lean.Base.{
  Bool, true, false, not, ◌&&◌, ◌||◌, Option, some, List, [], ◌∷◌, ◌++◌, String, Result, ok, err,
  invalid_transition, attestation_replay, concurrency_error, runtime_error, ◌>>=◌, ◌>>◌, guard,
  ◌==◌, string_Eq, if◌then◌else◌,
}
use Prim.Native.String.{compare, ◌++◌ as text_append}
use Prim.Native.Nat.{Ordering}
use auto_lean.Base.Int.{pos}
use auto_lean.Base.Lists.{contains, is_empty}
use auto_lean.Json.{Json, Codec, bool, int, str, arr, obj, end, field, get, texts}
use auto_lean.Leases.{Lease}
use auto_lean.Artifacts.{Bytes, ArtifactRef}
use auto_lean.Events.{StoredEvent, AttestationNonce, check_nonce}
use auto_lean.Feedback.{absent_or_text}
use auto_lean.Service.Payload.{required_text, required_texts}
use auto_lean.Service.Binding.{TaskBinding}

-- `VerificationReportV1`, with what the service reads of it.
pub record VerificationReport : Type 0 where
  pub report_id : String
  pub proof_id : String
  pub contract_hash : String
  pub proof_boundary_hash : String
  pub independent : Bool
  pub kernel_passed : Bool
  pub build_passed : Bool
  pub dependency_check_passed : Bool
  pub clean_environment : Bool
  pub environment_hash : String
  pub axiom_profile : String
  pub observed_axioms : List String

-- The attestation of a verifier, `AttestationV1`.
pub record VerifierAttestation : Type 0 where
  pub purpose : String
  pub key_id : String
  pub nonce : String
  pub payload_hash : String
  pub evidence_identity : String
  pub expires_at : String

pub record VerificationOutcome : Type 0 where
  pub accepted : Bool
  pub reasons : List String
  pub event : StoredEvent

-- What the service calls elsewhere: the dump of a report, the hash of a request, SHA-256 and the
-- encoding of texts for the artifact store, and the check of the verifier's signed evidence.
pub record Gateway (c : Codec) : Type 0 where
  pub report_dump : VerificationReport → Json
  pub request_hash : Json → String
  pub sha256 : Bytes → String
  pub encode : c.Doc → Bytes
  pub verify_attestation :
      TaskBinding → VerificationReport → StoredEvent → Lease → Result VerifierAttestation

-- `set(report.observed_axioms) - binding.axioms_allowlist`
unfoldable pub unapproved : List String → List String → List String
unfolding contains
unapproved allowed [] = []
unapproved allowed (axiom_name ∷ names) =
    let rest = unapproved allowed names in
    if contains axiom_name allowed || contains axiom_name rest then rest else axiom_name ∷ rest

-- `", ".join(sorted(...))`
unfoldable pub insert_sorted : String → List String → List String
insert_sorted name [] = name ∷ []
insert_sorted name (other ∷ names) = elim (compare other name) [
  | Ordering.lt ↦ other ∷ insert_sorted name names
  | _ ↦ name ∷ other ∷ names
]

unfoldable pub sorted : List String → List String
unfolding insert_sorted
sorted [] = []
sorted (name ∷ names) = insert_sorted name (sorted names)

unfoldable pub join : List String → String
join [] = ""
join (name ∷ []) = name
join (name ∷ next ∷ names) = text_append name (text_append ", " (join (next ∷ names)))

-- `failures.append(...)` under a test.
abbrev pub fails_if : Bool → String → List String → List String
fails_if true reason failures = failures ++ reason ∷ []
fails_if false reason failures = failures

-- `_verification_failures`
unfoldable pub verification_failures : TaskBinding → VerificationReport → List String
unfolding unapproved sorted join contains
verification_failures binding report =
    fails_if (binding.axiom_profile == "strict" && not (is_empty report.observed_axioms))
      "strict axiom profile permits no observed axioms"
      (fails_if (not (is_empty (unapproved binding.axioms_allowlist report.observed_axioms)))
        (text_append "unapproved axioms: "
          (join (sorted (unapproved binding.axioms_allowlist report.observed_axioms))))
        (fails_if (contains "sorryAx" report.observed_axioms) "sorryAx is prohibited" (
          fails_if (not report.clean_environment) "verification did not use a clean environment" (
            fails_if (not report.dependency_check_passed) "dependency boundary check failed" (
              fails_if (not report.build_passed) "clean build failed" (
                fails_if (not report.kernel_passed) "Lean kernel verification failed" (
                  fails_if (not report.independent) "verification report is not independent"
                    [])))))))

-- `_validate_verification_binding`
unfoldable pub validate_verification_binding :
    TaskBinding → VerificationReport → StoredEvent → Result (Unit {0})
unfolding required_text
validate_verification_binding binding report proof_event = do
  contract_hash ← required_text proof_event.payload "contract_hash"
  guard (contract_hash == report.contract_hash) invalid_transition
  boundary ← required_text proof_event.payload "proof_boundary_hash"
  guard (boundary == report.proof_boundary_hash) invalid_transition
  guard (report.contract_hash == binding.contract_hash) invalid_transition
  guard (report.proof_boundary_hash == binding.proof_boundary_hash) invalid_transition
  guard (report.environment_hash == binding.environment_hash) invalid_transition
  guard (report.axiom_profile == binding.axiom_profile) invalid_transition

-- `_attestation_nonce`, with the checks of its constructor.
unfoldable pub attestation_nonce : VerifierAttestation → Result AttestationNonce
unfolding check_nonce
attestation_nonce a =
    let value : AttestationNonce = record {
      purpose = a.purpose;
      key_id = a.key_id;
      nonce = a.nonce;
      payload_hash = a.payload_hash;
    } in
    check_nonce value >> ok value

abbrev pub attestation_summary : VerifierAttestation → Json
attestation_summary a = obj (
    field "purpose" (str a.purpose) (
      field "key_id" (str a.key_id) (
        field "payload_hash" (str a.payload_hash) (
          field "evidence_identity" (str a.evidence_identity)
            (field "expires_at" (str a.expires_at) end)))))

abbrev pub artifact_payload : ArtifactRef → String → Json
artifact_payload reference kind = obj (
    field "digest" (str reference.digest) (
      field "size" (int (pos reference.size)) (
        field "uri" (str (text_append "sha256:" reference.digest))
          (field "kind" (str kind) (field "media_type" (str "application/json") end)))))

abbrev pub lease_identity : Lease → Json
lease_identity lease = obj (
    field "job_id" (str lease.job_id) (
      field "holder_id" (str lease.holder_id)
        (field "fencing_token" (int (pos lease.fencing_token)) end)))

abbrev pub verdict_payload :
    String → Lease → VerificationReport → List String → VerifierAttestation → ArtifactRef → Json
verdict_payload bundle_id lease report reasons attestation artifact = obj (
    field "bundle_id" (str bundle_id) (
      field "report_id" (str report.report_id) (
        field "proof_id" (str report.proof_id) (
          field "contract_hash" (str report.contract_hash) (
            field "proof_boundary_hash" (str report.proof_boundary_hash) (
              field "accepted" (bool (is_empty reasons)) (
                field "reasons" (arr (texts reasons)) (
                  field "promotion_state" (str "not_a_promotion") (
                    field "execution_authority_class" (str "test-only-local") (
                      field "verifier_attestation" (attestation_summary attestation) (
                        field "verification_artifact"
                          (artifact_payload artifact "verification_report")
                          (field "fencing_token" (int (pos lease.fencing_token)) end))))))))))))

-- `except (AttestationReplay, ConcurrencyError) as error`
abbrev pub on_terminal {ℓ} : {A : Type ℓ} → Result A → Result A
on_terminal (err attestation_replay) = err invalid_transition
on_terminal (err (concurrency_error t i n)) = err invalid_transition
on_terminal result = result

abbrev pub only_event : List StoredEvent → Result StoredEvent
only_event (event ∷ []) = ok event
only_event _ = err invalid_transition

-- `events[0]`
abbrev pub first_event : List StoredEvent → Result StoredEvent
first_event (event ∷ events) = ok event
first_event [] = err runtime_error

abbrev flag_or_refuse : Option Json → Result Bool
flag_or_refuse (some (bool flag)) = ok flag
flag_or_refuse _ = err invalid_transition

-- `_verification_outcome_from_event`
unfoldable pub verification_outcome_from_event : StoredEvent → Result VerificationOutcome
unfolding required_texts
verification_outcome_from_event event = do
  accepted ← flag_or_refuse (get "accepted" event.payload)
  reasons ← required_texts event.payload "reasons"
  guard (absent_or_text "not_a_promotion" (get "promotion_state" event.payload)) invalid_transition
  guard (absent_or_text "test-only-local" (get "execution_authority_class" event.payload))
      invalid_transition
  ok (record { accepted = accepted; reasons = reasons; event = event })
