-- ===== src/Feedback/State.antt =====
-- projection.py: the state that `_phase_feedback` keeps for each registered bundle, and its first
-- loop, over the registrations.
-- Where the code builds a JSON object of texts and numbers, the model has a record.
use auto_lean.Base.{
  ℕ, suc, Bool, true, false, not, Option, none, some, List, [], ◌∷◌, String, Table, lookup, put,
  Result, ok, projection_error, ◌>>=◌, ◌>>◌, guard, ◌==◌, string_Eq, if◌then◌else◌,
}
use auto_lean.Base.Lists.{all}
use auto_lean.Json.{Json, obj, get}
use auto_lean.Events.{StoredEvent}
use auto_lean.Feedback.{optional_text, optional_int, artifact_digest, or_default, event_task_id}

pub record BuilderFidelity : Type 0 where
  pub state : String
  pub contract_id : String
  pub revision : ℕ
  pub contract_hash : String
  pub bundle_hash : String
  pub registration_event_sequence : ℕ
  pub registration_event_id : String
  pub registered_at : ℕ
  pub evidence_digest : Option String

pub record Milestone : Type 0 where
  pub phase : String
  pub state : String
  pub source_event_sequence : ℕ
  pub source_event_id : String
  pub occurred_at : ℕ
  pub evidence_digest : Option String
  pub proof_id : Option String
  pub review_assumption_id : Option String

pub record Review : Type 0 where
  pub id : String
  pub kind : String
  pub state : String
  pub source_event_sequence : ℕ
  pub source_event_id : String
  pub opened_at : ℕ
  pub evidence_digest : Option String

pub record PhaseFeedbackState : Type 0 where
  pub task_id : String
  pub registration_event : StoredEvent
  pub builder_fidelity : BuilderFidelity
  pub relevant_events : List StoredEvent
  pub submitted_proof_ids : List String
  pub accepted_proof_ids : List String
  pub rejected_proof_ids : List String
  pub unresolved_review_ids : List String
  pub unresolved_reviews : List Review
  pub milestones : List Milestone

abbrev pub is_present {ℓ} : {A : Type ℓ} → Option A → Bool
is_present none = false
is_present (some a) = true

abbrev pub attestation_keys : List String
attestation_keys = "purpose" ∷ "key_id" ∷ "payload_hash" ∷ "evidence_identity" ∷ "expires_at" ∷ []

abbrev pub initial_state :
    StoredEvent → String → String → ℕ → String → String → Option String → PhaseFeedbackState
initial_state event task_id contract_id revision contract_hash bundle_hash evidence_digest =
    record {
      task_id = task_id;
      registration_event = event;
      builder_fidelity = record {
        state =
            if is_present evidence_digest
            then "frozen_attested_with_evidence"
            else "frozen_attested_without_public_evidence";
        contract_id = contract_id;
        revision = revision;
        contract_hash = contract_hash;
        bundle_hash = bundle_hash;
        registration_event_sequence = event.global_position;
        registration_event_id = event.event_id;
        registered_at = event.recorded_at;
        evidence_digest = evidence_digest;
      };
      relevant_events = [];
      submitted_proof_ids = [];
      accepted_proof_ids = [];
      rejected_proof_ids = [];
      unresolved_review_ids = [];
      unresolved_reviews = [];
      milestones = [];
    }

-- The fields of the binding: contract, revision, hashes and attestation.
abbrev pub bound_state :
    StoredEvent
    → String
    → Option String
    → Option ℕ
    → Option String
    → Option String
    → Option Json
    → Option PhaseFeedbackState
bound_state event task_id (some contract_id) (some (suc n)) (some contract_hash) (some bundle_hash)
      (some (obj attestation)) =
    if all (λ key. is_present (optional_text attestation key)) attestation_keys
    then some (
        initial_state event task_id contract_id (suc n) contract_hash bundle_hash
          (artifact_digest event.payload "fidelity_evidence_artifact"))
    else none
bound_state event task_id _ _ _ _ _ = none

unfoldable pub phase_feedback_registration : StoredEvent → Option String → Option PhaseFeedbackState
phase_feedback_registration event none = none
phase_feedback_registration event (some task_id) =
    bound_state event task_id (optional_text event.payload "contract_id")
      (optional_int event.payload "revision") (optional_text event.payload "contract_hash")
      (optional_text event.payload "bundle_hash") (get "builder_attestation" event.payload)

unfoldable pub add_state :
    Option PhaseFeedbackState
    → Table String PhaseFeedbackState
    → Result (Table String PhaseFeedbackState)
add_state none states = ok states
add_state (some state) states = do
  guard (not (is_present (lookup state.task_id states))) projection_error
  ok (put state.task_id state states)

-- The first loop over the events.
unfoldable pub register_states :
    List StoredEvent → Table String PhaseFeedbackState → Result (Table String PhaseFeedbackState)
register_states [] states = ok states
register_states (event ∷ events) states = do
  states' ←
      if event.event_type == "task.registered"
      then add_state (phase_feedback_registration event (event_task_id event)) states
      else ok states
  register_states events states'

abbrev pub feedback_milestone :
    String → String → StoredEvent → Option String → Option String → Option String → Milestone
feedback_milestone phase state event evidence_digest proof_id review_assumption_id = record {
  phase = phase;
  state = state;
  source_event_sequence = event.global_position;
  source_event_id = event.event_id;
  occurred_at = event.recorded_at;
  evidence_digest = evidence_digest;
  proof_id = proof_id;
  review_assumption_id = review_assumption_id;
}

unfoldable pub unresolved_review_assumption : StoredEvent → Review
unresolved_review_assumption event =
    let is_gap = event.event_type == "gap.reported" in
    record {
      id =
          or_default (optional_text event.payload (if is_gap then "report_id" else "request_id"))
            event.event_id;
      kind = if is_gap then "gap" else "contract_change";
      state = "unresolved";
      source_event_sequence = event.global_position;
      source_event_id = event.event_id;
      opened_at = event.recorded_at;
      evidence_digest =
          artifact_digest event.payload (if is_gap then "gap_artifact" else "request_artifact");
    }
