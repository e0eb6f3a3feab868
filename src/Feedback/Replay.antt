-- ===== src/Feedback/Replay.antt =====
-- projection.py: the second loop of `_phase_feedback`, the replay of the log into the states.
use auto_lean.Base.{
  Bool, true, false, not, ◌||◌, Option, none, some, List, [], ◌∷◌, ◌++◌, String, Table, lookup, put,
  Result, ok, err, projection_error, ◌>>=◌, ◌>>◌, guard, ltb, ◌==◌, string_Eq, if◌then◌else◌,
}
use auto_lean.Base.Lists.{contains}
use auto_lean.Events.{StoredEvent}
use auto_lean.Feedback.{
  optional_text, artifact_digest, or_default, event_task_id, verification_accepted, is_verification,
}
use auto_lean.Feedback.State.{
  PhaseFeedbackState, Review, Milestone, feedback_milestone, unresolved_review_assumption,
  register_states,
}

-- What every branch of the second loop adds to the state.
abbrev pub observe : StoredEvent → Milestone → PhaseFeedbackState → PhaseFeedbackState
observe event milestone s = record s {
  relevant_events = s.relevant_events ++ event ∷ [];
  milestones = s.milestones ++ milestone ∷ [];
}

unfoldable pub submit : StoredEvent → String → PhaseFeedbackState → Result PhaseFeedbackState
submit event proof_id s = do
  guard (not (contains proof_id s.submitted_proof_ids)) projection_error
  ok
      (record (observe event
        (feedback_milestone "prover_candidate" "pending" event
          (artifact_digest event.payload "proof_artifact") (some proof_id) none)
        s) { submitted_proof_ids = s.submitted_proof_ids ++ proof_id ∷ [] })

abbrev pub add_verdict : Bool → String → PhaseFeedbackState → PhaseFeedbackState
add_verdict true proof_id s = record s {
  accepted_proof_ids = s.accepted_proof_ids ++ proof_id ∷ [];
}
add_verdict false proof_id s = record s {
  rejected_proof_ids = s.rejected_proof_ids ++ proof_id ∷ [];
}

unfoldable pub verify : StoredEvent → Option String → PhaseFeedbackState → Result PhaseFeedbackState
verify event none s = err projection_error
verify event (some proof_id) s = do
  guard (contains proof_id s.submitted_proof_ids) projection_error
  guard (not (contains proof_id s.accepted_proof_ids || contains proof_id s.rejected_proof_ids))
      projection_error
  accepted ← verification_accepted event
  ok (
      add_verdict accepted proof_id (
        observe event
          (feedback_milestone "prover_verification" (if accepted then "accepted" else "rejected")
            event (artifact_digest event.payload "verification_artifact") (some proof_id) none)
          s))

unfoldable pub open_review : StoredEvent → Review → PhaseFeedbackState → Result PhaseFeedbackState
open_review event review s = do
  guard (not (contains review.id s.unresolved_review_ids)) projection_error
  ok
      (record (observe event
        (feedback_milestone "human_review" "unresolved" event review.evidence_digest none
          (some review.id))
        s) {
          unresolved_review_ids = s.unresolved_review_ids ++ review.id ∷ [];
          unresolved_reviews = s.unresolved_reviews ++ review ∷ [];
        })

-- The branches of the second loop for an event of a registered bundle.
unfoldable pub replay_event : StoredEvent → PhaseFeedbackState → Result PhaseFeedbackState
replay_event event s =
    if event.event_type == "task.registered"
    then ok (
        observe event
          (feedback_milestone "builder_fidelity" "recorded" event s.builder_fidelity.evidence_digest
            none none)
          s)
    else if event.event_type == "proof.submitted"
    then submit event (or_default (optional_text event.payload "proof_id") event.entity_id) s
    else if is_verification event.event_type
    then verify event (optional_text event.payload "proof_id") s
    else if event.event_type == "gap.reported" || event.event_type == "contract_change.requested"
    then open_review event (unresolved_review_assumption event) s
    else ok s

unfoldable pub replay_bundle :
    StoredEvent
    → String
    → Option PhaseFeedbackState
    → Table String PhaseFeedbackState
    → Result (Table String PhaseFeedbackState)
replay_bundle event task_id none states = ok states
replay_bundle event task_id (some s) states = do
  guard (not (ltb event.global_position s.registration_event.global_position)) projection_error
  s' ← replay_event event s
  ok (put task_id s' states)

unfoldable pub replay_task :
    StoredEvent
    → Option String
    → Table String PhaseFeedbackState
    → Result (Table String PhaseFeedbackState)
replay_task event none states = ok states
replay_task event (some task_id) states = replay_bundle event task_id (lookup task_id states) states

-- The second loop.
unfoldable pub replay :
    List StoredEvent → Table String PhaseFeedbackState → Result (Table String PhaseFeedbackState)
replay [] states = ok states
replay (event ∷ events) states = do
  states' ← replay_task event (event_task_id event) states
  replay events states'

-- Both loops.
unfoldable pub feedback_states : List StoredEvent → Result (Table String PhaseFeedbackState)
feedback_states events = do states ← register_states events []; replay events states
