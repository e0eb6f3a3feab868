-- ===== src/Examples/Feedback.antt =====
-- projection.py on a registration, two proofs and one verdict.
use auto_lean.Base.{
  string_Eq, ℕ, true, false, ◌&&◌, ◌||◌, Option, some, none, List, [], ◌∷◌, String, Table, lookup,
  put, Result, ok, err, ◌≡◌, refl,
}
use auto_lean.Base.Int.{pos}
use auto_lean.Base.Lists.{is_empty, contains, distinct, all}
use auto_lean.Json.{Fields, str, int, bool, obj, field, end, get}
use auto_lean.Events.{StoredEvent}
use auto_lean.Feedback.{
  optional_text, optional_int, artifact_digest, event_task_id, verification_accepted, is_prefix,
  is_verification,
}
use auto_lean.Feedback.State.{
  PhaseFeedbackState, phase_feedback_registration, add_state, register_states, initial_state,
}
use auto_lean.Feedback.Replay.{
  submit, verify, replay_event, replay_bundle, replay_task, replay, feedback_states,
}
use auto_lean.Feedback.Summary.{pending_ids, verification_state, prover_verification_state}
use auto_lean.Feedback.Available.{available, available_means_accepted}
use auto_lean.Feedback.Verdicts.{proof_has_one_verdict}

abbrev event_at : ℕ → String → Fields → StoredEvent
event_at position event_type payload = record {
  global_position = position;
  event_id = "e";
  entity_type = "task";
  entity_id = "bundle";
  entity_sequence = position;
  event_type = event_type;
  payload = payload;
  metadata = end;
  recorded_at = position;
}

abbrev attestation : Fields
attestation = field "purpose" (str "p") (
    field "key_id" (str "k") (
      field "payload_hash" (str "h")
        (field "evidence_identity" (str "i") (field "expires_at" (str "t") end))))

abbrev registered : StoredEvent
registered = event_at 1 "task.registered" (
    field "contract_id" (str "c") (
      field "revision" (int (pos 1)) (
        field "contract_hash" (str "ch")
          (field "bundle_hash" (str "bh") (field "builder_attestation" (obj attestation) end)))))

abbrev log : List StoredEvent
log =
    registered
    ∷ event_at 2 "proof.submitted" (field "proof_id" (str "p1") end)
    ∷ event_at 3 "proof.submitted" (field "proof_id" (str "p2") end)
    ∷ event_at 4 "verification.accepted"
        (field "proof_id" (str "p1") (field "accepted" (bool true) end))
    ∷ []

-- Names on one line what a replay computes with.
replays : Unit {0}
unfolding feedback_states register_states add_state phase_feedback_registration replay replay_task
    replay_bundle replay_event submit verify verification_accepted is_verification is_prefix
    event_task_id artifact_digest optional_int optional_text pending_ids verification_state
    prover_verification_state get lookup put contains all
replays = tt

abbrev ids_of :
    Result (Table String PhaseFeedbackState) → Option (List String × (List String × List String))
ids_of (ok ((k, s) ∷ [])) =
    some (s.submitted_proof_ids, (s.accepted_proof_ids, pending_ids s s.submitted_proof_ids))
ids_of _ = none

replay_log : ids_of (feedback_states log) ≡ some ("p1" ∷ "p2" ∷ [], ("p1" ∷ [], "p2" ∷ []))
unfolding replays
replay_log = refl

abbrev states_of : Result (Table String PhaseFeedbackState) → Table String PhaseFeedbackState
states_of (ok states) = states
states_of (err e) = []

abbrev bundle_of : Table String PhaseFeedbackState → PhaseFeedbackState
bundle_of ((k, s) ∷ states) = s
bundle_of [] = initial_state registered "bundle" "c" 1 "ch" "bh" none

abbrev log_states : Table String PhaseFeedbackState
log_states = states_of (feedback_states log)

replayed_log : feedback_states log ≡ ok log_states
unfolding replays
replayed_log = refl

bundle_found : lookup "bundle" log_states ≡ some (bundle_of log_states)
unfolding replays
bundle_found = refl

log_summary : verification_state (bundle_of log_states) ≡ "mixed_candidates"
unfolding replays
log_summary = refl

proof_has_one_verdict_example :
    (distinct (bundle_of log_states).submitted_proof_ids ≡ true)
    × (contains "p1" (bundle_of log_states).submitted_proof_ids ≡ (
        contains "p1"
          (pending_ids (bundle_of log_states) (bundle_of log_states).submitted_proof_ids)
        || contains "p1" (bundle_of log_states).accepted_proof_ids
        || contains "p1" (bundle_of log_states).rejected_proof_ids))
    × ((contains "p1"
            (pending_ids (bundle_of log_states) (bundle_of log_states).submitted_proof_ids)
          && (contains "p1" (bundle_of log_states).accepted_proof_ids
              || contains "p1" (bundle_of log_states).rejected_proof_ids))
        ≡ false)
    × ((contains "p1" (bundle_of log_states).accepted_proof_ids
          && contains "p1" (bundle_of log_states).rejected_proof_ids)
        ≡ false)
proof_has_one_verdict_example =
    proof_has_one_verdict log log_states "bundle" "p1" (bundle_of log_states) replayed_log
      bundle_found

abbrev accepted_log : List StoredEvent
accepted_log =
    registered
    ∷ event_at 2 "proof.submitted" (field "proof_id" (str "p1") end)
    ∷ event_at 3 "verification.accepted"
        (field "proof_id" (str "p1") (field "accepted" (bool true) end))
    ∷ []

abbrev accepted_states : Table String PhaseFeedbackState
accepted_states = states_of (feedback_states accepted_log)

replayed_accepted_log : feedback_states accepted_log ≡ ok accepted_states
unfolding replays
replayed_accepted_log = refl

accepted_bundle_found : lookup "bundle" accepted_states ≡ some (bundle_of accepted_states)
unfolding replays
accepted_bundle_found = refl

accepted_summary : verification_state (bundle_of accepted_states) ≡ available
unfolding replays
accepted_summary = refl

available_means_accepted_example :
    (is_empty (bundle_of accepted_states).submitted_proof_ids ≡ false)
    × (pending_ids (bundle_of accepted_states) (bundle_of accepted_states).submitted_proof_ids ≡ [])
    × ((bundle_of accepted_states).rejected_proof_ids ≡ [])
    × ((p : String)
        → contains p (bundle_of accepted_states).submitted_proof_ids
          ≡ contains p (bundle_of accepted_states).accepted_proof_ids)
available_means_accepted_example =
    available_means_accepted accepted_log accepted_states "bundle" (bundle_of accepted_states)
      replayed_accepted_log accepted_bundle_found accepted_summary
