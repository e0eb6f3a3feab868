-- ===== src/Feedback/Available.antt =====
-- projection.py: what the reported state of a bundle's proofs says.
use auto_lean.Base.{
  false, some, List, [], ◌∷◌, String, Table, lookup, ok, ◌==◌, string_Eq, eq_iff, ◌≡◌, ◌≢◌, refl,
  ap, arith,
}
use auto_lean.Base.Lists.{contains, is_empty}
use auto_lean.Events.{StoredEvent}
use auto_lean.Feedback.State.{PhaseFeedbackState}
use auto_lean.Feedback.Replay.{feedback_states}
use auto_lean.Feedback.Summary.{pending_ids, prover_verification_state, verification_state}
use auto_lean.Feedback.Verdicts.{proof_has_one_verdict}

abbrev pub available : String
available = "verified_candidate_available"

texts_differ : (a b : String) → (a == b) ≡ false → a ≢ b
texts_differ a b h p = cc ((eq_iff a b).1 p)

state-available :
    (submitted pending accepted rejected : List String)
    → prover_verification_state submitted pending accepted rejected ≡ available
    → (is_empty submitted ≡ false) × (pending ≡ []) × (rejected ≡ [])
unfolding prover_verification_state
state-available [] pending accepted rejected h =
    absurd (texts_differ "not_submitted" available refl h)
state-available (x ∷ xs) [] accepted [] h = (refl, refl, refl)
state-available (x ∷ xs) (p ∷ ps) [] [] h =
    absurd (texts_differ "candidate_pending_verification" available refl h)
state-available (x ∷ xs) (p ∷ ps) (a ∷ more) [] h =
    absurd (texts_differ "mixed_candidates" available refl h)
state-available (x ∷ xs) (p ∷ ps) [] (r ∷ rs) h =
    absurd (texts_differ "mixed_candidates" available refl h)
state-available (x ∷ xs) (p ∷ ps) (a ∷ more) (r ∷ rs) h =
    absurd (texts_differ "mixed_candidates" available refl h)
state-available (x ∷ xs) [] [] (r ∷ rs) h =
    absurd (texts_differ "all_candidates_rejected" available refl h)
state-available (x ∷ xs) [] (a ∷ more) (r ∷ rs) h =
    absurd (texts_differ "mixed_candidates" available refl h)

-- When the replay of a log reports a bundle as having a verified candidate available, the bundle
-- has submitted proofs, and its submitted proofs are exactly its accepted ones; a bundle with a
-- pending or a rejected proof is never reported so.
pub available_means_accepted :
    (events : List StoredEvent) (states : Table String PhaseFeedbackState) (task_id : String)
    (s : PhaseFeedbackState)
    → feedback_states events ≡ ok states
    → lookup task_id states ≡ some s
    → verification_state s ≡ available
    → (is_empty s.submitted_proof_ids ≡ false)
      × (pending_ids s s.submitted_proof_ids ≡ [])
      × (s.rejected_proof_ids ≡ [])
      × ((p : String) → contains p s.submitted_proof_ids ≡ contains p s.accepted_proof_ids)
unfolding verification_state contains
available_means_accepted events states task_id s h found reported =
    let (some_proof, no_pending, no_rejected) =
      state-available s.submitted_proof_ids (pending_ids s s.submitted_proof_ids)
        s.accepted_proof_ids s.rejected_proof_ids reported in
    (
      some_proof,
      no_pending,
      no_rejected,
      λ p.
          let (_, verdicts, _, _) = proof_has_one_verdict events states task_id p s h found in
          ground (arith, ap (contains p) no_pending, ap (contains p) no_rejected, verdicts),
    )
