-- ===== src/Feedback/Summary.antt =====
-- projection.py: the summary of a bundle's proofs in `_phase_feedback`, and
-- `_prover_verification_state`.
use auto_lean.Base.{ℕ, not, ◌&&◌, List, [], ◌∷◌, String, ltb, string_Eq, if◌then◌else◌}
use auto_lean.Base.Lists.{contains, is_empty}
use auto_lean.Feedback.State.{PhaseFeedbackState}

-- The proofs without a verdict.
unfoldable pub pending_ids : PhaseFeedbackState → List String → List String
pending_ids s [] = []
pending_ids s (proof_id ∷ rest) =
    let pending = pending_ids s rest in
    if not (contains proof_id s.accepted_proof_ids) && not (contains proof_id s.rejected_proof_ids)
    then proof_id ∷ pending
    else pending

abbrev pub populated : List String → List String → List String → ℕ
populated (p ∷ pending) (a ∷ accepted) (r ∷ rejected) = 3
populated [] [] [] = 0
populated (p ∷ pending) [] [] = 1
populated [] (a ∷ accepted) [] = 1
populated [] [] (r ∷ rejected) = 1
populated _ _ _ = 2

unfoldable pub prover_verification_state :
    List String → List String → List String → List String → String
prover_verification_state submitted pending accepted rejected =
    if is_empty submitted
    then "not_submitted"
    else if ltb 1 (populated pending accepted rejected)
    then "mixed_candidates"
    else if not (is_empty pending)
    then "candidate_pending_verification"
    else if not (is_empty accepted)
    then "verified_candidate_available"
    else "all_candidates_rejected"

unfoldable pub verification_state : PhaseFeedbackState → String
verification_state s =
    prover_verification_state s.submitted_proof_ids (pending_ids s s.submitted_proof_ids)
      s.accepted_proof_ids s.rejected_proof_ids
