-- ===== src/Feedback/Changes.antt =====
-- projection.py: what one event does to the proofs of a bundle.
use auto_lean.Base.{
  Bool, true, false, not, ◌&&◌, ◌||◌, Option, none, some, List, [], ◌∷◌, ◌++◌, String, ok,
  projection_error, ◌==◌, string_Eq, eq_iff, ◌≡◌, inl, inr, arith, >>=-eq-ok, guard_then-eq-ok,
  Bool-cases,
}
use auto_lean.Base.Lists.{contains, distinct, contains-append, distinct-append}
use auto_lean.Events.{StoredEvent}
use auto_lean.Feedback.{verification_accepted, is_verification}
use auto_lean.Feedback.State.{PhaseFeedbackState, Milestone, Review}
use auto_lean.Feedback.Replay.{submit, verify, open_review, replay_event, add_verdict, observe}

-- The proofs of a bundle: each is submitted once, and has at most one verdict.
pub record IsConsistent (submitted accepted rejected : List String) : Type 0 where
  pub submitted_once : distinct submitted ≡ true
  pub accepted_once : distinct accepted ≡ true
  pub rejected_once : distinct rejected ≡ true
  pub known :
      (p : String)
      → (contains p accepted || contains p rejected) ≡ true
      → contains p submitted ≡ true
  pub exclusive : (p : String) → (contains p accepted && contains p rejected) ≡ false

abbrev pub HasVerdicts : PhaseFeedbackState → Type 0
HasVerdicts s = IsConsistent s.submitted_proof_ids s.accepted_proof_ids s.rejected_proof_ids

-- What an event does to the proofs.
pub data Change (s s' : PhaseFeedbackState) : Type 0 where
  leaves :
      s'.submitted_proof_ids ≡ s.submitted_proof_ids
      → s'.accepted_proof_ids ≡ s.accepted_proof_ids
      → s'.rejected_proof_ids ≡ s.rejected_proof_ids
      → Change s s'
  submits :
      (p : String)
      → contains p s.submitted_proof_ids ≡ false
      → s'.submitted_proof_ids ≡ s.submitted_proof_ids ++ p ∷ []
      → s'.accepted_proof_ids ≡ s.accepted_proof_ids
      → s'.rejected_proof_ids ≡ s.rejected_proof_ids
      → Change s s'
  accepts :
      (p : String)
      → contains p s.submitted_proof_ids ≡ true
      → (contains p s.accepted_proof_ids || contains p s.rejected_proof_ids) ≡ false
      → s'.submitted_proof_ids ≡ s.submitted_proof_ids
      → s'.accepted_proof_ids ≡ s.accepted_proof_ids ++ p ∷ []
      → s'.rejected_proof_ids ≡ s.rejected_proof_ids
      → Change s s'
  rejects :
      (p : String)
      → contains p s.submitted_proof_ids ≡ true
      → (contains p s.accepted_proof_ids || contains p s.rejected_proof_ids) ≡ false
      → s'.submitted_proof_ids ≡ s.submitted_proof_ids
      → s'.accepted_proof_ids ≡ s.accepted_proof_ids
      → s'.rejected_proof_ids ≡ s.rejected_proof_ids ++ p ∷ []
      → Change s s'

submit-Change :
    (event : StoredEvent) (proof_id : String) (s s' : PhaseFeedbackState)
    → submit event proof_id s ≡ ok s'
    → Change s s'
unfolding submit
submit-Change event proof_id s s' h =
    Change.submits proof_id (ground arith) (ground arith) (ground arith) (ground arith)

open_review-Change :
    (event : StoredEvent) (review : Review) (s s' : PhaseFeedbackState)
    → open_review event review s ≡ ok s'
    → Change s s'
unfolding open_review
open_review-Change event review s s' h = Change.leaves (ground arith) (ground arith) (ground arith)

add_verdict-Change :
    (accepted : Bool) (p : String) (event : StoredEvent) (milestone : Milestone)
    (s s' : PhaseFeedbackState)
    → contains p s.submitted_proof_ids ≡ true
    → (contains p s.accepted_proof_ids || contains p s.rejected_proof_ids) ≡ false
    → ok (add_verdict accepted p (observe event milestone s)) ≡ ok s'
    → Change s s'
add_verdict-Change true p event milestone s s' known undecided h =
    Change.accepts p known undecided (ground arith) (ground arith) (ground arith)
add_verdict-Change false p event milestone s s' known undecided h =
    Change.rejects p known undecided (ground arith) (ground arith) (ground arith)

verify-Change :
    (event : StoredEvent) (proof_id : Option String) (s s' : PhaseFeedbackState)
    → verify event proof_id s ≡ ok s'
    → Change s s'
unfolding verify
verify-Change event none s s' h = cc
verify-Change event (some p) s s' h =
    let (known, h1) = guard_then-eq-ok (contains p s.submitted_proof_ids) projection_error _ h in
    let (undecided, h2) =
      guard_then-eq-ok (not (contains p s.accepted_proof_ids || contains p s.rejected_proof_ids))
        projection_error _ h1 in
    let (accepted, judged, same) = >>=-eq-ok (verification_accepted event) _ h2 in
    add_verdict-Change accepted p event _ s s' known (ground arith) same

pub replay_event-Change :
    (event : StoredEvent) (s s' : PhaseFeedbackState) → replay_event event s ≡ ok s' → Change s s'
unfolding replay_event
replay_event-Change event s s' h = elim (Bool-cases (event.event_type == "task.registered")) [
  | inl e ↦
      Change.leaves (ground (arith, rw e at h)) (ground (arith, rw e at h))
        (ground (arith, rw e at h))
  | inr e ↦ elim (Bool-cases (event.event_type == "proof.submitted")) [
    | inl f ↦ submit-Change event _ s s' (rw (e, f) at h)
    | inr f ↦ elim (Bool-cases (is_verification event.event_type)) [
      | inl g ↦ verify-Change event _ s s' (rw (e, f, g) at h)
      | inr g ↦
          elim (Bool-cases (
            event.event_type == "gap.reported"
            || event.event_type == "contract_change.requested")) [
              | inl k ↦ open_review-Change event _ s s' (rw (e, f, g, k) at h)
              | inr k ↦
                  let same : ok s ≡ ok s' = rw (e, f, g, k) at h in
                  Change.leaves (ground arith) (ground arith) (ground arith)
            ]
    ]
  ]
]

pub appended-IsConsistent :
    (p : String) (submitted accepted rejected : List String)
    → contains p submitted ≡ false
    → IsConsistent submitted accepted rejected
    → IsConsistent (submitted ++ p ∷ []) accepted rejected
appended-IsConsistent p submitted accepted rejected fresh v = record {
  submitted_once = distinct-append submitted p v.submitted_once fresh;
  accepted_once = v.accepted_once;
  rejected_once = v.rejected_once;
  known = λ q h. ground (arith, contains-append q submitted p, v.known q h);
  exclusive = v.exclusive;
}

pub accepted-IsConsistent :
    (p : String) (submitted accepted rejected : List String)
    → contains p submitted ≡ true
    → (contains p accepted || contains p rejected) ≡ false
    → IsConsistent submitted accepted rejected
    → IsConsistent submitted (accepted ++ p ∷ []) rejected
accepted-IsConsistent p submitted accepted rejected known undecided v = record {
  submitted_once = v.submitted_once;
  accepted_once = distinct-append accepted p v.accepted_once (ground arith);
  rejected_once = v.rejected_once;
  known = λ q h. ground (arith, contains-append q accepted p, v.known q, eq_iff p q);
  exclusive = λ q. ground (arith, contains-append q accepted p, v.exclusive q, eq_iff p q);
}

pub rejected-IsConsistent :
    (p : String) (submitted accepted rejected : List String)
    → contains p submitted ≡ true
    → (contains p accepted || contains p rejected) ≡ false
    → IsConsistent submitted accepted rejected
    → IsConsistent submitted accepted (rejected ++ p ∷ [])
rejected-IsConsistent p submitted accepted rejected known undecided v = record {
  submitted_once = v.submitted_once;
  accepted_once = v.accepted_once;
  rejected_once = distinct-append rejected p v.rejected_once (ground arith);
  known = λ q h. ground (arith, contains-append q rejected p, v.known q, eq_iff p q);
  exclusive = λ q. ground (arith, contains-append q rejected p, v.exclusive q, eq_iff p q);
}
