-- ===== src/Feedback/Verdicts.antt =====
-- projection.py: each submitted proof has one verdict at most, and is pending until it has one.
use auto_lean.Base.{
  ℕ, suc, true, false, not, ◌&&◌, ◌||◌, Option, none, some, List, [], ◌∷◌, String, Table, lookup,
  put, ok, projection_error, ◌>>=◌, ltb, ◌==◌, string_Eq, eq_iff, ◌≡◌, refl, inl, inr, arith,
  >>=-eq-ok, guard_then-eq-ok, subst, Option-cases, Bool-cases, lookup-put,
}
use auto_lean.Base.Lists.{contains, distinct}
use auto_lean.Json.{Json, obj}
use auto_lean.Events.{StoredEvent}
use auto_lean.Feedback.{event_task_id}
use auto_lean.Feedback.State.{
  PhaseFeedbackState, bound_state, phase_feedback_registration, add_state, register_states,
  is_present,
}
use auto_lean.Feedback.Replay.{replay_event, replay_bundle, replay_task, replay, feedback_states}
use auto_lean.Feedback.Summary.{pending_ids}
use auto_lean.Feedback.Changes.{
  IsConsistent, HasVerdicts, Change, replay_event-Change, appended-IsConsistent,
  accepted-IsConsistent, rejected-IsConsistent,
}

Change-HasVerdicts : (s s' : PhaseFeedbackState) → Change s s' → HasVerdicts s → HasVerdicts s'
Change-HasVerdicts s s' (Change.leaves e f g) v = rw (e, f, g) v
Change-HasVerdicts s s' (Change.submits p fresh e f g) v =
    rw (e, f, g) (appended-IsConsistent p _ _ _ fresh v)
Change-HasVerdicts s s' (Change.accepts p known undecided e f g) v =
    rw (e, f, g) (accepted-IsConsistent p _ _ _ known undecided v)
Change-HasVerdicts s s' (Change.rejects p known undecided e f g) v =
    rw (e, f, g) (rejected-IsConsistent p _ _ _ known undecided v)

abbrev AllVerdicts : Table String PhaseFeedbackState → Type 0
AllVerdicts states =
    (k : String) (s : PhaseFeedbackState) → lookup k states ≡ some s → HasVerdicts s

put-AllVerdicts :
    (k : String) (s : PhaseFeedbackState) (states : Table String PhaseFeedbackState)
    → HasVerdicts s
    → AllVerdicts states
    → AllVerdicts (put k s states)
put-AllVerdicts k s states v all j t found = elim (Bool-cases (k == j)) [
  | inl e ↦ let same : s ≡ t = cc (rw (lookup-put, e) at found) in subst HasVerdicts same v
  | inr e ↦ all j t (rw (lookup-put, e) at found)
]

replay_task-AllVerdicts :
    (event : StoredEvent) (task : Option String) (states states' : Table String PhaseFeedbackState)
    → replay_task event task states ≡ ok states'
    → AllVerdicts states
    → AllVerdicts states'
unfolding replay_task replay_bundle
replay_task-AllVerdicts event none states states' h all = subst AllVerdicts (ground arith) all
replay_task-AllVerdicts event (some task_id) states states' h all =
    elim (Option-cases (lookup task_id states)) [
      | inl e ↦
          let same : ok states ≡ ok states' = rw e at h in subst AllVerdicts (ground arith) all
      | inr (s, e) ↦
          let (later, h1) =
            guard_then-eq-ok (not (ltb event.global_position s.registration_event.global_position))
              projection_error (replay_event event s >>= λ s'. ok (put task_id s' states))
              (rw e at h) in
          let (s', replayed, same) = >>=-eq-ok (replay_event event s) _ h1 in
          subst AllVerdicts (ground (arith, same)) (
            put-AllVerdicts task_id s' states
              (Change-HasVerdicts s s' (replay_event-Change event s s' replayed) (all task_id s e))
              all)
    ]

replay-AllVerdicts :
    (events : List StoredEvent) (states states' : Table String PhaseFeedbackState)
    → replay events states ≡ ok states'
    → AllVerdicts states
    → AllVerdicts states'
unfolding replay
replay-AllVerdicts [] states states' h all = subst AllVerdicts (ground arith) all
replay-AllVerdicts (event ∷ events) states states' h all =
    let (mid, first, rest) = >>=-eq-ok (replay_task event (event_task_id event) states) _ h in
    replay-AllVerdicts events mid states' rest
      (replay_task-AllVerdicts event (event_task_id event) states mid first all)

empty-IsConsistent : IsConsistent [] [] []
unfolding contains distinct
empty-IsConsistent = record {
  submitted_once = refl;
  accepted_once = refl;
  rejected_once = refl;
  known = λ p h. h;
  exclusive = λ p. refl;
}

-- A bundle is registered with no proofs.
bound_state-HasVerdicts :
    (event : StoredEvent) (task_id : String) (contract_id : Option String) (revision : Option ℕ)
    (contract_hash bundle_hash : Option String) (attestation : Option Json) (s : PhaseFeedbackState)
    → bound_state event task_id contract_id revision contract_hash bundle_hash attestation ≡ some s
    → HasVerdicts s
bound_state-HasVerdicts event task_id (some i) (some (suc n)) (some h1) (some h2)
      (some (obj fields)) s h =
    let (e, f, g) : (s.submitted_proof_ids ≡ [])
        × (s.accepted_proof_ids ≡ [])
        × (s.rejected_proof_ids ≡ []) =
      ground arith in
    rw (e, f, g) empty-IsConsistent
bound_state-HasVerdicts event task_id _ _ _ _ _ s h = cc

registration-HasVerdicts :
    (event : StoredEvent) (task : Option String) (s : PhaseFeedbackState)
    → phase_feedback_registration event task ≡ some s
    → HasVerdicts s
unfolding phase_feedback_registration
registration-HasVerdicts event none s h = cc
registration-HasVerdicts event (some task_id) s h =
    bound_state-HasVerdicts event task_id _ _ _ _ _ s h

add_state-AllVerdicts :
    (event : StoredEvent) (task : Option String) (states states' : Table String PhaseFeedbackState)
    → add_state (phase_feedback_registration event task) states ≡ ok states'
    → AllVerdicts states
    → AllVerdicts states'
unfolding add_state
add_state-AllVerdicts event task states states' h all =
    elim (Option-cases (phase_feedback_registration event task)) [
      | inl e ↦
          let same : ok states ≡ ok states' = rw (e, add_state) at h in
          subst AllVerdicts (ground arith) all
      | inr (s, e) ↦
          let (fresh, same) =
            guard_then-eq-ok (not (is_present (lookup s.task_id states))) projection_error
              (ok (put s.task_id s states)) (rw (e, add_state) at h) in
          subst AllVerdicts (ground (arith, same))
            (put-AllVerdicts s.task_id s states (registration-HasVerdicts event task s e) all)
    ]

register_states-AllVerdicts :
    (events : List StoredEvent) (states states' : Table String PhaseFeedbackState)
    → register_states events states ≡ ok states'
    → AllVerdicts states
    → AllVerdicts states'
unfolding register_states
register_states-AllVerdicts [] states states' h all = subst AllVerdicts (ground arith) all
register_states-AllVerdicts (event ∷ events) states states' h all =
    elim (Bool-cases (event.event_type == "task.registered")) [
      | inl e ↦
          let (mid, first, rest) =
            >>=-eq-ok (add_state (phase_feedback_registration event (event_task_id event)) states) _
              (rw e at h) in
          register_states-AllVerdicts events mid states' rest
            (add_state-AllVerdicts event (event_task_id event) states mid first all)
      | inr e ↦ register_states-AllVerdicts events states states' (rw e at h) all
    ]

feedback_states-AllVerdicts :
    (events : List StoredEvent) (states : Table String PhaseFeedbackState)
    → feedback_states events ≡ ok states
    → AllVerdicts states
unfolding feedback_states lookup
feedback_states-AllVerdicts events states h =
    let (registered, first, rest) = >>=-eq-ok (register_states events []) _ h in
    replay-AllVerdicts events registered states rest
      (register_states-AllVerdicts events [] registered first (λ k s found. cc))

contains-pending_ids :
    (p : String) (s : PhaseFeedbackState) (ids : List String)
    → contains p (pending_ids s ids)
      ≡ (contains p ids && not (contains p s.accepted_proof_ids || contains p s.rejected_proof_ids))
unfolding contains pending_ids
contains-pending_ids p s [] = refl
contains-pending_ids p s (q ∷ ids) = ground (arith, contains-pending_ids p s ids, eq_iff q p)

-- When the replay of a log succeeds, the feedback of a bundle has each submitted proof once, and
-- each proof is submitted exactly if it stands in one of the lists of pending, accepted and
-- rejected proofs; it stands in no two of them.
pub proof_has_one_verdict :
    (events : List StoredEvent) (states : Table String PhaseFeedbackState) (task_id p : String)
    (s : PhaseFeedbackState)
    → feedback_states events ≡ ok states
    → lookup task_id states ≡ some s
    → (distinct s.submitted_proof_ids ≡ true)
      × (contains p s.submitted_proof_ids ≡ (
          contains p (pending_ids s s.submitted_proof_ids)
          || contains p s.accepted_proof_ids
          || contains p s.rejected_proof_ids))
      × ((contains p (pending_ids s s.submitted_proof_ids)
            && (contains p s.accepted_proof_ids || contains p s.rejected_proof_ids))
          ≡ false)
      × ((contains p s.accepted_proof_ids && contains p s.rejected_proof_ids) ≡ false)
proof_has_one_verdict events states task_id p s h found =
    let v = feedback_states-AllVerdicts events states h task_id s found in
    let pending = contains-pending_ids p s s.submitted_proof_ids in
    (v.submitted_once, ground (arith, pending, v.known p), ground (arith, pending), v.exclusive p)
