-- ===== src/Authorization/Growth.antt =====
-- model_authorization.py: the ledger only grows, and a recorded state only moves to its end.
use auto_lean.Base.{
  ◌≡◌, ◌≢◌, inl, inr, refl, sym, ap, subst, ◌∙◌, Bool-cases, false, Option, Option-cases, none,
  some, List, [], ◌∷◌, String, ok, err, lookup, put, lookup-put, arith, string_Eq, eq_iff, ◌==◌,
  ◌>>=◌, >>=-eq-ok, >>-eq-ok, authorization_error, if◌then◌else◌,
}
use auto_lean.Authorization.{LedgerRow, EventType, reserved, settled, abandoned, revoked}
use auto_lean.Authorization.Ledger.{
  is_reserved, States, ReservationState, is_revocation, apply_row, apply_event, replay_rows,
  reserved_state, settled_state, abandoned_state, open_state, nonempty_id, required_nonnegative_int,
  validate_row_reason,
}

-- A recorded state keeps the numbers of its reservation, and is not changed once it has ended.
pub record Follows (s s' : ReservationState) : Type 0 where
  pub attempt : s'.attempt_number ≡ s.attempt_number
  pub input : s'.reserved_input_tokens ≡ s.reserved_input_tokens
  pub output : s'.reserved_output_tokens ≡ s.reserved_output_tokens
  pub cost : s'.reserved_cost_microusd ≡ s.reserved_cost_microusd
  pub final : s.phase ≢ is_reserved → s' ≡ s

Follows-refl : (s : ReservationState) → Follows s s
Follows-refl s = record {
  attempt = refl;
  input = refl;
  output = refl;
  cost = refl;
  final = λ ended. refl;
}

Follows-trans : (s t u : ReservationState) → Follows s t → Follows t u → Follows s u
Follows-trans s t u f g = record {
  attempt = g.attempt ∙ f.attempt;
  input = g.input ∙ f.input;
  output = g.output ∙ f.output;
  cost = g.cost ∙ f.cost;
  final = λ ended.
      let same = f.final ended in
      g.final (λ running. ended (ap (λ (x : ReservationState). x.phase) (sym same) ∙ running))
      ∙ same;
}

open_state-eq-ok :
    (found : Option ReservationState) {s : ReservationState}
    → open_state found ≡ ok s
    → (found ≡ some s) × (s.phase ≡ is_reserved)
unfolding open_state
open_state-eq-ok found h = ground (arith, h)

settled_state-Follows :
    (row : LedgerRow) (s s' : ReservationState)
    → s.phase ≡ is_reserved
    → settled_state row s ≡ ok s'
    → Follows s s'
unfolding settled_state
settled_state-Follows row s s' phase h =
    let (i, _, h1) = >>=-eq-ok (required_nonnegative_int 0 row.actual_input_tokens) _ h in
    let (c, _, h2) = >>=-eq-ok (required_nonnegative_int 0 row.actual_cached_input_tokens) _ h1 in
    let (o, _, h3) = >>=-eq-ok (required_nonnegative_int 0 row.actual_output_tokens) _ h2 in
    let (k, _, h4) = >>=-eq-ok (required_nonnegative_int 0 row.actual_cost_microusd) _ h3 in
    record {
      attempt = ground (arith, h4);
      input = ground (arith, h4);
      output = ground (arith, h4);
      cost = ground (arith, h4);
      final = λ ended. absurd (ended phase);
    }

abandoned_state-Follows :
    (row : LedgerRow) (s s' : ReservationState)
    → s.phase ≡ is_reserved
    → abandoned_state row s ≡ ok s'
    → Follows s s'
unfolding abandoned_state
abandoned_state-Follows row s s' phase h =
    let (_, h1) = >>-eq-ok (validate_row_reason row.reason) _ h in
    record {
      attempt = ground (arith, h1);
      input = ground (arith, h1);
      output = ground (arith, h1);
      cost = ground (arith, h1);
      final = λ ended. absurd (ended phase);
    }

-- The state that `id` has afterwards.
unfoldable pub After : String → ReservationState → States → Type 0
After id s states = (s' : ReservationState) × (lookup id states ≡ some s') × Follows s s'

After-here :
    (id : String) (s : ReservationState) (states : States)
    → lookup id states ≡ some s
    → After id s states
unfolding After
After-here id s states found = (s, found, Follows-refl s)

put-After :
    (k id : String) (t t' s : ReservationState) (states : States)
    → lookup k states ≡ some t
    → Follows t t'
    → lookup id states ≡ some s
    → After id s (put k t' states)
unfolding After
put-After k id t t' s states found f h = elim (Bool-cases (k == id)) [
  | inl same ↦
      let is : t ≡ s = ground (arith, found, h, same, eq_iff k id) in
      (t', lookup-put k id t' states ∙ rw same refl, subst (λ x. Follows x t') is f)
  | inr other ↦ (s, lookup-put k id t' states ∙ rw other h, Follows-refl s)
]

apply_event-After :
    (event : EventType) (row : LedgerRow) (k id : String) (s : ReservationState)
    (states states' : States)
    → apply_event event row k states ≡ ok states'
    → lookup id states ≡ some s
    → After id s states'
unfolding apply_event After
apply_event-After reserved row k id s states states' h found =
    elim (Option-cases (lookup k states)) [
      | inl free ↦
          let made : (reserved_state row >>= λ state. ok (put k state states)) ≡ ok states' =
            subst
              (λ o.
                elim o [
                  | none ↦ reserved_state row >>= λ state. ok (put k state states)
                  | some found ↦ err authorization_error
                ]
                ≡ ok states')
              free h in
          let (state, _, done) = >>=-eq-ok (reserved_state row) _ made in
          let is : put k state states ≡ states' = ground (arith, done) in
          let other : (k == id) ≡ false = ground (arith, free, found, eq_iff k id) in
          (
            s,
            ap (lookup id) (sym is) ∙ lookup-put k id state states ∙ rw other found,
            Follows-refl s,
          )
      | inr (t, taken) ↦
          let refused : err authorization_error ≡ ok states' =
            subst
              (λ o.
                elim o [
                  | none ↦ reserved_state row >>= λ state. ok (put k state states)
                  | some found ↦ err authorization_error
                ]
                ≡ ok states')
              taken h in
          cc
    ]
apply_event-After settled row k id s states states' h found =
    let (t, opened, h1) = >>=-eq-ok (open_state (lookup k states)) _ h in
    let (t', moved, done) = >>=-eq-ok (settled_state row t) _ h1 in
    let (at, phase) = open_state-eq-ok (lookup k states) opened in
    let is : put k t' states ≡ states' = ground (arith, done) in
    subst (After id s) is
      (put-After k id t t' s states at (settled_state-Follows row t t' phase moved) found)
apply_event-After abandoned row k id s states states' h found =
    let (t, opened, h1) = >>=-eq-ok (open_state (lookup k states)) _ h in
    let (t', moved, done) = >>=-eq-ok (abandoned_state row t) _ h1 in
    let (at, phase) = open_state-eq-ok (lookup k states) opened in
    let is : put k t' states ≡ states' = ground (arith, done) in
    subst (After id s) is
      (put-After k id t t' s states at (abandoned_state-Follows row t t' phase moved) found)
apply_event-After revoked row k id s states states' h found =
    let is : states ≡ states' = ground (arith, h) in
    (s, ap (lookup id) (sym is) ∙ found, Follows-refl s)

apply_row-After :
    (row : LedgerRow) (id : String) (s : ReservationState) (states states' : States)
    → apply_row row states ≡ ok states'
    → lookup id states ≡ some s
    → After id s states'
unfolding apply_row
apply_row-After row id s states states' h found = elim (Bool-cases (is_revocation row.event_type)) [
  | inl revokes ↦
      let is : states ≡ states' = ground (arith, h, revokes) in
      subst (After id s) is (After-here id s states found)
  | inr other ↦
      let applied : (nonempty_id row.reservation_id >>= λ k.
      apply_event row.event_type row k states)
          ≡ ok states' =
        subst
          (λ b.
            (if b
              then ok states
              else (nonempty_id row.reservation_id >>= λ k.
                  apply_event row.event_type row k states))
            ≡ ok states')
          other h in
      let (k, _, h1) = >>=-eq-ok (nonempty_id row.reservation_id) _ applied in
      apply_event-After row.event_type row k id s states states' h1 found
]

pub replay_rows-After :
    (rows : List LedgerRow) (id : String) (s : ReservationState) (states states' : States)
    → replay_rows rows states ≡ ok states'
    → lookup id states ≡ some s
    → After id s states'
unfolding replay_rows After
replay_rows-After [] id s states states' h found =
    let is : states ≡ states' = ground (arith, h) in
    (s, ap (lookup id) (sym is) ∙ found, Follows-refl s)
replay_rows-After (row ∷ rows) id s states states' h found =
    let (next, first, rest) = >>=-eq-ok (apply_row row states) _ h in
    let (t, found', f) = apply_row-After row id s states next first found in
    let (u, found'', g) = replay_rows-After rows id t next states' rest found' in
    (u, found'', Follows-trans s t u f g)
