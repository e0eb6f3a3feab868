-- ===== src/Authorization/Within.antt =====
-- model_authorization.py: the states of a capability within its budget, and the rows that keep them.
use auto_lean.Base.{
  ℕ, suc, ◌+◌, ◌≤◌, ◌<◌, ◌≡◌, refl, sym, subst, ◌∙◌, true, false, none, some, [], String, ok,
  lookup, put, lookup-put, arith, string_Eq, eq_iff, ◌==◌, ltb,
}
use auto_lean.Base.Lists.{length, All}
use auto_lean.Authorization.{Budget, Reservation}
use auto_lean.Authorization.Ledger.{
  is_reserved, is_settled, is_abandoned, ReservationState, States, UsageTotals, usage_of,
  required_nonnegative_int, reserved_state, settled_state, abandoned_state, open_state, apply_event,
  apply_row, validate_provider_failure_code,
}
use auto_lean.Authorization.Reservations.{reserved_row, settled_row, abandoned_row, check_budget}
use auto_lean.Authorization.States.{
  input_charge, output_charge, cost_charge, sum_of, IsWhole, Numbered, totals_of, put_fresh,
  sum_of-put_fresh, sum_of-put, length-put_fresh, length-put, All-put, Numbered-append,
  Numbered-put,
}

-- Every attempt is recorded whole, under a number of its own, and together they stay in the budget.
pub record IsWithin (budget : Budget) (states : States) : Type 0 where
  pub whole : All IsWhole states
  pub numbered : Numbered 0 states
  pub keyed : lookup "" states ≡ none
  pub attempts : length states ≤ budget.max_attempts
  pub input : sum_of input_charge states ≤ budget.max_input_tokens
  pub output : sum_of output_charge states ≤ budget.max_output_tokens
  pub total : sum_of input_charge states + sum_of output_charge states ≤ budget.max_total_tokens
  pub cost : sum_of cost_charge states ≤ budget.max_cost_microusd

pub no_states-IsWithin : (budget : Budget) → IsWithin budget []
unfolding lookup sum_of
no_states-IsWithin budget = record {
  whole = tt;
  numbered = tt;
  keyed = refl;
  attempts = omega arith;
  input = omega arith;
  output = omega arith;
  total = omega arith;
  cost = omega arith;
}

abbrev pub opened_state : Reservation → ReservationState
opened_state r = record {
  attempt_number = r.attempt_number;
  reserved_input_tokens = r.reserved_input_tokens;
  reserved_output_tokens = r.reserved_output_tokens;
  reserved_cost_microusd = r.reserved_cost_microusd;
  phase = is_reserved;
  actual_input_tokens = none;
  actual_cached_input_tokens = none;
  actual_output_tokens = none;
  actual_cost_microusd = none;
  failure_code = none;
}

-- A state after its settlement, with the input, the cached input and the output tokens.
abbrev pub with_usage : ReservationState → ℕ × ℕ × ℕ → ℕ → ReservationState
with_usage state usage cost = record state {
  phase = is_settled;
  actual_input_tokens = some usage.0;
  actual_cached_input_tokens = some usage.1;
  actual_output_tokens = some usage.2;
  actual_cost_microusd = some cost;
}

abbrev pub with_failure : ReservationState → String → ReservationState
with_failure state failure_code = record state {
  phase = is_abandoned;
  failure_code = some failure_code;
}

reserved_state-row :
    (r : Reservation) (now : ℕ)
    → 0 < r.attempt_number
    → 0 < r.reserved_input_tokens
    → 0 < r.reserved_output_tokens
    → reserved_state (reserved_row r now) ≡ ok (opened_state r)
unfolding reserved_state required_nonnegative_int
reserved_state-row r now a i o = ground (arith, a, i, o)

pub apply_row-reserved :
    (r : Reservation) (now : ℕ) (states : States)
    → (r.reservation_id == "") ≡ false
    → lookup r.reservation_id states ≡ none
    → 0 < r.attempt_number
    → 0 < r.reserved_input_tokens
    → 0 < r.reserved_output_tokens
    → apply_row (reserved_row r now) states ≡ ok (put r.reservation_id (opened_state r) states)
unfolding apply_row apply_event
apply_row-reserved r now states named fresh a i o =
    rw (named, apply_event, fresh, reserved_state-row r now a i o) refl

-- The key of a state that is found is not empty.
pub IsWithin-key :
    {budget : Budget} (k : String) (s : ReservationState) (states : States)
    → IsWithin budget states
    → lookup k states ≡ some s
    → (k == "") ≡ false
IsWithin-key k s states v h = ground (arith, h, v.keyed, eq_iff k "")

pub apply_row-settled :
    (authorization_id : String) (r : Reservation) (usage : ℕ × ℕ × ℕ) (cost now : ℕ)
    (state : ReservationState) (states : States)
    → (r.reservation_id == "") ≡ false
    → lookup r.reservation_id states ≡ some state
    → state.phase ≡ is_reserved
    → apply_row (settled_row authorization_id r usage cost now) states
      ≡ ok (put r.reservation_id (with_usage state usage cost) states)
unfolding apply_row apply_event open_state settled_state required_nonnegative_int
apply_row-settled authorization_id r usage cost now state states named found phase =
    rw (named, found, phase) (ground arith)

pub apply_row-abandoned :
    (authorization_id : String) (r : Reservation) (failure_code : String) (now : ℕ)
    (state : ReservationState) (states : States)
    → (r.reservation_id == "") ≡ false
    → lookup r.reservation_id states ≡ some state
    → state.phase ≡ is_reserved
    → validate_provider_failure_code failure_code ≡ ok tt
    → apply_row (abandoned_row authorization_id r failure_code now) states
      ≡ ok (put r.reservation_id (with_failure state failure_code) states)
unfolding apply_row apply_event open_state abandoned_state
apply_row-abandoned authorization_id r failure_code now state states named found phase valid =
    rw (named, found, phase, valid) refl

check_budget-eq-ok :
    (budget : Budget) (totals : UsageTotals) (i o c : ℕ)
    → check_budget budget totals i o c ≡ ok tt
    → (totals.input_tokens + i ≤ budget.max_input_tokens)
      × (totals.output_tokens + o ≤ budget.max_output_tokens)
      × (totals.total_tokens + i + o ≤ budget.max_total_tokens)
      × (totals.cost_microusd + c ≤ budget.max_cost_microusd)
unfolding check_budget
check_budget-eq-ok budget totals i o c h = ground (arith, h)

-- A reservation that the checks let through keeps the states within the budget.
pub put_reserved :
    (budget : Budget) (r : Reservation) (states : States)
    → IsWithin budget states
    → (r.reservation_id == "") ≡ false
    → lookup r.reservation_id states ≡ none
    → r.attempt_number ≡ suc (length states)
    → ltb (length states) budget.max_attempts ≡ true
    → check_budget budget
        (totals_of states)
        r.reserved_input_tokens
        r.reserved_output_tokens
        r.reserved_cost_microusd
      ≡ ok tt
    → IsWithin budget (put r.reservation_id (opened_state r) states)
unfolding usage_of
put_reserved budget r states v named fresh number room checked =
    let k = r.reservation_id in
    let s = opened_state r in
    let (i_room, o_room, t_room, c_room) =
      check_budget-eq-ok budget (totals_of states) r.reserved_input_tokens r.reserved_output_tokens
        r.reserved_cost_microusd checked in
    let i_sum = sum_of-put_fresh input_charge k s states fresh in
    let o_sum = sum_of-put_fresh output_charge k s states fresh in
    let c_sum = sum_of-put_fresh cost_charge k s states fresh in
    record {
      whole = All-put IsWhole k s states v.whole refl;
      numbered =
          subst (Numbered 0) (sym (put_fresh k s states fresh))
            (Numbered-append 0 states k s v.numbered (omega (arith, number)));
      keyed = lookup-put k "" s states ∙ rw named v.keyed;
      attempts = rw (length-put_fresh k s states fresh) (ground (arith, room));
      input = rw i_sum (omega (arith, i_room));
      output = rw o_sum (omega (arith, o_room));
      total = rw (i_sum, o_sum) (omega (arith, t_room));
      cost = rw c_sum (omega (arith, c_room));
    }

-- A state that takes no more than before keeps them there.
pub put_smaller :
    (budget : Budget) (k : String) (s s' : ReservationState) (states : States)
    → IsWithin budget states
    → lookup k states ≡ some s
    → s'.attempt_number ≡ s.attempt_number
    → IsWhole (k, s')
    → input_charge s' ≤ input_charge s
    → output_charge s' ≤ output_charge s
    → cost_charge s' ≤ cost_charge s
    → IsWithin budget (put k s' states)
put_smaller budget k s s' states v found same whole i o c =
    let i_sum = sum_of-put input_charge k s' s states found in
    let o_sum = sum_of-put output_charge k s' s states found in
    let c_sum = sum_of-put cost_charge k s' s states found in
    record {
      whole = All-put IsWhole k s' states v.whole whole;
      numbered = Numbered-put 0 k s' s states found same v.numbered;
      keyed = lookup-put k "" s' states ∙ rw (IsWithin-key k s states v found) v.keyed;
      attempts = rw (length-put k s' s states found) v.attempts;
      input = omega (arith, i_sum, i, v.input);
      output = omega (arith, o_sum, o, v.output);
      total = omega (arith, i_sum, o_sum, i, o, v.total);
      cost = omega (arith, c_sum, c, v.cost);
    }
