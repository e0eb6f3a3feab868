-- ===== src/Authorization/Reservations.antt =====
-- model_authorization.py: `preflight`, `reserve`, `settle` and `abandon`.
use auto_lean.Base.{
  ℕ, ◌+◌, Bool, true, false, not, ◌&&◌, ◌||◌, Option, none, some, String, Result, ok, err,
  authorization_error, ◌>>=◌, ◌>>◌, guard, nat_eq, lookup, leb, ltb, ◌==◌, string_Eq, if◌then◌else◌,
}
use auto_lean.Base.Int.{ℤ, pos, is_negative, pos_part}
use auto_lean.Base.Lists.{contains}
use auto_lean.Authorization.{
  Budget, Authorization, Reservation, Encoding, reserved, settled, abandoned, failure, success,
  LedgerRow, AuthorizationDb, Clocks, CircuitSettings, now_of, cost_for_usage, reserve_cost,
}
use auto_lean.Authorization.Ledger.{
  validate_provider_failure_code, provider_health_failure_codes, is_reserved, is_settled,
  is_abandoned, ReservationState, reservation_states, UsageTotals, usage_totals,
  assert_reservation_matches,
}
use auto_lean.Authorization.Circuit.{assert_provider_circuit_closed, append_provider_health_event}
use auto_lean.Authorization.Operations.{
  blank_row, ModelRequest, validate_request_limits, verify_capability, stored_authorization,
  assert_same_capability, assert_active, append_ledger_event,
}

-- `settle` compares the recorded usage with the observed.
abbrev pub option_eq : Option ℕ → ℕ → Bool
option_eq none n = false
option_eq (some m) n = nat_eq m n

-- `abandon` compares the recorded failure code, where there is one.
abbrev pub same_code : Option String → String → Bool
same_code none failure_code = true
same_code (some code) failure_code = code == failure_code

abbrev pub reserved_row : Reservation → ℕ → LedgerRow
reserved_row r now = record (blank_row r.authorization_id reserved now) {
  reservation_id = some r.reservation_id;
  attempt_number = some (pos r.attempt_number);
  reserved_input_tokens = some (pos r.reserved_input_tokens);
  reserved_output_tokens = some (pos r.reserved_output_tokens);
  reserved_cost_microusd = some (pos r.reserved_cost_microusd);
}

-- `usage` has the input, the cached input and the output tokens.
abbrev pub settled_row : String → Reservation → ℕ × ℕ × ℕ → ℕ → ℕ → LedgerRow
settled_row authorization_id r usage cost now = record (blank_row authorization_id settled now) {
  reservation_id = some r.reservation_id;
  attempt_number = some (pos r.attempt_number);
  actual_input_tokens = some (pos usage.0);
  actual_cached_input_tokens = some (pos usage.1);
  actual_output_tokens = some (pos usage.2);
  actual_cost_microusd = some (pos cost);
}

abbrev pub abandoned_row : String → Reservation → String → ℕ → LedgerRow
abandoned_row authorization_id r failure_code now =
    record (blank_row authorization_id abandoned now) {
      reservation_id = some r.reservation_id;
      attempt_number = some (pos r.attempt_number);
      reason = some failure_code;
    }

-- The checks of `reserve` on the totals, which leave room for the request.
unfoldable pub check_budget : Budget → UsageTotals → ℕ → ℕ → ℕ → Result (Unit {0})
check_budget budget totals input_tokens output_tokens cost = do
  guard (leb (totals.input_tokens + input_tokens) budget.max_input_tokens) authorization_error
  guard (leb (totals.output_tokens + output_tokens) budget.max_output_tokens) authorization_error
  guard (leb (totals.total_tokens + input_tokens + output_tokens) budget.max_total_tokens)
      authorization_error
  guard (leb (totals.cost_microusd + cost) budget.max_cost_microusd) authorization_error

module _ (e : Encoding) where
  unfoldable pub preflight :
      CircuitSettings
      → Clocks
      → Authorization
      → ModelRequest
      → AuthorizationDb e
      → Result (Unit {0})
  unfolding verify_capability validate_request_limits stored_authorization assert_same_capability
      assert_active assert_provider_circuit_closed
  preflight settings clocks a request db = do
    verify_capability e clocks a
    validate_request_limits a request
    stored ← stored_authorization e a.authorization_id db
    assert_same_capability e stored a
    assert_active e clocks a db
    assert_provider_circuit_closed e settings request.provider clocks.circuit_at db.health

  -- The part of `reserve` that reads the ledger and writes the reservation, under the identifier
  -- that the call makes from a uuid4.
  unfoldable pub reserve_in_ledger :
      Clocks
      → String
      → Authorization
      → ModelRequest
      → AuthorizationDb e
      → Result (Reservation × AuthorizationDb e)
  unfolding reservation_states usage_totals reserve_cost check_budget now_of append_ledger_event
  reserve_in_ledger clocks reservation_id a request db =
      let input_tokens = pos_part request.requested_input_tokens in
      let output_tokens = pos_part request.requested_output_tokens in
      do
        states ← reservation_states a.authorization_id db.ledger
        totals ← usage_totals states
        guard (ltb totals.attempts a.budget.max_attempts) authorization_error
        cost ← reserve_cost a.pricing request.requested_input_tokens request.requested_output_tokens
        check_budget a.budget totals input_tokens output_tokens cost
        now ← now_of clocks.reserved_at
        let reservation : Reservation = record {
          reservation_id = reservation_id;
          authorization_id = a.authorization_id;
          attempt_number = totals.attempts + 1;
          reserved_input_tokens = input_tokens;
          reserved_output_tokens = output_tokens;
          reserved_cost_microusd = cost;
        } in
            (append_ledger_event e (reserved_row reservation) clocks.recorded_at db >>= λ db'.
            ok (reservation, db'))

  unfoldable pub reserve :
      CircuitSettings
      → Clocks
      → String
      → Authorization
      → ModelRequest
      → AuthorizationDb e
      → Result (Reservation × AuthorizationDb e)
  unfolding verify_capability validate_request_limits stored_authorization assert_same_capability
      assert_active assert_provider_circuit_closed reserve_in_ledger
  reserve settings clocks reservation_id a request db = do
    verify_capability e clocks a
    validate_request_limits a request
    stored ← stored_authorization e a.authorization_id db
    assert_same_capability e stored a
    assert_active e clocks a db
    assert_provider_circuit_closed e settings request.provider clocks.circuit_at db.health
    reserve_in_ledger clocks reservation_id a request db

  -- `settle` on a state that is found and matches.
  unfoldable pub settle_state :
      Clocks
      → Authorization
      → Reservation
      → ℤ
      → ℤ
      → ℤ
      → ReservationState
      → AuthorizationDb e
      → Result (AuthorizationDb e)
  unfolding cost_for_usage append_ledger_event append_provider_health_event
  settle_state clocks a r input_tokens cached output_tokens state db = elim state.phase [
    | is_settled ↦ (do
      guard
          (option_eq state.actual_input_tokens (pos_part input_tokens)
            && option_eq state.actual_cached_input_tokens (pos_part cached)
            && option_eq state.actual_output_tokens (pos_part output_tokens))
          authorization_error
      ok db)
    | is_abandoned ↦ err authorization_error
    | is_reserved ↦ (do
      cost ← cost_for_usage a.pricing input_tokens cached output_tokens
      guard
          (leb (pos_part input_tokens) state.reserved_input_tokens
            && leb (pos_part output_tokens) state.reserved_output_tokens
            && leb cost state.reserved_cost_microusd)
          authorization_error
      db' ←
          append_ledger_event e
            (settled_row a.authorization_id r
              (pos_part input_tokens, pos_part cached, pos_part output_tokens) cost)
            clocks.recorded_at db
      health ← append_provider_health_event e a.provider success none clocks.health_at db'.health
      ok (record db' { health = health }))
  ]

  unfoldable pub settle :
      Clocks → Reservation → ℤ → ℤ → ℤ → AuthorizationDb e → Result (AuthorizationDb e)
  unfolding stored_authorization verify_capability assert_active reservation_states
      assert_reservation_matches settle_state
  settle clocks r input_tokens cached output_tokens db = do
    guard (not (is_negative input_tokens || is_negative cached || is_negative output_tokens))
        authorization_error
    guard (leb (pos_part cached) (pos_part input_tokens)) authorization_error
    a ← stored_authorization e r.authorization_id db
    verify_capability e clocks a
    assert_active e clocks a db
    states ← reservation_states a.authorization_id db.ledger
    state ← assert_reservation_matches r (lookup r.reservation_id states)
    settle_state clocks a r input_tokens cached output_tokens state db

  -- `abandon` on a state that is found and matches.
  unfoldable pub abandon_state :
      Clocks
      → Authorization
      → Reservation
      → String
      → ReservationState
      → AuthorizationDb e
      → Result (AuthorizationDb e)
  unfolding append_ledger_event append_provider_health_event
  abandon_state clocks a r failure_code state db = elim state.phase [
    | is_settled ↦ ok db
    | is_abandoned ↦ guard (same_code state.failure_code failure_code) authorization_error >> ok db
    | is_reserved ↦ (do
      db' ←
          append_ledger_event e (abandoned_row a.authorization_id r failure_code) clocks.recorded_at
            db
      if contains failure_code provider_health_failure_codes
          then (append_provider_health_event e a.provider failure (some failure_code)
                clocks.health_at db'.health
              >>= λ health. ok (record db' { health = health }))
          else ok db')
  ]

  unfoldable pub abandon :
      Clocks → Reservation → String → AuthorizationDb e → Result (AuthorizationDb e)
  unfolding validate_provider_failure_code stored_authorization reservation_states
      assert_reservation_matches abandon_state
  abandon clocks r failure_code db = do
    validate_provider_failure_code failure_code
    a ← stored_authorization e r.authorization_id db
    states ← reservation_states a.authorization_id db.ledger
    state ← assert_reservation_matches r (lookup r.reservation_id states)
    abandon_state clocks a r failure_code state db
