-- ===== src/Authorization/Ledger.antt =====
-- model_authorization.py: the states of the reservations that the ledger records, and their totals.
use auto_lean.Base.{
  ℕ, ◌+◌, Bool, true, false, ◌&&◌, Option, none, some, List, [], ◌∷◌, String, Result, ok, err,
  authorization_error, ◌>>=◌, ◌>>◌, guard, or_raise, Table, lookup, put, leb, nat_eq, ◌==◌,
  string_Eq, if◌then◌else◌,
}
use auto_lean.Base.Int.{ℤ, pos, negsuc}
use auto_lean.Base.Lists.{length, any, contains}
use auto_lean.Authorization.{
  LedgerRow, EventType, reserved, settled, abandoned, revoked, Reservation,
}

-- `_PROVIDER_FAILURE_CODES` and `_PROVIDER_HEALTH_FAILURE_CODES`
abbrev pub provider_health_failure_codes : List String
provider_health_failure_codes =
    "probe_failed_v1" ∷ "probe_invalid_v1" ∷ "generation_failed_v1" ∷ "response_invalid_v1" ∷ []

abbrev pub provider_failure_codes : List String
provider_failure_codes =
    "probe_capability_mismatch_v1" ∷ "settlement_rejected_v1" ∷ "local_policy_rejected_v1"
    ∷ provider_health_failure_codes

-- `_validate_provider_failure_code`
unfoldable pub validate_provider_failure_code : String → Result (Unit {0})
validate_provider_failure_code code =
    guard (contains code provider_failure_codes) authorization_error

pub data Phase : Type 0 where
  is_reserved is_settled is_abandoned : Phase

-- `_ReservationState`
pub record ReservationState : Type 0 where
  pub attempt_number : ℕ
  pub reserved_input_tokens : ℕ
  pub reserved_output_tokens : ℕ
  pub reserved_cost_microusd : ℕ
  pub phase : Phase
  pub actual_input_tokens : Option ℕ
  pub actual_cached_input_tokens : Option ℕ
  pub actual_output_tokens : Option ℕ
  pub actual_cost_microusd : Option ℕ
  pub failure_code : Option String

abbrev pub States : Type 0
States = Table String ReservationState

-- `_required_nonnegative_int`
unfoldable pub required_nonnegative_int : ℕ → Option ℤ → Result ℕ
required_nonnegative_int minimum none = err authorization_error
required_nonnegative_int minimum (some (negsuc n)) = err authorization_error
required_nonnegative_int minimum (some (pos n)) =
    if leb minimum n then ok n else err authorization_error

unfoldable pub reserved_state : LedgerRow → Result ReservationState
unfolding required_nonnegative_int
reserved_state row = do
  attempt_number ← required_nonnegative_int 1 row.attempt_number
  input_tokens ← required_nonnegative_int 1 row.reserved_input_tokens
  output_tokens ← required_nonnegative_int 1 row.reserved_output_tokens
  cost ← required_nonnegative_int 0 row.reserved_cost_microusd
  ok (record {
    attempt_number = attempt_number;
    reserved_input_tokens = input_tokens;
    reserved_output_tokens = output_tokens;
    reserved_cost_microusd = cost;
    phase = is_reserved;
    actual_input_tokens = none;
    actual_cached_input_tokens = none;
    actual_output_tokens = none;
    actual_cost_microusd = none;
    failure_code = none;
  })

unfoldable pub settled_state : LedgerRow → ReservationState → Result ReservationState
unfolding required_nonnegative_int
settled_state row state = do
  input_tokens ← required_nonnegative_int 0 row.actual_input_tokens
  cached ← required_nonnegative_int 0 row.actual_cached_input_tokens
  output_tokens ← required_nonnegative_int 0 row.actual_output_tokens
  cost ← required_nonnegative_int 0 row.actual_cost_microusd
  ok (record state {
    phase = is_settled;
    actual_input_tokens = some input_tokens;
    actual_cached_input_tokens = some cached;
    actual_output_tokens = some output_tokens;
    actual_cost_microusd = some cost;
  })

abbrev pub validate_row_reason : Option String → Result (Unit {0})
validate_row_reason none = ok tt
validate_row_reason (some code) = validate_provider_failure_code code

unfoldable pub abandoned_state : LedgerRow → ReservationState → Result ReservationState
unfolding validate_provider_failure_code
abandoned_state row state = do
  validate_row_reason row.reason
  ok (record state { phase = is_abandoned; failure_code = row.reason })

-- `state is None or state.state != "reserved"`
unfoldable pub open_state : Option ReservationState → Result ReservationState
open_state none = err authorization_error
open_state (some state) = elim state.phase [ is_reserved ↦ ok state | _ ↦ err authorization_error ]

abbrev pub nonempty_id : Option String → Result String
nonempty_id none = err authorization_error
nonempty_id (some reservation_id) =
    if reservation_id == "" then err authorization_error else ok reservation_id

-- A row that opens, settles or abandons the reservation of an identifier.
unfoldable pub apply_event : EventType → LedgerRow → String → States → Result States
unfolding reserved_state settled_state abandoned_state open_state
apply_event reserved row reservation_id states = elim (lookup reservation_id states) [
  | none ↦ reserved_state row >>= λ state. ok (put reservation_id state states)
  | some found ↦ err authorization_error
]
apply_event settled row reservation_id states = do
  state ← open_state (lookup reservation_id states)
  state' ← settled_state row state
  ok (put reservation_id state' states)
apply_event abandoned row reservation_id states = do
  state ← open_state (lookup reservation_id states)
  state' ← abandoned_state row state
  ok (put reservation_id state' states)
apply_event revoked row reservation_id states = ok states

abbrev pub is_revocation : EventType → Bool
is_revocation revoked = true
is_revocation _ = false

unfoldable pub apply_row : LedgerRow → States → Result States
unfolding apply_event
apply_row row states =
    if is_revocation row.event_type
    then ok states
    else (nonempty_id row.reservation_id >>= λ reservation_id.
        apply_event row.event_type row reservation_id states)

unfoldable pub replay_rows : List LedgerRow → States → Result States
unfolding apply_row
replay_rows [] states = ok states
replay_rows (row ∷ rows) states = do states' ← apply_row row states; replay_rows rows states'

-- `WHERE authorization_id = ?`
unfoldable pub rows_of : String → List LedgerRow → List LedgerRow
rows_of authorization_id [] = []
rows_of authorization_id (row ∷ rows) =
    let rest = rows_of authorization_id rows in
    if row.authorization_id == authorization_id then row ∷ rest else rest

-- `_reservation_states`
unfoldable pub reservation_states : String → List LedgerRow → Result States
unfolding rows_of replay_rows
reservation_states authorization_id ledger = replay_rows (rows_of authorization_id ledger) []

-- `_is_revoked`
unfoldable pub is_revoked : String → List LedgerRow → Bool
unfolding rows_of any
is_revoked authorization_id ledger =
    any (λ (row : LedgerRow). is_revocation row.event_type) (rows_of authorization_id ledger)

-- `_UsageTotals`
pub record UsageTotals : Type 0 where
  pub attempts : ℕ
  pub input_tokens : ℕ
  pub output_tokens : ℕ
  pub total_tokens : ℕ
  pub cost_microusd : ℕ

-- What one state adds to the input tokens, the output tokens and the cost.
unfoldable pub usage_of : ReservationState → Result (ℕ × ℕ × ℕ)
usage_of state = elim state.phase [
  | is_abandoned ↦ ok (0, 0, 0)
  | is_reserved ↦
      ok (state.reserved_input_tokens, state.reserved_output_tokens, state.reserved_cost_microusd)
  | is_settled ↦ (do
    input_tokens ← or_raise state.actual_input_tokens authorization_error
    output_tokens ← or_raise state.actual_output_tokens authorization_error
    cost ← or_raise state.actual_cost_microusd authorization_error
    ok (input_tokens, output_tokens, cost))
]

unfoldable pub add_usage : States → ℕ × ℕ × ℕ → Result (ℕ × ℕ × ℕ)
unfolding usage_of
add_usage [] sums = ok sums
add_usage ((reservation_id, state) ∷ states) (input_tokens, output_tokens, cost) = do
  usage ← usage_of state
  add_usage states (input_tokens + usage.0, output_tokens + usage.1, cost + usage.2)

unfoldable pub usage_totals : States → Result UsageTotals
unfolding add_usage
usage_totals states = do
  sums ← add_usage states (0, 0, 0)
  ok (record {
    attempts = length states;
    input_tokens = sums.0;
    output_tokens = sums.1;
    total_tokens = sums.0 + sums.1;
    cost_microusd = sums.2;
  })

-- `_assert_reservation_matches`
unfoldable pub assert_reservation_matches :
    Reservation → Option ReservationState → Result ReservationState
assert_reservation_matches reservation none = err authorization_error
assert_reservation_matches reservation (some state) = do
  guard
      (nat_eq reservation.attempt_number state.attempt_number
        && nat_eq reservation.reserved_input_tokens state.reserved_input_tokens
        && nat_eq reservation.reserved_output_tokens state.reserved_output_tokens
        && nat_eq reservation.reserved_cost_microusd state.reserved_cost_microusd)
      authorization_error
  ok state
