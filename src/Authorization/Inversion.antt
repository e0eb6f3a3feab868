-- ===== src/Authorization/Inversion.antt =====
-- model_authorization.py: what an operation that returned has checked and written.
use auto_lean.Base.{
  ℕ, ◌+◌, ◌<◌, ◌≡◌, refl, subst, ◌∙◌, true, ◌&&◌, [], ◌∷◌, ◌++◌, String, ok, arith, string_Eq,
  >>=-eq-ok, >>-eq-ok, guard_then-eq-ok, authorization_error, ltb,
}
use auto_lean.Base.Int.{ℤ, pos, negsuc, pos_part, is_positive}
use auto_lean.Leases.{Reading}
use auto_lean.Authorization.{
  Authorization, Reservation, Encoding, LedgerRow, AuthorizationDb, Clocks, CircuitSettings, now_of,
  reserve_cost,
}
use auto_lean.Authorization.Ledger.{States, UsageTotals, reservation_states, usage_totals}
use auto_lean.Authorization.Circuit.{assert_provider_circuit_closed}
use auto_lean.Authorization.Operations.{
  ModelRequest, validate_request_limits, validate_request_hashes, verify_capability,
  stored_authorization, assert_same_capability, assert_active, append_ledger_event, provider_eq,
  digest_eq,
}
use auto_lean.Authorization.Reservations.{reserved_row, check_budget, reserve_in_ledger, reserve}

validate_request_limits-eq-ok :
    (a : Authorization) (request : ModelRequest)
    → validate_request_limits a request ≡ ok tt
    → (is_positive request.requested_input_tokens && is_positive request.requested_output_tokens)
      ≡ true
unfolding validate_request_limits
validate_request_limits-eq-ok a request h =
    let (_, h1) =
      guard_then-eq-ok (provider_eq a.provider request.provider) authorization_error _ h in
    let (context, _, h2) =
      >>=-eq-ok (validate_request_hashes request.context_pack_hash request.outbound_request_hash) _
        h1 in
    let (_, h3) =
      guard_then-eq-ok (digest_eq context a.context_pack_hash) authorization_error _ h2 in
    let (_, h4) =
      guard_then-eq-ok (digest_eq request.outbound_request_hash a.request_hash) authorization_error
        _ h3 in
    let (positive, _) =
      guard_then-eq-ok
        (is_positive request.requested_input_tokens && is_positive request.requested_output_tokens)
        authorization_error _ h4 in
    positive

positive_part : (z : ℤ) → is_positive z ≡ true → 0 < pos_part z
positive_part (pos n) h = ground (arith, h)
positive_part (negsuc n) h = ground (arith, h)

module _ (e : Encoding) where
  pub append_ledger_event-eq-ok :
      (row : ℕ → LedgerRow) (clock : Reading) (db : AuthorizationDb e) {db' : AuthorizationDb e}
      → append_ledger_event e row clock db ≡ ok db'
      → (now : ℕ) × (record db { ledger = db.ledger ++ row now ∷ [] } ≡ db')
  unfolding append_ledger_event
  append_ledger_event-eq-ok row clock db h =
      let (now, _, same) = >>=-eq-ok (now_of clock) _ h in (now, ground (arith, same))

  -- What `reserve` has checked, and the row that it wrote.
  pub record IsReserve (clocks : Clocks) (a : Authorization) (request : ModelRequest)
      (reservation_id : String) (db : AuthorizationDb e) (r : Reservation) (db' : AuthorizationDb e)
      : Type 0 where
    pub states : States
    pub totals : UsageTotals
    pub now : ℕ
    pub stored : Authorization
    pub found : stored_authorization e a.authorization_id db ≡ ok stored
    pub same : assert_same_capability e stored a ≡ ok tt
    pub active : assert_active e clocks a db ≡ ok tt
    pub replayed : reservation_states a.authorization_id db.ledger ≡ ok states
    pub counted : usage_totals states ≡ ok totals
    pub room : ltb totals.attempts a.budget.max_attempts ≡ true
    pub named : r.reservation_id ≡ reservation_id
    pub own : r.authorization_id ≡ a.authorization_id
    pub number : r.attempt_number ≡ totals.attempts + 1
    pub input : 0 < r.reserved_input_tokens
    pub output : 0 < r.reserved_output_tokens
    pub asked_input : r.reserved_input_tokens ≡ pos_part request.requested_input_tokens
    pub asked_output : r.reserved_output_tokens ≡ pos_part request.requested_output_tokens
    pub priced :
        reserve_cost a.pricing request.requested_input_tokens request.requested_output_tokens
        ≡ ok r.reserved_cost_microusd
    pub checked :
        check_budget a.budget totals r.reserved_input_tokens r.reserved_output_tokens
          r.reserved_cost_microusd
        ≡ ok tt
    pub wrote : record db { ledger = db.ledger ++ reserved_row r now ∷ [] } ≡ db'

  pub reserve-IsReserve :
      (settings : CircuitSettings) (clocks : Clocks) (reservation_id : String) (a : Authorization)
      (request : ModelRequest) (db : AuthorizationDb e) (r : Reservation) (db' : AuthorizationDb e)
      → reserve e settings clocks reservation_id a request db ≡ ok (r, db')
      → IsReserve clocks a request reservation_id db r db'
  unfolding reserve reserve_in_ledger
  reserve-IsReserve settings clocks reservation_id a request db r db' h =
      let (_, h1) = >>-eq-ok (verify_capability e clocks a) _ h in
      let (limits, h2) = >>-eq-ok (validate_request_limits a request) _ h1 in
      let (stored, found, h3) = >>=-eq-ok (stored_authorization e a.authorization_id db) _ h2 in
      let (same, h4) = >>-eq-ok (assert_same_capability e stored a) _ h3 in
      let (active, h5) = >>-eq-ok (assert_active e clocks a db) _ h4 in
      let (_, h6) =
        >>-eq-ok
          (assert_provider_circuit_closed e settings request.provider clocks.circuit_at db.health) _
          h5 in
      let (states, replayed, h7) =
        >>=-eq-ok (reservation_states a.authorization_id db.ledger) _ h6 in
      let (totals, counted, h8) = >>=-eq-ok (usage_totals states) _ h7 in
      let (room, h9) =
        guard_then-eq-ok (ltb totals.attempts a.budget.max_attempts) authorization_error _ h8 in
      let (cost, priced, h10) =
        >>=-eq-ok
          (reserve_cost a.pricing request.requested_input_tokens request.requested_output_tokens) _
          h9 in
      let (checked, h11) =
        >>-eq-ok
          (check_budget a.budget totals (pos_part request.requested_input_tokens)
            (pos_part request.requested_output_tokens) cost)
          _ h10 in
      let (_, _, h12) = >>=-eq-ok (now_of clocks.reserved_at) _ h11 in
      let made : Reservation = record {
        reservation_id = reservation_id;
        authorization_id = a.authorization_id;
        attempt_number = totals.attempts + 1;
        reserved_input_tokens = pos_part request.requested_input_tokens;
        reserved_output_tokens = pos_part request.requested_output_tokens;
        reserved_cost_microusd = cost;
      } in
      let (db'', appended, last) =
        >>=-eq-ok (append_ledger_event e (reserved_row made) clocks.recorded_at db) _ h12 in
      let (now, wrote) =
        append_ledger_event-eq-ok (reserved_row made) clocks.recorded_at db appended in
      let is : made ≡ r = ground (arith, last) in
      let is_db : db'' ≡ db' = ground (arith, last) in
      let positive = validate_request_limits-eq-ok a request limits in
      subst (λ s. IsReserve clocks a request reservation_id db s db') is
        (record {
          states = states;
          totals = totals;
          now = now;
          stored = stored;
          found = found;
          same = same;
          active = active;
          replayed = replayed;
          counted = counted;
          room = room;
          named = refl;
          own = refl;
          number = refl;
          input = positive_part request.requested_input_tokens (ground (arith, positive));
          output = positive_part request.requested_output_tokens (ground (arith, positive));
          asked_input = refl;
          asked_output = refl;
          priced = priced;
          checked = checked;
          wrote = wrote ∙ is_db;
        })
