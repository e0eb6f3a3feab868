-- ===== src/Authorization/Endings.antt =====
-- model_authorization.py: what `settle` and `abandon` have checked and written when they returned.
use auto_lean.Base.{
  ℕ, ◌≤◌, ◌≡◌, ◌≢◌, refl, ap, ◌∙◌, Bool, true, false, not, ◌&&◌, ◌||◌, Option, none, some, List, [],
  ◌∷◌, ◌++◌, String, Result, ok, err, lookup, arith, string_Eq, ◌>>=◌, >>=-eq-ok, >>-eq-ok,
  guard_then-eq-ok, authorization_error, leb, if◌then◌else◌,
}
use auto_lean.Base.Int.{ℤ, pos_part, is_negative}
use auto_lean.Base.Lists.{contains}
use auto_lean.Authorization.{
  Authorization, Reservation, Encoding, AuthorizationDb, Clocks, cost_for_usage, success, failure,
  HealthRow,
}
use auto_lean.Authorization.Ledger.{
  States, ReservationState, Phase, is_reserved, is_settled, is_abandoned, reservation_states,
  assert_reservation_matches, validate_provider_failure_code, provider_health_failure_codes,
}
use auto_lean.Authorization.Circuit.{append_provider_health_event}
use auto_lean.Authorization.Operations.{
  verify_capability, stored_authorization, assert_active, append_ledger_event,
}
use auto_lean.Authorization.Reservations.{
  option_eq, settled_row, abandoned_row, settle_state, settle, abandon_state, abandon, same_code,
}
use auto_lean.Authorization.Inversion.{append_ledger_event-eq-ok}

-- The reservation has the numbers of the recorded state.
abbrev pub Matches : Reservation → ReservationState → Type 0
Matches r s =
    (r.attempt_number ≡ s.attempt_number)
    × (r.reserved_input_tokens ≡ s.reserved_input_tokens)
    × (r.reserved_output_tokens ≡ s.reserved_output_tokens)
    × (r.reserved_cost_microusd ≡ s.reserved_cost_microusd)

pub assert_reservation_matches-eq-ok :
    (r : Reservation) (found : Option ReservationState) {state : ReservationState}
    → assert_reservation_matches r found ≡ ok state
    → (found ≡ some state) × Matches r state
unfolding assert_reservation_matches
assert_reservation_matches-eq-ok r found h = ground (arith, h)

pub Matches-assert :
    (r : Reservation) (state : ReservationState)
    → Matches r state
    → assert_reservation_matches r (some state) ≡ ok state
unfolding assert_reservation_matches
Matches-assert r state h = ground (arith, h)

module _ (e : Encoding) where
  -- A reservation that was found in the ledger of its capability, with its state.
  pub record IsRecorded (r : Reservation) (a : Authorization) (states : States)
      (state : ReservationState) (db : AuthorizationDb e) : Type 0 where
    pub stored : stored_authorization e r.authorization_id db ≡ ok a
    pub replayed : reservation_states a.authorization_id db.ledger ≡ ok states
    pub found : lookup r.reservation_id states ≡ some state
    pub matches : Matches r state

  pub data IsSettle (a : Authorization) (r : Reservation) (usage : ℕ × ℕ × ℕ)
      (state : ReservationState) (db : AuthorizationDb e) (db' : AuthorizationDb e) : Type 0 where
    repeated :
        state.phase ≡ is_settled
        → (option_eq state.actual_input_tokens usage.0
            && option_eq state.actual_cached_input_tokens usage.1
            && option_eq state.actual_output_tokens usage.2)
          ≡ true
        → db ≡ db'
        → IsSettle a r usage state db db'
    made :
        (cost now : ℕ) (health : List HealthRow)
        → state.phase ≡ is_reserved
        → (usage.0 ≤ state.reserved_input_tokens)
          × (usage.2 ≤ state.reserved_output_tokens)
          × (cost ≤ state.reserved_cost_microusd)
        → record db {
          ledger = db.ledger ++ settled_row a.authorization_id r usage cost now ∷ [];
          health = health;
        }
          ≡ db'
        → IsSettle a r usage state db db'

  settle_state-IsSettle :
      (clocks : Clocks) (a : Authorization) (r : Reservation) (i c o : ℤ) (state : ReservationState)
      (phase : Phase) (db db' : AuthorizationDb e)
      → state.phase ≡ phase
      → settle_state e clocks a r i c o (record state { phase = phase }) db ≡ ok db'
      → IsSettle a r (pos_part i, pos_part c, pos_part o) state db db'
  unfolding settle_state
  settle_state-IsSettle clocks a r i c o state is_settled db db' phase h =
      let (same, done) =
        guard_then-eq-ok
          (option_eq state.actual_input_tokens (pos_part i)
            && option_eq state.actual_cached_input_tokens (pos_part c)
            && option_eq state.actual_output_tokens (pos_part o))
          authorization_error _ h in
      IsSettle.repeated phase same (ground (arith, done))
  settle_state-IsSettle clocks a r i c o state is_abandoned db db' phase h = cc
  settle_state-IsSettle clocks a r i c o state is_reserved db db' phase h =
      let (cost, _, h1) = >>=-eq-ok (cost_for_usage a.pricing i c o) _ h in
      let (bounds, h2) =
        guard_then-eq-ok
          (leb (pos_part i) state.reserved_input_tokens
            && leb (pos_part o) state.reserved_output_tokens
            && leb cost state.reserved_cost_microusd)
          authorization_error _ h1 in
      let row = settled_row a.authorization_id r (pos_part i, pos_part c, pos_part o) cost in
      let (db1, wrote, h3) = >>=-eq-ok (append_ledger_event e row clocks.recorded_at db) _ h2 in
      let (now, is) = append_ledger_event-eq-ok e row clocks.recorded_at db wrote in
      let (health, _, h4) =
        >>=-eq-ok
          (append_provider_health_event e a.provider success none clocks.health_at db1.health) _
          h3 in
      IsSettle.made cost now health phase (ground (arith, bounds))
        (ap (λ (d : AuthorizationDb e). record d { health = health }) is ∙ ground (arith, h4))

  pub settle-eq-ok :
      (clocks : Clocks) (r : Reservation) (i c o : ℤ) (db db' : AuthorizationDb e)
      → settle e clocks r i c o db ≡ ok db'
      → (a : Authorization) × (states : States) × (state : ReservationState) × IsRecorded r a states
          state db
        × (assert_active e clocks a db ≡ ok tt)
        × IsSettle a r (pos_part i, pos_part c, pos_part o) state db db'
  unfolding settle
  settle-eq-ok clocks r i c o db db' h =
      let (_, h1) =
        guard_then-eq-ok (not (is_negative i || is_negative c || is_negative o)) authorization_error
          _ h in
      let (_, h2) = guard_then-eq-ok (leb (pos_part c) (pos_part i)) authorization_error _ h1 in
      let (a, stored, h3) = >>=-eq-ok (stored_authorization e r.authorization_id db) _ h2 in
      let (_, h4) = >>-eq-ok (verify_capability e clocks a) _ h3 in
      let (active, h5) = >>-eq-ok (assert_active e clocks a db) _ h4 in
      let (states, replayed, h6) =
        >>=-eq-ok (reservation_states a.authorization_id db.ledger) _ h5 in
      let (state, matched, h7) =
        >>=-eq-ok (assert_reservation_matches r (lookup r.reservation_id states)) _ h6 in
      let (found, matches) =
        assert_reservation_matches-eq-ok r (lookup r.reservation_id states) matched in
      (
        a,
        states,
        state,
        record { stored = stored; replayed = replayed; found = found; matches = matches },
        active,
        settle_state-IsSettle clocks a r i c o state state.phase db db' refl h7,
      )

  with_health :
      (counts : Bool) (appended : Result (List HealthRow)) (db db' : AuthorizationDb e)
      → (if counts then (appended >>= λ health. ok (record db { health = health })) else ok db)
        ≡ ok db'
      → (health : List HealthRow) × (record db { health = health } ≡ db')
  with_health true (ok health) db db' h = (health, ground (arith, h))
  with_health true (err raised) db db' h = cc
  with_health false appended db db' h = (db.health, ground (arith, h))

  pub data IsAbandon (a : Authorization) (r : Reservation) (failure_code : String)
      (state : ReservationState) (db : AuthorizationDb e) (db' : AuthorizationDb e) : Type 0 where
    ended : state.phase ≢ is_reserved → db ≡ db' → IsAbandon a r failure_code state db db'
    dropped :
        (now : ℕ) (health : List HealthRow)
        → state.phase ≡ is_reserved
        → record db {
          ledger = db.ledger ++ abandoned_row a.authorization_id r failure_code now ∷ [];
          health = health;
        }
          ≡ db'
        → IsAbandon a r failure_code state db db'

  abandon_state-IsAbandon :
      (clocks : Clocks) (a : Authorization) (r : Reservation) (failure_code : String)
      (state : ReservationState) (phase : Phase) (db db' : AuthorizationDb e)
      → state.phase ≡ phase
      → abandon_state e clocks a r failure_code (record state { phase = phase }) db ≡ ok db'
      → IsAbandon a r failure_code state db db'
  unfolding abandon_state
  abandon_state-IsAbandon clocks a r failure_code state is_settled db db' phase h =
      IsAbandon.ended (λ running. ground (arith, running, phase)) (ground (arith, h))
  abandon_state-IsAbandon clocks a r failure_code state is_abandoned db db' phase h =
      let (_, done) =
        guard_then-eq-ok (same_code state.failure_code failure_code) authorization_error _ h in
      IsAbandon.ended (λ running. ground (arith, running, phase)) (ground (arith, done))
  abandon_state-IsAbandon clocks a r failure_code state is_reserved db db' phase h =
      let row = abandoned_row a.authorization_id r failure_code in
      let (db1, wrote, h1) = >>=-eq-ok (append_ledger_event e row clocks.recorded_at db) _ h in
      let (now, is) = append_ledger_event-eq-ok e row clocks.recorded_at db wrote in
      let (health, kept) =
        with_health (contains failure_code provider_health_failure_codes)
          (append_provider_health_event e a.provider failure (some failure_code) clocks.health_at
            db1.health)
          db1 db' h1 in
      IsAbandon.dropped now health phase
        (ap (λ (d : AuthorizationDb e). record d { health = health }) is ∙ kept)

  pub abandon-eq-ok :
      (clocks : Clocks) (r : Reservation) (failure_code : String) (db db' : AuthorizationDb e)
      → abandon e clocks r failure_code db ≡ ok db'
      → (a : Authorization) × (states : States) × (state : ReservationState) × IsRecorded r a states
          state db
        × (validate_provider_failure_code failure_code ≡ ok tt)
        × IsAbandon a r failure_code state db db'
  unfolding abandon
  abandon-eq-ok clocks r failure_code db db' h =
      let (valid, h1) = >>-eq-ok (validate_provider_failure_code failure_code) _ h in
      let (a, stored, h2) = >>=-eq-ok (stored_authorization e r.authorization_id db) _ h1 in
      let (states, replayed, h3) =
        >>=-eq-ok (reservation_states a.authorization_id db.ledger) _ h2 in
      let (state, matched, h4) =
        >>=-eq-ok (assert_reservation_matches r (lookup r.reservation_id states)) _ h3 in
      let (found, matches) =
        assert_reservation_matches-eq-ok r (lookup r.reservation_id states) matched in
      (
        a,
        states,
        state,
        record { stored = stored; replayed = replayed; found = found; matches = matches },
        valid,
        abandon_state-IsAbandon clocks a r failure_code state state.phase db db' refl h4,
      )
