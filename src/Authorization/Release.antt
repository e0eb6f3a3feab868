-- ===== src/Authorization/Release.antt =====
-- model_authorization.py: a reservation can be released at any later time.
use auto_lean.Base.{
  ℕ, ◌≡◌, ◌≢◌, refl, sym, ap, subst, ◌∙◌, Bool, true, false, none, some, List, [], ◌∷◌, ◌++◌,
  String, Result, ok, put, lookup, lookup-put_self, arith, string_Eq, ◌==◌, ◌>>=◌, if◌then◌else◌,
}
use auto_lean.Base.Lists.{contains}
use auto_lean.Leases.{LeaseDb, Reading, aware}
use auto_lean.Authorization.{
  Authorization, Reservation, Encoding, IsLossless, AuthorizationDb, no_authorizations, Clocks,
  CircuitSettings, failure, now_of, HealthRow, Provider,
}
use auto_lean.Authorization.Ledger.{
  Phase, is_reserved, is_settled, is_abandoned, States, ReservationState, reservation_states,
  validate_provider_failure_code, provider_failure_codes, provider_health_failure_codes,
}
use auto_lean.Authorization.Circuit.{append_provider_health_event, health_code}
use auto_lean.Authorization.Operations.{ModelRequest, stored_authorization, append_ledger_event}
use auto_lean.Authorization.Reservations.{
  reserve, abandon, abandon_state, reserved_row, abandoned_row,
}
use auto_lean.Authorization.Records.{stored_authorization-eq-ok, reservation_states-append}
use auto_lean.Authorization.Within.{apply_row-reserved, opened_state}
use auto_lean.Authorization.Inversion.{IsReserve, reserve-IsReserve}
use auto_lean.Authorization.Endings.{Matches, Matches-assert, IsRecorded}
use auto_lean.Authorization.History.{Step, Reach, IsNewId}
use auto_lean.Authorization.Bounds.{Reach-Holds, empty-Holds}
use auto_lean.Authorization.Keeps.{kept_capability, same_capability}
use auto_lean.Authorization.Extension.{Reach-Extends}
use auto_lean.Authorization.Finality.{found_later}

health_code-valid :
    (code : String)
    → contains code provider_failure_codes ≡ true
    → contains code provider_health_failure_codes ≡ true
    → health_code (some code) ≡ ok tt
unfolding health_code validate_provider_failure_code
health_code-valid code known counts = rw (known, counts) refl

module _ (e : Encoding) where
  with_health_returns :
      (counts : Bool) (appended : Result (List HealthRow)) (db : AuthorizationDb e)
      → (counts ≡ true → (rows : List HealthRow) × (appended ≡ ok rows))
      → (db' : AuthorizationDb e) × ((if counts
            then (appended >>= λ health. ok (record db { health = health }))
            else ok db)
          ≡ ok db')
  with_health_returns true appended db returns =
      let (rows, done) = returns refl in (record db { health = rows }, rw done refl)
  with_health_returns false appended db returns = (db, refl)

  health_event_returns :
      (provider : Provider) (code : String) (clock : Reading) (now : ℕ) (rows : List HealthRow)
      → clock ≡ aware now
      → contains code provider_failure_codes ≡ true
      → contains code provider_health_failure_codes ≡ true
      → (rows' : List HealthRow) × (append_provider_health_event e provider failure
            (some code)
            clock
            rows
          ≡ ok rows')
  unfolding append_provider_health_event now_of
  health_event_returns provider code clock now rows at known counts =
      let row : HealthRow = record {
        binding_hash = e.binding_hash provider;
        binding_json = e.binding_json provider;
        event_type = failure;
        failure_code = some code;
        recorded_at = now;
      } in
      (row ∷ rows, rw (at, health_code-valid code known counts) refl)

  -- A stable failure code ends a reservation that is open, and a settled one stays.
  abandon_state_returns :
      (clocks : Clocks) (recorded health : ℕ) (a : Authorization) (r : Reservation) (code : String)
      (state : ReservationState) (phase : Phase) (db : AuthorizationDb e)
      → clocks.recorded_at ≡ aware recorded
      → clocks.health_at ≡ aware health
      → contains code provider_failure_codes ≡ true
      → phase ≢ is_abandoned
      → (db' : AuthorizationDb e) × (abandon_state e clocks a r code
            (record state { phase = phase })
            db
          ≡ ok db')
  unfolding abandon_state append_ledger_event append_provider_health_event now_of
  abandon_state_returns clocks recorded health a r code state is_settled db at at' known
        open_or_done =
      (db, refl)
  abandon_state_returns clocks recorded health a r code state is_abandoned db at at' known is_open =
      absurd (is_open refl)
  abandon_state_returns clocks recorded health a r code state is_reserved db at at' known is_open =
      let row = abandoned_row a.authorization_id r code recorded in
      let db1 : AuthorizationDb e = record db { ledger = db.ledger ++ row ∷ [] } in
      let (last, done) =
        with_health_returns (contains code provider_health_failure_codes)
          (append_provider_health_event e a.provider failure (some code) clocks.health_at db.health)
          db1
          (λ counts.
            health_event_returns a.provider code clocks.health_at health db.health at' known
              counts) in
      (last, rw at done)

  reserved_found :
      IsLossless e
      → (clocks : Clocks) (id : String) (a : Authorization) (request : ModelRequest)
        (db db' : AuthorizationDb e) (r : Reservation)
      → IsNewId e id a.authorization_id db
      → (made : IsReserve e clocks a request id db r db')
      → (states : States) × IsRecorded e r made.stored states (opened_state r) db'
  unfolding stored_authorization
  reserved_found lossless clocks id a request db db' r new made =
      let is_a = same_capability e lossless made.stored a made.same in
      let own : r.authorization_id ≡ made.stored.authorization_id =
        made.own ∙ ap (λ (b : Authorization). b.authorization_id) (sym is_a) in
      let named : (r.reservation_id == "") ≡ false = ap (λ k. k == "") made.named ∙ new.named in
      let fresh : lookup r.reservation_id made.states ≡ none =
        ap (λ k. lookup k made.states) made.named ∙ new.unused made.states made.replayed in
      let states = put r.reservation_id (opened_state r) made.states in
      (
        states,
        subst (IsRecorded e r made.stored states (opened_state r)) made.wrote (record {
          stored = ap (λ aid. stored_authorization e aid db) made.own ∙ made.found;
          replayed =
              reservation_states-append made.stored.authorization_id db.ledger
                (reserved_row r made.now) made.states states own
                (ap (λ (b : Authorization). reservation_states b.authorization_id db.ledger) is_a
                  ∙ made.replayed)
                (apply_row-reserved r made.now made.states named fresh (omega (arith, made.number))
                  made.input made.output);
          found = lookup-put_self r.reservation_id (opened_state r) made.states;
          matches = (refl, refl, refl, refl);
        }),
      )

  IsRecorded-abandon :
      (clocks : Clocks) (r : Reservation) (code : String) (a : Authorization) (states : States)
      (s : ReservationState) (db : AuthorizationDb e)
      → IsRecorded e r a states s db
      → contains code provider_failure_codes ≡ true
      → abandon e clocks r code db ≡ abandon_state e clocks a r code s db
  unfolding abandon validate_provider_failure_code
  IsRecorded-abandon clocks r code a states s db f known =
      rw (known, f.stored, f.replayed, f.found, Matches-assert r s f.matches) refl

  -- After `reserve` returned a reservation, in a history from empty tables where identifiers do
  -- not repeat, the ledger of its capability replays in every later state and has the reservation
  -- with the same numbers. Unless it was abandoned already, `abandon` returns then for every
  -- stable failure code, when the two clocks that it reads have a time zone.
  pub reservation_can_be_released :
      IsLossless e
      → (leases : LeaseDb) (db db' later : AuthorizationDb e) (settings : CircuitSettings)
        (clocks clocks' : Clocks) (recorded health : ℕ) (id code : String) (a : Authorization)
        (request : ModelRequest) (r : Reservation)
      → Reach e (no_authorizations e leases) db
      → IsNewId e id a.authorization_id db
      → reserve e settings clocks id a request db ≡ ok (r, db')
      → Reach e db' later
      → clocks'.recorded_at ≡ aware recorded
      → clocks'.health_at ≡ aware health
      → contains code provider_failure_codes ≡ true
      → (states : States) × (s : ReservationState) × (reservation_states r.authorization_id
            later.ledger
          ≡ ok states)
        × (lookup r.reservation_id states ≡ some s)
        × Matches r s
        × (s.phase ≢ is_abandoned
            → (last : AuthorizationDb e) × (abandon e clocks' r code later ≡ ok last))
  reservation_can_be_released lossless leases db db' later settings clocks clocks' recorded health
        id code a request r reach new h after at at' known =
      let v = Reach-Holds e lossless (empty-Holds e leases) reach in
      let made = reserve-IsReserve e settings clocks id a request db r db' h in
      let v' =
        Reach-Holds e lossless v
          (Reach.next Reach.here (Step.reserves settings clocks id a request r new h)) in
      let v'' = Reach-Holds e lossless v' after in
      let (states, f) = reserved_found lossless clocks id a request db db' r new made in
      let (states', s, f', follows) =
        found_later e r made.stored states (opened_state r) db' later v' v'' (Reach-Extends e after)
          f in
      let (row, listed, _) = stored_authorization-eq-ok e r.authorization_id later f'.stored in
      let k = v''.kept r.authorization_id row listed in
      let own : made.stored.authorization_id ≡ r.authorization_id =
        ap (λ (b : Authorization). b.authorization_id)
          (sym (kept_capability e r.authorization_id made.stored row later k listed f'.stored))
        ∙ k.own in
      (
        states',
        s,
        ap (λ aid. reservation_states aid later.ledger) (sym own) ∙ f'.replayed,
        f'.found,
        f'.matches,
        λ is_open.
            let (last, done) =
              abandon_state_returns clocks' recorded health made.stored r code s s.phase later at
                at' known is_open in
            (last, IsRecorded-abandon clocks' r code made.stored states' s later f' known ∙ done),
      )
