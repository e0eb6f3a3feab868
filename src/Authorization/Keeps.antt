-- ===== src/Authorization/Keeps.antt =====
-- model_authorization.py: every operation that reserves, settles or releases stays in the budget.
use auto_lean.Base.{
  ℕ, suc, ◌≤◌, ◌≡◌, refl, sym, ap, subst, ◌∙◌, false, none, some, [], ◌∷◌, ◌++◌, String, ok, lookup,
  put, arith, string_Eq, ◌==◌, guard-eq-ok, authorization_error, ltb,
}
use auto_lean.Base.Lists.{length}
use auto_lean.Authorization.{
  Authorization, Reservation, Encoding, IsLossless, LedgerRow, AuthorizationRow, AuthorizationDb,
  Clocks,
}
use auto_lean.Authorization.Ledger.{
  States, ReservationState, UsageTotals, reservation_states, usage_totals,
}
use auto_lean.Authorization.Ledger.{apply_row, usage_of, validate_provider_failure_code}
use auto_lean.Authorization.Operations.{ModelRequest, stored_authorization, assert_same_capability}
use auto_lean.Authorization.Reservations.{check_budget, reserved_row, settled_row, abandoned_row}
use auto_lean.Authorization.States.{
  IsWhole, input_charge, output_charge, cost_charge, totals_of, usage_totals-sums,
}
use auto_lean.Authorization.Within.{
  IsWithin, IsWithin-key, apply_row-reserved, apply_row-settled, apply_row-abandoned, put_reserved,
  put_smaller, opened_state, with_usage, with_failure,
}
use auto_lean.Authorization.Records.{
  IsAccounted, IsLedger, IsLedger-append, stored_authorization-IsAccounted,
  stored_authorization-eq-ok,
}
use auto_lean.Authorization.Inversion.{IsReserve}
use auto_lean.Authorization.Endings.{IsRecorded, IsSettle, IsAbandon}
use auto_lean.Authorization.History.{IsNewId}

module _ (e : Encoding) where
  -- The invariant of a database.
  abbrev pub Holds : AuthorizationDb e → Type 0
  Holds db = IsLedger e db.authorizations db.ledger

  pub Holds-moved :
      (db db' : AuthorizationDb e)
      → db.authorizations ≡ db'.authorizations
      → db.ledger ≡ db'.ledger
      → Holds db
      → Holds db'
  Holds-moved db db' a l v =
      subst (λ x. IsLedger e x db'.ledger) a (subst (λ x. IsLedger e db.authorizations x) l v)

  pub same_capability :
      IsLossless e → (a b : Authorization) → assert_same_capability e a b ≡ ok tt → a ≡ b
  unfolding assert_same_capability
  same_capability lossless a b h =
      let same =
        (e.doc_Eq.beq_iff (e.dumps a) (e.dumps b)).0
          (guard-eq-ok (e.doc_Eq.beq (e.dumps a) (e.dumps b)) authorization_error h) in
      let parsed : some a ≡ some b =
        sym (lossless.parse-dumps a) ∙ ap e.parse same ∙ lossless.parse-dumps b in
      ground (arith, parsed)

  -- The stored capability of an identifier is the one that the invariant keeps.
  pub kept_capability :
      (aid : String) (a : Authorization) (row : AuthorizationRow e) (db : AuthorizationDb e)
      (k : IsAccounted e aid row db.ledger)
      → lookup aid db.authorizations ≡ some row
      → stored_authorization e aid db ≡ ok a
      → k.capability ≡ a
  kept_capability aid a row db k found h =
      let same : ok k.capability ≡ ok a =
        sym (stored_authorization-IsAccounted e aid row db k found) ∙ h in
      ground (arith, same)

  pub reserve_next :
      IsLossless e
      → (clocks : Clocks) (reservation_id : String) (a : Authorization) (request : ModelRequest)
        (db db' : AuthorizationDb e) (r : Reservation)
      → IsNewId e reservation_id a.authorization_id db
      → (made : IsReserve e clocks a request reservation_id db r db') (row : AuthorizationRow e)
        (k : IsAccounted e r.authorization_id row db.ledger)
      → lookup r.authorization_id db.authorizations ≡ some row
      → (states' : States) × (apply_row (reserved_row r made.now) k.states ≡ ok states')
        × IsWithin k.capability.budget states'
  reserve_next lossless clocks reservation_id a request db db' r new made row k found =
      let capability : k.capability ≡ a =
        kept_capability r.authorization_id made.stored row db k found
          (ap (λ aid. stored_authorization e aid db) made.own ∙ made.found)
        ∙ same_capability lossless made.stored a made.same in
      let states_are : ok made.states ≡ ok k.states =
        sym made.replayed
        ∙ ap (λ aid. reservation_states aid db.ledger) (sym made.own)
        ∙ k.replayed in
      let states : made.states ≡ k.states = ground (arith, states_are) in
      let totals_are : ok made.totals ≡ ok (totals_of k.states) =
        sym made.counted ∙ ap usage_totals states ∙ usage_totals-sums k.states k.within.whole in
      let totals : made.totals ≡ totals_of k.states = ground (arith, totals_are) in
      let number : r.attempt_number ≡ suc (length k.states) =
        omega (arith, made.number, ap (λ (t : UsageTotals). t.attempts) totals) in
      let named : (r.reservation_id == "") ≡ false = ap (λ id. id == "") made.named ∙ new.named in
      let fresh : lookup r.reservation_id k.states ≡ none =
        ap (λ id. lookup id k.states) made.named
        ∙ new.unused k.states (made.replayed ∙ states_are) in
      (
        put r.reservation_id (opened_state r) k.states,
        apply_row-reserved r made.now k.states named fresh (omega (arith, number)) made.input
            made.output,
        put_reserved k.capability.budget r k.states k.within named fresh number
            (rw capability (
              ap (λ (t : UsageTotals). ltb t.attempts a.budget.max_attempts) (sym totals)
              ∙ made.room))
            (rw capability (
              ap
                (λ t.
                  check_budget a.budget t r.reserved_input_tokens r.reserved_output_tokens
                    r.reserved_cost_microusd)
                (sym totals)
              ∙ made.checked)),
      )

  pub reserves-Holds :
      IsLossless e
      → (clocks : Clocks) (reservation_id : String) (a : Authorization) (request : ModelRequest)
        (db db' : AuthorizationDb e) (r : Reservation)
      → Holds db
      → IsNewId e reservation_id a.authorization_id db
      → IsReserve e clocks a request reservation_id db r db'
      → Holds db'
  reserves-Holds lossless clocks reservation_id a request db db' r v new made =
      let (listed, found, _) = stored_authorization-eq-ok e a.authorization_id db made.found in
      let at_r : lookup r.authorization_id db.authorizations ≡ some listed =
        ap (λ aid. lookup aid db.authorizations) made.own ∙ found in
      subst Holds made.wrote (
        IsLedger-append e db.authorizations db.ledger (reserved_row r made.now) v
          (λ free. ground (arith, free, at_r))
          (reserve_next lossless clocks reservation_id a request db db' r new made))

  -- The row of a reservation that was found in the ledger keeps the invariant, when it exchanges
  -- the state for one that takes no more.
  ends-Holds :
      (db : AuthorizationDb e) (r : Reservation) (a : Authorization) (states : States)
      (state state' : ReservationState) (row : LedgerRow)
      → Holds db
      → IsRecorded e r a states state db
      → row.authorization_id ≡ a.authorization_id
      → state'.attempt_number ≡ state.attempt_number
      → IsWhole (r.reservation_id, state')
      → input_charge state' ≤ input_charge state
      → output_charge state' ≤ output_charge state
      → cost_charge state' ≤ cost_charge state
      → ((r.reservation_id == "") ≡ false
          → apply_row row states ≡ ok (put r.reservation_id state' states))
      → IsLedger e db.authorizations (db.ledger ++ row ∷ [])
  ends-Holds db r a states state state' row v f own same whole i o c applies =
      let (listed, found, _) = stored_authorization-eq-ok e r.authorization_id db f.stored in
      let first = v.kept r.authorization_id listed found in
      let a_is = kept_capability r.authorization_id a listed db first found f.stored in
      let aid : row.authorization_id ≡ r.authorization_id =
        own ∙ ap (λ (b : Authorization). b.authorization_id) (sym a_is) ∙ first.own in
      IsLedger-append e db.authorizations db.ledger row v (λ free. ground (arith, free, found, aid))
        (λ stored k listed_k.
          let states_are : ok states ≡ ok k.states =
            sym f.replayed ∙ ap (λ id. reservation_states id db.ledger) (sym own) ∙ k.replayed in
          let same_states : states ≡ k.states = ground (arith, states_are) in
          let found_k = ap (lookup r.reservation_id) (sym same_states) ∙ f.found in
          let named = IsWithin-key r.reservation_id state k.states k.within found_k in
          (
            put r.reservation_id state' k.states,
            subst (λ s. apply_row row s ≡ ok (put r.reservation_id state' s)) same_states
                (applies named),
            put_smaller k.capability.budget r.reservation_id state state' k.states k.within found_k
                same whole i o c,
          ))

  pub settles-Holds :
      (a : Authorization) (r : Reservation) (states : States) (usage : ℕ × ℕ × ℕ)
      (state : ReservationState) (db db' : AuthorizationDb e)
      → Holds db
      → IsRecorded e r a states state db
      → IsSettle e a r usage state db db'
      → Holds db'
  unfolding usage_of
  settles-Holds a r states usage state db db' v f (IsSettle.repeated phase same is) =
      subst Holds is v
  settles-Holds a r states usage state db db' v f
        (IsSettle.made cost now health phase (i, o, c) is) =
      subst Holds is (
        ends-Holds db r a states state (with_usage state usage cost)
          (settled_row a.authorization_id r usage cost now) v f refl refl refl (rw phase i)
          (rw phase o) (rw phase c)
          (λ named.
            apply_row-settled a.authorization_id r usage cost now state states named f.found phase))

  pub abandons-Holds :
      (a : Authorization) (r : Reservation) (states : States) (failure_code : String)
      (state : ReservationState) (db db' : AuthorizationDb e)
      → Holds db
      → IsRecorded e r a states state db
      → validate_provider_failure_code failure_code ≡ ok tt
      → IsAbandon e a r failure_code state db db'
      → Holds db'
  unfolding usage_of
  abandons-Holds a r states failure_code state db db' v f valid (IsAbandon.ended _ is) =
      subst Holds is v
  abandons-Holds a r states failure_code state db db' v f valid
        (IsAbandon.dropped now health phase is) =
      subst Holds is (
        ends-Holds db r a states state (with_failure state failure_code)
          (abandoned_row a.authorization_id r failure_code now) v f refl refl refl (omega arith)
          (omega arith) (omega arith)
          (λ named.
            apply_row-abandoned a.authorization_id r failure_code now state states named f.found
              phase valid))
