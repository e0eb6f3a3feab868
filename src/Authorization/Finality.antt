-- ===== src/Authorization/Finality.antt =====
-- model_authorization.py: what a settlement and a reservation mean for all later calls.
use auto_lean.Base.{
  ℕ, ◌≡◌, refl, sym, ap, subst, ◌∙◌, true, Option, none, some, [], String, ok, put, lookup,
  lookup-put_self, arith, string_Eq, ◌&&◌,
}
use auto_lean.Base.Int.{ℤ, pos_part}
use auto_lean.Leases.{LeaseDb}
use auto_lean.Authorization.{
  Authorization, Reservation, Encoding, IsLossless, AuthorizationRow, AuthorizationDb,
  no_authorizations, Clocks,
}
use auto_lean.Authorization.Ledger.{
  is_settled, States, ReservationState, reservation_states, rows_of, replay_rows,
}
use auto_lean.Authorization.Operations.{stored_authorization}
use auto_lean.Authorization.Reservations.{settle, abandon, option_eq, settled_row}
use auto_lean.Authorization.Records.{stored_authorization-eq-ok, reservation_states-append}
use auto_lean.Authorization.Within.{IsWithin-key, apply_row-settled, with_usage}
use auto_lean.Authorization.Growth.{Follows, After, replay_rows-After}
use auto_lean.Authorization.Endings.{IsRecorded, IsSettle, settle-eq-ok, IsAbandon, abandon-eq-ok}
use auto_lean.Authorization.History.{Step, Reach}
use auto_lean.Authorization.Bounds.{Reach-Holds, empty-Holds}
use auto_lean.Authorization.Keeps.{Holds, kept_capability}
use auto_lean.Authorization.Extension.{Extends, Reach-Extends, rows_of-join, replay_rows-join}

module _ (e : Encoding) where
  stored_authorization-listed :
      (aid : String) (row : AuthorizationRow e) (db db' : AuthorizationDb e)
      → lookup aid db.authorizations ≡ some row
      → lookup aid db'.authorizations ≡ some row
      → stored_authorization e aid db ≡ stored_authorization e aid db'
  unfolding stored_authorization
  stored_authorization-listed aid row db db' h h' = rw (h, h') refl

  -- A reservation found in the ledger is found in every later ledger, and its state follows.
  pub found_later :
      (r : Reservation) (a : Authorization) (states : States) (s : ReservationState)
      (db later : AuthorizationDb e)
      → Holds e db
      → Holds e later
      → Extends e db later
      → IsRecorded e r a states s db
      → (states' : States) × (s' : ReservationState) × IsRecorded e r a states' s' later
        × Follows s s'
  unfolding After reservation_states
  found_later r a states s db later v v' x f =
      let (row, listed, _) = stored_authorization-eq-ok e r.authorization_id db f.stored in
      let listed' = x.listed r.authorization_id row listed in
      let k = v.kept r.authorization_id row listed in
      let k' = v'.kept r.authorization_id row listed' in
      let own : a.authorization_id ≡ r.authorization_id =
        ap (λ (b : Authorization). b.authorization_id)
          (sym (kept_capability e r.authorization_id a row db k listed f.stored))
        ∙ k.own in
      let replayed' : reservation_states a.authorization_id later.ledger ≡ ok k'.states =
        ap (λ aid. reservation_states aid later.ledger) own ∙ k'.replayed in
      let joined =
        sym (
          ap (λ rows. replay_rows rows [])
            (ap (rows_of a.authorization_id) x.grown
              ∙ rows_of-join a.authorization_id db.ledger x.more))
        ∙ replayed' in
      let rest =
        replay_rows-join (rows_of a.authorization_id db.ledger) (rows_of a.authorization_id x.more)
          [] states k'.states f.replayed joined in
      let (s', found', follows) =
        replay_rows-After (rows_of a.authorization_id x.more) r.reservation_id s states k'.states
          rest f.found in
      (
        k'.states,
        s',
        record {
          stored =
              sym (stored_authorization-listed r.authorization_id row db later listed listed')
              ∙ f.stored;
          replayed = replayed';
          found = found';
          matches = (
            f.matches.0 ∙ sym follows.attempt,
            f.matches.1 ∙ sym follows.input,
            f.matches.2 ∙ sym follows.output,
            f.matches.3 ∙ sym follows.cost,
          );
        },
        follows,
      )

  found_once :
      (r : Reservation) (a a' : Authorization) (states states' : States) (s s' : ReservationState)
      (db : AuthorizationDb e)
      → IsRecorded e r a states s db
      → IsRecorded e r a' states' s' db
      → s ≡ s'
  found_once r a a' states states' s s' db f f' =
      let capabilities : ok a ≡ ok a' = sym f.stored ∙ f'.stored in
      let same : a ≡ a' = ground (arith, capabilities) in
      let ledgers : ok states ≡ ok states' =
        sym f.replayed
        ∙ ap (λ (b : Authorization). reservation_states b.authorization_id db.ledger) same
        ∙ f'.replayed in
      let same_states : states ≡ states' = ground (arith, ledgers) in
      let found : some s ≡ some s' =
        sym f.found ∙ ap (lookup r.reservation_id) same_states ∙ f'.found in
      ground (arith, found)

  -- The state has the usage that a settlement recorded.
  abbrev HasUsage : ReservationState → ℕ × ℕ × ℕ → Type 0
  HasUsage s usage =
      (s.phase ≡ is_settled)
      × (s.actual_input_tokens ≡ some usage.0)
      × (s.actual_cached_input_tokens ≡ some usage.1)
      × (s.actual_output_tokens ≡ some usage.2)

  option_eq-some : (recorded : Option ℕ) (n : ℕ) → option_eq recorded n ≡ true → recorded ≡ some n
  option_eq-some none n h = cc
  option_eq-some (some m) n h = ground (arith, h)

  settled_state_found :
      (a : Authorization) (r : Reservation) (states : States) (usage : ℕ × ℕ × ℕ)
      (s : ReservationState) (db db' : AuthorizationDb e)
      → Holds e db
      → IsRecorded e r a states s db
      → IsSettle e a r usage s db db'
      → (states' : States) × (s' : ReservationState) × IsRecorded e r a states' s' db'
        × HasUsage s' usage
  unfolding stored_authorization
  settled_state_found a r states usage s db db' v f (IsSettle.repeated phase same is) = (
    states,
    s,
    subst (IsRecorded e r a states s) is f,
    (
      phase,
      option_eq-some s.actual_input_tokens usage.0 (ground (arith, same)),
      option_eq-some s.actual_cached_input_tokens usage.1 (ground (arith, same)),
      option_eq-some s.actual_output_tokens usage.2 (ground (arith, same)),
    ),
  )
  settled_state_found a r states usage s db db' v f
        (IsSettle.made cost now health phase bounds is) =
      let (row, listed, _) = stored_authorization-eq-ok e r.authorization_id db f.stored in
      let k = v.kept r.authorization_id row listed in
      let own : a.authorization_id ≡ r.authorization_id =
        ap (λ (b : Authorization). b.authorization_id)
          (sym (kept_capability e r.authorization_id a row db k listed f.stored))
        ∙ k.own in
      let states_are : ok states ≡ ok k.states =
        sym f.replayed ∙ ap (λ aid. reservation_states aid db.ledger) own ∙ k.replayed in
      let same : states ≡ k.states = ground (arith, states_are) in
      let named =
        IsWithin-key r.reservation_id s k.states k.within
          (ap (lookup r.reservation_id) (sym same) ∙ f.found) in
      let s' = with_usage s usage cost in
      (
        put r.reservation_id s' states,
        s',
        subst (IsRecorded e r a (put r.reservation_id s' states) s') is (record {
          stored = f.stored;
          replayed =
              reservation_states-append a.authorization_id db.ledger
                (settled_row a.authorization_id r usage cost now) states
                (put r.reservation_id s' states) refl f.replayed
                (apply_row-settled a.authorization_id r usage cost now s states named f.found
                  phase);
          found = lookup-put_self r.reservation_id s' states;
          matches = f.matches;
        }),
        (refl, refl, refl, refl),
      )

  same_usage :
      (s : ReservationState) (usage usage' : ℕ × ℕ × ℕ)
      → HasUsage s usage
      → (option_eq s.actual_input_tokens usage'.0
          && option_eq s.actual_cached_input_tokens usage'.1
          && option_eq s.actual_output_tokens usage'.2)
        ≡ true
      → (usage'.0 ≡ usage.0) × (usage'.1 ≡ usage.1) × (usage'.2 ≡ usage.2)
  same_usage s usage usage' (_, i, c, o) h = ground (arith, i, c, o, h)

  -- Once `settle` returned for a reservation, in a history from empty tables, its usage is final.
  -- In every later state, a `settle` of the same reservation that returns has the same usage and
  -- changes nothing, and an `abandon` of it that returns changes nothing.
  pub settlement_is_final :
      IsLossless e
      → (leases : LeaseDb) (db db' later : AuthorizationDb e) (clocks clocks' : Clocks)
        (r : Reservation) (i c o i' c' o' : ℤ) (failure_code : String) (last : AuthorizationDb e)
      → Reach e (no_authorizations e leases) db
      → settle e clocks r i c o db ≡ ok db'
      → Reach e db' later
      → (settle e clocks' r i' c' o' later ≡ ok last
          → (later ≡ last)
            × ((pos_part i' ≡ pos_part i)
                × (pos_part c' ≡ pos_part c)
                × (pos_part o' ≡ pos_part o)))
        × (abandon e clocks' r failure_code later ≡ ok last → later ≡ last)
  settlement_is_final lossless leases db db' later clocks clocks' r i c o i' c' o' failure_code last
        reach h after =
      let v = Reach-Holds e lossless (empty-Holds e leases) reach in
      let v' = Reach-Holds e lossless v (Reach.next Reach.here (Step.settles clocks r i c o h)) in
      let v'' = Reach-Holds e lossless v' after in
      let usage : ℕ × ℕ × ℕ = (pos_part i, pos_part c, pos_part o) in
      let (a, states, s, f, _, done) = settle-eq-ok e clocks r i c o db db' h in
      let (states', s', f', used) = settled_state_found a r states usage s db db' v f done in
      let (states'', s'', f'', follows) =
        found_later r a states' s' db' later v' v'' (Reach-Extends e after) f' in
      let same : s'' ≡ s' = follows.final (λ running. ground (arith, running, used.0)) in
      let used'' : HasUsage s'' usage = subst (λ x. HasUsage x usage) (sym same) used in
      (
        λ again.
            let (b, states3, t, g, _, done') = settle-eq-ok e clocks' r i' c' o' later last again in
            let is : t ≡ s'' = found_once r b a states3 states'' t s'' later g f'' in
            elim done' [
              | IsSettle.repeated phase equal is_db ↦ (
                is_db,
                same_usage t usage (pos_part i', pos_part c', pos_part o')
                    (subst (λ x. HasUsage x usage) (sym is) used'') equal,
              )
              | IsSettle.made cost now health phase bounds is_db ↦
                  ground (arith, phase, used''.0, ap (λ (x : ReservationState). x.phase) is)
            ],
        λ dropped.
            let (b, states3, t, g, _, done') =
              abandon-eq-ok e clocks' r failure_code later last dropped in
            let is : t ≡ s'' = found_once r b a states3 states'' t s'' later g f'' in
            elim done' [
              | IsAbandon.ended _ is_db ↦ is_db
              | IsAbandon.dropped now health phase is_db ↦
                  ground (arith, phase, used''.0, ap (λ (x : ReservationState). x.phase) is)
            ],
      )
