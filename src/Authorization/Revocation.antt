-- ===== src/Authorization/Revocation.antt =====
-- model_authorization.py: a revoked capability is of no more use.
use auto_lean.Base.{
  ℕ, ◌≡◌, ◌≢◌, refl, sym, ap, ◌∙◌, Bool, true, false, not, none, some, List, [], ◌∷◌, ◌++◌, String,
  ok, arith, string_Eq, >>=-eq-ok, >>-eq-ok, guard_then-eq-ok, authorization_error, ltb, eq_iff,
}
use auto_lean.Base.Int.{ℤ}
use auto_lean.Base.Lists.{any}
use auto_lean.Base.Text.{is_blank}
use auto_lean.Leases.{LeaseDb}
use auto_lean.Authorization.{
  Authorization, Reservation, Encoding, IsLossless, AuthorizationDb, no_authorizations, Clocks,
  CircuitSettings, LedgerRow, revoked, now_of,
}
use auto_lean.Authorization.Ledger.{is_revoked, is_revocation, rows_of}
use auto_lean.Authorization.Operations.{
  blank_row, ModelRequest, validate_request_limits, verify_capability, stored_authorization,
  assert_same_capability, assert_active, idempotent_authorization, revoke_once, revoke_new, revoke,
  validate_reason, unless_replay,
}
use auto_lean.Authorization.Reservations.{preflight, reserve, settle}
use auto_lean.Authorization.Records.{stored_authorization-eq-ok, rows_of-append}
use auto_lean.Authorization.Inversion.{reserve-IsReserve, append_ledger_event-eq-ok}
use auto_lean.Authorization.Endings.{settle-eq-ok}
use auto_lean.Authorization.Issues.{record_idempotency-eq-ok}
use auto_lean.Authorization.History.{Step, Reach}
use auto_lean.Authorization.Bounds.{Reach-Holds, empty-Holds}
use auto_lean.Authorization.Keeps.{kept_capability}
use auto_lean.Authorization.Extension.{Reach-Extends, rows_of-join, any-join}

is_revoked-join :
    (aid : String) (ledger more : List LedgerRow)
    → is_revoked aid ledger ≡ true
    → is_revoked aid (ledger ++ more) ≡ true
unfolding is_revoked
is_revoked-join aid ledger more h = rw (rows_of-join aid ledger more) (
    any-join (λ (row : LedgerRow). is_revocation row.event_type) (rows_of aid ledger)
      (rows_of aid more) h)

any-last :
    (test : LedgerRow → Bool) (rows : List LedgerRow) (row : LedgerRow)
    → test row ≡ true
    → any test (rows ++ row ∷ []) ≡ true
unfolding any
any-last test [] row h = ground (arith, h)
any-last test (r ∷ rows) row h = ground (arith, any-last test rows row h)

is_revoked-row :
    (aid : String) (ledger : List LedgerRow) (row : LedgerRow)
    → row.authorization_id ≡ aid
    → is_revocation row.event_type ≡ true
    → is_revoked aid (ledger ++ row ∷ []) ≡ true
unfolding is_revoked
is_revoked-row aid ledger row own h =
    rw (rows_of-append aid ledger row, (eq_iff row.authorization_id aid).1 own)
      (any-last (λ (r : LedgerRow). is_revocation r.event_type) (rows_of aid ledger) row h)

module _ (e : Encoding) where
  revoke_once-revokes :
      (clocks : Clocks) (aid reason : String) (is_off : Bool) (db db' : AuthorizationDb e)
      → is_revoked aid db.ledger ≡ is_off
      → revoke_once e clocks aid reason is_off db ≡ ok db'
      → is_revoked aid db'.ledger ≡ true
  unfolding revoke_once
  revoke_once-revokes clocks aid reason true db db' off h =
      let is : db ≡ db' = ground (arith, h) in
      ap (λ (d : AuthorizationDb e). is_revoked aid d.ledger) (sym is) ∙ off
  revoke_once-revokes clocks aid reason false db db' off h =
      let row : ℕ → LedgerRow =
        λ now. record (blank_row aid revoked now) { reason = some reason } in
      let (now, is) = append_ledger_event-eq-ok e row clocks.recorded_at db h in
      ap (λ (d : AuthorizationDb e). is_revoked aid d.ledger) (sym is)
      ∙ is_revoked-row aid db.ledger (row now) refl refl

  -- A `revoke` that is no repetition leaves the capability revoked.
  revoke-revokes :
      (clocks : Clocks) (aid reason key request_digest : String) (db db' : AuthorizationDb e)
      → idempotent_authorization e "revoke_model_execution_authorization" key request_digest db
        ≡ ok none
      → revoke e clocks aid reason key request_digest db ≡ ok db'
      → is_revoked aid db'.ledger ≡ true
  unfolding revoke revoke_new
  revoke-revokes clocks aid reason key request_digest db db' first h =
      let (_, h1) = >>-eq-ok (validate_reason reason) _ h in
      let (_, h2) = guard_then-eq-ok (not (is_blank key)) authorization_error _ h1 in
      let (replay, found, h3) =
        >>=-eq-ok
          (idempotent_authorization e "revoke_model_execution_authorization" key request_digest db)
          _ h2 in
      let same : ok replay ≡ ok none = sym found ∙ first in
      let is : replay ≡ none = ground (arith, same) in
      let made : revoke_new e clocks aid reason key request_digest db ≡ ok db' =
        ap (λ o. unless_replay e o (revoke_new e clocks aid reason key request_digest db) db)
          (sym is)
        ∙ h3 in
      let (stored, _, h4) = >>=-eq-ok (stored_authorization e aid db) _ made in
      let (db1, once, recorded) =
        >>=-eq-ok (revoke_once e clocks aid reason (is_revoked aid db.ledger) db) _ h4 in
      let (_, ledger) =
        record_idempotency-eq-ok e "revoke_model_execution_authorization" key request_digest aid db1
          db' recorded in
      ap (is_revoked aid) (sym ledger)
      ∙ revoke_once-revokes clocks aid reason (is_revoked aid db.ledger) db db1 refl once

  assert_active-eq-ok :
      (clocks : Clocks) (a : Authorization) (db : AuthorizationDb e)
      → assert_active e clocks a db ≡ ok tt
      → is_revoked a.authorization_id db.ledger ≡ false
  unfolding assert_active
  assert_active-eq-ok clocks a db h =
      let (now, _, h1) = >>=-eq-ok (now_of clocks.active_at) _ h in
      let (_, h2) = guard_then-eq-ok (ltb now a.expires_at) authorization_error _ h1 in
      let (on, _) =
        guard_then-eq-ok (not (is_revoked a.authorization_id db.ledger)) authorization_error _ h2 in
      ground (arith, on)

  preflight-active :
      (settings : CircuitSettings) (clocks : Clocks) (a : Authorization) (request : ModelRequest)
      (db : AuthorizationDb e)
      → preflight e settings clocks a request db ≡ ok tt
      → assert_active e clocks a db ≡ ok tt
  unfolding preflight
  preflight-active settings clocks a request db h =
      let (_, h1) = >>-eq-ok (verify_capability e clocks a) _ h in
      let (_, h2) = >>-eq-ok (validate_request_limits a request) _ h1 in
      let (stored, _, h3) = >>=-eq-ok (stored_authorization e a.authorization_id db) _ h2 in
      let (_, h4) = >>-eq-ok (assert_same_capability e stored a) _ h3 in
      let (active, _) = >>-eq-ok (assert_active e clocks a db) _ h4 in active

  -- After a `revoke` that was no repetition returned, in a history from empty tables, no
  -- `preflight` and no `reserve` under the capability returns in any later state, and no `settle`
  -- of a reservation made under it, at any clocks.
  pub revoked_capability_is_dead :
      IsLossless e
      → (leases : LeaseDb) (db db' later last : AuthorizationDb e) (settings : CircuitSettings)
        (clocks clocks' : Clocks) (aid reason key request_digest id : String) (a : Authorization)
        (request : ModelRequest) (r : Reservation) (i c o : ℤ)
      → Reach e (no_authorizations e leases) db
      → idempotent_authorization e "revoke_model_execution_authorization" key request_digest db
        ≡ ok none
      → revoke e clocks aid reason key request_digest db ≡ ok db'
      → Reach e db' later
      → (a.authorization_id ≡ aid → preflight e settings clocks' a request later ≢ ok tt)
        × (a.authorization_id ≡ aid → reserve e settings clocks' id a request later ≢ ok (r, last))
        × (r.authorization_id ≡ aid → settle e clocks' r i c o later ≢ ok last)
  revoked_capability_is_dead lossless leases db db' later last settings clocks clocks' aid reason
        key request_digest id a request r i c o reach first h after =
      let x = Reach-Extends e after in
      let revoked_now = revoke-revokes clocks aid reason key request_digest db db' first h in
      let off : is_revoked aid later.ledger ≡ true =
        ap (is_revoked aid) x.grown ∙ is_revoked-join aid db'.ledger x.more revoked_now in
      let v =
        Reach-Holds e lossless (empty-Holds e leases)
          (Reach.next reach (Step.revokes clocks aid reason key request_digest h)) in
      let v' = Reach-Holds e lossless v after in
      let dead : (b : Authorization)
          → b.authorization_id ≡ aid
          → assert_active e clocks' b later ≢ ok tt =
        λ b own active.
          let on = assert_active-eq-ok clocks' b later active in
          let off' : is_revoked b.authorization_id later.ledger ≡ true =
            ap (λ k. is_revoked k later.ledger) own ∙ off in
          ground (arith, on, off') in
      (
        λ own checked. dead a own (preflight-active settings clocks' a request later checked),
        λ own made.
            let facts = reserve-IsReserve e settings clocks' id a request later r last made in
            dead a own facts.active,
        λ own done.
            let (b, states, s, f, active, _) = settle-eq-ok e clocks' r i c o later last done in
            let (row, listed, _) = stored_authorization-eq-ok e r.authorization_id later f.stored in
            let k = v'.kept r.authorization_id row listed in
            dead b
              (ap (λ (d : Authorization). d.authorization_id)
                  (sym (kept_capability e r.authorization_id b row later k listed f.stored))
                ∙ k.own
                ∙ own)
              active,
      )
