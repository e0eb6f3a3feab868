-- ===== src/Authorization/History.antt =====
-- model_authorization.py: the ledger over any history of operations.
use auto_lean.Base.{◌≡◌, false, none, String, ok, lookup, string_Eq, ◌==◌}
use auto_lean.Base.Int.{ℤ}
use auto_lean.Leases.{LeaseDb}
use auto_lean.Authorization.{
  Authorization, Reservation, Encoding, AuthorizationDb, Clocks, CircuitSettings,
}
use auto_lean.Authorization.Ledger.{States, reservation_states}
use auto_lean.Authorization.Operations.{ModelRequest, issue_locked, revoke}
use auto_lean.Authorization.Reservations.{reserve, settle, abandon}

module _ (e : Encoding) where
  -- The identifier that a reservation gets from a uuid4 is not empty, nor one of its ledger's.
  pub record IsNewId (reservation_id : String) (aid : String) (db : AuthorizationDb e)
      : Type 0 where
    pub named : (reservation_id == "") ≡ false
    pub unused :
        (states : States)
        → reservation_states aid db.ledger ≡ ok states
        → lookup reservation_id states ≡ none

  -- One committed operation, at any clocks, or a change of the lease tables, which others write.
  pub data Step : AuthorizationDb e → AuthorizationDb e → Type 0 where
    issues :
        {db db' : AuthorizationDb e} (a issued : Authorization) (request_digest key : String)
        → issue_locked e a request_digest key db ≡ ok (issued, db')
        → Step db db'
    revokes :
        {db db' : AuthorizationDb e} (clocks : Clocks) (aid reason key request_digest : String)
        → revoke e clocks aid reason key request_digest db ≡ ok db'
        → Step db db'
    reserves :
        {db db' : AuthorizationDb e} (settings : CircuitSettings) (clocks : Clocks)
        (reservation_id : String) (a : Authorization) (request : ModelRequest) (r : Reservation)
        → IsNewId reservation_id a.authorization_id db
        → reserve e settings clocks reservation_id a request db ≡ ok (r, db')
        → Step db db'
    settles :
        {db db' : AuthorizationDb e} (clocks : Clocks) (r : Reservation) (i c o : ℤ)
        → settle e clocks r i c o db ≡ ok db'
        → Step db db'
    abandons :
        {db db' : AuthorizationDb e} (clocks : Clocks) (r : Reservation) (failure_code : String)
        → abandon e clocks r failure_code db ≡ ok db'
        → Step db db'
    leases_change :
        {db : AuthorizationDb e} (leases : LeaseDb) → Step db (record db { leases = leases })

  pub data Reach (db : AuthorizationDb e) : AuthorizationDb e → Type 0 where
    here : Reach db db
    next : {mid db' : AuthorizationDb e} → Reach db mid → Step mid db' → Reach db db'
