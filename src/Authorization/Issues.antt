-- ===== src/Authorization/Issues.antt =====
-- model_authorization.py: what `issue` and `revoke` keep.
use auto_lean.Base.{
  ℕ, ◌≡◌, true, false, inl, inr, refl, sym, ap, subst, ◌≢◌, ◌∙◌, Bool, Option, Option-cases, none,
  some, [], ◌∷◌, ◌++◌, String, ok, lookup, arith, string_Eq, pair_Eq, ◌==◌, >>=-eq-ok, >>-eq-ok,
  guard_then-eq-ok, authorization_error, insert, not,
}
use auto_lean.Base.Text.{is_blank}
use auto_lean.Authorization.{
  Authorization, Encoding, AuthorizationRow, AuthorizationDb, Clocks, LedgerRow, revoked,
}
use auto_lean.Authorization.Ledger.{is_revoked}
use auto_lean.Authorization.Operations.{
  blank_row, issue_row, or_replay, issue_locked, revoke_once, revoke_new, unless_replay, revoke,
  stored_authorization, idempotent_authorization, record_idempotency, validate_reason,
}
use auto_lean.Authorization.Records.{stored_authorization-eq-ok}
use auto_lean.Authorization.Inversion.{append_ledger_event-eq-ok}

module _ (e : Encoding) where
  pub record_idempotency-eq-ok :
      (scope key request_digest aid : String) (db db' : AuthorizationDb e)
      → record_idempotency e scope key request_digest aid db ≡ ok db'
      → (db.authorizations ≡ db'.authorizations) × (db.ledger ≡ db'.ledger)
  unfolding record_idempotency
  record_idempotency-eq-ok scope key request_digest aid db db' h =
      let (rows, _, same) =
        >>=-eq-ok
          (insert (scope, key) (record { request_hash = request_digest; authorization_id = aid })
            db.idempotency)
          _ h in
      let is : record db { idempotency = rows } ≡ db' = ground (arith, same) in
      (
        ap (λ (d : AuthorizationDb e). d.authorizations) is,
        ap (λ (d : AuthorizationDb e). d.ledger) is,
      )

  -- Facts on the stored capabilities and the ledger, which stay when the idempotency table changes,
  -- a capability is added or a revocation is recorded.
  module _ (P : AuthorizationDb e → Type 0)
      (moved : (d d' : AuthorizationDb e)
        → d.authorizations ≡ d'.authorizations
        → d.ledger ≡ d'.ledger
        → P d
        → P d')
      (added : (d : AuthorizationDb e) (a : Authorization) (request_digest : String)
        → lookup a.authorization_id d.authorizations ≡ none
        → P d
        → P (record d {
          authorizations =
              (
                a.authorization_id,
                record {
                  authorization_hash = e.authorization_hash a;
                  authorization_json = e.dumps a;
                  issue_request_hash = request_digest;
                },
              )
              ∷ d.authorizations;
        }))
      (ended : (d : AuthorizationDb e) (aid reason : String) (now : ℕ)
        → lookup aid d.authorizations ≢ none
        → P d
        → P (record d {
          ledger = d.ledger ++ record (blank_row aid revoked now) { reason = some reason } ∷ [];
        })) where
    record_idempotency-keeps :
        (scope key request_digest aid : String) (db db' : AuthorizationDb e)
        → record_idempotency e scope key request_digest aid db ≡ ok db'
        → P db
        → P db'
    record_idempotency-keeps scope key request_digest aid db db' h v =
        let (a, l) = record_idempotency-eq-ok scope key request_digest aid db db' h in
        moved db db' a l v

    issue_row-keeps :
        (a issued : Authorization) (request_digest key : String) (db db' : AuthorizationDb e)
        (row : Option (AuthorizationRow e))
        → P db
        → lookup a.authorization_id db.authorizations ≡ row
        → issue_row e a request_digest key db row ≡ ok (issued, db')
        → P db'
    unfolding issue_row
    issue_row-keeps a issued request_digest key db db' (some row) v found h =
        let (_, h1) =
          guard_then-eq-ok (row.issue_request_hash == request_digest) authorization_error _ h in
        let (stored, _, h2) = >>=-eq-ok (stored_authorization e a.authorization_id db) _ h1 in
        let (db1, recorded, same) =
          >>=-eq-ok
            (record_idempotency e "issue_model_execution_authorization" key request_digest
              stored.authorization_id db)
            _ h2 in
        let is : db1 ≡ db' = ground (arith, same) in
        record_idempotency-keeps "issue_model_execution_authorization" key request_digest
          stored.authorization_id db db' (recorded ∙ ap ok is) v
    issue_row-keeps a issued request_digest key db db' none v free h =
        let with_row : AuthorizationDb e = record db {
          authorizations =
              (
                a.authorization_id,
                record {
                  authorization_hash = e.authorization_hash a;
                  authorization_json = e.dumps a;
                  issue_request_hash = request_digest;
                },
              )
              ∷ db.authorizations;
        } in
        let (db1, recorded, same) =
          >>=-eq-ok
            (record_idempotency e "issue_model_execution_authorization" key request_digest
              a.authorization_id with_row)
            _ h in
        let is : db1 ≡ db' = ground (arith, same) in
        record_idempotency-keeps "issue_model_execution_authorization" key request_digest
          a.authorization_id with_row db' (recorded ∙ ap ok is) (added db a request_digest free v)

    pub issue_locked-keeps :
        (a issued : Authorization) (request_digest key : String) (db db' : AuthorizationDb e)
        → P db
        → issue_locked e a request_digest key db ≡ ok (issued, db')
        → P db'
    unfolding issue_locked
    issue_locked-keeps a issued request_digest key db db' v h =
        let (replay, _, h1) =
          >>=-eq-ok
            (idempotent_authorization e "issue_model_execution_authorization" key request_digest db)
            _ h in
        elim (Option-cases replay) [
          | inr (stored, is) ↦
              let same : ok (stored, db) ≡ ok (issued, db') =
                ap
                  (λ o.
                    or_replay e o
                      (issue_row e a request_digest key db
                        (lookup a.authorization_id db.authorizations))
                      db)
                  (sym is)
                ∙ h1 in
              let is_db : db ≡ db' = ground (arith, same) in subst P is_db v
          | inl is ↦ issue_row-keeps a issued request_digest key db db' _ v refl (
              ap
                (λ o.
                  or_replay e o
                    (issue_row e a request_digest key db
                      (lookup a.authorization_id db.authorizations))
                    db)
                (sym is)
              ∙ h1)
        ]

    revoke_once-keeps :
        (clocks : Clocks) (aid reason : String) (is_off : Bool) (db db' : AuthorizationDb e)
        → P db
        → lookup aid db.authorizations ≢ none
        → revoke_once e clocks aid reason is_off db ≡ ok db'
        → P db'
    unfolding revoke_once
    revoke_once-keeps clocks aid reason true db db' v listed h =
        let is_db : db ≡ db' = ground (arith, h) in subst P is_db v
    revoke_once-keeps clocks aid reason false db db' v listed h =
        let row : ℕ → LedgerRow =
          λ now. record (blank_row aid revoked now) { reason = some reason } in
        let (now, is) = append_ledger_event-eq-ok e row clocks.recorded_at db h in
        subst P is (ended db aid reason now listed v)

    pub revoke-keeps :
        (clocks : Clocks) (aid reason key request_digest : String) (db db' : AuthorizationDb e)
        → P db
        → revoke e clocks aid reason key request_digest db ≡ ok db'
        → P db'
    unfolding revoke revoke_new
    revoke-keeps clocks aid reason key request_digest db db' v h =
        let (_, h1) = >>-eq-ok (validate_reason reason) _ h in
        let (_, h2) = guard_then-eq-ok (not (is_blank key)) authorization_error _ h1 in
        let (replay, _, h3) =
          >>=-eq-ok
            (idempotent_authorization e "revoke_model_execution_authorization" key request_digest
              db)
            _ h2 in
        elim (Option-cases replay) [
          | inr (stored, is) ↦
              let same : ok db ≡ ok db' =
                ap
                  (λ o. unless_replay e o (revoke_new e clocks aid reason key request_digest db) db)
                  (sym is)
                ∙ h3 in
              let is_db : db ≡ db' = ground (arith, same) in subst P is_db v
          | inl is ↦
              let made : revoke_new e clocks aid reason key request_digest db ≡ ok db' =
                ap
                  (λ o. unless_replay e o (revoke_new e clocks aid reason key request_digest db) db)
                  (sym is)
                ∙ h3 in
              let (stored, known, h4) = >>=-eq-ok (stored_authorization e aid db) _ made in
              let (row, found, _) = stored_authorization-eq-ok e aid db known in
              let (db1, once, recorded) =
                >>=-eq-ok (revoke_once e clocks aid reason (is_revoked aid db.ledger) db) _ h4 in
              record_idempotency-keeps "revoke_model_execution_authorization" key request_digest aid
                db1 db' recorded
                (revoke_once-keeps clocks aid reason (is_revoked aid db.ledger) db db1 v
                  (λ free. ground (arith, free, found)) once)
        ]
