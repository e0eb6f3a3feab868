-- ===== src/Authorization/Records.antt =====
-- model_authorization.py: the invariant of the stored capabilities and of their ledger.
use auto_lean.Base.{
  ◌≡◌, refl, sym, ap, ◌≢◌, beq→eq, subst, ◌∙◌, Bool-cases, inl, inr, false, none, some, List, [],
  ◌∷◌, ◌++◌, String, ok, Table, lookup, arith, string_Eq, eq_iff, beq_refl, ◌==◌, if◌then◌else◌,
  >>=-eq-ok, guard_then-eq-ok, or_raise, or_raise-eq-ok, authorization_error,
}
use auto_lean.Authorization.{
  Authorization, Encoding, IsLossless, LedgerRow, AuthorizationRow, AuthorizationDb,
}
use auto_lean.Authorization.Ledger.{States, apply_row, replay_rows, rows_of, reservation_states}
use auto_lean.Authorization.Operations.{stored_authorization}
use auto_lean.Authorization.Within.{IsWithin, no_states-IsWithin}

pub rows_of-append :
    (aid : String) (ledger : List LedgerRow) (row : LedgerRow)
    → rows_of aid (ledger ++ row ∷ [])
      ≡ (if row.authorization_id == aid then rows_of aid ledger ++ row ∷ [] else rows_of aid ledger)
unfolding rows_of
rows_of-append aid [] row = ground arith
rows_of-append aid (r ∷ ledger) row = ground (arith, rows_of-append aid ledger row)

replay_rows-append :
    (rows : List LedgerRow) (row : LedgerRow) (start states states' : States)
    → replay_rows rows start ≡ ok states
    → apply_row row states ≡ ok states'
    → replay_rows (rows ++ row ∷ []) start ≡ ok states'
unfolding replay_rows
replay_rows-append [] row start states states' h applied =
    let same : start ≡ states = ground (arith, h) in rw (ap (apply_row row) same ∙ applied) refl
replay_rows-append (r ∷ rows) row start states states' h applied =
    let (next, first, rest) = >>=-eq-ok (apply_row r start) _ h in
    rw first (replay_rows-append rows row next states states' rest applied)

pub reservation_states-append :
    (aid : String) (ledger : List LedgerRow) (row : LedgerRow) (states states' : States)
    → row.authorization_id ≡ aid
    → reservation_states aid ledger ≡ ok states
    → apply_row row states ≡ ok states'
    → reservation_states aid (ledger ++ row ∷ []) ≡ ok states'
unfolding reservation_states
reservation_states-append aid ledger row states states' own h applied =
    rw (rows_of-append aid ledger row, (eq_iff row.authorization_id aid).1 own)
      (replay_rows-append (rows_of aid ledger) row [] states states' h applied)

pub rows_of-other :
    (aid : String) (ledger : List LedgerRow) (row : LedgerRow)
    → (row.authorization_id == aid) ≡ false
    → rows_of aid (ledger ++ row ∷ []) ≡ rows_of aid ledger
rows_of-other aid ledger row other = rows_of-append aid ledger row ∙ rw other refl

module _ (e : Encoding) where
  -- The capability that a row stores under an identifier, and the states that its rows replay to.
  pub record IsAccounted (aid : String) (row : AuthorizationRow e) (ledger : List LedgerRow)
      : Type 0 where
    pub capability : Authorization
    pub parsed : e.parse row.authorization_json ≡ some capability
    pub hashed : row.authorization_hash ≡ e.authorization_hash capability
    pub own : capability.authorization_id ≡ aid
    pub states : States
    pub replayed : reservation_states aid ledger ≡ ok states
    pub within : IsWithin capability.budget states

  pub record IsLedger (authorizations : Table String (AuthorizationRow e)) (ledger : List LedgerRow)
      : Type 0 where
    pub kept :
        (aid : String) (row : AuthorizationRow e)
        → lookup aid authorizations ≡ some row
        → IsAccounted aid row ledger
    pub unknown : (aid : String) → lookup aid authorizations ≡ none → rows_of aid ledger ≡ []

  pub stored_authorization-IsAccounted :
      (aid : String) (row : AuthorizationRow e) (db : AuthorizationDb e)
      (k : IsAccounted aid row db.ledger)
      → lookup aid db.authorizations ≡ some row
      → stored_authorization e aid db ≡ ok k.capability
  unfolding stored_authorization
  stored_authorization-IsAccounted aid row db k found =
      rw (found, k.parsed, k.hashed, beq_refl (e.authorization_hash k.capability)) refl

  pub stored_authorization-eq-ok :
      (aid : String) (db : AuthorizationDb e) {a : Authorization}
      → stored_authorization e aid db ≡ ok a
      → (row : AuthorizationRow e) × (lookup aid db.authorizations ≡ some row)
        × (e.parse row.authorization_json ≡ some a)
  unfolding stored_authorization
  stored_authorization-eq-ok aid db h =
      let (row, found, rest) =
        >>=-eq-ok (or_raise (lookup aid db.authorizations) authorization_error) _ h in
      let (a, parsed, last) =
        >>=-eq-ok (or_raise (e.parse row.authorization_json) authorization_error) _ rest in
      let (_, same) =
        guard_then-eq-ok (row.authorization_hash == e.authorization_hash a) authorization_error _
          last in
      (
        row,
        or_raise-eq-ok _ authorization_error found,
        or_raise-eq-ok _ authorization_error parsed ∙ ap some (ground (arith, same)),
      )

  kept_own :
      (ledger : List LedgerRow) (row : LedgerRow) (stored : AuthorizationRow e)
      (k : IsAccounted row.authorization_id stored ledger) (states' : States)
      → apply_row row k.states ≡ ok states'
      → IsWithin k.capability.budget states'
      → IsAccounted row.authorization_id stored (ledger ++ row ∷ [])
  kept_own ledger row stored k states' applied within = record {
    capability = k.capability;
    parsed = k.parsed;
    hashed = k.hashed;
    own = k.own;
    states = states';
    replayed =
        reservation_states-append row.authorization_id ledger row k.states states' refl k.replayed
          applied;
    within = within;
  }

  kept_other :
      (aid : String) (ledger : List LedgerRow) (row : LedgerRow) (stored : AuthorizationRow e)
      → (row.authorization_id == aid) ≡ false
      → IsAccounted aid stored ledger
      → IsAccounted aid stored (ledger ++ row ∷ [])
  unfolding reservation_states
  kept_other aid ledger row stored other k = record {
    capability = k.capability;
    parsed = k.parsed;
    hashed = k.hashed;
    own = k.own;
    states = k.states;
    replayed = ap (λ rows. replay_rows rows []) (rows_of-other aid ledger row other) ∙ k.replayed;
    within = k.within;
  }

  -- A row that takes the states of its capability to states within the budget keeps the invariant.
  pub IsLedger-append :
      (authorizations : Table String (AuthorizationRow e)) (ledger : List LedgerRow)
      (row : LedgerRow)
      → IsLedger authorizations ledger
      → lookup row.authorization_id authorizations ≢ none
      → ((stored : AuthorizationRow e) (k : IsAccounted row.authorization_id stored ledger)
          → lookup row.authorization_id authorizations ≡ some stored
          → (states' : States) × (apply_row row k.states ≡ ok states')
            × IsWithin k.capability.budget states')
      → IsLedger authorizations (ledger ++ row ∷ [])
  IsLedger-append authorizations ledger row v listed next = record {
    kept = λ aid r h. elim (Bool-cases (row.authorization_id == aid)) [
      | inl same ↦
          let is = beq→eq row.authorization_id aid same in
          let found = ap (λ k. lookup k authorizations) is ∙ h in
          let k = v.kept row.authorization_id r found in
          let (states', applied, within) = next r k found in
          subst (λ a. IsAccounted a r (ledger ++ row ∷ [])) is
            (kept_own ledger row r k states' applied within)
      | inr other ↦ kept_other aid ledger row r other (v.kept aid r h)
    ];
    unknown = λ aid h. elim (Bool-cases (row.authorization_id == aid)) [
      | inl same ↦
          absurd
            (listed (ap (λ k. lookup k authorizations) (beq→eq row.authorization_id aid same) ∙ h))
      | inr other ↦ rows_of-other aid ledger row other ∙ v.unknown aid h
    ];
  }

  -- A new capability has no rows.
  pub IsLedger-issue :
      IsLossless e
      → (a : Authorization) (authorizations : Table String (AuthorizationRow e))
        (ledger : List LedgerRow) (request_digest : String)
      → IsLedger authorizations ledger
      → lookup a.authorization_id authorizations ≡ none
      → IsLedger
          ((
            a.authorization_id,
            record {
              authorization_hash = e.authorization_hash a;
              authorization_json = e.dumps a;
              issue_request_hash = request_digest;
            },
          )
            ∷ authorizations)
          ledger
  unfolding lookup reservation_states replay_rows
  IsLedger-issue lossless a authorizations ledger request_digest v free = record {
    kept = λ aid row h. elim (Bool-cases (a.authorization_id == aid)) [
      | inl same ↦
          let row_is : record {
            authorization_hash = e.authorization_hash a;
            authorization_json = e.dumps a;
            issue_request_hash = request_digest;
          }
              ≡ row =
            ground (arith, h, same) in
          subst (λ r. IsAccounted aid r ledger) row_is
            (record {
              capability = a;
              parsed = lossless.parse-dumps a;
              hashed = refl;
              own = beq→eq a.authorization_id aid same;
              states = [];
              replayed =
                  rw
                    (v.unknown aid (
                      ap (λ k. lookup k authorizations) (sym (beq→eq a.authorization_id aid same))
                      ∙ free))
                    refl;
              within = no_states-IsWithin a.budget;
            })
      | inr other ↦ v.kept aid row (ground (arith, h, other))
    ];
    unknown = λ aid h. v.unknown aid (ground (arith, h));
  }
