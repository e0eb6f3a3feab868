-- ===== src/Authorization/Extension.antt =====
-- model_authorization.py: later tables extend earlier ones.
use mathlib.Core.List.{append_assoc, append-nil}
use auto_lean.Base.{
  ◌≡◌, inl, inr, refl, sym, ap, subst, ◌∙◌, Bool, Bool-cases, true, none, some, List, [], ◌∷◌, ◌++◌,
  String, ok, Table, lookup, lookup-cons_fresh, arith, string_Eq, ◌==◌, >>=-eq-ok,
}
use auto_lean.Base.Lists.{any}
use auto_lean.Authorization.{Authorization, Encoding, AuthorizationRow, AuthorizationDb, LedgerRow}
use auto_lean.Authorization.Ledger.{States, rows_of, replay_rows, apply_row}
use auto_lean.Authorization.Issues.{issue_locked-keeps, revoke-keeps}
use auto_lean.Authorization.Inversion.{reserve-IsReserve}
use auto_lean.Authorization.Endings.{IsSettle, settle-eq-ok, IsAbandon, abandon-eq-ok}
use auto_lean.Authorization.History.{Step, Reach}

pub rows_of-join :
    (aid : String) (ledger more : List LedgerRow)
    → rows_of aid (ledger ++ more) ≡ rows_of aid ledger ++ rows_of aid more
unfolding rows_of
rows_of-join aid [] more = refl
rows_of-join aid (row ∷ ledger) more = elim (Bool-cases (row.authorization_id == aid)) [
  | inl own ↦ rw own (ap (λ rows. row ∷ rows) (rows_of-join aid ledger more))
  | inr other ↦ rw other (rows_of-join aid ledger more)
]

pub replay_rows-join :
    (rows more : List LedgerRow) (start states states' : States)
    → replay_rows rows start ≡ ok states
    → replay_rows (rows ++ more) start ≡ ok states'
    → replay_rows more states ≡ ok states'
unfolding replay_rows
replay_rows-join [] more start states states' h h' =
    let is : start ≡ states = ground (arith, h) in ap (replay_rows more) (sym is) ∙ h'
replay_rows-join (row ∷ rows) more start states states' h h' =
    let (next, first, rest) = >>=-eq-ok (apply_row row start) _ h in
    let (next', first', rest') = >>=-eq-ok (apply_row row start) _ h' in
    let both : ok next' ≡ ok next = sym first' ∙ first in
    let is : next' ≡ next = ground (arith, both) in
    replay_rows-join rows more next states states' rest
      (ap (replay_rows (rows ++ more)) (sym is) ∙ rest')

pub any-join :
    (test : LedgerRow → Bool) (rows more : List LedgerRow)
    → any test rows ≡ true
    → any test (rows ++ more) ≡ true
unfolding any
any-join test [] more h = cc
any-join test (row ∷ rows) more h = ground (arith, h, any-join test rows more)

module _ (e : Encoding) where
  -- Later tables have every row of the earlier ones, the ledger in the same order.
  pub record Extends (db db' : AuthorizationDb e) : Type 0 where
    pub more : List LedgerRow
    pub grown : db'.ledger ≡ db.ledger ++ more
    pub listed :
        (aid : String) (row : AuthorizationRow e)
        → lookup aid db.authorizations ≡ some row
        → lookup aid db'.authorizations ≡ some row

  Extends-refl : (db : AuthorizationDb e) → Extends db db
  Extends-refl db = record {
    more = [];
    grown = sym (append-nil db.ledger);
    listed = λ aid row h. h;
  }

  Extends-moved :
      (db d d' : AuthorizationDb e)
      → d.authorizations ≡ d'.authorizations
      → d.ledger ≡ d'.ledger
      → Extends db d
      → Extends db d'
  Extends-moved db d d' a l x = record {
    more = x.more;
    grown = sym l ∙ x.grown;
    listed = λ aid row h. ap (lookup aid) (sym a) ∙ x.listed aid row h;
  }

  Extends-row :
      (db d d' : AuthorizationDb e) (row : LedgerRow)
      → d.authorizations ≡ d'.authorizations
      → d.ledger ++ row ∷ [] ≡ d'.ledger
      → Extends db d
      → Extends db d'
  Extends-row db d d' row a l x = record {
    more = x.more ++ row ∷ [];
    grown =
        sym l
        ∙ ap (λ ledger. ledger ++ row ∷ []) x.grown
        ∙ append_assoc db.ledger x.more (row ∷ []);
    listed = λ aid r h. ap (lookup aid) (sym a) ∙ x.listed aid r h;
  }

  Extends-added :
      (db d : AuthorizationDb e) (a : Authorization) (request_digest : String)
      → lookup a.authorization_id d.authorizations ≡ none
      → Extends db d
      → Extends db (record d {
        authorizations =
            (
              a.authorization_id,
              record {
                authorization_hash = e.authorization_hash a;
                authorization_json = e.dumps a;
                issue_request_hash = request_digest;
              },
            )
            ∷ d.authorizations;
      })
  Extends-added db d a request_digest free x = record {
    more = x.more;
    grown = x.grown;
    listed = λ aid row h.
        lookup-cons_fresh a.authorization_id aid _ row d.authorizations free (x.listed aid row h);
  }

  authorizations_of : AuthorizationDb e → Table String (AuthorizationRow e)
  authorizations_of d = d.authorizations

  Step-Extends : {db d d' : AuthorizationDb e} → Extends db d → Step e d d' → Extends db d'
  Step-Extends {db} {d} {d'} x (Step.issues a issued request_digest key h) =
      issue_locked-keeps e (Extends db) (Extends-moved db) (Extends-added db)
        (λ m aid reason now listed y. Extends-row db m _ _ refl refl y) a issued request_digest key
        d d' x h
  Step-Extends {db} {d} {d'} x (Step.revokes clocks aid reason key request_digest h) =
      revoke-keeps e (Extends db) (Extends-moved db) (Extends-added db)
        (λ m aid reason now listed y. Extends-row db m _ _ refl refl y) clocks aid reason key
        request_digest d d' x h
  Step-Extends {db} {d} {d'} x (Step.reserves settings clocks id a request r new h) =
      let made = reserve-IsReserve e settings clocks id a request d r d' h in
      subst (Extends db) made.wrote (Extends-row db d _ _ refl refl x)
  Step-Extends {db} {d} {d'} x (Step.settles clocks r i c o h) =
      let (a, states, state, found, _, done) = settle-eq-ok e clocks r i c o d d' h in
      elim done [
        | IsSettle.repeated _ _ is ↦ subst (Extends db) is x
        | IsSettle.made cost now health _ _ is ↦
            subst (Extends db) is (Extends-row db d _ _ refl refl x)
      ]
  Step-Extends {db} {d} {d'} x (Step.abandons clocks r failure_code h) =
      let (a, states, state, found, _, done) = abandon-eq-ok e clocks r failure_code d d' h in
      elim done [
        | IsAbandon.ended _ is ↦ subst (Extends db) is x
        | IsAbandon.dropped now health _ is ↦
            subst (Extends db) is (Extends-row db d _ _ refl refl x)
      ]
  Step-Extends {db} {d} x (Step.leases_change leases) = Extends-moved db d _ refl refl x

  pub Reach-Extends : {db db' : AuthorizationDb e} → Reach e db db' → Extends db db'
  Reach-Extends {db} Reach.here = Extends-refl db
  Reach-Extends (Reach.next r s) = Step-Extends (Reach-Extends r) s
