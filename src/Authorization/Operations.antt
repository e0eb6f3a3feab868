-- ===== src/Authorization/Operations.antt =====
-- model_authorization.py: the operations that reserve, settle, release and revoke.
use auto_lean.Base.{
  ℕ, ◌+◌, Bool, true, false, not, ◌&&◌, ◌||◌, Option, none, some, List, [], ◌∷◌, ◌++◌, String,
  Result, ok, err, authorization_error, stale_fence, ◌>>=◌, ◌>>◌, guard, or_raise, lookup, insert,
  leb, ltb, nat_eq, ◌==◌, string_Eq, pair_Eq,
}
use auto_lean.Base.Int.{ℤ, is_positive, pos_part}
use auto_lean.Base.Lists.{length, all}
use auto_lean.Base.Text.{codes, is_blank}
use auto_lean.Leases.{Reading, aware, make_lease, assert_current}
use auto_lean.Authorization.{
  Digest, Provider, Authorization, Encoding, LedgerRow, EventType, revoked, AuthorizationRow,
  AuthorizationDb, Clocks, now_of,
}
use auto_lean.Authorization.Ledger.{is_revoked}

-- The columns that an operation fills in, and no others.
abbrev pub blank_row : String → EventType → ℕ → LedgerRow
blank_row authorization_id event_type now = record {
  authorization_id = authorization_id;
  reservation_id = none;
  attempt_number = none;
  event_type = event_type;
  reserved_input_tokens = none;
  reserved_output_tokens = none;
  reserved_cost_microusd = none;
  actual_input_tokens = none;
  actual_cached_input_tokens = none;
  actual_output_tokens = none;
  actual_cost_microusd = none;
  reason = none;
  recorded_at = now;
}

-- `^[a-z][a-z0-9_-]{0,63}$` under `fullmatch`
abbrev is_code_start : ℕ → Bool
is_code_start c = leb b'a' c && leb c b'z'

abbrev is_code_part : ℕ → Bool
is_code_part c = is_code_start c || (leb b'0' c && leb c b'9') || nat_eq c b'_' || nat_eq c b'-'

abbrev is_revocation_code : List ℕ → Bool
is_revocation_code [] = false
is_revocation_code (c ∷ rest) = is_code_start c && leb (length rest) 63 && all is_code_part rest

unfoldable pub validate_reason : String → Result (Unit {0})
unfolding all
validate_reason reason = guard (is_revocation_code (codes reason)) authorization_error

-- `!=` on digests and on provider bindings.
abbrev pub digest_eq : Digest → Digest → Bool
digest_eq a b = a.kind == b.kind && a.value == b.value

abbrev pub provider_eq : Provider → Provider → Bool
provider_eq a b =
    a.registry_name == b.registry_name
    && a.provider_id == b.provider_id
    && a.model_id == b.model_id
    && a.model_revision == b.model_revision
    && a.endpoint_class == b.endpoint_class
    && digest_eq a.configuration_hash b.configuration_hash

unfoldable pub validate_request_hashes : Option Digest → Digest → Result Digest
validate_request_hashes none outbound = err authorization_error
validate_request_hashes (some context) outbound = do
  guard (context.kind == "prompt") authorization_error
  guard (outbound.kind == "prompt") authorization_error
  ok context

-- A request for a model call.
pub record ModelRequest : Type 0 where
  pub provider : Provider
  pub requested_input_tokens : ℤ
  pub requested_output_tokens : ℤ
  pub context_pack_hash : Option Digest
  pub outbound_request_hash : Digest

unfoldable pub validate_request_limits : Authorization → ModelRequest → Result (Unit {0})
unfolding validate_request_hashes
validate_request_limits a r = do
  guard (provider_eq a.provider r.provider) authorization_error
  context ← validate_request_hashes r.context_pack_hash r.outbound_request_hash
  guard (digest_eq context a.context_pack_hash) authorization_error
  guard (digest_eq r.outbound_request_hash a.request_hash) authorization_error
  guard (is_positive r.requested_input_tokens && is_positive r.requested_output_tokens)
      authorization_error
  guard (leb (pos_part r.requested_input_tokens) a.budget.max_input_tokens) authorization_error
  guard (leb (pos_part r.requested_output_tokens) a.budget.max_output_tokens) authorization_error
  guard
      (leb (pos_part r.requested_input_tokens + pos_part r.requested_output_tokens)
        a.budget.max_total_tokens)
      authorization_error

-- `except StaleFence as error`
abbrev pub on_stale_fence : Result (Unit {0}) → Result (Unit {0})
on_stale_fence (err stale_fence) = err authorization_error
on_stale_fence result = result

module _ (e : Encoding) where
  unfoldable pub verify_capability : Clocks → Authorization → Result (Unit {0})
  unfolding now_of
  verify_capability clocks a = do
    attestation ← or_raise a.attestation authorization_error
    guard (leb a.expires_at attestation.expires_at) authorization_error
    now ← now_of clocks.verified_at
    guard (ltb now a.expires_at) authorization_error
    guard (e.accepts attestation a) authorization_error

  unfoldable pub stored_authorization : String → AuthorizationDb e → Result Authorization
  stored_authorization authorization_id db = do
    row ← or_raise (lookup authorization_id db.authorizations) authorization_error
    authorization ← or_raise (e.parse row.authorization_json) authorization_error
    guard (row.authorization_hash == e.authorization_hash authorization) authorization_error
    ok authorization

  unfoldable pub assert_same_capability : Authorization → Authorization → Result (Unit {0})
  assert_same_capability stored supplied =
      guard (e.doc_Eq.beq (e.dumps stored) (e.dumps supplied)) authorization_error

  unfoldable pub assert_active : Clocks → Authorization → AuthorizationDb e → Result (Unit {0})
  unfolding now_of is_revoked make_lease assert_current
  assert_active clocks a db = do
    now ← now_of clocks.active_at
    guard (ltb now a.expires_at) authorization_error
    guard (not (is_revoked a.authorization_id db.ledger)) authorization_error
    lease ←
        make_lease a.lease.bundle_id a.lease.worker_id a.lease.fencing_token
          (aware a.lease.expires_at)
    on_stale_fence (assert_current clocks.leases_at lease db.leases)

  -- `_append_ledger_event`, where `row` takes its time from the clock.
  unfoldable pub append_ledger_event :
      (ℕ → LedgerRow) → Reading → AuthorizationDb e → Result (AuthorizationDb e)
  unfolding now_of
  append_ledger_event row clock db = do
    now ← now_of clock
    ok (record db { ledger = db.ledger ++ row now ∷ [] })

  -- `_idempotent_authorization`
  unfoldable pub idempotent_authorization :
      String → String → String → AuthorizationDb e → Result (Option Authorization)
  unfolding stored_authorization
  idempotent_authorization scope key request_digest db = elim (lookup (scope, key) db.idempotency) [
    | none ↦ ok none
    | some row ↦ (do
      guard (row.request_hash == request_digest) authorization_error
      authorization ← stored_authorization row.authorization_id db
      ok (some authorization))
  ]

  unfoldable pub record_idempotency :
      String → String → String → String → AuthorizationDb e → Result (AuthorizationDb e)
  record_idempotency scope key request_digest authorization_id db = do
    rows ←
        insert (scope, key)
          (record { request_hash = request_digest; authorization_id = authorization_id })
          db.idempotency
    ok (record db { idempotency = rows })

  -- The part of the transaction of `issue` that writes, for the row found under the identifier.
  unfoldable pub issue_row :
      Authorization
      → String
      → String
      → AuthorizationDb e
      → Option (AuthorizationRow e)
      → Result (Authorization × AuthorizationDb e)
  unfolding stored_authorization record_idempotency
  issue_row a request_digest key db (some row) = do
    guard (row.issue_request_hash == request_digest) authorization_error
    stored ← stored_authorization a.authorization_id db
    db' ←
        record_idempotency "issue_model_execution_authorization" key request_digest
          stored.authorization_id db
    ok (stored, db')
  issue_row a request_digest key db none = do
    db' ←
        record_idempotency "issue_model_execution_authorization" key request_digest
          a.authorization_id
          (record db {
            authorizations =
                (
                  a.authorization_id,
                  record {
                    authorization_hash = e.authorization_hash a;
                    authorization_json = e.dumps a;
                    issue_request_hash = request_digest;
                  },
                )
                ∷ db.authorizations;
          })
    ok (a, db')

  abbrev pub or_replay :
      Option Authorization
      → Result (Authorization × AuthorizationDb e)
      → AuthorizationDb e
      → Result (Authorization × AuthorizationDb e)
  or_replay (some stored) made db = ok (stored, db)
  or_replay none made db = made

  -- The transaction of `issue` on a signed capability.
  unfoldable pub issue_locked :
      Authorization
      → String
      → String
      → AuthorizationDb e
      → Result (Authorization × AuthorizationDb e)
  unfolding idempotent_authorization issue_row
  issue_locked a request_digest key db = do
    replay ← idempotent_authorization "issue_model_execution_authorization" key request_digest db
    or_replay replay
        (issue_row a request_digest key db (lookup a.authorization_id db.authorizations)) db

  -- `if not self._is_revoked(...)`
  unfoldable pub revoke_once :
      Clocks → String → String → Bool → AuthorizationDb e → Result (AuthorizationDb e)
  unfolding append_ledger_event
  revoke_once clocks authorization_id reason true db = ok db
  revoke_once clocks authorization_id reason false db =
      append_ledger_event
        (λ now. record (blank_row authorization_id revoked now) { reason = some reason })
        clocks.recorded_at db

  unfoldable pub revoke_new :
      Clocks → String → String → String → String → AuthorizationDb e → Result (AuthorizationDb e)
  unfolding stored_authorization is_revoked revoke_once record_idempotency
  revoke_new clocks authorization_id reason key request_digest db = do
    stored ← stored_authorization authorization_id db
    db' ← revoke_once clocks authorization_id reason (is_revoked authorization_id db.ledger) db
    record_idempotency "revoke_model_execution_authorization" key request_digest authorization_id
        db'

  abbrev pub unless_replay :
      Option Authorization
      → Result (AuthorizationDb e)
      → AuthorizationDb e
      → Result (AuthorizationDb e)
  unless_replay (some stored) made db = ok db
  unless_replay none made db = made

  -- `revoke`, where `request_digest` is the hash of its arguments.
  unfoldable pub revoke :
      Clocks → String → String → String → String → AuthorizationDb e → Result (AuthorizationDb e)
  unfolding validate_reason idempotent_authorization revoke_new
  revoke clocks authorization_id reason key request_digest db = do
    validate_reason reason
    guard (not (is_blank key)) authorization_error
    replay ← idempotent_authorization "revoke_model_execution_authorization" key request_digest db
    unless_replay replay (revoke_new clocks authorization_id reason key request_digest db) db
