-- ===== src/Events.antt =====
-- packages/control_plane/src/autolean_control_plane/events.py: the values that the event store
-- takes and returns, with the checks of their constructors, and the tables of its database.
-- The children model its operations: Read the queries, Append the writes, Fenced the writes under
-- a lease, Registration the contract-revision bindings.
pub mod Read
pub mod Append
pub mod Fenced
pub mod Registration
pub mod Startup
pub mod Log
use auto_lean.Base.{
  ℕ, Bool, not, ◌&&◌, ◌||◌, List, [], String, Table, Result, ok, value_error, ◌>>=◌, ◌>>◌, guard,
  leb, ◌==◌, string_Eq, Eq, if◌then◌else◌, nat_Eq, ltb, ◌≡◌, true, ◌↔◌, arith, eq_iff,
}
use auto_lean.Base.Int.{ℤ, pos, negsuc, is_positive, int_Eq, int_eq_iff}
use auto_lean.Base.Lists.{length}
use auto_lean.Base.Text.{is_blank, is_sha256, is_nonce, codes}
use auto_lean.Json.{Fields}
use auto_lean.Leases.{LeaseDb, Reading}

pub record NewEvent : Type 0 where
  pub event_type : String
  pub payload : Fields
  pub metadata : Fields

-- `recorded_at` is the instant that the text denotes.
pub record StoredEvent : Type 0 where
  pub global_position : ℕ
  pub event_id : String
  pub entity_type : String
  pub entity_id : String
  pub entity_sequence : ℕ
  pub event_type : String
  pub payload : Fields
  pub metadata : Fields
  pub recorded_at : ℕ

pub record Idempotency : Type 0 where
  pub scope : String
  pub key : String
  pub request_hash : String

-- `Idempotency.__post_init__`
unfoldable pub check_idempotency : Idempotency → Result (Unit {0})
check_idempotency i = do
  guard (not (is_blank i.scope)) value_error
  guard (not (is_blank i.key)) value_error
  guard (length (codes i.request_hash) == 64) value_error

pub record AttestationNonce : Type 0 where
  pub purpose : String
  pub key_id : String
  pub nonce : String
  pub payload_hash : String

-- `AttestationNonce.__post_init__`
unfoldable pub check_nonce : AttestationNonce → Result (Unit {0})
check_nonce n = do
  guard (not (is_blank n.purpose || ltb 128 (length (codes n.purpose)))) value_error
  guard (not (is_blank n.key_id || ltb 128 (length (codes n.key_id)))) value_error
  guard (is_nonce n.nonce) value_error
  guard (is_sha256 n.payload_hash) value_error

pub record ContractRevisionBinding : Type 0 where
  pub contract_id : String
  pub revision : ℤ
  pub bundle_id : String
  pub bundle_hash : String
  pub contract_hash : String

-- `ContractRevisionBinding(...)` with its `__post_init__`
unfoldable pub make_binding : String → ℤ → String → String → String → Result ContractRevisionBinding
make_binding contract_id revision bundle_id bundle_hash contract_hash = do
  guard (not (is_blank contract_id || is_blank bundle_id)) value_error
  guard (is_positive revision) value_error
  guard (is_sha256 bundle_hash) value_error
  guard (is_sha256 contract_hash) value_error
  ok (record {
    contract_id = contract_id;
    revision = revision;
    bundle_id = bundle_id;
    bundle_hash = bundle_hash;
    contract_hash = contract_hash;
  })

abbrev pub binding_eq : ContractRevisionBinding → ContractRevisionBinding → Bool
binding_eq a b =
    a.contract_id == b.contract_id
    && a.revision == b.revision
    && a.bundle_id == b.bundle_id
    && a.bundle_hash == b.bundle_hash
    && a.contract_hash == b.contract_hash

pub binding_eq_iff : (a b : ContractRevisionBinding) → (binding_eq a b ≡ true) ↔ (a ≡ b)
binding_eq_iff a b = ground (
  arith,
  eq_iff a.contract_id b.contract_id,
  int_eq_iff a.revision b.revision,
  eq_iff a.bundle_id b.bundle_id,
  eq_iff a.bundle_hash b.bundle_hash,
  eq_iff a.contract_hash b.contract_hash,
)

instance abbrev pub binding_Eq : Eq ContractRevisionBinding
binding_Eq = record { beq = binding_eq; beq_iff = binding_eq_iff }

-- A row of `events`; a document is a canonical JSON text.
pub record EventRow (Doc : Type 0) : Type 0 where
  pub global_position : ℕ
  pub event_id : String
  pub entity_type : String
  pub entity_id : String
  pub entity_sequence : ℕ
  pub event_type : String
  pub payload_json : Doc
  pub metadata_json : Doc
  pub recorded_at : ℕ

pub record IdempotencyRow (Doc : Type 0) : Type 0 where
  pub request_hash : String
  pub event_ids_json : Doc
  pub created_at : ℕ

pub record NonceUse : Type 0 where
  pub payload_hash : String
  pub entity_type : String
  pub entity_id : String
  pub consumed_at : ℕ

pub record BindingRow : Type 0 where
  pub bundle_id : String
  pub bundle_hash : String
  pub contract_hash : String
  pub registration_event_id : String

-- The shared SQLite database. The triggers that forbid updates and deletions of `events`,
-- `attestation_nonce_uses` and `contract_revision_bindings` have no counterpart: no operation
-- attempts one. `last_position` is the AUTOINCREMENT counter of `events`.
pub record Db (Doc : Type 0) : Type 0 where
  pub leases : LeaseDb
  pub events : List (EventRow Doc)
  pub last_position : ℕ
  pub entity_versions : Table (String × String) ℕ
  pub idempotency_records : Table (String × String) (IdempotencyRow Doc)
  pub attestation_nonce_uses : Table (String × (String × String)) NonceUse
  pub contract_revision_bindings : Table (String × ℤ) BindingRow

-- What a transaction reads from outside: the clock at each of its readings, and the random
-- identifiers of the events that it inserts, the first at offset 1.
pub record Env : Type 0 where
  pub fence_clock : Reading
  pub nonce_clock : Reading
  pub append_clock : Reading
  pub uuid4 : ℕ → String

-- The request of `append`, and its optional arguments.
pub record Request : Type 0 where
  pub entity_type : String
  pub entity_id : String
  pub expected_sequence : ℤ
  pub new_events : List NewEvent
