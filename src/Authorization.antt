-- ===== src/Authorization.antt =====
-- packages/control_plane/src/autolean_control_plane/model_authorization.py: capabilities for model
-- calls, with an append-only ledger of what is reserved and used under each. The capabilities are
-- those of packages/contracts/src/autolean_contracts/authorization.py.
-- Identifiers of ledger events, which nothing reads, are left out; a row's time is an instant.
pub mod Ledger
pub mod Circuit
pub mod Operations
pub mod Reservations
pub mod States
pub mod Within
pub mod Records
pub mod Inversion
pub mod Endings
pub mod History
pub mod Keeps
pub mod Bounds
pub mod Growth
pub mod Issues
pub mod Extension
pub mod Finality
pub mod Release
pub mod Revocation
pub mod Health
pub mod Reopening
use auto_lean.Base.{
  ℕ, ◌+◌, ◌-◌, ◌*◌, Bool, true, false, not, ◌&&◌, ◌||◌, Option, none, some, List, [], String, Eq,
  Result, ok, err, value_error, authorization_error, stale_fence, Error, ◌>>=◌, ◌>>◌, guard,
  or_raise, Table, lookup, ltb, leb, ◌==◌, string_Eq, if◌then◌else◌, ◌≡◌,
}
use auto_lean.Base.Int.{ℤ, is_negative, is_positive, pos_part}
use auto_lean.Leases.{Reading, naive, aware, LeaseDb}

pub record Digest : Type 0 where
  pub kind : String
  pub value : String

-- `ModelExecutionProviderBindingV1`
pub record Provider : Type 0 where
  pub registry_name : String
  pub provider_id : String
  pub model_id : String
  pub model_revision : String
  pub endpoint_class : String
  pub configuration_hash : Digest

pub record Pricing : Type 0 where
  pub input_microusd_per_token : ℕ
  pub cached_input_microusd_per_token : ℕ
  pub output_microusd_per_token : ℕ

pub record Budget : Type 0 where
  pub max_attempts : ℕ
  pub max_input_tokens : ℕ
  pub max_output_tokens : ℕ
  pub max_total_tokens : ℕ
  pub max_cost_microusd : ℕ

pub record LeaseBinding : Type 0 where
  pub bundle_id : String
  pub worker_id : String
  pub fencing_token : ℕ
  pub expires_at : ℕ

pub record Attestation : Type 0 where
  pub signature : String
  pub expires_at : ℕ

-- `ModelExecutionAuthorizationV1`, with what the ledger's operations read of it.
pub record Authorization : Type 0 where
  pub authorization_id : String
  pub lease : LeaseBinding
  pub context_pack_hash : Digest
  pub request_hash : Digest
  pub provider : Provider
  pub pricing : Pricing
  pub budget : Budget
  pub expires_at : ℕ
  pub attestation : Option Attestation

-- `ModelExecutionReservationV1`
pub record Reservation : Type 0 where
  pub reservation_id : String
  pub authorization_id : String
  pub attempt_number : ℕ
  pub reserved_input_tokens : ℕ
  pub reserved_output_tokens : ℕ
  pub reserved_cost_microusd : ℕ

-- What the service calls elsewhere: the canonical text of a model and its reader, the hashes, and
-- the verifier of attestations. The two texts of a provider are its `_provider_binding_record`.
pub record Encoding : Type 1 where
  pub Doc : Type 0
  pub doc_Eq : Eq Doc
  pub dumps : Authorization → Doc
  pub parse : Doc → Option Authorization
  pub authorization_hash : Authorization → String
  pub accepts : Attestation → Authorization → Bool
  pub binding_hash : Provider → String
  pub binding_json : Provider → String

-- A capability that was written as text is read back as it was.
pub record IsLossless (e : Encoding) : Type 0 where
  pub parse-dumps : (a : Authorization) → e.parse (e.dumps a) ≡ some a

pub data EventType : Type 0 where
  reserved settled abandoned revoked : EventType

-- A row of `model_execution_authorization_ledger`; numbers and texts are null where `none`.
pub record LedgerRow : Type 0 where
  pub authorization_id : String
  pub reservation_id : Option String
  pub attempt_number : Option ℤ
  pub event_type : EventType
  pub reserved_input_tokens : Option ℤ
  pub reserved_output_tokens : Option ℤ
  pub reserved_cost_microusd : Option ℤ
  pub actual_input_tokens : Option ℤ
  pub actual_cached_input_tokens : Option ℤ
  pub actual_output_tokens : Option ℤ
  pub actual_cost_microusd : Option ℤ
  pub reason : Option String
  pub recorded_at : ℕ

pub data HealthEvent : Type 0 where
  failure success : HealthEvent

-- A row of `model_execution_provider_health_ledger`.
pub record HealthRow : Type 0 where
  pub binding_hash : String
  pub binding_json : String
  pub event_type : HealthEvent
  pub failure_code : Option String
  pub recorded_at : ℕ

pub record AuthorizationRow (e : Encoding) : Type 0 where
  pub authorization_hash : String
  pub authorization_json : e.Doc
  pub issue_request_hash : String

pub record UseRow : Type 0 where
  pub request_hash : String
  pub authorization_id : String

-- The ledger in the order of its event sequence, the health ledger with its latest row first.
pub record AuthorizationDb (e : Encoding) : Type 0 where
  pub authorizations : Table String (AuthorizationRow e)
  pub idempotency : Table (String × String) UseRow
  pub ledger : List LedgerRow
  pub health : List HealthRow
  pub leases : LeaseDb

-- The tables as `_initialize` creates them, beside any lease tables.
abbrev pub no_authorizations : (e : Encoding) → LeaseDb → AuthorizationDb e
no_authorizations e leases = record {
  authorizations = [];
  idempotency = [];
  ledger = [];
  health = [];
  leases = leases;
}

-- The readings of the clocks in one operation, in the order in which it takes them, and the lease
-- store's own reading.
pub record Clocks : Type 0 where
  pub verified_at : Reading
  pub active_at : Reading
  pub leases_at : Reading
  pub circuit_at : Reading
  pub reserved_at : Reading
  pub recorded_at : Reading
  pub health_at : Reading

-- `_provider_failure_threshold` and the cooldown in microseconds.
pub record CircuitSettings : Type 0 where
  pub provider_failure_threshold : ℕ
  pub provider_failure_cooldown : ℕ

-- `_now`
unfoldable pub now_of : Reading → Result ℕ
now_of (naive t) = err authorization_error
now_of (aware t) = ok t

-- `cost_for_usage`
unfoldable pub cost_for_usage : Pricing → ℤ → ℤ → ℤ → Result ℕ
cost_for_usage pricing input_tokens cached_input_tokens output_tokens = do
  guard
      (not
        (is_negative input_tokens || is_negative cached_input_tokens || is_negative output_tokens))
      value_error
  guard (leb (pos_part cached_input_tokens) (pos_part input_tokens)) value_error
  ok (
      (pos_part input_tokens - pos_part cached_input_tokens) * pricing.input_microusd_per_token
      + pos_part cached_input_tokens * pricing.cached_input_microusd_per_token
      + pos_part output_tokens * pricing.output_microusd_per_token)

abbrev pub max_nat : ℕ → ℕ → ℕ
max_nat a b = if ltb a b then b else a

-- `reserve_cost`
unfoldable pub reserve_cost : Pricing → ℤ → ℤ → Result ℕ
reserve_cost pricing max_input_tokens max_output_tokens = do
  guard (not (is_negative max_input_tokens || is_negative max_output_tokens)) value_error
  ok (
      max_nat pricing.input_microusd_per_token pricing.cached_input_microusd_per_token
        * pos_part max_input_tokens
      + pricing.output_microusd_per_token * pos_part max_output_tokens)
