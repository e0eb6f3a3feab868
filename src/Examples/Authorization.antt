-- ===== src/Examples/Authorization.antt =====
-- model_authorization.py: one capability from its issue to its revocation.
use auto_lean.Base.{
  ℕ, ◌≤◌, ◌≡◌, ◌≢◌, refl, sym, ap, true, none, some, [], ◌∷◌, ◌++◌, String, ok, lookup, put, insert,
  arith, string_Eq, pair_Eq,
}
use auto_lean.Base.Int.{pos, pos_part}
use auto_lean.Base.Lists.{any, all, contains}
use auto_lean.Base.Text.{is_blank}
use auto_lean.Leases.{aware, LeaseDb, make_lease, utc_now, assert_current, assert_row}
use auto_lean.Authorization.{
  Digest, Provider, Authorization, Reservation, AuthorizationDb, no_authorizations, Clocks,
  CircuitSettings, success, revoked, now_of, reserve_cost, cost_for_usage,
}
use auto_lean.Authorization.Ledger.{
  States, ReservationState, UsageTotals, is_abandoned, reservation_states, usage_totals, is_revoked,
  rows_of, replay_rows, apply_row, apply_event, reserved_state, required_nonnegative_int, add_usage,
  assert_reservation_matches, provider_failure_codes,
}
use auto_lean.Authorization.Circuit.{
  assert_provider_circuit_closed, latest_rows, bound_rows, limit_rows, count_failures,
  circuit_verdict, append_provider_health_event,
}
use auto_lean.Authorization.Operations.{
  ModelRequest, issue_locked, issue_row, revoke, revoke_new, revoke_once, validate_reason,
  idempotent_authorization, stored_authorization, record_idempotency, verify_capability,
  validate_request_limits, validate_request_hashes, assert_same_capability, assert_active,
  append_ledger_event, blank_row,
}
use auto_lean.Authorization.Reservations.{
  preflight, reserve, reserve_in_ledger, settle, settle_state, abandon, check_budget, reserved_row,
  settled_row,
}
use auto_lean.Authorization.States.{Numbered}
use auto_lean.Authorization.Endings.{Matches}
use auto_lean.Authorization.History.{Step, Reach, IsNewId}
use auto_lean.Authorization.Bounds.{usage_stays_within_budget}
use auto_lean.Authorization.Finality.{settlement_is_final}
use auto_lean.Authorization.Release.{reservation_can_be_released}
use auto_lean.Authorization.Revocation.{revoked_capability_is_dead}
use auto_lean.Examples.Encodings.{plain_encoding, plain_encoding-IsLossless}

abbrev leases : LeaseDb
leases = record {
  worker_leases =
      ("bundle", record { holder_id = "w1"; fencing_token = 1; expires_at = 90; updated_at = 0 })
      ∷ [];
  lease_counters = ("bundle", 1) ∷ [];
}

abbrev prompt : String → Digest
prompt value = record { kind = "prompt"; value = value }

abbrev pub provider : Provider
provider = record {
  registry_name = "local";
  provider_id = "p";
  model_id = "m";
  model_revision = "1";
  endpoint_class = "local";
  configuration_hash = record { kind = "config"; value = "c" };
}

abbrev cap : Authorization
cap = record {
  authorization_id = "cap";
  lease = record { bundle_id = "bundle"; worker_id = "w1"; fencing_token = 1; expires_at = 90 };
  context_pack_hash = prompt "context";
  request_hash = prompt "request";
  provider = provider;
  pricing = record {
    input_microusd_per_token = 2;
    cached_input_microusd_per_token = 1;
    output_microusd_per_token = 3;
  };
  budget = record {
    max_attempts = 2;
    max_input_tokens = 10;
    max_output_tokens = 10;
    max_total_tokens = 20;
    max_cost_microusd = 60;
  };
  expires_at = 80;
  attestation = some (record { signature = "signed"; expires_at = 80 });
}

abbrev clocks : ℕ → Clocks
clocks t = record {
  verified_at = aware t;
  active_at = aware t;
  leases_at = aware t;
  circuit_at = aware t;
  reserved_at = aware t;
  recorded_at = aware t;
  health_at = aware t;
}

abbrev pub settings : CircuitSettings
settings = record { provider_failure_threshold = 3; provider_failure_cooldown = 60 }

abbrev request : ModelRequest
request = record {
  provider = provider;
  requested_input_tokens = pos 5;
  requested_output_tokens = pos 4;
  context_pack_hash = some (prompt "context");
  outbound_request_hash = prompt "request";
}

abbrev first_try : Reservation
first_try = record {
  reservation_id = "r1";
  authorization_id = "cap";
  attempt_number = 1;
  reserved_input_tokens = 5;
  reserved_output_tokens = 4;
  reserved_cost_microusd = 22;
}

abbrev start : AuthorizationDb plain_encoding
start = no_authorizations plain_encoding leases

abbrev issued_db : AuthorizationDb plain_encoding
issued_db = record start {
  authorizations =
      (
        "cap",
        record {
          authorization_hash = "cap";
          authorization_json = cap;
          issue_request_hash = "digest";
        },
      )
      ∷ [];
  idempotency =
      (
        ("issue_model_execution_authorization", "key"),
        record { request_hash = "digest"; authorization_id = "cap" },
      )
      ∷ [];
}

abbrev reserved_db : AuthorizationDb plain_encoding
reserved_db = record issued_db { ledger = reserved_row first_try 10 ∷ [] }

abbrev settled_db : AuthorizationDb plain_encoding
settled_db = record reserved_db {
  ledger = reserved_row first_try 10 ∷ settled_row "cap" first_try (3, 1, 2) 11 20 ∷ [];
  health =
      record {
        binding_hash = "p";
        binding_json = "p";
        event_type = success;
        failure_code = none;
        recorded_at = 20;
      }
      ∷ [];
}

issue-cap : issue_locked plain_encoding cap "digest" "key" start ≡ ok (cap, issued_db)
unfolding issue_locked issue_row idempotent_authorization record_idempotency lookup insert
issue-cap = refl

reserve-first :
    reserve plain_encoding settings (clocks 10) "r1" cap request issued_db
    ≡ ok (first_try, reserved_db)
unfolding reserve verify_capability validate_request_limits validate_request_hashes
    stored_authorization assert_same_capability assert_active now_of is_revoked rows_of any
    make_lease is_blank all assert_current utc_now assert_row assert_provider_circuit_closed
    latest_rows bound_rows limit_rows count_failures circuit_verdict reserve_in_ledger
    reservation_states replay_rows usage_totals add_usage reserve_cost check_budget
    append_ledger_event lookup
reserve-first = refl

settle-first :
    settle plain_encoding (clocks 20) first_try (pos 3) (pos 1) (pos 2) reserved_db ≡ ok settled_db
unfolding settle verify_capability stored_authorization assert_active now_of is_revoked rows_of any
    make_lease is_blank all assert_current utc_now assert_row reservation_states replay_rows
    apply_row apply_event reserved_state required_nonnegative_int assert_reservation_matches
    settle_state cost_for_usage append_ledger_event append_provider_health_event lookup put
settle-first = refl

r1-IsNewId : IsNewId plain_encoding "r1" "cap" issued_db
unfolding reservation_states replay_rows rows_of lookup
r1-IsNewId = record {
  named = refl;
  unused = λ states h. let is : [] ≡ states = ground (arith, h) in ap (lookup "r1") (sym is);
}

to_issued : Reach plain_encoding start issued_db
to_issued = Reach.next Reach.here (Step.issues cap cap "digest" "key" issue-cap)

to_reserved : Reach plain_encoding start reserved_db
to_reserved =
    Reach.next to_issued
      (Step.reserves settings (clocks 10) "r1" cap request first_try r1-IsNewId reserve-first)

to_settled : Reach plain_encoding start settled_db
to_settled =
    Reach.next to_reserved (Step.settles (clocks 20) first_try (pos 3) (pos 1) (pos 2) settle-first)

stored-cap : stored_authorization plain_encoding "cap" settled_db ≡ ok cap
unfolding stored_authorization lookup
stored-cap = refl

usage_stays_within_budget_example :
    (states : States) × (totals : UsageTotals) × (reservation_states "cap" settled_db.ledger
      ≡ ok states)
    × (usage_totals states ≡ ok totals)
    × Numbered 0 states
    × (totals.attempts ≤ 2)
    × (totals.input_tokens ≤ 10)
    × (totals.output_tokens ≤ 10)
    × (totals.total_tokens ≤ 20)
    × (totals.cost_microusd ≤ 60)
usage_stays_within_budget_example =
    usage_stays_within_budget plain_encoding plain_encoding-IsLossless leases settled_db "cap" cap
      to_settled stored-cap

settlement_is_final_example :
    (settle plain_encoding (clocks 30) first_try (pos 3) (pos 0) (pos 2) settled_db ≡ ok settled_db
      → (settled_db ≡ settled_db)
        × ((pos_part (pos 3) ≡ 3) × (pos_part (pos 0) ≡ 1) × (pos_part (pos 2) ≡ 2)))
    × (abandon plain_encoding (clocks 30) first_try "probe_failed_v1" settled_db ≡ ok settled_db
        → settled_db ≡ settled_db)
settlement_is_final_example =
    settlement_is_final plain_encoding plain_encoding-IsLossless leases reserved_db settled_db
      settled_db (clocks 20) (clocks 30) first_try (pos 3) (pos 1) (pos 2) (pos 3) (pos 0) (pos 2)
      "probe_failed_v1" settled_db to_reserved settle-first Reach.here

known-code : contains "probe_failed_v1" provider_failure_codes ≡ true
unfolding contains
known-code = refl

reservation_can_be_released_example :
    (states : States) × (s : ReservationState) × (reservation_states "cap" settled_db.ledger
      ≡ ok states)
    × (lookup "r1" states ≡ some s)
    × Matches first_try s
    × (s.phase ≢ is_abandoned
        → (last : AuthorizationDb plain_encoding) × (abandon plain_encoding
              (clocks 30)
              first_try
              "probe_failed_v1"
              settled_db
            ≡ ok last))
reservation_can_be_released_example =
    reservation_can_be_released plain_encoding plain_encoding-IsLossless leases issued_db
      reserved_db settled_db settings (clocks 10) (clocks 30) 30 30 "r1" "probe_failed_v1" cap
      request first_try to_issued r1-IsNewId reserve-first
      (Reach.next Reach.here
        (Step.settles (clocks 20) first_try (pos 3) (pos 1) (pos 2) settle-first))
      refl refl known-code

abbrev revoked_db : AuthorizationDb plain_encoding
revoked_db = record settled_db {
  ledger = settled_db.ledger ++ record (blank_row "cap" revoked 30) { reason = some "stop" } ∷ [];
  idempotency =
      (
        ("revoke_model_execution_authorization", "stop"),
        record { request_hash = "digest2"; authorization_id = "cap" },
      )
      ∷ settled_db.idempotency;
}

first-revocation :
    idempotent_authorization plain_encoding "revoke_model_execution_authorization" "stop" "digest2"
      settled_db
    ≡ ok none
unfolding idempotent_authorization lookup
first-revocation = refl

revoke-cap :
    revoke plain_encoding (clocks 30) "cap" "stop" "stop" "digest2" settled_db ≡ ok revoked_db
unfolding revoke validate_reason all is_blank idempotent_authorization revoke_new
    stored_authorization is_revoked rows_of any revoke_once append_ledger_event now_of
    record_idempotency lookup insert
revoke-cap = refl

revoked_capability_is_dead_example :
    (cap.authorization_id ≡ first_try.authorization_id
      → preflight plain_encoding settings (clocks 40) cap request revoked_db ≢ ok tt)
    × (cap.authorization_id ≡ first_try.authorization_id
        → reserve plain_encoding settings (clocks 40) "r2" cap request revoked_db
          ≢ ok (first_try, revoked_db))
    × (cap.authorization_id ≡ first_try.authorization_id
        → settle plain_encoding (clocks 40) first_try (pos 3) (pos 1) (pos 2) revoked_db
          ≢ ok revoked_db)
revoked_capability_is_dead_example =
    revoked_capability_is_dead plain_encoding plain_encoding-IsLossless leases settled_db revoked_db
      revoked_db revoked_db settings (clocks 30) (clocks 40) "cap" "stop" "stop" "digest2" "r2" cap
      request first_try (pos 3) (pos 1) (pos 2) to_settled first-revocation revoke-cap Reach.here
