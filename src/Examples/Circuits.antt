-- ===== src/Examples/Circuits.antt =====
-- model_authorization.py: three failures of a provider, and a fourth after the cooldown.
use auto_lean.Base.{
  ℕ, ◌≡◌, authorization_error, refl, some, List, err, [], ◌∷◌, ok, arith, string_Eq, pair_Eq,
}
use auto_lean.Base.Lists.{contains, All}
use auto_lean.Leases.{aware}
use auto_lean.Authorization.{HealthRow, failure, now_of}
use auto_lean.Authorization.Ledger.{validate_provider_failure_code}
use auto_lean.Authorization.Circuit.{
  assert_provider_circuit_closed, latest_rows, bound_rows, limit_rows, count_failures,
  circuit_verdict, append_provider_health_event, health_code,
}
use auto_lean.Authorization.Health.{IsHealthRow}
use auto_lean.Examples.Encodings.{plain_encoding}
use auto_lean.Authorization.Reopening.{failure_reopens_circuit}
use auto_lean.Examples.Authorization.{settings, provider}

abbrev failed_at : ℕ → HealthRow
failed_at t = record {
  binding_hash = "p";
  binding_json = "p";
  event_type = failure;
  failure_code = some "generation_failed_v1";
  recorded_at = t;
}

abbrev bad_rows : List HealthRow
bad_rows = failed_at 30 ∷ failed_at 20 ∷ failed_at 10 ∷ []

bad_row-IsHealthRow : (t : ℕ) → IsHealthRow "p" (failed_at t)
unfolding health_code validate_provider_failure_code contains
bad_row-IsHealthRow t = (refl, refl)

bad_rows-All : All (IsHealthRow "p") (latest_rows "p" settings.provider_failure_threshold bad_rows)
unfolding latest_rows bound_rows limit_rows
bad_rows-All = (bad_row-IsHealthRow 30, (bad_row-IsHealthRow 20, (bad_row-IsHealthRow 10, tt)))

bad_rows-refused :
    assert_provider_circuit_closed plain_encoding settings provider (aware 31) bad_rows
    ≡ err authorization_error
unfolding assert_provider_circuit_closed latest_rows bound_rows limit_rows count_failures
    circuit_verdict now_of health_code validate_provider_failure_code contains
bad_rows-refused = refl

bad_rows-closed :
    assert_provider_circuit_closed plain_encoding settings provider (aware 100) bad_rows ≡ ok tt
unfolding assert_provider_circuit_closed latest_rows bound_rows limit_rows count_failures
    circuit_verdict now_of health_code validate_provider_failure_code contains
bad_rows-closed = refl

fail-again :
    append_provider_health_event plain_encoding provider failure
      (some "generation_failed_v1")
      (aware 100)
      bad_rows
    ≡ ok (failed_at 100 ∷ bad_rows)
unfolding append_provider_health_event now_of health_code validate_provider_failure_code contains
fail-again = refl

failure_reopens_circuit_example :
    assert_provider_circuit_closed plain_encoding settings provider
      (aware 101)
      (failed_at 100 ∷ bad_rows)
    ≡ err authorization_error
failure_reopens_circuit_example =
    failure_reopens_circuit plain_encoding settings provider "generation_failed_v1" 31 100 101
      bad_rows (failed_at 100 ∷ bad_rows) (omega arith) bad_rows-All bad_rows-refused fail-again
      (omega arith)
