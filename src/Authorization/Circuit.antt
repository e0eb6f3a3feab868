-- ===== src/Authorization/Circuit.antt =====
-- model_authorization.py: the health ledger of a provider and the circuit that it opens.
use auto_lean.Base.{
  ℕ, zero, suc, ◌+◌, not, Option, none, some, List, [], ◌∷◌, String, Result, ok, err,
  authorization_error, ◌>>=◌, ◌>>◌, guard, leb, ltb, ◌==◌, string_Eq, if◌then◌else◌,
}
use auto_lean.Base.Lists.{contains}
use auto_lean.Leases.{Reading}
use auto_lean.Authorization.{
  Provider, Encoding, HealthEvent, failure, success, HealthRow, CircuitSettings, now_of,
}
use auto_lean.Authorization.Ledger.{validate_provider_failure_code, provider_health_failure_codes}

-- `WHERE binding_hash = ?`
unfoldable pub bound_rows : String → List HealthRow → List HealthRow
bound_rows binding_hash [] = []
bound_rows binding_hash (row ∷ rows) =
    let rest = bound_rows binding_hash rows in
    if row.binding_hash == binding_hash then row ∷ rest else rest

-- `LIMIT ?`
unfoldable pub limit_rows : ℕ → List HealthRow → List HealthRow
limit_rows zero rows = []
limit_rows (suc limit) [] = []
limit_rows (suc limit) (row ∷ rows) = row ∷ limit_rows limit rows

-- `WHERE binding_hash = ? ORDER BY event_sequence DESC LIMIT ?`
unfoldable pub latest_rows : String → ℕ → List HealthRow → List HealthRow
unfolding bound_rows limit_rows
latest_rows binding_hash limit rows = limit_rows limit (bound_rows binding_hash rows)

abbrev pub first_failure : Option ℕ → ℕ → Option ℕ
first_failure none recorded_at = some recorded_at
first_failure (some latest) recorded_at = some latest

-- The failure code of a row is one that advances the circuit.
unfoldable pub health_code : Option String → Result (Unit {0})
unfolding validate_provider_failure_code
health_code none = err authorization_error
health_code (some code) = do
  validate_provider_failure_code code
  guard (contains code provider_health_failure_codes) authorization_error

abbrev pub no_code : Option String → Result (Unit {0})
no_code none = ok tt
no_code (some code) = err authorization_error

-- The loop over the rows: the failures until a success, and the time of the latest.
unfoldable pub count_failures : String → List HealthRow → ℕ × Option ℕ → Result (ℕ × Option ℕ)
unfolding health_code
count_failures binding_json [] seen = ok seen
count_failures binding_json (row ∷ rows) (failures, latest) =
    let rest =
      count_failures binding_json rows (failures + 1, first_failure latest row.recorded_at) in
    if row.binding_json == binding_json
    then elim row.event_type [
      | success ↦ no_code row.failure_code >> ok (failures, latest)
      | failure ↦ health_code row.failure_code >> rest
    ]
    else err authorization_error

-- The condition of `_assert_provider_circuit_closed`, and the instant up to which it refuses.
unfoldable pub circuit_verdict : CircuitSettings → ℕ × Option ℕ → Reading → Result (Unit {0})
unfolding now_of
circuit_verdict settings (failures, none) clock = ok tt
circuit_verdict settings (failures, some latest) clock =
    if leb settings.provider_failure_threshold failures
    then (now_of clock >>= λ now.
        guard (not (ltb now (latest + settings.provider_failure_cooldown))) authorization_error)
    else ok tt

module _ (e : Encoding) where
  unfoldable pub assert_provider_circuit_closed :
      CircuitSettings → Provider → Reading → List HealthRow → Result (Unit {0})
  unfolding latest_rows count_failures circuit_verdict
  assert_provider_circuit_closed settings provider clock rows = do
    seen ←
        count_failures (e.binding_json provider)
          (latest_rows (e.binding_hash provider) settings.provider_failure_threshold rows) (0, none)
    circuit_verdict settings seen clock

  abbrev check_health_event : HealthEvent → Option String → Result (Unit {0})
  check_health_event failure code = health_code code
  check_health_event success code = no_code code

  unfoldable pub append_provider_health_event :
      Provider → HealthEvent → Option String → Reading → List HealthRow → Result (List HealthRow)
  unfolding health_code now_of
  append_provider_health_event provider event_type failure_code clock rows = do
    check_health_event event_type failure_code
    now ← now_of clock
    let row : HealthRow = record {
      binding_hash = e.binding_hash provider;
      binding_json = e.binding_json provider;
      event_type = event_type;
      failure_code = failure_code;
      recorded_at = now;
    } in
        ok (row ∷ rows)
