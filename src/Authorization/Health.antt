-- ===== src/Authorization/Health.antt =====
-- model_authorization.py: when the circuit of a provider is open.
use auto_lean.Base.{
  ℕ, zero, suc, ◌+◌, ◌≤◌, ◌<◌, ◌≡◌, refl, ap, ◌∙◌, Bool, Bool-cases, inl, inr, true, false, ◌&&◌,
  Option, none, some, List, [], ◌∷◌, String, ok, err, authorization_error, arith, ltb, leb,
  string_Eq, eq_iff, if◌then◌else◌, ◌>>=◌,
}
use auto_lean.Base.Lists.{length, all, All}
use auto_lean.Leases.{aware}
use auto_lean.Authorization.{
  Provider, Encoding, HealthEvent, failure, success, HealthRow, CircuitSettings, now_of,
}
use auto_lean.Authorization.Circuit.{
  bound_rows, limit_rows, latest_rows, health_code, no_code, count_failures, circuit_verdict,
  assert_provider_circuit_closed,
}

abbrev pub is_failure : HealthEvent → Bool
is_failure failure = true
is_failure success = false

abbrev HasCode : HealthEvent → Option String → Type 0
HasCode failure code = health_code code ≡ ok tt
HasCode success code = no_code code ≡ ok tt

-- A row that `_append_provider_health_event` writes for the binding.
abbrev pub IsHealthRow : String → HealthRow → Type 0
IsHealthRow binding_json row =
    (row.binding_json ≡ binding_json) × HasCode row.event_type row.failure_code

-- The rows are failures without exception, as many as the threshold, and the newest is recent.
abbrev pub is_open : CircuitSettings → ℕ → List HealthRow → Bool
is_open settings now [] = false
is_open settings now (row ∷ rows) =
    all (λ (r : HealthRow). is_failure r.event_type) (row ∷ rows)
    && leb settings.provider_failure_threshold (length (row ∷ rows))
    && ltb now (row.recorded_at + settings.provider_failure_cooldown)

leading : List HealthRow → ℕ
leading [] = 0
leading (row ∷ rows) =
    let rest = suc (leading rows) in if is_failure row.event_type then rest else 0

count_failures-event :
    (bj : String) (event : HealthEvent) (row : HealthRow) (rows : List HealthRow) (n at : ℕ)
    → IsHealthRow bj (record row { event_type = event })
    → ((m : ℕ) → count_failures bj rows (m, some at) ≡ ok (m + leading rows, some at))
    → count_failures bj (record row { event_type = event } ∷ rows) (n, some at)
      ≡ ok (n + leading (record row { event_type = event } ∷ rows), some at)
unfolding count_failures leading
count_failures-event bj success row rows n at (same, code) rest =
    rw ((eq_iff row.binding_json bj).1 same, code) (ap (λ m. ok (m, some at)) (omega arith))
count_failures-event bj failure row rows n at (same, code) rest =
    rw ((eq_iff row.binding_json bj).1 same, code)
      (rest (n + 1) ∙ ap (λ m. ok (m, some at)) (omega arith))

count_failures-leading :
    (bj : String) (rows : List HealthRow) (n at : ℕ)
    → All (IsHealthRow bj) rows
    → count_failures bj rows (n, some at) ≡ ok (n + leading rows, some at)
unfolding count_failures leading
count_failures-leading bj [] n at wells = ap (λ m. ok (m, some at)) (omega arith)
count_failures-leading bj (row ∷ rows) n at (well, wells) =
    count_failures-event bj row.event_type row rows n at well
      (λ m. count_failures-leading bj rows m at wells)

leading-all :
    (rows : List HealthRow) (threshold : ℕ)
    → length rows ≤ threshold
    → leb threshold (leading rows)
      ≡ (all (λ (r : HealthRow). is_failure r.event_type) rows && leb threshold (length rows))
unfolding leading all
leading-all [] threshold h = ground (arith, h)
leading-all (row ∷ rows) zero h = ground (arith, h)
leading-all (row ∷ rows) (suc threshold) h = ground (arith, h, leading-all rows threshold)

limit_rows-length : (n : ℕ) (rows : List HealthRow) → length (limit_rows n rows) ≤ n
unfolding limit_rows
limit_rows-length zero rows = omega arith
limit_rows-length (suc n) [] = omega arith
limit_rows-length (suc n) (row ∷ rows) = omega (arith, limit_rows-length n rows)

circuit_verdict-if :
    (settings : CircuitSettings) (n at now : ℕ)
    → circuit_verdict settings (n, some at) (aware now) ≡ (
        if leb settings.provider_failure_threshold n
          && ltb now (at + settings.provider_failure_cooldown)
        then err authorization_error
        else ok tt)
unfolding circuit_verdict now_of
circuit_verdict-if settings n at now =
    elim (Bool-cases (leb settings.provider_failure_threshold n)) [
      | inl reached ↦ elim (Bool-cases (ltb now (at + settings.provider_failure_cooldown))) [
        | inl recent ↦ rw (reached, recent) refl
        | inr over ↦ rw (reached, over) refl
      ]
      | inr below ↦ rw below refl
    ]

-- The failures at the head of the rows reach the threshold exactly if all rows are failures.
leading_failure :
    (row : HealthRow) (rows : List HealthRow) (threshold : ℕ)
    → length (row ∷ rows) ≤ threshold
    → leb threshold (1 + leading rows) ≡ (
        all (λ (r : HealthRow). is_failure r.event_type) rows
        && leb threshold (length (row ∷ rows)))
unfolding leading all
leading_failure row rows zero h = ground (arith, h)
leading_failure row rows (suc threshold) h = ground (arith, h, leading-all rows threshold)

verdict_first :
    (settings : CircuitSettings) (bj : String) (now : ℕ) (event : HealthEvent) (row : HealthRow)
    (rows : List HealthRow)
    → 0 < settings.provider_failure_threshold
    → length (row ∷ rows) ≤ settings.provider_failure_threshold
    → IsHealthRow bj (record row { event_type = event })
    → All (IsHealthRow bj) rows
    → (count_failures bj (record row { event_type = event } ∷ rows) (0, none) >>= λ seen.
        circuit_verdict settings seen (aware now))
      ≡ (if is_open settings now (record row { event_type = event } ∷ rows)
          then err authorization_error
          else ok tt)
unfolding count_failures circuit_verdict now_of all leading
verdict_first settings bj now success row rows positive short (same, code) wells =
    rw ((eq_iff row.binding_json bj).1 same, code) refl
verdict_first settings bj now failure row rows positive short (same, code) wells =
    rw
      (
        (eq_iff row.binding_json bj).1 same,
        code,
        count_failures-leading bj rows 1 row.recorded_at wells,
      )
      (circuit_verdict-if settings (1 + leading rows) row.recorded_at now
        ∙ ap
            (λ b.
              if b && ltb now (row.recorded_at + settings.provider_failure_cooldown)
              then err authorization_error
              else ok tt)
            (leading_failure row rows settings.provider_failure_threshold short))

latest_rows-length :
    (binding_hash : String) (n : ℕ) (rows : List HealthRow)
    → length (latest_rows binding_hash n rows) ≤ n
unfolding latest_rows
latest_rows-length binding_hash n rows = limit_rows-length n (bound_rows binding_hash rows)

verdict_rows :
    (settings : CircuitSettings) (bj : String) (now : ℕ) (rows : List HealthRow)
    → 0 < settings.provider_failure_threshold
    → length rows ≤ settings.provider_failure_threshold
    → All (IsHealthRow bj) rows
    → (count_failures bj rows (0, none) >>= λ seen. circuit_verdict settings seen (aware now))
      ≡ (if is_open settings now rows then err authorization_error else ok tt)
unfolding count_failures circuit_verdict
verdict_rows settings bj now [] positive short wells = refl
verdict_rows settings bj now (row ∷ rows) positive short (well, wells) =
    verdict_first settings bj now row.event_type row rows positive short well wells

module _ (e : Encoding) where
  pub circuit_opens_on_failures :
      (settings : CircuitSettings) (provider : Provider) (now : ℕ) (rows : List HealthRow)
      → 0 < settings.provider_failure_threshold
      → All
          (IsHealthRow (e.binding_json provider))
          (latest_rows (e.binding_hash provider) settings.provider_failure_threshold rows)
      → assert_provider_circuit_closed e settings provider (aware now) rows ≡ (
          if is_open settings now
            (latest_rows (e.binding_hash provider) settings.provider_failure_threshold rows)
          then err authorization_error
          else ok tt)
  unfolding assert_provider_circuit_closed
  circuit_opens_on_failures settings provider now rows positive wells =
      verdict_rows settings (e.binding_json provider) now
        (latest_rows (e.binding_hash provider) settings.provider_failure_threshold rows) positive
        (latest_rows-length (e.binding_hash provider) settings.provider_failure_threshold rows)
        wells
