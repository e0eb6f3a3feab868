-- ===== src/Authorization/Reopening.antt =====
-- model_authorization.py: a failure of a provider after its circuit was open.
use auto_lean.Base.{
  ℕ, zero, suc, ◌+◌, ◌≤◌, ◌<◌, ◌≡◌, refl, ap, ◌∙◌, Bool, true, false, some, List, [], ◌∷◌, String,
  Result, ok, err, authorization_error, arith, string_Eq, eq_iff, if◌then◌else◌, >>-eq-ok, sym,
  subst,
}
use auto_lean.Base.Lists.{length, all, All}
use auto_lean.Leases.{aware}
use auto_lean.Authorization.{Provider, Encoding, failure, HealthRow, CircuitSettings, now_of}
use auto_lean.Authorization.Circuit.{
  bound_rows, limit_rows, latest_rows, health_code, assert_provider_circuit_closed,
  append_provider_health_event,
}
use auto_lean.Authorization.Health.{is_failure, IsHealthRow, is_open, circuit_opens_on_failures}

limit_rows-All :
    (P : HealthRow → Type 0) (n : ℕ) (rows : List HealthRow)
    → All P (limit_rows (suc n) rows)
    → All P (limit_rows n rows)
unfolding limit_rows
limit_rows-All P zero rows h = tt
limit_rows-All P (suc n) [] h = tt
limit_rows-All P (suc n) (row ∷ rows) (first, rest) = (first, limit_rows-All P n rows rest)

limit_rows-full :
    (n : ℕ) (rows : List HealthRow)
    → suc n ≤ length (limit_rows (suc n) rows)
    → n ≤ length (limit_rows n rows)
unfolding limit_rows
limit_rows-full zero rows h = omega arith
limit_rows-full (suc n) [] h = omega (arith, h)
limit_rows-full (suc n) (row ∷ rows) h = omega (arith, limit_rows-full n rows (omega (arith, h)))

limit_rows-failures :
    (n : ℕ) (rows : List HealthRow)
    → all (λ (r : HealthRow). is_failure r.event_type) (limit_rows (suc n) rows) ≡ true
    → all (λ (r : HealthRow). is_failure r.event_type) (limit_rows n rows) ≡ true
unfolding limit_rows all
limit_rows-failures zero rows h = refl
limit_rows-failures (suc n) [] h = refl
limit_rows-failures (suc n) (row ∷ rows) h = ground (arith, h, limit_rows-failures n rows)

is_open-facts :
    (settings : CircuitSettings) (now : ℕ) (rows : List HealthRow)
    → is_open settings now rows ≡ true
    → (all (λ (r : HealthRow). is_failure r.event_type) rows ≡ true)
      × (settings.provider_failure_threshold ≤ length rows)
is_open-facts settings now [] h = cc
is_open-facts settings now (row ∷ rows) h = ground (arith, h)

is_open-next :
    (settings : CircuitSettings) (n at later : ℕ) (row : HealthRow) (rows : List HealthRow)
    → settings.provider_failure_threshold ≡ suc n
    → is_failure row.event_type ≡ true
    → all (λ (r : HealthRow). is_failure r.event_type) rows ≡ true
    → n ≤ length rows
    → later < row.recorded_at + settings.provider_failure_cooldown
    → is_open settings later (row ∷ rows) ≡ true
unfolding all
is_open-next settings n at later row rows same failed others enough early =
    ground (arith, same, failed, others, enough, early)

suc_of : (t : ℕ) → 0 < t → (n : ℕ) × (t ≡ suc n)
suc_of zero h = absurd (omega (arith, h))
suc_of (suc n) h = (n, refl)

latest_rows-limit :
    (binding_hash : String) (t n : ℕ) (rows : List HealthRow)
    → t ≡ suc n
    → latest_rows binding_hash t rows ≡ limit_rows (suc n) (bound_rows binding_hash rows)
unfolding latest_rows
latest_rows-limit binding_hash t n rows same =
    ap (λ k. limit_rows k (bound_rows binding_hash rows)) same

if_err-is_true :
    (b : Bool)
    → ◌≡◌ {A = Result (Unit {0})}
        (if b then err authorization_error else ok tt)
        (err authorization_error)
    → b ≡ true
if_err-is_true true h = refl
if_err-is_true false h = cc

latest_rows-next :
    (binding_hash : String) (t n : ℕ) (row : HealthRow) (rows : List HealthRow)
    → t ≡ suc n
    → row.binding_hash ≡ binding_hash
    → latest_rows binding_hash t (row ∷ rows) ≡ row ∷ limit_rows n (bound_rows binding_hash rows)
unfolding latest_rows bound_rows limit_rows
latest_rows-next binding_hash t n row rows same bound =
    rw (same, (eq_iff row.binding_hash binding_hash).1 bound) refl

module _ (e : Encoding) where
  recorded_failure :
      (provider : Provider) (code : String) (at : ℕ) (rows rows' : List HealthRow)
      → append_provider_health_event e provider failure (some code) (aware at) rows ≡ ok rows'
      → (row : HealthRow) × (rows' ≡ row ∷ rows)
        × (row.binding_hash ≡ e.binding_hash provider)
        × (row.event_type ≡ failure)
        × (row.recorded_at ≡ at)
        × IsHealthRow (e.binding_json provider) row
  unfolding append_provider_health_event now_of
  recorded_failure provider code at rows rows' h =
      let (coded, h1) = >>-eq-ok (health_code (some code)) _ h in
      let row : HealthRow = record {
        binding_hash = e.binding_hash provider;
        binding_json = e.binding_json provider;
        event_type = failure;
        failure_code = some code;
        recorded_at = at;
      } in
      (row, ground (arith, h1), refl, refl, refl, (refl, coded))

  -- When the circuit of a provider refused at some instant, and a further failure of a call is
  -- recorded at any time, however late and whatever cooldown has passed, the circuit refuses again
  -- at every instant until the cooldown since that failure is over. The rows for the provider are as
  -- the service writes them, and the threshold is positive.
  pub failure_reopens_circuit :
      (settings : CircuitSettings) (provider : Provider) (code : String) (before at later : ℕ)
      (rows rows' : List HealthRow)
      → 0 < settings.provider_failure_threshold
      → All
          (IsHealthRow (e.binding_json provider))
          (latest_rows (e.binding_hash provider) settings.provider_failure_threshold rows)
      → assert_provider_circuit_closed e settings provider (aware before) rows
        ≡ err authorization_error
      → append_provider_health_event e provider failure (some code) (aware at) rows ≡ ok rows'
      → later < at + settings.provider_failure_cooldown
      → assert_provider_circuit_closed e settings provider (aware later) rows'
        ≡ err authorization_error
  unfolding append_provider_health_event
  failure_reopens_circuit settings provider code before at later rows rows' positive wells refused
        recorded early =
      let t = settings.provider_failure_threshold in
      let bound = bound_rows (e.binding_hash provider) rows in
      let (n, same) = suc_of t positive in
      let seen : latest_rows (e.binding_hash provider) t rows ≡ limit_rows (suc n) bound =
        latest_rows-limit (e.binding_hash provider) t n rows same in
      let opened : is_open settings before (latest_rows (e.binding_hash provider) t rows) ≡ true =
        if_err-is_true (is_open settings before (latest_rows (e.binding_hash provider) t rows)) (
          sym (circuit_opens_on_failures e settings provider before rows positive wells)
          ∙ refused) in
      let (failures, full) =
        is_open-facts settings before (limit_rows (suc n) bound)
          (ap (is_open settings before) (sym seen) ∙ opened) in
      let (row, is, bound_row, failed, recorded_at, well) =
        recorded_failure provider code at rows rows' recorded in
      let now_seen : latest_rows (e.binding_hash provider) t rows' ≡ row ∷ limit_rows n bound =
        ap (latest_rows (e.binding_hash provider) t) is
        ∙ latest_rows-next (e.binding_hash provider) t n row rows same bound_row in
      let open_again : is_open settings later (row ∷ limit_rows n bound) ≡ true =
        is_open-next settings n at later row (limit_rows n bound) same (ap is_failure failed)
          (limit_rows-failures n bound failures)
          (limit_rows-full n bound (omega (arith, full, same)))
          (omega (arith, early, recorded_at)) in
      circuit_opens_on_failures e settings provider later rows' positive (
        subst (All (IsHealthRow (e.binding_json provider))) (sym now_seen) (
          well,
          limit_rows-All (IsHealthRow (e.binding_json provider)) n bound
              (subst (All (IsHealthRow (e.binding_json provider))) seen wells),
        ))
      ∙ rw (now_seen, open_again) refl
