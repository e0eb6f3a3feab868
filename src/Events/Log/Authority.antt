-- ===== src/Events/Log/Authority.antt =====
-- events.py, leases.py: only the holder of the current lease writes under the fence.
use auto_lean.Base.{
  ◌≡◌, ◌≢◌, refl, sym, ◌∙◌, ap, subst, ◌⊎◌, inl, inr, true, Option, none, some, List, [], ◌∷◌,
  String, ok, stale_fence, guard_then-eq-ok, value_error, ◌==◌, string_Eq, beq→eq,
}
use auto_lean.Base.Int.{ℤ, pos}
use auto_lean.Base.Lists.{All}
use auto_lean.Json.{Json, Codec, str, get}
use auto_lean.Leases.{Reading, aware, naive, Lease, LeaseDb, utc_now, claim, assert_current}
use auto_lean.Leases.Fencing
use auto_lean.Leases.Fencing.{superseded_lease_is_stale}
use auto_lean.Events.{NewEvent, StoredEvent, Idempotency, AttestationNonce, Db, Env, Request}
use auto_lean.Events.Read.{existing_idempotency}
use auto_lean.Events.Fenced.{
  is_text, is_nonempty_text, validate_fenced_task_binding, assert_current_fence, append_fenced,
}
use auto_lean.Events.Log.Effect.{Effect, append_new-Effect}
use auto_lean.Events.Log.Outcomes.{append_fenced-eq-ok}
use auto_lean.Events.Log.History.{
  Reach, Outcome, Step-Outcome, Linked-record, Registered-Effect, empty_db,
}

module _ (c : Codec) where
  -- A transaction changes the leases as one lease transaction or not at all.
  Outcome-leases :
      {db db' : Db c.Doc}
      → Outcome c db db'
      → (db'.leases ≡ db.leases) ⊎ Fencing.Step db.leases db'.leases
  Outcome-leases (Outcome.unchanged same) = inl (ap (λ (d : Db c.Doc). d.leases) same)
  Outcome-leases (Outcome.made env r idempotency attestation events e) = inl e.leases
  Outcome-leases {db} {db'} (Outcome.linked b idempotency events link) =
      inl (ap (λ (d : Db c.Doc). d.leases) (Linked-record c b idempotency db events db' link).1)
  Outcome-leases {db} {db'} (Outcome.registered env b event idempotency attestation events done) =
      let e = Registered-Effect c env b event idempotency attestation db events db' done in
      inl (ap (λ (d : Db c.Doc). d.leases) done.tables ∙ e.leases)
  Outcome-leases {db} {db'} (Outcome.leased after step same) =
      inr (subst (Fencing.Step db.leases) (sym (ap (λ (d : Db c.Doc). d.leases) same)) step)

  Reach-leases : {db db' : Db c.Doc} → Reach c db db' → Fencing.Reach db.leases db'.leases
  Reach-leases Reach.here = Fencing.Reach.here
  Reach-leases {db} {db'} (Reach.next {mid} r s) = elim (Outcome-leases (Step-Outcome c s)) [
    | inl same ↦ subst (Fencing.Reach db.leases) (sym same) (Reach-leases r)
    | inr step ↦ Fencing.Reach.next (Reach-leases r) step
  ]

  fence-current :
      (env : Env) (task_id : String) (lease : Lease) (db : Db c.Doc)
      → assert_current_fence c env task_id lease db ≡ ok tt
      → (lease.job_id ≡ task_id) × (assert_current env.fence_clock lease db.leases ≡ ok tt)
  unfolding assert_current_fence assert_current
  fence-current env task_id lease db h =
      let (same, h1) = guard_then-eq-ok (lease.job_id == task_id) stale_fence _ h in
      let named = beq→eq lease.job_id task_id same in (named, rw named h1)

  -- What the payload of each event says about its task.
  abbrev pub NamesTask : String → NewEvent → Type 0
  NamesTask task_id event = get "bundle_id" event.payload ≡ some (str task_id)

  is_text-eq :
      (task_id : String) (o : Option Json) → is_text task_id o ≡ true → o ≡ some (str task_id)
  is_text-eq task_id (some (str s)) h = ap (λ t. some (str t)) (beq→eq s task_id h)
  is_text-eq task_id none h = cc
  is_text-eq task_id (some _) h = cc

  binding-NamesTask :
      (task_id : String) (events : List NewEvent)
      → validate_fenced_task_binding task_id events ≡ ok tt
      → All (NamesTask task_id) events
  unfolding validate_fenced_task_binding
  binding-NamesTask task_id [] h = tt
  binding-NamesTask task_id (event ∷ events) h =
      let (_, h1) =
        guard_then-eq-ok (is_nonempty_text (get "bundle_id" event.payload)) value_error _ h in
      let (named, h2) =
        guard_then-eq-ok (is_text task_id (get "bundle_id" event.payload)) value_error _ h1 in
      (is_text-eq task_id _ named, binding-NamesTask task_id events h2)

  -- An `append_fenced` that returned either answered from an idempotency record and wrote nothing,
  -- or its lease is for the task and was current at the clock that the transaction read, and the
  -- event rows are the only change of the log. Each new event names the task in its payload.
  pub fenced_write_is_authorized :
      (env : Env) (task_id : String) (lease : Lease) (r : Request)
      (idempotency : Option Idempotency) (attestation : Option AttestationNonce) (db db' : Db c.Doc)
      (events : List StoredEvent)
      → append_fenced c env task_id lease r idempotency attestation db ≡ ok (events, db')
      → All (NamesTask task_id) r.new_events
        × (((existing_idempotency c db idempotency ≡ ok (some events)) × (db' ≡ db))
            ⊎ ((lease.job_id ≡ task_id)
                × (assert_current env.fence_clock lease db.leases ≡ ok tt)
                × Effect c env r idempotency attestation db events db'))
  fenced_write_is_authorized env task_id lease r idempotency attestation db db' events h =
      let (bound, how) =
        append_fenced-eq-ok c env task_id lease r idempotency attestation db events db' h in
      (
        binding-NamesTask task_id r.new_events bound,
        elim how [
          | inl (replayed, belongs) ↦ inl replayed
          | inr (current, new) ↦
              let (named, live) = fence-current env task_id lease db current in
              inr
                (named, live, append_new-Effect c env r idempotency attestation db events db' new.1)
        ],
      )

  -- Once a lease with another token has been claimed for the job of a lease that was current, no
  -- fenced write under the old lease changes the database in any later state: whatever the task,
  -- the events, the clock and the idempotency key are, it is refused or repeats an old answer.
  pub superseded_worker_cannot_write :
      {db mid claimed later : Db c.Doc} (old new : Lease) (clock clock' : Reading)
      (holder_id : String) (ttl : ℤ) (after_claim : LeaseDb)
      → Reach c empty_db db
      → assert_current clock old db.leases ≡ ok tt
      → Reach c db mid
      → claim clock' old.job_id holder_id ttl mid.leases ≡ ok (new, after_claim)
      → new.fencing_token ≢ old.fencing_token
      → claimed ≡ record mid { leases = after_claim }
      → Reach c claimed later
      → (env : Env) (task_id : String) (r : Request) (idempotency : Option Idempotency)
        (attestation : Option AttestationNonce) (events : List StoredEvent) (db' : Db c.Doc)
      → append_fenced c env task_id old r idempotency attestation later ≡ ok (events, db')
      → (db' ≡ later) × (existing_idempotency c later idempotency ≡ ok (some events))
  unfolding assert_current utc_now
  superseded_worker_cannot_write {db} {mid} {claimed} {later} old new clock clock' holder_id ttl
        after_claim start was_current between claims other same after env task_id r idempotency
        attestation events db' h =
      elim (fenced_write_is_authorized env task_id old r idempotency attestation later db' events
        h).1 [
          | inl (found, unchanged) ↦ (unchanged, found)
          | inr (named, live, _) ↦ absurd (outdated env.fence_clock live)
        ]
    where
      lease_history : Fencing.Reach after_claim later.leases
      lease_history =
          subst (λ l. Fencing.Reach l later.leases) (ap (λ (d : Db c.Doc). d.leases) same)
            (Reach-leases after)

      outdated : (reading : Reading) → assert_current reading old later.leases ≡ ok tt → ⊥
      outdated (naive t) live = cc
      outdated (aware t) live = cc (
          sym live
          ∙ (superseded_lease_is_stale old new clock clock' holder_id ttl (Reach-leases start)
              was_current (Reach-leases between) claims other lease_history t (pos 1) refl).0)
