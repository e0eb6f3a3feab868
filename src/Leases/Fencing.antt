-- ===== src/Leases/Fencing.antt =====
-- leases.py: fencing tokens over any history of lease transactions.
use auto_lean.Base.{
  ℕ, suc, ◌+◌, ◌≤◌, ◌<◌, ◌≡◌, ◌≢◌, refl, inl, inr, none, some, String, ok, err, stale_fence, arith,
  lookup, lookup-put, lookup-remove, string_Eq, eq_iff, nat_Eq, sym, ◌∙◌, true, put, remove, ◌==◌,
  if◌then◌else◌, Option-cases,
}
use auto_lean.Base.Int.{ℤ, pos_part, is_positive}
use auto_lean.Leases.{
  Reading, aware, Lease, LeaseRow, LeaseDb, next_token, claim, renew, assert_current, delete_lease,
  no_leases, utc_now, assert_row, renew_row, delete_row,
}
use auto_lean.Leases.Inversion.{
  issued, claim-eq-ok, renew-eq-ok, renew_row-eq-ok, delete_lease-eq-ok, assert_current-eq-ok,
}

-- The last token issued for a job, 0 if none was.
abbrev pub last_token : String → LeaseDb → ℕ
last_token job_id db = elim (lookup job_id db.lease_counters) [ none ↦ 0 | some last ↦ last ]

-- The row of a job, if there is one, has the last token issued for it, which is positive.
pub record IsFenced (db : LeaseDb) : Type 0 where
  pub fenced :
      (job_id : String) (row : LeaseRow)
      → lookup job_id db.worker_leases ≡ some row
      → (row.fencing_token ≡ last_token job_id db) × (0 < row.fencing_token)

-- One committed transaction of the lease store, at any clock.
pub data Step : LeaseDb → LeaseDb → Type 0 where
  claims :
      {db db' : LeaseDb} (clock : Reading) (job_id holder_id : String) (ttl : ℤ) (lease : Lease)
      → claim clock job_id holder_id ttl db ≡ ok (lease, db')
      → Step db db'
  renews :
      {db db' : LeaseDb} (clock : Reading) (lease : Lease) (ttl : ℤ) (renewed : Lease)
      → renew clock lease ttl db ≡ ok (renewed, db')
      → Step db db'
  deletes : {db db' : LeaseDb} (lease : Lease) → delete_lease lease db ≡ ok db' → Step db db'

pub data Reach (db : LeaseDb) : LeaseDb → Type 0 where
  here : Reach db db
  next : {mid db' : LeaseDb} → Reach db mid → Step mid db' → Reach db db'

no_leases-IsFenced : IsFenced no_leases
unfolding lookup
no_leases-IsFenced = record { fenced = λ job_id row h. cc }

last_token-issued :
    (now expires_at : ℕ) (job_id holder_id : String) (db : LeaseDb) (j : String)
    → last_token j (issued now expires_at job_id holder_id db)
      ≡ (if job_id == j then suc (last_token job_id db) else last_token j db)
last_token-issued now expires_at job_id holder_id db j =
    ground
      (arith, lookup-put job_id j (next_token (lookup job_id db.lease_counters)) db.lease_counters)

issued-IsFenced :
    (now expires_at : ℕ) (job_id holder_id : String) (db : LeaseDb)
    → IsFenced db
    → IsFenced (issued now expires_at job_id holder_id db)
issued-IsFenced now expires_at job_id holder_id db v = record {
  fenced = λ j row h. ground (
    arith,
    v.fenced j row,
    last_token-issued now expires_at job_id holder_id db j,
    eq_iff job_id j,
    lookup-put job_id j
        (record {
          holder_id = holder_id;
          fencing_token = next_token (lookup job_id db.lease_counters);
          expires_at = expires_at;
          updated_at = now;
        })
        db.worker_leases,
  );
}

-- A transaction keeps the counters of other jobs, and raises the counter of its job by one at most.
Step-last_token : {db db' : LeaseDb} (j : String) → Step db db' → last_token j db ≤ last_token j db'
Step-last_token {db} {db'} j (claims clock job_id holder_id ttl lease h) =
    let (now, at, how) = claim-eq-ok clock job_id holder_id ttl db h in
    elim how [
      | inl (row, found, held) ↦ rw held.3 (omega arith)
      | inr (made, e) ↦ rw e (
          ground (
            arith,
            last_token-issued now (now + pos_part ttl) job_id holder_id db j,
            eq_iff job_id j,
          ))
    ]
Step-last_token {db} {db'} j (renews clock lease ttl renewed h) =
    let (now, at, pos, row_ok) = renew-eq-ok clock lease ttl db h in
    let facts =
      renew_row-eq-ok now (now + pos_part ttl) lease db (lookup lease.job_id db.worker_leases)
        row_ok in
    rw facts.6 (omega arith)
Step-last_token {db} {db'} j (deletes lease h) = rw (delete_lease-eq-ok lease db h).4 (omega arith)

Reach-last_token :
    {db db' : LeaseDb} (j : String) → Reach db db' → last_token j db ≤ last_token j db'
Reach-last_token j here = omega arith
Reach-last_token j (next r s) = omega (arith, Reach-last_token j r, Step-last_token j s)

renewed-IsFenced :
    (job_id : String) (row row' : LeaseRow) (db : LeaseDb)
    → lookup job_id db.worker_leases ≡ some row
    → row'.fencing_token ≡ row.fencing_token
    → IsFenced db
    → IsFenced (record db { worker_leases = put job_id row' db.worker_leases })
renewed-IsFenced job_id row row' db found same v = record {
  fenced = λ j r h. ground (
    arith,
    v.fenced j r,
    v.fenced job_id row,
    eq_iff job_id j,
    lookup-put job_id j row' db.worker_leases,
  );
}

deleted-IsFenced :
    (job_id : String) (db : LeaseDb)
    → IsFenced db
    → IsFenced (record db { worker_leases = remove job_id db.worker_leases })
deleted-IsFenced job_id db v = record {
  fenced = λ j r h. ground (arith, v.fenced j r, lookup-remove job_id j db.worker_leases);
}

Step-IsFenced : {db db' : LeaseDb} → IsFenced db → Step db db' → IsFenced db'
Step-IsFenced {db} {db'} v (claims clock job_id holder_id ttl lease h) =
    let (now, at, how) = claim-eq-ok clock job_id holder_id ttl db h in
    elim how [
      | inl (row, found, held) ↦ rw held.3 v
      | inr (made, e) ↦ rw e (issued-IsFenced now _ job_id holder_id db v)
    ]
Step-IsFenced {db} {db'} v (renews clock lease ttl renewed h) =
    let (now, at, pos, row_ok) = renew-eq-ok clock lease ttl db h in
    let facts =
      renew_row-eq-ok now (now + pos_part ttl) lease db (lookup lease.job_id db.worker_leases)
        row_ok in
    rw facts.6 (renewed-IsFenced lease.job_id facts.0 _ db facts.1 refl v)
Step-IsFenced {db} {db'} v (deletes lease h) =
    rw (delete_lease-eq-ok lease db h).4 (deleted-IsFenced lease.job_id db v)

Reach-keeps_IsFenced : {db db' : LeaseDb} → IsFenced db → Reach db db' → IsFenced db'
Reach-keeps_IsFenced v here = v
Reach-keeps_IsFenced v (next r s) = Step-IsFenced (Reach-keeps_IsFenced v r) s

-- In every state that lease transactions reach from empty tables, the row of a job has the last
-- token issued for the job, and that token is positive.
pub Reach-IsFenced : {db : LeaseDb} → Reach no_leases db → IsFenced db
Reach-IsFenced r = Reach-keeps_IsFenced no_leases-IsFenced r

last_token-claim :
    (clock : Reading) (job_id holder_id : String) (ttl : ℤ) (lease : Lease) {db db' : LeaseDb}
    → IsFenced db
    → claim clock job_id holder_id ttl db ≡ ok (lease, db')
    → (lease.job_id ≡ job_id) × (lease.fencing_token ≡ last_token job_id db')
last_token-claim clock job_id holder_id ttl lease {db} {db'} v h =
    let (now, at, how) = claim-eq-ok clock job_id holder_id ttl db h in
    elim how [
      | inl (row, found, held) ↦ rw held.3 (ground (arith, held.2, v.fenced job_id row))
      | inr (made, e) ↦ rw e (
          ground (
            arith,
            made,
            last_token-issued now (now + pos_part ttl) job_id holder_id db job_id,
            eq_iff job_id job_id,
          ))
    ]

assert_current-outdated :
    (t : ℕ) (old : Lease) (db : LeaseDb)
    → IsFenced db
    → old.fencing_token < last_token old.job_id db
    → assert_current (aware t) old db ≡ err stale_fence
unfolding assert_current utc_now assert_row
assert_current-outdated t old db v less = elim (Option-cases (lookup old.job_id db.worker_leases)) [
  | inl e ↦ rw (e, assert_row)
  | inr (row, e) ↦ rw (e, assert_row) (ground (arith, v.fenced old.job_id row))
]

renew-outdated :
    (t : ℕ) (old : Lease) (ttl : ℤ) (db : LeaseDb)
    → IsFenced db
    → is_positive ttl ≡ true
    → old.fencing_token < last_token old.job_id db
    → renew (aware t) old ttl db ≡ err stale_fence
unfolding renew utc_now renew_row
renew-outdated t old ttl db v positive less =
    elim (Option-cases (lookup old.job_id db.worker_leases)) [
      | inl e ↦ rw (positive, e, renew_row)
      | inr (row, e) ↦ rw (positive, e, renew_row) (ground (arith, v.fenced old.job_id row))
    ]

delete_lease-outdated :
    (old : Lease) (db : LeaseDb)
    → IsFenced db
    → old.fencing_token < last_token old.job_id db
    → delete_lease old db ≡ err stale_fence
unfolding delete_lease delete_row
delete_lease-outdated old db v less = elim (Option-cases (lookup old.job_id db.worker_leases)) [
  | inl e ↦ rw (e, delete_row)
  | inr (row, e) ↦ rw (e, delete_row) (ground (arith, v.fenced old.job_id row))
]

-- Once a lease with another token has been claimed for the job of a lease that was current, no
-- later transaction and no clock makes the old lease current again: it is not asserted, renewed
-- or deleted, in any state reached from there.
pub superseded_lease_is_stale :
    {db mid claimed later : LeaseDb} (old new : Lease) (clock clock' : Reading) (holder_id : String)
    (ttl : ℤ)
    → Reach no_leases db
    → assert_current clock old db ≡ ok tt
    → Reach db mid
    → claim clock' old.job_id holder_id ttl mid ≡ ok (new, claimed)
    → new.fencing_token ≢ old.fencing_token
    → Reach claimed later
    → (t : ℕ) (ttl' : ℤ) → is_positive ttl' ≡ true
    → (assert_current (aware t) old later ≡ err stale_fence)
      × (renew (aware t) old ttl' later ≡ err stale_fence)
      × (delete_lease old later ≡ err stale_fence)
superseded_lease_is_stale {db} {mid} {claimed} {later} old new clock clock' holder_id ttl start
      was_current between claims_new other after t ttl' positive =
    (
      assert_current-outdated t old later fenced outdated,
      renew-outdated t old ttl' later fenced positive outdated,
      delete_lease-outdated old later fenced outdated,
    )
  where
    fenced_db : IsFenced db
    fenced_db = Reach-IsFenced start

    fenced_mid : IsFenced mid
    fenced_mid = Reach-keeps_IsFenced fenced_db between

    step : Step mid claimed
    step = claims clock' old.job_id holder_id ttl new claims_new

    fenced : IsFenced later
    fenced = Reach-keeps_IsFenced (Step-IsFenced fenced_mid step) after

    issued_old : old.fencing_token ≡ last_token old.job_id db
    issued_old =
        let facts = assert_current-eq-ok clock old db was_current in
        sym facts.5 ∙ (fenced_db.fenced old.job_id facts.1 facts.3).0

    outdated : old.fencing_token < last_token old.job_id later
    outdated = omega (
      arith,
      issued_old,
      Reach-last_token old.job_id between,
      Step-last_token old.job_id step,
      (last_token-claim clock' old.job_id holder_id ttl new fenced_mid claims_new).1,
      Reach-last_token old.job_id after,
      other,
    )
