-- ===== src/Leases/Inversion.antt =====
-- leases.py: what a call that returned has read and written, on each of its paths.
use auto_lean.Base.{
  ℕ, ◌+◌, ◌≤◌, ◌<◌, ◌≡◌, refl, ◌⊎◌, inl, inr, true, Option, none, some, String, ok, arith, lookup,
  put, remove, string_Eq, nat_Eq, eq_iff, ◌↔◌, Option-cases,
}
use auto_lean.Base.Int.{ℤ, is_positive, pos_part}
use auto_lean.Leases.{
  Reading, naive, aware, Lease, LeaseRow, LeaseDb, next_token, utc_now, make_lease, issue,
  claim_row, claim, renew_row, renew, assert_row, assert_current, delete_row, delete_lease,
}

-- The tables after a new lease was issued.
abbrev pub issued : ℕ → ℕ → String → String → LeaseDb → LeaseDb
issued now expires_at job_id holder_id db =
    let token = next_token (lookup job_id db.lease_counters) in
    let row : LeaseRow = record {
      holder_id = holder_id;
      fencing_token = token;
      expires_at = expires_at;
      updated_at = now;
    } in
    record {
      worker_leases = put job_id row db.worker_leases;
      lease_counters = put job_id token db.lease_counters;
    }

-- The lease that names a job, its holder, a token and an expiry.
abbrev pub lease_of : String → String → ℕ → ℕ → Lease
lease_of job_id holder_id token expires_at = record {
  job_id = job_id;
  holder_id = holder_id;
  fencing_token = token;
  expires_at = expires_at;
}

pub make_lease-eq-ok :
    (job_id holder_id : String) (token t : ℕ) {lease : Lease}
    → make_lease job_id holder_id token (aware t) ≡ ok lease
    → (lease ≡ lease_of job_id holder_id token t) × (0 < token)
unfolding make_lease
make_lease-eq-ok job_id holder_id token t h = ground arith

issue-eq-ok :
    (now expires_at : ℕ) (job_id holder_id : String) (db : LeaseDb) {lease : Lease} {db' : LeaseDb}
    → issue now expires_at job_id holder_id db ≡ ok (lease, db')
    → (lease ≡ lease_of job_id holder_id (next_token (lookup job_id db.lease_counters)) expires_at)
      × (db' ≡ issued now expires_at job_id holder_id db)
unfolding issue
issue-eq-ok now expires_at job_id holder_id db h = ground arith

-- `claim` returned a new lease.
abbrev pub IsIssued : ℕ → ℕ → String → String → LeaseDb → Lease → LeaseDb → Type 0
IsIssued now expires_at job_id holder_id db lease db' =
    (lease ≡ lease_of job_id holder_id (next_token (lookup job_id db.lease_counters)) expires_at)
    × (db' ≡ issued now expires_at job_id holder_id db)

-- `claim` returned the lease of a live row of the same holder.
abbrev pub IsHeld : ℕ → String → String → LeaseDb → LeaseRow → Lease → LeaseDb → Type 0
IsHeld now job_id holder_id db row lease db' =
    (row.holder_id ≡ holder_id)
    × (now < row.expires_at)
    × (lease ≡ lease_of job_id holder_id row.fencing_token row.expires_at)
    × (db' ≡ db)

claim_none-eq-ok :
    (now expires_at : ℕ) (job_id holder_id : String) (db : LeaseDb) {lease : Lease} {db' : LeaseDb}
    → claim_row now expires_at job_id holder_id db none ≡ ok (lease, db')
    → IsIssued now expires_at job_id holder_id db lease db'
unfolding claim_row
claim_none-eq-ok now expires_at job_id holder_id db h =
    issue-eq-ok now expires_at job_id holder_id db h

claim_some-eq-ok :
    (now expires_at : ℕ) (job_id holder_id : String) (db : LeaseDb) (row : LeaseRow) {lease : Lease}
    {db' : LeaseDb}
    → claim_row now expires_at job_id holder_id db (some row) ≡ ok (lease, db')
    → IsHeld now job_id holder_id db row lease db'
      ⊎ (IsIssued now expires_at job_id holder_id db lease db' × (row.expires_at ≤ now))
unfolding claim_row
claim_some-eq-ok now expires_at job_id holder_id db row {lease} {db'} h = ground (
  arith,
  issue-eq-ok now expires_at job_id holder_id db {lease = lease} {db' = db'},
  eq_iff row.holder_id holder_id,
)

-- The two ways in which `claim` returns, and the clock that it read.
abbrev pub Claimed : Reading → String → String → ℤ → LeaseDb → Lease → LeaseDb → Type 0
Claimed clock job_id holder_id ttl db lease db' =
    (now : ℕ) × (clock ≡ aware now)
    × (((row : LeaseRow) × (lookup job_id db.worker_leases ≡ some row)
          × IsHeld now job_id holder_id db row lease db')
        ⊎ IsIssued now (now + pos_part ttl) job_id holder_id db lease db')

pub claim-claim_row :
    (clock : Reading) (job_id holder_id : String) (ttl : ℤ) (db : LeaseDb) {lease : Lease}
    {db' : LeaseDb}
    → claim clock job_id holder_id ttl db ≡ ok (lease, db')
    → (now : ℕ) × (clock ≡ aware now)
      × (claim_row now (now + pos_part ttl) job_id holder_id db (lookup job_id db.worker_leases)
          ≡ ok (lease, db'))
unfolding claim utc_now
claim-claim_row clock job_id holder_id ttl db h = ground arith

pub claim-eq-ok :
    (clock : Reading) (job_id holder_id : String) (ttl : ℤ) (db : LeaseDb) {lease : Lease}
    {db' : LeaseDb}
    → claim clock job_id holder_id ttl db ≡ ok (lease, db')
    → Claimed clock job_id holder_id ttl db lease db'
claim-eq-ok clock job_id holder_id ttl db h =
    let (now, at, row_ok) = claim-claim_row clock job_id holder_id ttl db h in
    (
      now,
      at,
      elim (Option-cases (lookup job_id db.worker_leases)) [
        | inl e ↦ inr (claim_none-eq-ok now _ job_id holder_id db (rw e at row_ok))
        | inr (row, e) ↦ elim (claim_some-eq-ok now _ job_id holder_id db row (rw e at row_ok)) [
          | inl held ↦ inl (row, e, held)
          | inr (fresh, late) ↦ inr fresh
        ]
      ],
    )

pub renew_row-eq-ok :
    (now expires_at : ℕ) (lease : Lease) (db : LeaseDb) (o : Option LeaseRow) {renewed : Lease}
    {db' : LeaseDb}
    → renew_row now expires_at lease db o ≡ ok (renewed, db')
    → (row : LeaseRow) × (o ≡ some row)
      × (row.holder_id ≡ lease.holder_id)
      × (row.fencing_token ≡ lease.fencing_token)
      × (now < row.expires_at)
      × (renewed ≡ record lease { expires_at = expires_at })
      × (db' ≡ record db {
        worker_leases =
            put lease.job_id
              (record row { expires_at = expires_at; updated_at = now })
              db.worker_leases;
      })
unfolding renew_row
renew_row-eq-ok now expires_at lease db none h = cc
renew_row-eq-ok now expires_at lease db (some row) h = (
  row,
  refl,
  ground (arith, eq_iff row.holder_id lease.holder_id),
  ground arith,
  ground arith,
  ground arith,
  ground arith,
)

pub renew-eq-ok :
    (clock : Reading) (lease : Lease) (ttl : ℤ) (db : LeaseDb) {renewed : Lease} {db' : LeaseDb}
    → renew clock lease ttl db ≡ ok (renewed, db')
    → (now : ℕ) × (clock ≡ aware now)
      × (is_positive ttl ≡ true)
      × (renew_row now (now + pos_part ttl) lease db (lookup lease.job_id db.worker_leases)
          ≡ ok (renewed, db'))
unfolding renew utc_now
renew-eq-ok clock lease ttl db h = ground arith

pub delete_row-eq-ok :
    (lease : Lease) (db : LeaseDb) (o : Option LeaseRow) {db' : LeaseDb}
    → delete_row lease db o ≡ ok db'
    → (row : LeaseRow) × (o ≡ some row)
      × (row.holder_id ≡ lease.holder_id)
      × (row.fencing_token ≡ lease.fencing_token)
      × (db' ≡ record db { worker_leases = remove lease.job_id db.worker_leases })
unfolding delete_row
delete_row-eq-ok lease db none h = cc
delete_row-eq-ok lease db (some row) h =
    (row, refl, ground (arith, eq_iff row.holder_id lease.holder_id), ground arith, ground arith)

-- `assert_current` returns exactly at a live row of the holder and the token.
pub assert_row_iff :
    (now : ℕ) (lease : Lease) (row : LeaseRow)
    → (assert_row now lease (some row) ≡ ok tt) ↔ (
        (row.holder_id ≡ lease.holder_id)
        × (row.fencing_token ≡ lease.fencing_token)
        × (now < row.expires_at))
unfolding assert_row
assert_row_iff now lease row = ground (arith, eq_iff row.holder_id lease.holder_id)

pub assert_current-eq-ok :
    (clock : Reading) (lease : Lease) (db : LeaseDb)
    → assert_current clock lease db ≡ ok tt
    → (now : ℕ) × (row : LeaseRow) × (clock ≡ aware now)
      × (lookup lease.job_id db.worker_leases ≡ some row)
      × (row.holder_id ≡ lease.holder_id)
      × (row.fencing_token ≡ lease.fencing_token)
      × (now < row.expires_at)
unfolding assert_current utc_now assert_row
assert_current-eq-ok (naive t) lease db h = cc
assert_current-eq-ok (aware t) lease db h =
    elim (Option-cases (lookup lease.job_id db.worker_leases)) [
      | inl e ↦ cc (rw (e, assert_row) at h)
      | inr (row, e) ↦
          let facts = (assert_row_iff t lease row).0 (rw e at h) in
          (t, row, refl, e, facts.0, facts.1, facts.2)
    ]

pub delete_lease-eq-ok :
    (lease : Lease) (db : LeaseDb) {db' : LeaseDb}
    → delete_lease lease db ≡ ok db'
    → (row : LeaseRow) × (lookup lease.job_id db.worker_leases ≡ some row)
      × (row.holder_id ≡ lease.holder_id)
      × (row.fencing_token ≡ lease.fencing_token)
      × (db' ≡ record db { worker_leases = remove lease.job_id db.worker_leases })
unfolding delete_lease
delete_lease-eq-ok lease db h = delete_row-eq-ok lease db (lookup lease.job_id db.worker_leases) h
