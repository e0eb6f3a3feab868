-- ===== src/Leases/Calls.antt =====
-- leases.py: what one call returns, and what the next call then sees.
use auto_lean.Base.{
  ℕ, ◌+◌, ◌<◌, ◌≡◌, refl, inl, inr, false, Option, none, some, String, ok, arith, lookup,
  lookup-put_self, string_Eq, nat_Eq,
}
use auto_lean.Base.Int.{ℤ, pos_part}
use auto_lean.Base.Text.{is_blank}
use auto_lean.Leases.{
  Reading, naive, aware, Lease, LeaseRow, LeaseDb, next_token, utc_now, claim_row, claim,
  assert_current,
}
use auto_lean.Leases.Inversion.{lease_of, claim-eq-ok, assert_current-eq-ok, assert_row_iff}

-- Two leases that are both current for one job, at whatever clocks, have the same holder and the
-- same token.
pub current_lease_unique :
    (clock clock' : Reading) (a b : Lease) (db : LeaseDb)
    → assert_current clock a db ≡ ok tt
    → assert_current clock' b db ≡ ok tt
    → a.job_id ≡ b.job_id
    → (a.holder_id ≡ b.holder_id) × (a.fencing_token ≡ b.fencing_token)
current_lease_unique clock clock' a b db ha hb same =
    let fa = assert_current-eq-ok clock a db ha in
    let fb = assert_current-eq-ok clock' b db hb in ground (arith, fa, fb)

-- The row of the claimed job after `claim` returned a lease.
pub claim-row :
    (clock : Reading) (job_id holder_id : String) (ttl : ℤ) (lease : Lease) (db db' : LeaseDb)
    → claim clock job_id holder_id ttl db ≡ ok (lease, db')
    → (row : LeaseRow) × (lookup job_id db'.worker_leases ≡ some row)
      × (row.holder_id ≡ holder_id)
      × (lease ≡ lease_of job_id holder_id row.fencing_token row.expires_at)
claim-row clock job_id holder_id ttl lease db db' h =
    let (now, at, how) = claim-eq-ok clock job_id holder_id ttl db h in
    elim how [
      | inl (row, found, held) ↦ (row, rw held.3 found, held.0, held.2)
      | inr (made, e) ↦ (
        record {
          holder_id = holder_id;
          fencing_token = next_token (lookup job_id db.lease_counters);
          expires_at = now + pos_part ttl;
          updated_at = now;
        },
        rw e (lookup-put_self job_id _ db.worker_leases),
        refl,
        made,
      )
    ]

claim_row-token_pos :
    (now expires_at : ℕ) (job_id holder_id : String) (db : LeaseDb) (o : Option LeaseRow)
    (lease : Lease) (db' : LeaseDb)
    → claim_row now expires_at job_id holder_id db o ≡ ok (lease, db')
    → 0 < lease.fencing_token
unfolding claim_row
claim_row-token_pos now expires_at job_id holder_id db none lease db' h = ground arith
claim_row-token_pos now expires_at job_id holder_id db (some row) lease db' h = ground arith

pub claim-valid :
    (clock : Reading) (job_id holder_id : String) (ttl : ℤ) (lease : Lease) (db db' : LeaseDb)
    → claim clock job_id holder_id ttl db ≡ ok (lease, db')
    → (is_blank job_id ≡ false) × (is_blank holder_id ≡ false) × (0 < lease.fencing_token)
unfolding claim utc_now
claim-valid (naive now) job_id holder_id ttl lease db db' h = ground arith
claim-valid (aware now) job_id holder_id ttl lease db db' h = ground (
  arith,
  claim_row-token_pos now (now + pos_part ttl) job_id holder_id db (lookup job_id db.worker_leases)
      lease db',
)

pub assert_current_at :
    (t : ℕ) (lease : Lease) (db : LeaseDb) (row : LeaseRow)
    → lookup lease.job_id db.worker_leases ≡ some row
    → row.holder_id ≡ lease.holder_id
    → row.fencing_token ≡ lease.fencing_token
    → t < row.expires_at
    → assert_current (aware t) lease db ≡ ok tt
unfolding assert_current utc_now
assert_current_at t lease db row found holder token live =
    rw found ((assert_row_iff t lease row).1 (holder, token, live))
