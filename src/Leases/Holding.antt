-- ===== src/Leases/Holding.antt =====
-- leases.py: a lease that is neither renewed nor released, while other calls go on.
use auto_lean.Base.{
  ℕ, ◌+◌, ◌<◌, ◌≡◌, ◌≢◌, ◌⊎◌, inl, inr, sym, ap, ◌∙◌, true, false, some, String, ok, err,
  lease_unavailable, arith, lookup, lookup-put, lookup-put_self, lookup-remove, string_Eq, eq_iff,
  nat_Eq, ◌==◌, if◌then◌else◌, Bool-cases,
}
use auto_lean.Base.Int.{ℤ, pos_part, is_positive}
use auto_lean.Base.Text.{is_blank}
use auto_lean.Leases.{
  Reading, aware, Lease, LeaseRow, LeaseDb, utc_now, claim_row, claim, renew, assert_current,
  next_token, delete_lease,
}
use auto_lean.Leases.Inversion.{
  claim-claim_row, claim-eq-ok, renew-eq-ok, renew_row-eq-ok, delete_lease-eq-ok,
}
use auto_lean.Leases.Calls.{claim-row, claim-valid, assert_current_at}

-- The row of a lease.
pub record IsRowOf (lease : Lease) (row : LeaseRow) (db : LeaseDb) : Type 0 where
  pub found : lookup lease.job_id db.worker_leases ≡ some row
  pub holder : row.holder_id ≡ lease.holder_id
  pub token : row.fencing_token ≡ lease.fencing_token
  pub expiry : row.expires_at ≡ lease.expires_at

-- Another job, holder or token.
abbrev pub IsOther : Lease → Lease → Type 0
IsOther lease other =
    (other.job_id ≢ lease.job_id)
    ⊎ (other.holder_id ≢ lease.holder_id)
    ⊎ (other.fencing_token ≢ lease.fencing_token)

-- Calls of the lease store, by anyone and of any job, but no renewal and no deletion of the lease,
-- and claims only before it expires.
pub data Untouched (lease : Lease) (db : LeaseDb) : LeaseDb → Type 0 where
  here : Untouched lease db db
  claims :
      {mid db' : LeaseDb} (t : ℕ) (job_id holder_id : String) (ttl : ℤ) (claimed : Lease)
      → Untouched lease db mid
      → t < lease.expires_at
      → claim (aware t) job_id holder_id ttl mid ≡ ok (claimed, db')
      → Untouched lease db db'
  renews :
      {mid db' : LeaseDb} (clock : Reading) (other : Lease) (ttl : ℤ) (renewed : Lease)
      → Untouched lease db mid
      → IsOther lease other
      → renew clock other ttl mid ≡ ok (renewed, db')
      → Untouched lease db db'
  deletes :
      {mid db' : LeaseDb} (other : Lease)
      → Untouched lease db mid
      → IsOther lease other
      → delete_lease other mid ≡ ok db'
      → Untouched lease db db'

claim_row-live :
    (now expires_at : ℕ) (job_id holder_id : String) (db : LeaseDb) (row : LeaseRow)
    (claimed : Lease) (db' : LeaseDb)
    → now < row.expires_at
    → claim_row now expires_at job_id holder_id db (some row) ≡ ok (claimed, db')
    → db' ≡ db
unfolding claim_row
claim_row-live now expires_at job_id holder_id db row claimed db' live h = ground arith

claim-live :
    (t : ℕ) (job_id holder_id : String) (ttl : ℤ) (claimed : Lease) (row : LeaseRow)
    (db db' : LeaseDb)
    → lookup job_id db.worker_leases ≡ some row
    → t < row.expires_at
    → claim (aware t) job_id holder_id ttl db ≡ ok (claimed, db')
    → db' ≡ db
claim-live t job_id holder_id ttl claimed row db db' found live h =
    let (now, at, row_ok) = claim-claim_row (aware t) job_id holder_id ttl db h in
    claim_row-live now (now + pos_part ttl) job_id holder_id db row claimed db'
      (ground (arith, at, live)) (rw found at row_ok)

claims-keep_row :
    (lease : Lease) (row : LeaseRow) (t : ℕ) (job_id holder_id : String) (ttl : ℤ) (claimed : Lease)
    (db db' : LeaseDb)
    → IsRowOf lease row db
    → t < lease.expires_at
    → claim (aware t) job_id holder_id ttl db ≡ ok (claimed, db')
    → lookup lease.job_id db'.worker_leases ≡ some row
claims-keep_row lease row t job_id holder_id ttl claimed db db' r early h =
    elim (Bool-cases (job_id == lease.job_id)) [
      | inl same ↦
          let is : job_id ≡ lease.job_id = (eq_iff job_id lease.job_id).0 same in
          let unchanged =
            claim-live t job_id holder_id ttl claimed row db db'
              (ap (λ j. lookup j db.worker_leases) is ∙ r.found) (ground (arith, r.expiry, early))
              h in
          ap (λ (d : LeaseDb). lookup lease.job_id d.worker_leases) unchanged ∙ r.found
      | inr other ↦
          let (now, at, how) = claim-eq-ok (aware t) job_id holder_id ttl db h in
          elim how [
            | inl (_, _, held) ↦ rw held.3 r.found
            | inr (made, e) ↦ rw e (
                ground (
                  arith,
                  r.found,
                  other,
                  lookup-put job_id lease.job_id
                      (record {
                        holder_id = holder_id;
                        fencing_token = next_token (lookup job_id db.lease_counters);
                        expires_at = now + pos_part ttl;
                        updated_at = now;
                      })
                      db.worker_leases,
                ))
          ]
    ]

renews-keep_row :
    (lease other : Lease) (row : LeaseRow) (clock : Reading) (ttl : ℤ) (renewed : Lease)
    (db db' : LeaseDb)
    → IsRowOf lease row db
    → IsOther lease other
    → renew clock other ttl db ≡ ok (renewed, db')
    → lookup lease.job_id db'.worker_leases ≡ some row
renews-keep_row lease other row clock ttl renewed db db' r differs h =
    let (now, at, positive, row_ok) = renew-eq-ok clock other ttl db h in
    let facts =
      renew_row-eq-ok now (now + pos_part ttl) other db (lookup other.job_id db.worker_leases)
        row_ok in
    rw facts.6 (
      ground (
        arith,
        r,
        differs,
        facts.1,
        facts.2,
        facts.3,
        eq_iff other.job_id lease.job_id,
        lookup-put other.job_id lease.job_id
            (record facts.0 { expires_at = now + pos_part ttl; updated_at = now }) db.worker_leases,
      ))

deletes-keep_row :
    (lease other : Lease) (row : LeaseRow) (db db' : LeaseDb)
    → IsRowOf lease row db
    → IsOther lease other
    → delete_lease other db ≡ ok db'
    → lookup lease.job_id db'.worker_leases ≡ some row
deletes-keep_row lease other row db db' r differs h =
    let facts = delete_lease-eq-ok other db h in
    rw facts.4 (
      ground (
        arith,
        r,
        differs,
        facts.1,
        facts.2,
        facts.3,
        eq_iff other.job_id lease.job_id,
        lookup-remove other.job_id lease.job_id db.worker_leases,
      ))

Untouched-IsRowOf :
    {lease : Lease} {db later : LeaseDb} (row : LeaseRow)
    → IsRowOf lease row db
    → Untouched lease db later
    → IsRowOf lease row later
Untouched-IsRowOf row r here = r
Untouched-IsRowOf {lease} row r (claims {mid} {db'} t job_id holder_id ttl claimed before early h) =
    let v = Untouched-IsRowOf row r before in
    record {
      found = claims-keep_row lease row t job_id holder_id ttl claimed mid db' v early h;
      holder = v.holder;
      token = v.token;
      expiry = v.expiry;
    }
Untouched-IsRowOf {lease} row r (renews {mid} {db'} clock other ttl renewed before differs h) =
    let v = Untouched-IsRowOf row r before in
    record {
      found = renews-keep_row lease other row clock ttl renewed mid db' v differs h;
      holder = v.holder;
      token = v.token;
      expiry = v.expiry;
    }
Untouched-IsRowOf {lease} row r (deletes {mid} {db'} other before differs h) =
    let v = Untouched-IsRowOf row r before in
    record {
      found = deletes-keep_row lease other row mid db' v differs h;
      holder = v.holder;
      token = v.token;
      expiry = v.expiry;
    }

-- After `claim` returned a lease, and after any calls of the lease store, but no renewal and no
-- deletion of that lease and claims only before its expiry, a claim of the job at any time before
-- the expiry, with a positive TTL and a holder whose name is not blank, returns the same lease and
-- writes nothing for the holder of the lease, and is refused for any other.
pub claim_excludes :
    (clock : Reading) (job_id holder_id other : String) (ttl ttl' : ℤ) (lease : Lease)
    (db db' later : LeaseDb) (t : ℕ)
    → claim clock job_id holder_id ttl db ≡ ok (lease, db')
    → Untouched lease db' later
    → t < lease.expires_at
    → is_positive ttl' ≡ true
    → is_blank other ≡ false
    → claim (aware t) job_id other ttl' later
      ≡ (if other == holder_id then ok (lease, later) else err lease_unavailable)
unfolding claim utc_now claim_row
claim_excludes clock job_id holder_id other ttl ttl' lease db db' later t h calls early positive
      named =
    let (row, found, holder, made) = claim-row clock job_id holder_id ttl lease db db' h in
    let (job_named, holder_named, token) = claim-valid clock job_id holder_id ttl lease db db' h in
    let first : IsRowOf lease row db' = record {
      found = ap (λ (l : Lease). lookup l.job_id db'.worker_leases) made ∙ found;
      holder = ground (arith, made, holder);
      token = ground (arith, made);
      expiry = ground (arith, made);
    } in
    let v = Untouched-IsRowOf row first calls in
    let at : lookup job_id later.worker_leases ≡ some row =
      ap (λ (l : Lease). lookup l.job_id later.worker_leases) (sym made) ∙ v.found in
    rw (job_named, named, positive, at, claim_row)
      (ground (arith, made, eq_iff row.holder_id other, eq_iff other holder_id))

-- After `renew` returned a lease, and after any calls of the lease store, but no renewal and no
-- deletion of that lease and claims only before its new expiry, the lease is current at every
-- instant before that expiry, which is the TTL after the clock of the renewal.
pub renewed_lease_lasts :
    (clock : Reading) (lease renewed : Lease) (ttl : ℤ) (db db' later : LeaseDb) (t : ℕ)
    → renew clock lease ttl db ≡ ok (renewed, db')
    → Untouched renewed db' later
    → t < renewed.expires_at
    → (assert_current (aware t) renewed later ≡ ok tt)
      × ((now : ℕ) × (clock ≡ aware now)
          × (renewed ≡ record lease { expires_at = now + pos_part ttl }))
renewed_lease_lasts clock lease renewed ttl db db' later t h calls early =
    let (now, at, positive, row_ok) = renew-eq-ok clock lease ttl db h in
    let (row, found, holder, token, live, is, same) =
      renew_row-eq-ok now (now + pos_part ttl) lease db (lookup lease.job_id db.worker_leases)
        row_ok in
    let row' : LeaseRow = record row { expires_at = now + pos_part ttl; updated_at = now } in
    let first : IsRowOf renewed row' db' = record {
      found =
          ap (λ (l : Lease). lookup l.job_id db'.worker_leases) is
          ∙ ap (λ (d : LeaseDb). lookup lease.job_id d.worker_leases) same
          ∙ lookup-put_self lease.job_id row' db.worker_leases;
      holder = ground (arith, is, holder);
      token = ground (arith, is, token);
      expiry = ground (arith, is);
    } in
    let v = Untouched-IsRowOf row' first calls in
    (
      assert_current_at t renewed later row' v.found v.holder v.token
          (ground (arith, v.expiry, early)),
      (now, at, is),
    )
