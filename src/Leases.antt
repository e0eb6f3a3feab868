-- ===== src/Leases.antt =====
-- packages/control_plane/src/autolean_control_plane/leases.py: fenced leases of jobs to workers.
-- A method is a function of the clock's reading, its arguments and the two tables; each
-- `_write_transaction` block is one step on the tables, rolled back where the model raises.
-- Instants are microseconds since the epoch, and a TTL is a whole number of microseconds.
pub mod Inversion
pub mod Fencing
pub mod Calls
pub mod Holding
use auto_lean.Base.{
  ℕ, suc, ◌+◌, Bool, not, ◌&&◌, ◌||◌, Option, none, some, [], String, Result, ok, err, value_error,
  lease_unavailable, stale_fence, ◌>>=◌, ◌>>◌, guard, Table, lookup, put, remove, ltb, leb, ◌==◌,
  string_Eq, nat_Eq, if◌then◌else◌,
}
use auto_lean.Base.Int.{ℤ, is_positive, pos_part}
use auto_lean.Base.Text.{is_blank}

-- What a clock may return: a datetime without or with a time zone.
pub data Reading : Type 0 where
  naive aware : ℕ → Reading

pub record Lease : Type 0 where
  pub job_id : String
  pub holder_id : String
  pub fencing_token : ℕ
  pub expires_at : ℕ

-- A row of `worker_leases`; `job_id` is its key.
pub record LeaseRow : Type 0 where
  pub holder_id : String
  pub fencing_token : ℕ
  pub expires_at : ℕ
  pub updated_at : ℕ

pub record LeaseDb : Type 0 where
  pub worker_leases : Table String LeaseRow
  pub lease_counters : Table String ℕ

-- The tables as `_initialize` creates them.
abbrev pub no_leases : LeaseDb
no_leases = record { worker_leases = []; lease_counters = [] }

-- `_utc_now`
unfoldable pub utc_now : Reading → Result ℕ
utc_now (naive t) = err value_error
utc_now (aware t) = ok t

-- `Lease(...)` with its `__post_init__`
unfoldable pub make_lease : String → String → ℕ → Reading → Result Lease
unfolding utc_now
make_lease job_id holder_id token at = do
  guard (not (is_blank job_id || is_blank holder_id)) value_error
  guard (ltb 0 token) value_error
  expires_at ← utc_now at
  ok (record {
    job_id = job_id;
    holder_id = holder_id;
    fencing_token = token;
    expires_at = expires_at;
  })

unfoldable pub row_to_lease : String → LeaseRow → Result Lease
unfolding make_lease
row_to_lease job_id row = make_lease job_id row.holder_id row.fencing_token (aware row.expires_at)

abbrev pub next_token : Option ℕ → ℕ
next_token none = 1
next_token (some last) = last + 1

-- The part of `claim` that writes both tables.
unfoldable pub issue : ℕ → ℕ → String → String → LeaseDb → Result (Lease × LeaseDb)
unfolding make_lease
issue now expires_at job_id holder_id db =
    let token = next_token (lookup job_id db.lease_counters) in
    let row : LeaseRow = record {
      holder_id = holder_id;
      fencing_token = token;
      expires_at = expires_at;
      updated_at = now;
    } in
    do
      lease ← make_lease job_id holder_id token (aware expires_at)
      ok (
        lease,
        record {
          worker_leases = put job_id row db.worker_leases;
          lease_counters = put job_id token db.lease_counters;
        },
      )

unfoldable pub claim_row :
    ℕ → ℕ → String → String → LeaseDb → Option LeaseRow → Result (Lease × LeaseDb)
unfolding row_to_lease issue
claim_row now expires_at job_id holder_id db none = issue now expires_at job_id holder_id db
claim_row now expires_at job_id holder_id db (some row) =
    if ltb now row.expires_at
    then (if row.holder_id == holder_id
        then (row_to_lease job_id row >>= λ lease. ok (lease, db))
        else err lease_unavailable)
    else issue now expires_at job_id holder_id db

unfoldable pub claim : Reading → String → String → ℤ → LeaseDb → Result (Lease × LeaseDb)
unfolding utc_now claim_row
claim clock job_id holder_id ttl db = do
  guard (not (is_blank job_id || is_blank holder_id)) value_error
  guard (is_positive ttl) value_error
  now ← utc_now clock
  claim_row now (now + pos_part ttl) job_id holder_id db (lookup job_id db.worker_leases)

-- The condition on holder, token and expiry that `renew`, `assert_current` and
-- `_assert_current_fence` share.
abbrev pub holds : ℕ → Lease → LeaseRow → Bool
holds now lease row =
    row.holder_id == lease.holder_id
    && row.fencing_token == lease.fencing_token
    && ltb now row.expires_at

unfoldable pub renew_row : ℕ → ℕ → Lease → LeaseDb → Option LeaseRow → Result (Lease × LeaseDb)
unfolding make_lease
renew_row now expires_at lease db none = err stale_fence
renew_row now expires_at lease db (some row) =
    if holds now lease row
    then (make_lease lease.job_id lease.holder_id lease.fencing_token (aware expires_at)
        >>= λ renewed. ok (
          renewed,
          record db {
            worker_leases =
                put lease.job_id (record row { expires_at = expires_at; updated_at = now })
                  db.worker_leases;
          },
        ))
    else err stale_fence

unfoldable pub renew : Reading → Lease → ℤ → LeaseDb → Result (Lease × LeaseDb)
unfolding utc_now renew_row
renew clock lease ttl db = do
  guard (is_positive ttl) value_error
  now ← utc_now clock
  renew_row now (now + pos_part ttl) lease db (lookup lease.job_id db.worker_leases)

unfoldable pub assert_row : ℕ → Lease → Option LeaseRow → Result (Unit {0})
assert_row now lease none = err stale_fence
assert_row now lease (some row) =
    if not (row.holder_id == lease.holder_id)
      || not (row.fencing_token == lease.fencing_token)
      || leb row.expires_at now
    then err stale_fence
    else ok tt

unfoldable pub assert_current : Reading → Lease → LeaseDb → Result (Unit {0})
unfolding utc_now assert_row
assert_current clock lease db = do
  now ← utc_now clock
  assert_row now lease (lookup lease.job_id db.worker_leases)

unfoldable pub current_row : ℕ → String → Option LeaseRow → Result (Option Lease)
unfolding row_to_lease
current_row now job_id none = ok none
current_row now job_id (some row) =
    if leb row.expires_at now
    then ok none
    else (row_to_lease job_id row >>= λ lease. ok (some lease))

unfoldable pub current : Reading → String → LeaseDb → Result (Option Lease)
unfolding utc_now current_row
current clock job_id db = do
  guard (not (is_blank job_id)) value_error
  now ← utc_now clock
  current_row now job_id (lookup job_id db.worker_leases)

unfoldable pub delete_row : Lease → LeaseDb → Option LeaseRow → Result LeaseDb
delete_row lease db none = err stale_fence
delete_row lease db (some row) =
    if row.holder_id == lease.holder_id && row.fencing_token == lease.fencing_token
    then ok (record db { worker_leases = remove lease.job_id db.worker_leases })
    else err stale_fence

-- The write transaction of `release`; other workers may act between the check and this step.
unfoldable pub delete_lease : Lease → LeaseDb → Result LeaseDb
unfolding delete_row
delete_lease lease db = delete_row lease db (lookup lease.job_id db.worker_leases)

-- `release` when nothing comes between its two steps.
unfoldable pub release : Reading → Lease → LeaseDb → Result LeaseDb
unfolding assert_current delete_lease
release clock lease db = do assert_current clock lease db; delete_lease lease db
