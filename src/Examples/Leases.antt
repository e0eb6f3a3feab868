-- ===== src/Examples/Leases.antt =====
-- leases.py on one job and two workers.
use auto_lean.Base.{
  ℕ, ◌+◌, ◌≡◌, refl, some, [], ◌∷◌, String, ok, err, stale_fence, lease_unavailable, arith, lookup,
  put, remove,
}
use auto_lean.Base.Int.{pos, pos_part}
use auto_lean.Base.Text.{is_blank}
use auto_lean.Leases.{
  aware, Lease, LeaseRow, LeaseDb, no_leases, claim, renew, assert_current, delete_lease, release,
  current, make_lease,
}
use auto_lean.Leases.Inversion.{lease_of}
use auto_lean.Leases.Fencing.{Reach, Step, IsFenced, Reach-IsFenced, superseded_lease_is_stale}
use auto_lean.Leases.Calls.{current_lease_unique}
use auto_lean.Leases.Holding.{Untouched, claim_excludes, renewed_lease_lasts}

abbrev first : Lease
first = lease_of "job" "w1" 1 10

abbrev second : Lease
second = lease_of "job" "w2" 2 30

abbrev row_of : String → ℕ → ℕ → ℕ → LeaseRow
row_of holder_id token expires_at now = record {
  holder_id = holder_id;
  fencing_token = token;
  expires_at = expires_at;
  updated_at = now;
}

abbrev one_lease : LeaseDb
one_lease = record {
  worker_leases = ("job", row_of "w1" 1 10 0) ∷ [];
  lease_counters = ("job", 1) ∷ [];
}

abbrev taken_over : LeaseDb
taken_over = record {
  worker_leases = ("job", row_of "w2" 2 30 20) ∷ [];
  lease_counters = ("job", 2) ∷ [];
}

claim-first : claim (aware 0) "job" "w1" (pos 10) no_leases ≡ ok (first, one_lease)
unfolding claim lookup put is_blank
claim-first = refl

-- The lease has expired at 20, so that another worker gets the job with the next token.
claim-second : claim (aware 20) "job" "w2" (pos 10) one_lease ≡ ok (second, taken_over)
unfolding claim lookup put is_blank
claim-second = refl

first_was_current : assert_current (aware 5) first one_lease ≡ ok tt
unfolding assert_current lookup
first_was_current = refl

release-first : release (aware 5) first one_lease ≡ ok (record one_lease { worker_leases = [] })
unfolding release lookup remove
release-first = refl

current-second : current (aware 25) "job" taken_over ≡ ok (some second)
unfolding current lookup is_blank
current-second = refl

to_one_lease : Reach no_leases one_lease
to_one_lease = Reach.next Reach.here (Step.claims (aware 0) "job" "w1" (pos 10) first claim-first)

Reach-IsFenced_example : IsFenced taken_over
Reach-IsFenced_example =
    Reach-IsFenced
      (Reach.next to_one_lease (Step.claims (aware 20) "job" "w2" (pos 10) second claim-second))

superseded_lease_is_stale_example :
    (assert_current (aware 21) first taken_over ≡ err stale_fence)
    × (renew (aware 21) first (pos 10) taken_over ≡ err stale_fence)
    × (delete_lease first taken_over ≡ err stale_fence)
superseded_lease_is_stale_example =
    superseded_lease_is_stale first second (aware 5) (aware 20) "w2" (pos 10) to_one_lease
      first_was_current Reach.here claim-second (omega arith) Reach.here 21 (pos 10) refl

current_lease_unique_example : (first.holder_id ≡ "w1") × (first.fencing_token ≡ 1)
unfolding assert_current lookup
current_lease_unique_example =
    current_lease_unique (aware 5) (aware 7) first (lease_of "job" "w1" 1 9) one_lease refl refl
      refl

-- Another worker claims another job while the first lease runs.
abbrev aside : Lease
aside = lease_of "other" "w2" 1 15

abbrev two_leases : LeaseDb
two_leases = record {
  worker_leases = ("job", row_of "w1" 1 10 0) ∷ ("other", row_of "w2" 1 15 5) ∷ [];
  lease_counters = ("job", 1) ∷ ("other", 1) ∷ [];
}

claim-aside : claim (aware 5) "other" "w2" (pos 10) one_lease ≡ ok (aside, two_leases)
unfolding claim lookup put is_blank
claim-aside = refl

claim_excludes_example : claim (aware 9) "job" "w2" (pos 5) two_leases ≡ err lease_unavailable
unfolding is_blank
claim_excludes_example =
    claim_excludes (aware 0) "job" "w1" "w2" (pos 10) (pos 5) first no_leases one_lease two_leases 9
      claim-first
      (Untouched.claims 5 "other" "w2" (pos 10) aside Untouched.here (omega arith) claim-aside)
      (omega arith) refl refl

abbrev renewed : Lease
renewed = lease_of "job" "w1" 1 45

abbrev renewed_db : LeaseDb
renewed_db = record one_lease { worker_leases = ("job", row_of "w1" 1 45 5) ∷ [] }

renew-first : renew (aware 5) first (pos 40) one_lease ≡ ok (renewed, renewed_db)
unfolding renew lookup put is_blank make_lease
renew-first = refl

abbrev after_renewal : LeaseDb
after_renewal = record {
  worker_leases = ("job", row_of "w1" 1 45 5) ∷ ("other", row_of "w2" 1 30 20) ∷ [];
  lease_counters = ("job", 1) ∷ ("other", 1) ∷ [];
}

claim-later :
    claim (aware 20) "other" "w2" (pos 10) renewed_db
    ≡ ok (lease_of "other" "w2" 1 30, after_renewal)
unfolding claim lookup put is_blank
claim-later = refl

renewed_lease_lasts_example :
    (assert_current (aware 44) renewed after_renewal ≡ ok tt)
    × ((now : ℕ) × (aware 5 ≡ aware now)
        × (renewed ≡ record first { expires_at = now + pos_part (pos 40) }))
renewed_lease_lasts_example =
    renewed_lease_lasts (aware 5) first renewed (pos 40) one_lease renewed_db after_renewal 44
      renew-first
      (Untouched.claims 20 "other" "w2" (pos 10) (lease_of "other" "w2" 1 30) Untouched.here
        (omega arith) claim-later)
      (omega arith)
