-- ===== src/Authorization/Bounds.antt =====
-- model_authorization.py: what is used and reserved under a capability never exceeds its budget.
use auto_lean.Base.{
  ℕ, ◌≤◌, ◌≡◌, refl, subst, ◌≢◌, none, some, [], ◌∷◌, ◌++◌, String, ok, lookup, string_Eq, pair_Eq,
}
use auto_lean.Leases.{LeaseDb}
use auto_lean.Authorization.{
  Authorization, Encoding, IsLossless, AuthorizationDb, no_authorizations, revoked,
}
use auto_lean.Authorization.Ledger.{
  States, UsageTotals, reservation_states, usage_totals, rows_of, apply_row,
}
use auto_lean.Authorization.Operations.{blank_row, stored_authorization}
use auto_lean.Authorization.States.{Numbered, totals_of, usage_totals-sums}
use auto_lean.Authorization.Within.{IsWithin}
use auto_lean.Authorization.Records.{IsLedger-append, IsLedger-issue, stored_authorization-eq-ok}
use auto_lean.Authorization.Inversion.{reserve-IsReserve}
use auto_lean.Authorization.Endings.{settle-eq-ok, abandon-eq-ok}
use auto_lean.Authorization.History.{Step, Reach}
use auto_lean.Authorization.Keeps.{
  Holds, Holds-moved, kept_capability, reserves-Holds, settles-Holds, abandons-Holds,
}
use auto_lean.Authorization.Issues.{issue_locked-keeps, revoke-keeps}

module _ (e : Encoding) where
  added-Holds :
      IsLossless e
      → (d : AuthorizationDb e) (a : Authorization) (request_digest : String)
      → lookup a.authorization_id d.authorizations ≡ none
      → Holds e d
      → Holds e (record d {
        authorizations =
            (
              a.authorization_id,
              record {
                authorization_hash = e.authorization_hash a;
                authorization_json = e.dumps a;
                issue_request_hash = request_digest;
              },
            )
            ∷ d.authorizations;
      })
  added-Holds lossless d a request_digest free v =
      IsLedger-issue e lossless a d.authorizations d.ledger request_digest v free

  revoked-Holds :
      (d : AuthorizationDb e) (aid reason : String) (now : ℕ)
      → lookup aid d.authorizations ≢ none
      → Holds e d
      → Holds e (record d {
        ledger = d.ledger ++ record (blank_row aid revoked now) { reason = some reason } ∷ [];
      })
  unfolding apply_row
  revoked-Holds d aid reason now listed v =
      IsLedger-append e d.authorizations d.ledger
        (record (blank_row aid revoked now) { reason = some reason }) v listed
        (λ stored k found. (k.states, refl, k.within))

  Step-Holds :
      IsLossless e → {db db' : AuthorizationDb e} → Holds e db → Step e db db' → Holds e db'
  Step-Holds lossless {db} {db'} v (Step.issues a issued request_digest key h) =
      issue_locked-keeps e (Holds e) (Holds-moved e) (added-Holds lossless) revoked-Holds a issued
        request_digest key db db' v h
  Step-Holds lossless {db} {db'} v (Step.revokes clocks aid reason key request_digest h) =
      revoke-keeps e (Holds e) (Holds-moved e) (added-Holds lossless) revoked-Holds clocks aid
        reason key request_digest db db' v h
  Step-Holds lossless {db} {db'} v (Step.reserves settings clocks id a request r new h) =
      reserves-Holds e lossless clocks id a request db db' r v new
        (reserve-IsReserve e settings clocks id a request db r db' h)
  Step-Holds lossless {db} {db'} v (Step.settles clocks r i c o h) =
      let (a, states, state, found, _, done) = settle-eq-ok e clocks r i c o db db' h in
      settles-Holds e a r states _ state db db' v found done
  Step-Holds lossless {db} {db'} v (Step.abandons clocks r failure_code h) =
      let (a, states, state, found, valid, done) = abandon-eq-ok e clocks r failure_code db db' h in
      abandons-Holds e a r states failure_code state db db' v found valid done
  Step-Holds lossless v (Step.leases_change leases) = v

  pub Reach-Holds :
      IsLossless e → {db db' : AuthorizationDb e} → Holds e db → Reach e db db' → Holds e db'
  Reach-Holds lossless v Reach.here = v
  Reach-Holds lossless v (Reach.next r s) = Step-Holds lossless (Reach-Holds lossless v r) s

  pub empty-Holds : (leases : LeaseDb) → Holds e (no_authorizations e leases)
  unfolding lookup rows_of
  empty-Holds leases = record { kept = λ aid row h. cc; unknown = λ aid h. refl }

  -- In every history from empty tables, the ledger of a stored capability replays, its usage is
  -- totalled, and the totals of attempts, input, output and total tokens and cost, reserved or
  -- used, are within its budget. Its attempts have the numbers 1, 2, ... in the order of the
  -- ledger.
  pub usage_stays_within_budget :
      IsLossless e
      → (leases : LeaseDb) (db : AuthorizationDb e) (aid : String) (a : Authorization)
      → Reach e (no_authorizations e leases) db
      → stored_authorization e aid db ≡ ok a
      → (states : States) × (totals : UsageTotals) × (reservation_states aid db.ledger ≡ ok states)
        × (usage_totals states ≡ ok totals)
        × Numbered 0 states
        × (totals.attempts ≤ a.budget.max_attempts)
        × (totals.input_tokens ≤ a.budget.max_input_tokens)
        × (totals.output_tokens ≤ a.budget.max_output_tokens)
        × (totals.total_tokens ≤ a.budget.max_total_tokens)
        × (totals.cost_microusd ≤ a.budget.max_cost_microusd)
  usage_stays_within_budget lossless leases db aid a reach h =
      let v = Reach-Holds lossless (empty-Holds leases) reach in
      let (row, found, _) = stored_authorization-eq-ok e aid db h in
      let k = v.kept aid row found in
      let within =
        subst (λ (b : Authorization). IsWithin b.budget k.states)
          (kept_capability e aid a row db k found h) k.within in
      (
        k.states,
        totals_of k.states,
        k.replayed,
        usage_totals-sums k.states within.whole,
        within.numbered,
        within.attempts,
        within.input,
        within.output,
        within.total,
        within.cost,
      )
