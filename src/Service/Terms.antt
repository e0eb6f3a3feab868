-- ===== src/Service/Terms.antt =====
-- service.py: the terms of a frozen task that a report meets, and the proof that it binds.
use auto_lean.Base.{
  Bool-cases, ◌≡◌, ◌≢◌, ◌⊎◌, inl, inr, ◌↔◌, sym, ap, ◌∙◌, true, not, Option, some, List, [], ◌∷◌,
  String, ok, arith, ◌==◌, string_Eq, eq_iff, invalid_transition, >>=-eq-ok, guard-eq-ok,
  guard_then-eq-ok, pair_Eq, nat_Eq,
}
use mathlib.Core.List.{Memᴰ}
use auto_lean.Base.Lists.{All, is_empty, contains, all}
use auto_lean.Json.{Json, Fields, str, get}
use auto_lean.Events.{StoredEvent}
use auto_lean.Service.Payload.{required_text, text_or_refuse}
use auto_lean.Service.Binding.{TaskBinding, first_of_type}
use auto_lean.Service.Verification.{VerificationReport, validate_verification_binding}
use auto_lean.Service.Boundary.{passes_boundary}

-- Every check passed, and the axioms that the proof uses are allowed by the frozen task.
pub record IsWithin (binding : TaskBinding) (report : VerificationReport) : Type 0 where
  pub independent : report.independent ≡ true
  pub kernel_passed : report.kernel_passed ≡ true
  pub build_passed : report.build_passed ≡ true
  pub dependency_check_passed : report.dependency_check_passed ≡ true
  pub clean_environment : report.clean_environment ≡ true
  pub no_sorry : All (λ n. n ≢ "sorryAx") report.observed_axioms
  pub allowed : All (λ n. Memᴰ n binding.axioms_allowlist) report.observed_axioms
  pub strict : (binding.axiom_profile ≢ "strict") ⊎ (report.observed_axioms ≡ [])

-- The report is for the contract, the boundary, the environment and the axiom profile of the frozen
-- task, and the submitted proof names the same contract and boundary.
pub record Binds (binding : TaskBinding) (report : VerificationReport) (submitted : StoredEvent)
    : Type 0 where
  pub proof_contract : get "contract_hash" submitted.payload ≡ some (str report.contract_hash)
  pub proof_boundary :
      get "proof_boundary_hash" submitted.payload ≡ some (str report.proof_boundary_hash)
  pub contract : report.contract_hash ≡ binding.contract_hash
  pub boundary : report.proof_boundary_hash ≡ binding.proof_boundary_hash
  pub environment : report.environment_hash ≡ binding.environment_hash
  pub profile : report.axiom_profile ≡ binding.axiom_profile

contains-Memᴰ : (a : String) (xs : List String) → contains a xs ≡ true → Memᴰ a xs
unfolding contains
contains-Memᴰ a [] h = cc
contains-Memᴰ a (x ∷ xs) h = elim (Bool-cases (x == a)) [
  | inl same ↦ Memᴰ.head (sym ((eq_iff x a).0 same))
  | inr other ↦ Memᴰ.tail (contains-Memᴰ a xs (ground (arith, h, other)))
]

Memᴰ-contains : (a : String) (xs : List String) → Memᴰ a xs → contains a xs ≡ true
unfolding contains
Memᴰ-contains a [] m = elim m [ ]
Memᴰ-contains a (x ∷ xs) (Memᴰ.head same) = ground (arith, eq_iff x a, same)
Memᴰ-contains a (x ∷ xs) (Memᴰ.tail m) = ground (arith, Memᴰ-contains a xs m)

all_allowed_iff :
    (allowed names : List String)
    → (all (λ n. contains n allowed) names ≡ true) ↔ All (λ n. Memᴰ n allowed) names
unfolding all
all_allowed_iff allowed [] = ground arith
all_allowed_iff allowed (n ∷ names) =
    ground (arith, contains-Memᴰ n allowed, Memᴰ-contains n allowed, all_allowed_iff allowed names)

no_sorry_iff :
    (names : List String) → (not (contains "sorryAx" names) ≡ true) ↔ All (λ n. n ≢ "sorryAx") names
unfolding contains
no_sorry_iff [] = ground arith
no_sorry_iff (n ∷ names) = ground (arith, eq_iff n "sorryAx", no_sorry_iff names)

is_empty_iff : (names : List String) → (is_empty names ≡ true) ↔ (names ≡ [])
is_empty_iff [] = ground arith
is_empty_iff (n ∷ names) = ground arith

pub passes_boundary-IsWithin :
    (binding : TaskBinding) (report : VerificationReport)
    → (passes_boundary binding report ≡ true) ↔ IsWithin binding report
passes_boundary-IsWithin binding report = (
  λ h. record {
    independent = ground (arith, h);
    kernel_passed = ground (arith, h);
    build_passed = ground (arith, h);
    dependency_check_passed = ground (arith, h);
    clean_environment = ground (arith, h);
    no_sorry = (no_sorry_iff report.observed_axioms).0 (ground (arith, h));
    allowed =
        (all_allowed_iff binding.axioms_allowlist report.observed_axioms).0 (ground (arith, h));
    strict =
        ground
          (arith, h, eq_iff binding.axiom_profile "strict", is_empty_iff report.observed_axioms);
  },
  λ w. ground (
    arith,
    w.independent,
    w.kernel_passed,
    w.build_passed,
    w.dependency_check_passed,
    w.clean_environment,
    (no_sorry_iff report.observed_axioms).1 w.no_sorry,
    (all_allowed_iff binding.axioms_allowlist report.observed_axioms).1 w.allowed,
    w.strict,
    eq_iff binding.axiom_profile "strict",
    is_empty_iff report.observed_axioms,
  ),
)

text_or_refuse-eq-ok : (o : Option Json) {s : String} → text_or_refuse o ≡ ok s → o ≡ some (str s)
text_or_refuse-eq-ok o h = ground (arith, h)

pub required_text-eq-ok :
    (payload : Fields) (key : String) {s : String}
    → required_text payload key ≡ ok s
    → get key payload ≡ some (str s)
unfolding required_text
required_text-eq-ok payload key h = text_or_refuse-eq-ok (get key payload) h

pub validate_verification_binding-Binds :
    (binding : TaskBinding) (report : VerificationReport) (submitted : StoredEvent)
    → validate_verification_binding binding report submitted ≡ ok tt
    → Binds binding report submitted
unfolding validate_verification_binding
validate_verification_binding-Binds binding report submitted h =
    let (contract, read, h1) = >>=-eq-ok (required_text submitted.payload "contract_hash") _ h in
    let (same_contract, h2) =
      guard_then-eq-ok (contract == report.contract_hash) invalid_transition _ h1 in
    let (boundary, read', h3) =
      >>=-eq-ok (required_text submitted.payload "proof_boundary_hash") _ h2 in
    let (same_boundary, h4) =
      guard_then-eq-ok (boundary == report.proof_boundary_hash) invalid_transition _ h3 in
    let (of_contract, h5) =
      guard_then-eq-ok (report.contract_hash == binding.contract_hash) invalid_transition _ h4 in
    let (of_boundary, h6) =
      guard_then-eq-ok (report.proof_boundary_hash == binding.proof_boundary_hash)
        invalid_transition _ h5 in
    let (of_environment, h7) =
      guard_then-eq-ok (report.environment_hash == binding.environment_hash) invalid_transition _
        h6 in
    let of_profile =
      guard-eq-ok (report.axiom_profile == binding.axiom_profile) invalid_transition h7 in
    record {
      proof_contract =
          required_text-eq-ok submitted.payload "contract_hash" read
          ∙ ap (λ s. some (str s)) ((eq_iff contract report.contract_hash).0 same_contract);
      proof_boundary =
          required_text-eq-ok submitted.payload "proof_boundary_hash" read'
          ∙ ap (λ s. some (str s)) ((eq_iff boundary report.proof_boundary_hash).0 same_boundary);
      contract = (eq_iff report.contract_hash binding.contract_hash).0 of_contract;
      boundary = (eq_iff report.proof_boundary_hash binding.proof_boundary_hash).0 of_boundary;
      environment = (eq_iff report.environment_hash binding.environment_hash).0 of_environment;
      profile = (eq_iff report.axiom_profile binding.axiom_profile).0 of_profile;
    }

pub first_of_type-eq-some :
    (event_type : String) (events : List StoredEvent) (event : StoredEvent)
    → first_of_type event_type events ≡ some event
    → Memᴰ event events × (event.event_type ≡ event_type)
unfolding first_of_type
first_of_type-eq-some event_type [] event h = cc
first_of_type-eq-some event_type (e ∷ events) event h =
    elim (Bool-cases (e.event_type == event_type)) [
      | inl same ↦
          let is : e ≡ event = ground (arith, rw same at h) in
          (
            Memᴰ.head (sym is),
            ap (λ (x : StoredEvent). x.event_type) (sym is)
                ∙ (eq_iff e.event_type event_type).0 same,
          )
      | inr other ↦
          let (found, typed) = first_of_type-eq-some event_type events event (rw other at h) in
          (Memᴰ.tail found, typed)
    ]
