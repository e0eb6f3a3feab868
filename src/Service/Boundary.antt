-- ===== src/Service/Boundary.antt =====
-- service.py: the conditions on a report, in one Boolean, against the list of failures.
use auto_lean.Base.{
  ◌≡◌, refl, Bool, true, false, not, ◌&&◌, ◌||◌, List, [], ◌∷◌, String, arith, ◌==◌, string_Eq,
  pair_Eq, nat_Eq,
}
use auto_lean.Base.Lists.{is_empty, contains, all}
use auto_lean.Service.Binding.{TaskBinding}
use auto_lean.Service.Verification.{VerificationReport, unapproved, fails_if, verification_failures}

fails_if-is_empty :
    (test : Bool) (reason : String) (failures : List String)
    → is_empty (fails_if test reason failures) ≡ (not test && is_empty failures)
fails_if-is_empty false reason failures = refl
fails_if-is_empty true reason [] = refl
fails_if-is_empty true reason (f ∷ failures) = refl

unapproved-is_empty :
    (allowed names : List String)
    → is_empty (unapproved allowed names) ≡ all (λ n. contains n allowed) names
unfolding unapproved all contains
unapproved-is_empty allowed [] = refl
unapproved-is_empty allowed (n ∷ names) = ground (arith, unapproved-is_empty allowed names)

-- The Boolean value of all conditions on a report for a frozen task.
abbrev pub passes_boundary : TaskBinding → VerificationReport → Bool
passes_boundary binding report =
    report.independent
    && report.kernel_passed
    && report.build_passed
    && report.dependency_check_passed
    && report.clean_environment
    && not (contains "sorryAx" report.observed_axioms)
    && all (λ n. contains n binding.axioms_allowlist) report.observed_axioms
    && (not (binding.axiom_profile == "strict") || is_empty report.observed_axioms)

-- A report has no failures exactly if it is independent, the kernel, the build and the dependency
-- check passed in a clean environment, sorryAx was not observed, every observed axiom is allowed,
-- and none was observed under the strict profile.
pub no_failures_iff :
    (binding : TaskBinding) (report : VerificationReport)
    → is_empty (verification_failures binding report) ≡ passes_boundary binding report
unfolding verification_failures
no_failures_iff binding report =
    rw
      (
        fails_if-is_empty, fails_if-is_empty, fails_if-is_empty, fails_if-is_empty,
        fails_if-is_empty, fails_if-is_empty, fails_if-is_empty, fails_if-is_empty,
        unapproved-is_empty,
      )
      (ground arith)
