-- ===== src/Examples/Encodings.antt =====
-- An encoding of capabilities that keeps them as they are, with equality field by field.
use auto_lean.Base.{
  ◌≡◌, ◌↔◌, refl, Bool, true, false, ◌&&◌, Option, none, some, ◌==◌, string_Eq, eq_iff, nat_Eq,
  nat_eq, arith,
}
use auto_lean.Authorization.{
  Digest, Provider, Pricing, Budget, LeaseBinding, Attestation, Authorization, Encoding, IsLossless,
}
use auto_lean.Authorization.Operations.{digest_eq, provider_eq}

digest_eq_iff : (a b : Digest) → (digest_eq a b ≡ true) ↔ (a ≡ b)
digest_eq_iff a b = ground (arith, eq_iff a.kind b.kind, eq_iff a.value b.value)

provider_eq_iff : (a b : Provider) → (provider_eq a b ≡ true) ↔ (a ≡ b)
provider_eq_iff a b = ground (
  arith,
  eq_iff a.registry_name b.registry_name,
  eq_iff a.provider_id b.provider_id,
  eq_iff a.model_id b.model_id,
  eq_iff a.model_revision b.model_revision,
  eq_iff a.endpoint_class b.endpoint_class,
  digest_eq_iff a.configuration_hash b.configuration_hash,
)

abbrev pricing_eq : Pricing → Pricing → Bool
pricing_eq a b =
    nat_eq a.input_microusd_per_token b.input_microusd_per_token
    && nat_eq a.cached_input_microusd_per_token b.cached_input_microusd_per_token
    && nat_eq a.output_microusd_per_token b.output_microusd_per_token

pricing_eq_iff : (a b : Pricing) → (pricing_eq a b ≡ true) ↔ (a ≡ b)
pricing_eq_iff a b = ground arith

abbrev budget_eq : Budget → Budget → Bool
budget_eq a b =
    nat_eq a.max_attempts b.max_attempts
    && nat_eq a.max_input_tokens b.max_input_tokens
    && nat_eq a.max_output_tokens b.max_output_tokens
    && nat_eq a.max_total_tokens b.max_total_tokens
    && nat_eq a.max_cost_microusd b.max_cost_microusd

budget_eq_iff : (a b : Budget) → (budget_eq a b ≡ true) ↔ (a ≡ b)
budget_eq_iff a b = ground arith

abbrev lease_eq : LeaseBinding → LeaseBinding → Bool
lease_eq a b =
    a.bundle_id == b.bundle_id
    && a.worker_id == b.worker_id
    && nat_eq a.fencing_token b.fencing_token
    && nat_eq a.expires_at b.expires_at

lease_eq_iff : (a b : LeaseBinding) → (lease_eq a b ≡ true) ↔ (a ≡ b)
lease_eq_iff a b = ground (arith, eq_iff a.bundle_id b.bundle_id, eq_iff a.worker_id b.worker_id)

abbrev attestation_eq : Option Attestation → Option Attestation → Bool
attestation_eq none none = true
attestation_eq none (some b) = false
attestation_eq (some a) none = false
attestation_eq (some a) (some b) = a.signature == b.signature && nat_eq a.expires_at b.expires_at

attestation_eq_iff : (a b : Option Attestation) → (attestation_eq a b ≡ true) ↔ (a ≡ b)
attestation_eq_iff none none = ground arith
attestation_eq_iff none (some b) = ground arith
attestation_eq_iff (some a) none = ground arith
attestation_eq_iff (some a) (some b) = ground (arith, eq_iff a.signature b.signature)

abbrev authorization_eq : Authorization → Authorization → Bool
authorization_eq a b =
    a.authorization_id == b.authorization_id
    && lease_eq a.lease b.lease
    && digest_eq a.context_pack_hash b.context_pack_hash
    && digest_eq a.request_hash b.request_hash
    && provider_eq a.provider b.provider
    && pricing_eq a.pricing b.pricing
    && budget_eq a.budget b.budget
    && nat_eq a.expires_at b.expires_at
    && attestation_eq a.attestation b.attestation

pub authorization_eq_iff : (a b : Authorization) → (authorization_eq a b ≡ true) ↔ (a ≡ b)
authorization_eq_iff a b =
    let i = eq_iff a.authorization_id b.authorization_id in
    let l = lease_eq_iff a.lease b.lease in
    let c = digest_eq_iff a.context_pack_hash b.context_pack_hash in
    let q = digest_eq_iff a.request_hash b.request_hash in
    let p = provider_eq_iff a.provider b.provider in
    let m = pricing_eq_iff a.pricing b.pricing in
    let g = budget_eq_iff a.budget b.budget in
    let t = attestation_eq_iff a.attestation b.attestation in ground (arith, i, l, c, q, p, m, g, t)

abbrev pub plain_encoding : Encoding
plain_encoding = record {
  Doc = Authorization;
  doc_Eq = record { beq = authorization_eq; beq_iff = authorization_eq_iff };
  dumps = λ a. a;
  parse = λ a. some a;
  authorization_hash = λ a. a.authorization_id;
  accepts = λ attestation a. attestation.signature == "signed";
  binding_hash = λ p. p.provider_id;
  binding_json = λ p. p.provider_id;
}

pub plain_encoding-IsLossless : IsLossless plain_encoding
plain_encoding-IsLossless = record { parse-dumps = λ a. refl }
