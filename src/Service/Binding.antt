-- ===== src/Service/Binding.antt =====
-- service.py: the frozen task of a bundle, read back from its registration event.
use auto_lean.Base.{
  Bool, true, false, ◌||◌, Option, none, some, List, [], ◌∷◌, String, Result, ok, err,
  invalid_transition, type_error, task_not_found, ◌>>=◌, ◌>>◌, guard, or_raise, ◌==◌, string_Eq,
  if◌then◌else◌,
}
use auto_lean.Base.Int.{ℤ}
use auto_lean.Json.{Json, Items, Fields, Codec, null, bool, str, obj, nil, cons, get}
use auto_lean.Leases.{Reading, Lease, assert_current}
use auto_lean.Artifacts.{ArtifactRef, make_artifact_ref}
use auto_lean.Events.{StoredEvent, Db}
use auto_lean.Events.Read.{read_stream}
use auto_lean.Service.Payload.{
  required_text, optional_text, required_int, required_object, required_list, required_texts,
}

pub record TaskBinding : Type 0 where
  pub bundle_id : String
  pub bundle_hash : String
  pub contract_id : String
  pub revision : ℤ
  pub contract_hash : String
  pub proof_boundary_hash : String
  pub environment_hash : String
  pub lean_version : String
  pub mathlib_revision : String
  pub lake_manifest_hash : Option String
  pub worker_image_digest : String
  pub wrapper_protocol : String
  pub command_policy_hash : String
  pub axiom_profile : String
  pub axioms_allowlist : List String
  pub canonical_type_assurance : Option String
  pub bundle_artifact : ArtifactRef
  pub fidelity_evidence_artifact : Option ArtifactRef
  pub graph_nodes : Items

unfoldable pub stored_artifact : Fields → Result ArtifactRef
unfolding required_text required_int make_artifact_ref
stored_artifact payload = do
  digest ← required_text payload "digest"
  size ← required_int payload "size"
  make_artifact_ref digest size "sha256"

abbrev object_or_null : Option Json → Result (Option Fields)
object_or_null none = ok none
object_or_null (some null) = ok none
object_or_null (some (obj fields)) = ok (some fields)
object_or_null _ = err invalid_transition

abbrev stored_fidelity : Option Fields → Result (Option ArtifactRef)
stored_fidelity none = ok none
stored_fidelity (some payload) = stored_artifact payload >>= λ reference. ok (some reference)

abbrev assurance_or_refuse : Option Json → Result (Option String)
assurance_or_refuse none = ok none
assurance_or_refuse (some null) = ok none
assurance_or_refuse (some (str s)) =
    if s == "scripted_fake" || s == "local_oci_prefreeze"
    then ok (some s)
    else err invalid_transition
assurance_or_refuse _ = err invalid_transition

-- `payload.get(key, False) is False`
abbrev is_absent_or_false : Option Json → Bool
is_absent_or_false none = true
is_absent_or_false (some (bool false)) = true
is_absent_or_false _ = false

-- `_json_object` on each item.
unfoldable pub all_objects : Items → Bool
all_objects nil = true
all_objects (cons (obj fields) items) = all_objects items
all_objects (cons _ items) = false

unfoldable pub binding_from_event : StoredEvent → Result TaskBinding
unfolding required_text optional_text required_int required_object required_list required_texts
    stored_artifact all_objects
binding_from_event event = do
  artifact_payload ← required_object event.payload "bundle_artifact"
  fidelity_payload ← object_or_null (get "fidelity_evidence_artifact" event.payload)
  assurance ← assurance_or_refuse (get "canonical_type_assurance" event.payload)
  guard (is_absent_or_false (get "canonical_type_promotion_authority" event.payload))
      invalid_transition
  graph_nodes ← required_list event.payload "graph_nodes"
  bundle_id ← required_text event.payload "bundle_id"
  bundle_hash ← required_text event.payload "bundle_hash"
  contract_id ← required_text event.payload "contract_id"
  revision ← required_int event.payload "revision"
  contract_hash ← required_text event.payload "contract_hash"
  proof_boundary_hash ← required_text event.payload "proof_boundary_hash"
  environment_hash ← required_text event.payload "environment_hash"
  lean_version ← required_text event.payload "lean_version"
  mathlib_revision ← required_text event.payload "mathlib_revision"
  lake_manifest_hash ← optional_text event.payload "lake_manifest_hash"
  worker_image_digest ← required_text event.payload "worker_image_digest"
  wrapper_protocol ← required_text event.payload "wrapper_protocol"
  command_policy_hash ← required_text event.payload "command_policy_hash"
  axiom_profile ← required_text event.payload "axiom_profile"
  axioms_allowlist ← required_texts event.payload "axioms_allowlist"
  bundle_artifact ← stored_artifact artifact_payload
  fidelity_evidence_artifact ← stored_fidelity fidelity_payload
  guard (all_objects graph_nodes) type_error
  ok (record {
    bundle_id = bundle_id;
    bundle_hash = bundle_hash;
    contract_id = contract_id;
    revision = revision;
    contract_hash = contract_hash;
    proof_boundary_hash = proof_boundary_hash;
    environment_hash = environment_hash;
    lean_version = lean_version;
    mathlib_revision = mathlib_revision;
    lake_manifest_hash = lake_manifest_hash;
    worker_image_digest = worker_image_digest;
    wrapper_protocol = wrapper_protocol;
    command_policy_hash = command_policy_hash;
    axiom_profile = axiom_profile;
    axioms_allowlist = axioms_allowlist;
    canonical_type_assurance = assurance;
    bundle_artifact = bundle_artifact;
    fidelity_evidence_artifact = fidelity_evidence_artifact;
    graph_nodes = graph_nodes;
  })

-- `next((event for event in events if event.event_type == ...), None)`
unfoldable pub first_of_type : String → List StoredEvent → Option StoredEvent
first_of_type event_type [] = none
first_of_type event_type (event ∷ events) =
    if event.event_type == event_type then some event else first_of_type event_type events

module _ (c : Codec) where
  unfoldable pub get_binding : String → Db c.Doc → Result TaskBinding
  unfolding binding_from_event first_of_type
  get_binding bundle_id db = do
    events ← read_stream c "task" bundle_id 0 db
    registered ← or_raise (first_of_type "task.registered" events) task_not_found
    binding_from_event registered

  unfoldable pub assert_lease : Reading → String → Lease → Db c.Doc → Result (Unit {0})
  assert_lease clock bundle_id lease db = do
    guard (lease.job_id == bundle_id) invalid_transition
    assert_current clock lease db.leases
