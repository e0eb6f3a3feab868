-- ===== src/Examples/Artifacts.antt =====
-- artifacts.py with a hash that tells one content from all others.
use auto_lean.Base.{
  ◌≡◌, true, false, eq_iff, inl, inr, refl, sym, ap, ◌∙◌, Bool-cases, none, List, [], ◌∷◌, String,
  ok, err, lookup, arith, artifact_corruption, string_Eq, nat_Eq, if◌then◌else◌, put,
}
use auto_lean.Base.Lists.{list_eq, list_eq_iff, list_Eq, all}
use auto_lean.Base.Int.{pos}
use auto_lean.Base.Text.{is_sha256}
use auto_lean.Artifacts.{
  Bytes, Entry, file, directory, link, to_file, Files, by_ref, by_digest, put_bytes, get_bytes,
  verify, make_artifact_ref, open_store, make_directories, blob_place, shard, assert_no_link,
  path_for_digest, publish, link_new, read_all, read_chunk, verify_bytes,
}
use auto_lean.Artifacts.Blobs.{ref_of, put_then_get}
use auto_lean.Artifacts.Refinement.{
  Command, puts, gets, run_store, run_map, IsUnique, IsSound, new_files, store_refines_map,
}

abbrev proof_bytes : Bytes
proof_bytes = 1 ∷ 2 ∷ []

abbrev hash_a : String
hash_a = "aaaaaaaaaaaaaaaaaaaaaaaaaaaaaaaaaaaaaaaaaaaaaaaaaaaaaaaaaaaaaaaa"

abbrev hash_b : String
hash_b = "bbbbbbbbbbbbbbbbbbbbbbbbbbbbbbbbbbbbbbbbbbbbbbbbbbbbbbbbbbbbbbbb"

abbrev toy_hash : Bytes → String
toy_hash content = if list_eq content proof_bytes then hash_a else hash_b

abbrev with_blob : Entry → Files
with_blob entry =
    ([], directory)
    ∷ ("sha256" ∷ [], directory)
    ∷ ("sha256" ∷ "aa" ∷ [], directory)
    ∷ ("sha256" ∷ "aa" ∷ "aa" ∷ [], directory)
    ∷ ("sha256" ∷ "aa" ∷ "aa" ∷ hash_a ∷ [], entry)
    ∷ []

proof_bytes-IsUnique : IsUnique toy_hash proof_bytes
proof_bytes-IsUnique other h = elim (Bool-cases (list_eq other proof_bytes)) [
  | inl same ↦ (list_eq_iff other proof_bytes).0 same
  | inr off ↦
      let hashes : hash_b ≡ hash_a = ap (λ t. if t then hash_a else hash_b) (sym off) ∙ h in
      let equal : false ≡ true = (eq_iff hash_b hash_a).1 hashes in ground (arith, equal)
]

put-first :
    put_bytes toy_hash proof_bytes new_files
    ≡ ok (ref_of toy_hash proof_bytes, with_blob (file proof_bytes))
unfolding put_bytes path_for_digest assert_no_link make_artifact_ref make_directories publish
    link_new verify blob_place shard lookup put is_sha256 all read_all read_chunk
put-first = refl

-- A blob whose file was changed, or replaced by a link, is refused.
get-changed :
    get_bytes toy_hash (by_digest hash_a) (with_blob (file (3 ∷ []))) ≡ err artifact_corruption
unfolding get_bytes path_for_digest assert_no_link blob_place shard lookup is_sha256 all
    verify_bytes
get-changed = refl

get-linked :
    get_bytes toy_hash (by_digest hash_a) (with_blob (link to_file)) ≡ err artifact_corruption
unfolding get_bytes path_for_digest assert_no_link blob_place shard lookup is_sha256 all
    verify_bytes
get-linked = refl

put_then_get_example :
    (ref_of toy_hash proof_bytes ≡ ref_of toy_hash proof_bytes)
    × (get_bytes toy_hash (by_ref (ref_of toy_hash proof_bytes)) (with_blob (file proof_bytes))
        ≡ ok proof_bytes)
    × (get_bytes toy_hash (by_digest hash_a) (with_blob (file proof_bytes)) ≡ ok proof_bytes)
put_then_get_example =
    put_then_get toy_hash proof_bytes new_files (with_blob (file proof_bytes))
      (ref_of toy_hash proof_bytes) (pos 1) proof_bytes-IsUnique (inl put-first)

abbrev commands : List Command
commands = gets hash_a ∷ puts proof_bytes ∷ puts proof_bytes ∷ gets hash_a ∷ gets "x" ∷ []

commands-IsSound : IsSound toy_hash (puts proof_bytes)
unfolding is_sha256 all
commands-IsSound = (refl, proof_bytes-IsUnique)

store_refines_map_example :
    (files : Files) × (open_store [] ≡ ok files)
    × (run_store toy_hash commands files ≡ run_map toy_hash commands (λ digest. none))
store_refines_map_example =
    store_refines_map toy_hash commands (tt, (commands-IsSound, (commands-IsSound, (tt, (tt, tt)))))
