-- ===== src/Artifacts/Refinement.antt =====
-- artifacts.py: commands on a store that only its own operations write, against a plain map.
use auto_lean.Base.{
  ◌≡◌, inl, inr, refl, ap, ap₂, ◌∙◌, Bool-cases, value_error, true, Option, none, some,
  Option-cases, List, [], ◌∷◌, String, Result, ok, err, Error, or_raise, lookup, put, lookup-put,
  lookup-put_self, arith, string_Eq, artifact_not_found, if◌then◌else◌, ◌==◌, eq_iff,
}
use auto_lean.Base.Lists.{length, All, list_Eq, list_eq_iff}
use auto_lean.Base.Int.{pos}
use auto_lean.Base.Text.{is_sha256}
use auto_lean.Artifacts.{
  Bytes, Entry, directory, file, Files, ArtifactRef, by_digest, make_artifact_ref, assert_no_link,
  blob_place, shard, make_directories, link_new, publish, put_bytes, get_bytes, open_store,
}
use auto_lean.Artifacts.Refusals.{IsBlob-verify}
use auto_lean.Artifacts.Blobs.{ref_of}
use auto_lean.Artifacts.Contract.{
  IsStore, contents, blob_place-injective, length-shard, length-blob_place, Prepared,
  make_directories-Prepared, IsStore-blob_place, IsStore-path_for_digest, at_place,
  get_bytes-contents, get_bytes-unnamed,
}

-- A map from digests to contents, and the entry of `content` in it.
abbrev pub Contents : Type 0
Contents = String → Option Bytes

abbrev pub record_content : (Bytes → String) → Bytes → Contents → Contents
record_content sha256 content m digest = if sha256 content == digest then some content else m digest

abbrev pub IsUnique : (Bytes → String) → Bytes → Type 0
IsUnique sha256 content = (other : Bytes) → sha256 other ≡ sha256 content → other ≡ content

module _ (sha256 : Bytes → String) where
  -- `put_bytes` returned the reference, and added the content to the map.
  Adds : Bytes → Files → Type 0
  Adds content files =
      (files' : Files) × (put_bytes sha256 content files ≡ ok (ref_of sha256 content, files'))
      × IsStore sha256 files'
      × ((digest : String)
          → contents files' digest ≡ record_content sha256 content (contents files) digest)

  make_artifact_ref-of :
      (content : Bytes)
      → is_sha256 (sha256 content) ≡ true
      → make_artifact_ref (sha256 content) (pos (length content)) "sha256"
        ≡ ok (ref_of sha256 content)
  unfolding make_artifact_ref
  make_artifact_ref-of content hex = rw hex refl

  -- The blob is there already.
  put_again :
      (content : Bytes) (files : Files) (entry : Entry)
      → IsStore sha256 files
      → is_sha256 (sha256 content) ≡ true
      → IsUnique sha256 content
      → lookup (blob_place (sha256 content)) files ≡ some entry
      → Adds content files
  unfolding Adds put_bytes
  put_again content files entry v hex unique e =
      let (found, hashed, is) = at_place sha256 files (sha256 content) entry v e in
      let stored : entry ≡ file content = is ∙ ap file (unique found hashed) in
      let verified =
        IsBlob-verify sha256 (ref_of sha256 content) files content
          (record {
            named = hex;
            safe = IsStore-blob_place sha256 files (sha256 content) v;
            stored = e ∙ ap some stored;
            hashed = refl;
          })
          refl in
      (
        files,
        rw
            (
              IsStore-path_for_digest sha256 files (sha256 content) v hex,
              make_artifact_ref-of content hex,
              e,
              stored,
              verified,
            )
            refl,
        v,
        λ digest. ground (arith, e, stored, eq_iff (sha256 content) digest),
      )

  put_fresh :
      (content : Bytes) (files : Files)
      → IsStore sha256 files
      → is_sha256 (sha256 content) ≡ true
      → lookup (blob_place (sha256 content)) files ≡ none
      → Adds content files
  unfolding Adds put_bytes publish link_new Prepared
  put_fresh content files v hex e =
      let digest = sha256 content in
      let path = blob_place digest in
      let (made, done, v', same) =
        make_directories-Prepared sha256 files [] (shard digest) v
          (omega (arith, length-shard digest)) in
      let free : lookup path made ≡ none =
        same path (omega (arith, length-blob_place digest)) ∙ e in
      let linked = put path (file content) made in
      let found = lookup-put_self path (file content) made in
      let owned : IsStore sha256 linked = record {
        own = λ place entry h. ground (
          arith,
          lookup-put path place (file content) made,
          list_eq_iff path place,
          v'.own place entry,
        );
      } in
      let verified =
        IsBlob-verify sha256 (ref_of sha256 content) linked content
          (record {
            named = hex;
            safe = IsStore-blob_place sha256 linked (sha256 content) owned;
            stored = found;
            hashed = refl;
          })
          refl in
      (
        linked,
        rw
            (
              IsStore-path_for_digest sha256 files digest v hex,
              make_artifact_ref-of content hex,
              e,
              done,
              free,
              verified,
            )
            refl,
        owned,
        λ other. ground (
          arith,
          lookup-put path (blob_place other) (file content) made,
          list_eq_iff path (blob_place other),
          blob_place-injective digest other,
          eq_iff digest other,
          same (blob_place other),
          length-blob_place other,
        ),
      )

  put_bytes-Adds :
      (content : Bytes) (files : Files)
      → IsStore sha256 files
      → is_sha256 (sha256 content) ≡ true
      → IsUnique sha256 content
      → Adds content files
  put_bytes-Adds content files v hex unique =
      elim (Option-cases (lookup (blob_place (sha256 content)) files)) [
        | inl e ↦ put_fresh content files v hex e
        | inr (entry, e) ↦ put_again content files entry v hex unique e
      ]

-- What opening a store on an empty directory leaves.
abbrev pub new_files : Files
new_files = ([], directory) ∷ ("sha256" ∷ [], directory) ∷ []

pub data Command : Type 0 where
  puts : Bytes → Command
  gets : String → Command

pub data Answer : Type 0 where
  stored : ArtifactRef → Answer
  content_read : Bytes → Answer
  failed : Error → Answer

abbrev answer_read : Result Bytes → Answer
answer_read (ok content) = content_read content
answer_read (err e) = failed e

abbrev answer_put : Result (ArtifactRef × Files) → Answer
answer_put (ok (reference, files)) = stored reference
answer_put (err e) = failed e

-- The state after an operation; one that raises leaves it as it was.
abbrev left_by : Result (ArtifactRef × Files) → Files → Files
left_by (ok (reference, files')) files = files'
left_by (err e) files = files

module _ (sha256 : Bytes → String) where
  -- The answers of the store.
  abbrev pub run_store : List Command → Files → List Answer
  run_store [] files = []
  run_store (puts content ∷ commands) files =
      answer_put (put_bytes sha256 content files)
      ∷ run_store commands (left_by (put_bytes sha256 content files) files)
  run_store (gets digest ∷ commands) files =
      answer_read (get_bytes sha256 (by_digest digest) files) ∷ run_store commands files

  -- The answers of the map.
  abbrev pub run_map : List Command → Contents → List Answer
  run_map [] m = []
  run_map (puts content ∷ commands) m =
      stored (ref_of sha256 content) ∷ run_map commands (record_content sha256 content m)
  run_map (gets digest ∷ commands) m =
      (if is_sha256 digest
        then answer_read (or_raise (m digest) artifact_not_found)
        else failed value_error)
      ∷ run_map commands m

  abbrev pub IsSound : Command → Type 0
  IsSound (puts content) = (is_sha256 (sha256 content) ≡ true) × IsUnique sha256 content
  IsSound (gets digest) = Unit

  record_content-agrees :
      (content : Bytes) (m m' : Contents)
      → ((digest : String) → m digest ≡ m' digest)
      → (digest : String)
      → record_content sha256 content m digest ≡ record_content sha256 content m' digest
  record_content-agrees content m m' same digest = rw (same digest) refl

  run_store-IsStore :
      (commands : List Command) (files : Files) (m : Contents)
      → IsStore sha256 files
      → ((digest : String) → contents files digest ≡ m digest)
      → All IsSound commands
      → run_store commands files ≡ run_map commands m
  unfolding Adds
  run_store-IsStore [] files m v same sound = refl
  run_store-IsStore (puts content ∷ commands) files m v same ((hex, unique), rest) =
      let (files', done, v', new) = put_bytes-Adds sha256 content files v hex unique in
      rw done (
        ap (λ later. stored (ref_of sha256 content) ∷ later)
          (run_store-IsStore commands files' (record_content sha256 content m) v'
            (λ digest. new digest ∙ record_content-agrees content (contents files) m same digest)
            rest))
  run_store-IsStore (gets digest ∷ commands) files m v same (_, rest) =
      ap₂ (λ answer later. answer ∷ later)
        (elim (Bool-cases (is_sha256 digest)) [
          | inl hex ↦ rw (get_bytes-contents sha256 files digest v hex, same digest, hex) refl
          | inr off ↦ rw (get_bytes-unnamed sha256 files digest off, off) refl
        ])
        (run_store-IsStore commands files m v same rest)

  new_files-IsStore : IsStore sha256 new_files
  unfolding lookup
  new_files-IsStore = record {
    own = λ path entry h. ground (arith, h, list_eq_iff [] path, list_eq_iff ("sha256" ∷ []) path);
  }

  -- A store opened on an empty directory and used by its own commands alone behaves as a map from
  -- digests to contents in which every `put_bytes` succeeds and adds its content, and `get_bytes`
  -- reads: the answers of any sequence of commands are those of the map, when the hash gives 64
  -- hexadecimal digits and no other bytes have the digest of a content that is put.
  pub store_refines_map :
      (commands : List Command)
      → All IsSound commands
      → (files : Files) × (open_store [] ≡ ok files)
        × (run_store commands files ≡ run_map commands (λ digest. none))
  unfolding open_store make_directories assert_no_link lookup put blob_place shard
  store_refines_map commands sound = (
    new_files,
    refl,
    run_store-IsStore commands new_files (λ digest. none) new_files-IsStore (λ digest. refl) sound,
  )
