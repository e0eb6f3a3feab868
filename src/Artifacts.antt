-- ===== src/Artifacts.antt =====
-- packages/control_plane/src/autolean_control_plane/artifacts.py: blobs in a directory tree,
-- addressed by SHA-256. The file system is a table from paths, as lists of names below the store's
-- root, to what `lstat` finds there. The hash of hashlib and the encoding of texts are parameters.
-- A temporary file is written and removed within an operation, so that only its link remains.
pub mod Chunks
pub mod Refusals
pub mod Blobs
pub mod Contract
pub mod Refinement
use auto_lean.Base.{
  ℕ, zero, suc, ◌+◌, Bool, true, false, not, ◌&&◌, Option, none, some, List, [], ◌∷◌, ◌++◌, String,
  Result, ok, err, value_error, artifact_not_found, artifact_corruption, os_error, ◌>>=◌, ◌>>◌,
  guard, Table, lookup, put, nat_eq, ◌==◌, string_Eq, if◌then◌else◌,
}
use auto_lean.Base.Lists.{length, list_Eq}
use auto_lean.Base.Int.{ℤ, pos, negsuc, is_positive, is_negative, pos_part}
use auto_lean.Base.Text.{is_sha256}
use auto_lean.Json.{Json, Codec, canonical_json}

abbrev pub Bytes : Type 0
Bytes = List ℕ

abbrev pub Place : Type 0
Place = List String

-- A link is a symbolic link or a reparse point, here with what it resolves to.
pub data Target : Type 0 where
  to_directory to_file to_nothing : Target

pub data Entry : Type 0 where
  directory : Entry
  file : Bytes → Entry
  link : Target → Entry

abbrev pub Files : Type 0
Files = Table Place Entry

pub record ArtifactRef : Type 0 where
  pub digest : String
  pub size : ℕ

-- `ArtifactRef(...)` with its `__post_init__`
unfoldable pub make_artifact_ref : String → ℤ → String → Result ArtifactRef
make_artifact_ref digest size algorithm = do
  guard (algorithm == "sha256") value_error
  guard (is_sha256 digest) value_error
  guard (not (is_negative size)) value_error
  ok (record { digest = digest; size = pos_part size })

-- `reference: ArtifactRef | str`
pub data Reference : Type 0 where
  by_ref : ArtifactRef → Reference
  by_digest : String → Reference

abbrev pub reference_digest : Reference → String
reference_digest (by_ref reference) = reference.digest
reference_digest (by_digest digest) = digest

abbrev pub expected_size : Reference → Bytes → ℕ
expected_size (by_ref reference) data_bytes = reference.size
expected_size (by_digest digest) data_bytes = length data_bytes

-- `digest[:n]` and `digest[n:]`
abbrev pub prefix_text : ℕ → String → String
prefix_text zero s = ""
prefix_text (suc n) String.[] = ""
prefix_text (suc n) (String.◌∷◌ c s) = String.◌∷◌ c (prefix_text n s)

abbrev pub suffix_text : ℕ → String → String
suffix_text zero s = s
suffix_text (suc n) String.[] = ""
suffix_text (suc n) (String.◌∷◌ c s) = suffix_text n s

unfoldable pub shard : String → Place
shard digest = "sha256" ∷ prefix_text 2 digest ∷ prefix_text 2 (suffix_text 2 digest) ∷ []

unfoldable pub blob_place : String → Place
unfolding shard
blob_place digest = shard digest ++ digest ∷ []

abbrev pub is_link : Option Entry → Bool
is_link (some (link t)) = true
is_link _ = false

abbrev pub is_plain_file : Option Entry → Bool
is_plain_file (some (file content)) = true
is_plain_file _ = false

-- The loop of `_assert_safe_store_path` from `current` down to the parts that remain. Below a
-- plain file `lstat` raises NotADirectoryError.
unfoldable pub assert_no_link : Place → List String → Files → Result (Unit {0})
assert_no_link current [] files = guard (not (is_link (lookup current files))) artifact_corruption
assert_no_link current (part ∷ parts) files = do
  guard (not (is_link (lookup current files))) artifact_corruption
  guard (not (is_plain_file (lookup current files))) os_error
  assert_no_link (current ++ part ∷ []) parts files

unfoldable pub path_for_digest : String → Files → Result Place
unfolding assert_no_link
path_for_digest digest files = do
  guard (is_sha256 digest) value_error
  assert_no_link [] (blob_place digest) files
  ok (blob_place digest)

-- `path.is_file()` with the content, `path.exists()`: of the file a link leads to, only that it is
-- there is known, and no operation reads through one.
abbrev pub file_at : Option Entry → Result Bytes
file_at (some (file content)) = ok content
file_at _ = err artifact_not_found

abbrev pub present : Option Entry → Bool
present none = false
present (some (link to_nothing)) = false
present (some _) = true

-- `path.mkdir(parents=True, exist_ok=True)`, from `current` down to the parts that remain.
abbrev pub make_directory : Place → Files → Option Entry → Result Files
make_directory path files none = ok (put path directory files)
make_directory path files (some directory) = ok files
make_directory path files (some (link to_directory)) = ok files
make_directory path files (some _) = err os_error

unfoldable pub make_directories : Place → List String → Files → Result Files
make_directories current [] files = make_directory current files (lookup current files)
make_directories current (part ∷ parts) files = do
  files' ← make_directory current files (lookup current files)
  make_directories (current ++ part ∷ []) parts files'

-- `os.link(temp_path, target)` under `suppress(FileExistsError)`
abbrev pub link_entry : Place → Bytes → Files → Option Entry → Files
link_entry path content files none = put path (file content) files
link_entry path content files (some found) = files

unfoldable pub link_new : Place → Bytes → Files → Files
link_new path content files = link_entry path content files (lookup path files)

-- `reader.read(n)`: the next bytes, at most `n`, and what is left.
unfoldable pub read_chunk : ℕ → Bytes → Bytes × Bytes
read_chunk zero rest = ([], rest)
read_chunk (suc n) [] = ([], [])
read_chunk (suc n) (b ∷ rest) = let (chunk, left) = read_chunk n rest in (b ∷ chunk, left)

-- `while chunk := reader.read(chunk_size)`: the bytes given to the hash and to the writer so far,
-- and their number. The fuel is the length of what is left.
unfoldable pub read_all : ℕ → ℕ → Bytes × ℕ → Bytes → Bytes × ℕ
unfolding read_chunk
read_all zero n seen rest = seen
read_all (suc fuel) n (content, size) rest =
    let (chunk, left) = read_chunk n rest in
    elim chunk [
      | [] ↦ (content, size)
      | b ∷ more ↦ read_all fuel n (content ++ b ∷ more, size + length (b ∷ more)) left
    ]

module _ (sha256 : Bytes → String) where
  unfoldable pub verify : ArtifactRef → Files → Result (Unit {0})
  unfolding path_for_digest read_all
  verify reference files = do
    path ← path_for_digest reference.digest files
    content ← file_at (lookup path files)
    let seen = read_all (length content) 1048576 ([], 0) content in
        guard (nat_eq seen.1 reference.size && sha256 seen.0 == reference.digest)
          artifact_corruption

  unfoldable pub verify_bytes : String → ℕ → Bytes → Result (Unit {0})
  verify_bytes digest size content =
      guard (nat_eq (length content) size && sha256 content == digest) artifact_corruption

  -- The steps that create the blob, which another process may have done in between.
  unfoldable pub publish : ArtifactRef → Place → Bytes → Files → Result (ArtifactRef × Files)
  unfolding make_directories link_new verify
  publish reference path content files =
      let linked = link_new path content files in verify reference linked >> ok (reference, linked)

  unfoldable pub put_bytes : Bytes → Files → Result (ArtifactRef × Files)
  unfolding path_for_digest make_artifact_ref make_directories publish verify
  put_bytes content files = do
    path ← path_for_digest (sha256 content) files
    reference ← make_artifact_ref (sha256 content) (pos (length content)) "sha256"
    if present (lookup path files) then (verify reference files >> ok (reference, files)) else do
      files' ← make_directories [] (shard (sha256 content)) files
      publish reference path content files'

  unfoldable pub put_json :
      (c : Codec) → (c.Doc → Bytes) → Json → Files → Result (ArtifactRef × Files)
  unfolding canonical_json put_bytes
  put_json c encode value files = do doc ← canonical_json c value; put_bytes (encode doc) files

  abbrev source_file : Option Entry → Result Bytes
  source_file (some (link t)) = err artifact_corruption
  source_file (some (file content)) = ok content
  source_file _ = err artifact_not_found

  -- The part of `put_file` after the copy, which has the bytes and their number.
  unfoldable pub put_copy : Bytes × ℕ → Files → Result (ArtifactRef × Files)
  unfolding path_for_digest make_artifact_ref make_directories publish verify
  put_copy (seen, size) files = do
    reference ← make_artifact_ref (sha256 seen) (pos size) "sha256"
    path ← path_for_digest reference.digest files
    files' ← make_directories [] (shard reference.digest) files
    if present (lookup path files')
        then (verify reference files' >> ok (reference, files'))
        else publish reference path seen files'

  -- `source` is what `lstat` finds at the source's path.
  unfoldable pub put_file : Option Entry → ℤ → Files → Result (ArtifactRef × Files)
  unfolding make_directories read_all put_copy
  put_file source chunk_size files = do
    guard (is_positive chunk_size) value_error
    content ← source_file source
    prepared ← make_directories [] (".incoming" ∷ []) files
    put_copy (read_all (length content) (pos_part chunk_size) ([], 0) content) prepared

  unfoldable pub get_bytes : Reference → Files → Result Bytes
  unfolding path_for_digest verify_bytes
  get_bytes reference files = do
    path ← path_for_digest (reference_digest reference) files
    content ← file_at (lookup path files)
    verify_bytes (reference_digest reference) (expected_size reference content) content
    ok content

  -- `open`, with the bytes that the handle reads; of a plain digest nothing is verified here.
  unfoldable pub open_blob : Reference → Files → Result Bytes
  unfolding path_for_digest verify
  open_blob (by_ref reference) files = do
    path ← path_for_digest reference.digest files
    content ← file_at (lookup path files)
    verify reference files
    ok content
  open_blob (by_digest digest) files = do
    path ← path_for_digest digest files
    file_at (lookup path files)

unfoldable pub exists : Reference → Files → Result Bool
unfolding path_for_digest
exists reference files = do
  path ← path_for_digest (reference_digest reference) files
  elim (file_at (lookup path files)) [ ok content ↦ ok true | err missing ↦ ok false ]

unfoldable pub path_for : Reference → Files → Result Place
unfolding path_for_digest
path_for reference files = do
  path ← path_for_digest (reference_digest reference) files
  content ← file_at (lookup path files)
  ok path

-- `__init__`
unfoldable pub open_store : Files → Result Files
unfolding make_directories assert_no_link
open_store files = do
  rooted ← make_directories [] [] files
  assert_no_link [] [] rooted
  opened ← make_directories [] ("sha256" ∷ []) rooted
  assert_no_link [] ("sha256" ∷ []) opened
  ok opened
