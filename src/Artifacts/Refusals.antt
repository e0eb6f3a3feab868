-- ===== src/Artifacts/Refusals.antt =====
-- artifacts.py: what `verify` and `get_bytes` accept, on any file system.
use auto_lean.Base.{
  ℕ, ◌≡◌, sym, ap, ◌∙◌, true, ◌&&◌, Option, some, [], String, Result, ok, guard, guard-eq-ok,
  guard_then-eq-ok, ◌>>=◌, >>=-eq-ok, >>-eq-ok, lookup, arith, nat_eq, ◌==◌, string_Eq, eq_iff,
  beq_refl, artifact_corruption, value_error,
}
use auto_lean.Base.Lists.{length, list_Eq}
use auto_lean.Base.Text.{is_sha256}
use auto_lean.Artifacts.{
  Bytes, Place, Entry, file, Files, ArtifactRef, Reference, reference_digest, expected_size,
  assert_no_link, blob_place, path_for_digest, file_at, verify, verify_bytes, get_bytes,
}
use auto_lean.Artifacts.Chunks.{read_all-file}

-- The blob of a digest: a plain file at its place, no link on the way, with content of that hash.
pub record IsBlob (sha256 : Bytes → String) (digest : String) (content : Bytes) (files : Files)
    : Type 0 where
  pub named : is_sha256 digest ≡ true
  pub safe : assert_no_link [] (blob_place digest) files ≡ ok tt
  pub stored : lookup (blob_place digest) files ≡ some (file content)
  pub hashed : sha256 content ≡ digest

pub file_at-eq-ok :
    (entry : Option Entry) {content : Bytes}
    → file_at entry ≡ ok content
    → entry ≡ some (file content)
file_at-eq-ok entry h = ground arith

-- A digest is mapped to its place, where it has the form of one and no link stands on the way.
path_for_digest-eq-ok :
    (digest : String) (files : Files) {path : Place}
    → path_for_digest digest files ≡ ok path
    → (is_sha256 digest ≡ true)
      × (assert_no_link [] (blob_place digest) files ≡ ok tt)
      × (blob_place digest ≡ path)
unfolding path_for_digest
path_for_digest-eq-ok digest files h =
    let (hex, rest) = guard_then-eq-ok (is_sha256 digest) value_error _ h in
    let (safe, same) = >>-eq-ok (assert_no_link [] (blob_place digest) files) _ rest in
    (hex, safe, ground (arith, same))

-- The path and the content that an operation reads before it compares them.
read-eq-ok {ℓ} :
    {B : Type ℓ} (digest : String) (files : Files) (next : Bytes → Result B) {b : B}
    → (path_for_digest digest files >>= λ path. file_at (lookup path files) >>= next) ≡ ok b
    → (content : Bytes) × (is_sha256 digest ≡ true)
      × (assert_no_link [] (blob_place digest) files ≡ ok tt)
      × (lookup (blob_place digest) files ≡ some (file content))
      × (next content ≡ ok b)
read-eq-ok digest files next h =
    let (path, placed, rest) = >>=-eq-ok (path_for_digest digest files) _ h in
    let (content, found, done) = >>=-eq-ok (file_at (lookup path files)) next rest in
    let (hex, safe, same) = path_for_digest-eq-ok digest files placed in
    (
      content,
      hex,
      safe,
      ap (λ p. lookup p files) same ∙ file_at-eq-ok (lookup path files) found,
      done,
    )

module _ (sha256 : Bytes → String) where
  pub verify-eq-ok :
      (reference : ArtifactRef) (files : Files)
      → verify sha256 reference files ≡ ok tt
      → (content : Bytes) × IsBlob sha256 reference.digest content files
        × (length content ≡ reference.size)
  unfolding verify
  verify-eq-ok reference files h =
      let (content, hex, safe, found, done) = read-eq-ok reference.digest files _ h in
      let whole = read_all-file 1048575 content in
      let same =
        guard-eq-ok (nat_eq (length content) reference.size && sha256 content == reference.digest)
          artifact_corruption
          (ap
              (λ (seen : Bytes × ℕ).
                guard (nat_eq seen.1 reference.size && sha256 seen.0 == reference.digest)
                  artifact_corruption)
              (sym whole)
            ∙ done) in
      (
        content,
        record {
          named = hex;
          safe = safe;
          stored = found;
          hashed = ground (arith, same, eq_iff (sha256 content) reference.digest);
        },
        ground (arith, same),
      )

  pub get_bytes-eq-ok :
      (reference : Reference) (files : Files) (content : Bytes)
      → get_bytes sha256 reference files ≡ ok content
      → IsBlob sha256 (reference_digest reference) content files
        × (length content ≡ expected_size reference content)
  unfolding get_bytes verify_bytes
  get_bytes-eq-ok reference files content h =
      let digest = reference_digest reference in
      let (read, hex, safe, found, done) = read-eq-ok digest files _ h in
      let (same, returned) =
        guard_then-eq-ok
          (nat_eq (length read) (expected_size reference read) && sha256 read == digest)
          artifact_corruption _ done in
      let is : read ≡ content = ground (arith, returned) in
      (
        record {
          named = hex;
          safe = safe;
          stored = found ∙ ap (λ b. some (file b)) is;
          hashed = ap sha256 (sym is) ∙ ground (arith, same, eq_iff (sha256 read) digest);
        },
        rw (sym is) (ground (arith, same)),
      )

  pub IsBlob-get_bytes :
      (reference : Reference) (files : Files) (content : Bytes)
      → IsBlob sha256 (reference_digest reference) content files
      → length content ≡ expected_size reference content
      → get_bytes sha256 reference files ≡ ok content
  unfolding get_bytes verify_bytes path_for_digest
  IsBlob-get_bytes reference files content b size =
      rw (b.named, b.safe, b.stored, b.hashed, size, beq_refl (reference_digest reference))
        (ground (arith, size))

  pub IsBlob-verify :
      (reference : ArtifactRef) (files : Files) (content : Bytes)
      → IsBlob sha256 reference.digest content files
      → length content ≡ reference.size
      → verify sha256 reference files ≡ ok tt
  unfolding verify path_for_digest
  IsBlob-verify reference files content b size =
      rw
        (
          b.named,
          b.safe,
          b.stored,
          read_all-file 1048575 content,
          b.hashed,
          size,
          beq_refl reference.digest,
        )
        (ground (arith, size))
