-- ===== src/Artifacts/Blobs.antt =====
-- artifacts.py: what was put is read back, on any file system that lets it be put.
use auto_lean.Base.{
  ℕ, zero, suc, ◌≡◌, ◌⊎◌, inl, inr, subst, refl, sym, ap, ◌∙◌, Bool, true, false, some, [], ◌∷◌,
  String, Result, ok, guard_then-eq-ok, ◌>>=◌, ◌>>◌, >>=-eq-ok, >>-eq-ok, lookup, arith, string_Eq,
  value_error, if◌then◌else◌,
}
use auto_lean.Base.Lists.{length, list_Eq}
use auto_lean.Base.Int.{ℤ, pos, negsuc}
use auto_lean.Base.Text.{is_sha256}
use auto_lean.Artifacts.{
  Bytes, Place, file, Files, ArtifactRef, by_ref, by_digest, make_artifact_ref, shard,
  path_for_digest, present, make_directories, verify, publish, put_bytes, put_copy, put_file,
  get_bytes,
}
use auto_lean.Artifacts.Chunks.{read_all-file}
use auto_lean.Artifacts.Refusals.{IsBlob, verify-eq-ok, IsBlob-get_bytes}

abbrev pub ref_of : (Bytes → String) → Bytes → ArtifactRef
ref_of sha256 content = record { digest = sha256 content; size = length content }

make_artifact_ref-eq-ok :
    (digest : String) (size : ℕ) {reference : ArtifactRef}
    → make_artifact_ref digest (pos size) "sha256" ≡ ok reference
    → record { digest = digest; size = size } ≡ reference
unfolding make_artifact_ref
make_artifact_ref-eq-ok digest size h =
    let (_, rest) = guard_then-eq-ok (is_sha256 digest) value_error _ h in ground (arith, rest)

module _ (sha256 : Bytes → String) where
  kept_or_published :
      (reference : ArtifactRef) (path : Place) (content : Bytes) (test : Bool) (files : Files)
      (prepared : Result Files) (stored : ArtifactRef) (files' : Files)
      → (if test
          then (verify sha256 reference files >> ok (reference, files))
          else (prepared >>= λ made. publish sha256 reference path content made))
        ≡ ok (stored, files')
      → (reference ≡ stored) × (verify sha256 reference files' ≡ ok tt)
  unfolding publish
  kept_or_published reference path content true files prepared stored files' h =
      let (verified, same) = >>-eq-ok (verify sha256 reference files) _ h in
      (ground (arith, same), ap (verify sha256 reference) (ground (arith, same)) ∙ verified)
  kept_or_published reference path content false files prepared stored files' h =
      let (made, _, rest) = >>=-eq-ok prepared _ h in
      let (verified, same) = >>-eq-ok (verify sha256 reference _) _ rest in
      (ground (arith, same), ap (verify sha256 reference) (ground (arith, same)) ∙ verified)

  -- A `put_bytes` that returns has verified the blob in the state that it leaves.
  pub put_bytes-eq-ok :
      (content : Bytes) (files : Files) (reference : ArtifactRef) (files' : Files)
      → put_bytes sha256 content files ≡ ok (reference, files')
      → (ref_of sha256 content ≡ reference) × (verify sha256 reference files' ≡ ok tt)
  unfolding put_bytes
  put_bytes-eq-ok content files reference files' h =
      let (path, _, rest) = >>=-eq-ok (path_for_digest (sha256 content) files) _ h in
      let (made, named, done) =
        >>=-eq-ok (make_artifact_ref (sha256 content) (pos (length content)) "sha256") _ rest in
      let (same, verified) =
        kept_or_published made path content (present (lookup path files)) files
          (make_directories [] (shard (sha256 content)) files) reference files' done in
      (
        make_artifact_ref-eq-ok (sha256 content) (length content) named ∙ same,
        ap (λ r. verify sha256 r files') (sym same) ∙ verified,
      )

  put_copy-eq-ok :
      (content : Bytes) (files : Files) (reference : ArtifactRef) (files' : Files)
      → put_copy sha256 (content, length content) files ≡ ok (reference, files')
      → (ref_of sha256 content ≡ reference) × (verify sha256 reference files' ≡ ok tt)
  unfolding put_copy
  put_copy-eq-ok content files reference files' h =
      let (made, named, rest) =
        >>=-eq-ok (make_artifact_ref (sha256 content) (pos (length content)) "sha256") _ h in
      let (path, _, next) = >>=-eq-ok (path_for_digest made.digest files) _ rest in
      let (prepared, _, done) = >>=-eq-ok (make_directories [] (shard made.digest) files) _ next in
      let (same, verified) =
        kept_or_published made path content (present (lookup path prepared)) prepared (ok prepared)
          reference files' done in
      (
        make_artifact_ref-eq-ok (sha256 content) (length content) named ∙ same,
        ap (λ r. verify sha256 r files') (sym same) ∙ verified,
      )

  verified-readable :
      (content : Bytes) (reference : ArtifactRef) (files : Files)
      → ((other : Bytes) → sha256 other ≡ sha256 content → other ≡ content)
      → ref_of sha256 content ≡ reference
      → verify sha256 reference files ≡ ok tt
      → (ref_of sha256 content ≡ reference)
        × (get_bytes sha256 (by_ref reference) files ≡ ok content)
        × (get_bytes sha256 (by_digest reference.digest) files ≡ ok content)
  verified-readable content reference files unique same verified =
      let (found, blob, size) = verify-eq-ok sha256 reference files verified in
      let is = unique found (blob.hashed ∙ ap (λ (r : ArtifactRef). r.digest) (sym same)) in
      let blob' = subst (λ b. IsBlob sha256 reference.digest b files) is blob in
      (
        same,
        IsBlob-get_bytes sha256 (by_ref reference) files content blob'
            (ap (λ (r : ArtifactRef). r.size) same),
        IsBlob-get_bytes sha256 (by_digest reference.digest) files content blob' refl,
      )

  -- When `put_bytes` returns a reference, on any file system, and no other bytes have the same
  -- digest, the reference has the digest and the size of the bytes, and `get_bytes` returns the
  -- same bytes for the reference and for its digest. The same holds of `put_file` for the content
  -- of a source that is a plain file, whatever the chunk size.
  pub put_then_get :
      (content : Bytes) (files files' : Files) (reference : ArtifactRef) (chunk_size : ℤ)
      → ((other : Bytes) → sha256 other ≡ sha256 content → other ≡ content)
      → (put_bytes sha256 content files ≡ ok (reference, files'))
        ⊎ (put_file sha256 (some (file content)) chunk_size files ≡ ok (reference, files'))
      → (ref_of sha256 content ≡ reference)
        × (get_bytes sha256 (by_ref reference) files' ≡ ok content)
        × (get_bytes sha256 (by_digest reference.digest) files' ≡ ok content)
  unfolding put_file
  put_then_get content files files' reference chunk_size unique (inl h) =
      let (same, verified) = put_bytes-eq-ok content files reference files' h in
      verified-readable content reference files' unique same verified
  put_then_get content files files' reference (pos (suc n)) unique (inr h) =
      let (prepared, _, rest) = >>=-eq-ok (make_directories [] (".incoming" ∷ []) files) _ h in
      let (same, verified) =
        put_copy-eq-ok content prepared reference files'
          (ap (λ copy. put_copy sha256 copy prepared) (sym (read_all-file n content)) ∙ rest) in
      verified-readable content reference files' unique same verified
  put_then_get content files files' reference (pos zero) unique (inr h) = cc
  put_then_get content files files' reference (negsuc n) unique (inr h) = cc
