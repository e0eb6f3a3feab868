-- ===== src/Artifacts/Contract.antt =====
-- artifacts.py: a store that only its own operations write is a map from digests to contents.
use auto_lean.Base.{
  ◌+◌, ◌≤◌, ◌<◌, ◌≡◌, ◌⊎◌, inl, inr, refl, sym, ap, ◌∙◌, true, false, Option, none, some,
  Option-cases, List, [], ◌∷◌, ◌++◌, String, Result, ok, err, or_raise, lookup, put, lookup-put,
  arith, string_Eq, artifact_not_found, value_error,
}
use auto_lean.Base.Lists.{length, length-append, list_Eq, list_eq_iff}
use auto_lean.Base.Text.{is_sha256}
use auto_lean.Artifacts.{
  Bytes, Place, Entry, directory, file, Files, by_digest, is_link, is_plain_file, assert_no_link,
  blob_place, shard, path_for_digest, make_directory, make_directories, get_bytes,
}
use auto_lean.Artifacts.Refusals.{IsBlob-get_bytes}

-- Every entry is a directory of depth three at most, or a blob under the digest of its content.
abbrev IsOwn : (Bytes → String) → Place → Entry → Type 0
IsOwn sha256 path entry =
    ((length path < 4) × (entry ≡ directory))
    ⊎ ((content : Bytes) × (path ≡ blob_place (sha256 content)) × (entry ≡ file content))

pub record IsStore (sha256 : Bytes → String) (files : Files) : Type 0 where
  pub own :
      (path : Place) (entry : Entry) → lookup path files ≡ some entry → IsOwn sha256 path entry

-- What the store holds under a digest.
abbrev content_at : Option Entry → Option Bytes
content_at (some (file content)) = some content
content_at _ = none

abbrev pub contents : Files → String → Option Bytes
contents files digest = content_at (lookup (blob_place digest) files)

pub length-shard : (digest : String) → length (shard digest) ≡ 3
unfolding shard
length-shard digest = refl

pub length-blob_place : (digest : String) → length (blob_place digest) ≡ 4
unfolding blob_place shard
length-blob_place digest = refl

last_name : Place → String
last_name [] = ""
last_name (name ∷ []) = name
last_name (name ∷ next ∷ names) = last_name (next ∷ names)

pub blob_place-injective : (a b : String) → blob_place a ≡ blob_place b → a ≡ b
unfolding blob_place shard last_name
blob_place-injective a b h = ap last_name h

module _ (sha256 : Bytes → String) where
  no_link :
      (files : Files) (path : Place) → IsStore sha256 files → is_link (lookup path files) ≡ false
  no_link files path v = elim (Option-cases (lookup path files)) [
    | inl e ↦ rw e refl
    | inr (entry, e) ↦ rw e (ground (arith, v.own path entry e))
  ]

  kept_directory :
      (files : Files) (current : Place) (entry : Entry)
      → IsStore sha256 files
      → length current < 4
      → lookup current files ≡ some entry
      → entry ≡ directory
  kept_directory files current entry v short e = elim (v.own current entry e) [
    | inl (_, is) ↦ is
    | inr (content, at, _) ↦
        absurd (omega (arith, short, ap length at, length-blob_place (sha256 content)))
  ]

  no_file :
      (files : Files) (path : Place)
      → IsStore sha256 files
      → length path < 4
      → is_plain_file (lookup path files) ≡ false
  no_file files path v short = elim (Option-cases (lookup path files)) [
    | inl e ↦ rw e refl
    | inr (entry, e) ↦ rw (e, kept_directory files path entry v short e) refl
  ]

  IsStore-assert_no_link :
      (files : Files) (current : Place) (parts : List String)
      → IsStore sha256 files
      → length current + length parts ≤ 4
      → assert_no_link current parts files ≡ ok tt
  unfolding assert_no_link
  IsStore-assert_no_link files current [] v short = rw (no_link files current v) refl
  IsStore-assert_no_link files current (part ∷ parts) v short =
      rw (no_link files current v, no_file files current v (omega (arith, short)))
        (IsStore-assert_no_link files (current ++ part ∷ []) parts v
          (omega (arith, short, length-append current (part ∷ []))))

  pub IsStore-blob_place :
      (files : Files) (digest : String)
      → IsStore sha256 files
      → assert_no_link [] (blob_place digest) files ≡ ok tt
  IsStore-blob_place files digest v =
      IsStore-assert_no_link files [] (blob_place digest) v
        (omega (arith, length-blob_place digest))

  -- The directories were made, and the blobs are as they were.
  unfoldable pub Prepared : Files → Result Files → Type 0
  Prepared files made =
      (files' : Files) × (made ≡ ok files')
      × IsStore sha256 files'
      × ((path : Place) → 4 ≤ length path → lookup path files' ≡ lookup path files)

  make_directory-Prepared :
      (files : Files) (current : Place)
      → IsStore sha256 files
      → length current < 4
      → Prepared files (make_directory current files (lookup current files))
  unfolding Prepared
  make_directory-Prepared files current v short = elim (Option-cases (lookup current files)) [
    | inl e ↦ (
      put current directory files,
      rw e refl,
      record {
        own = λ path entry h. ground (
          arith,
          short,
          lookup-put current path directory files,
          list_eq_iff current path,
          v.own path entry,
        );
      },
      λ path long.
          ground
            (arith, short, long, lookup-put current path directory files, list_eq_iff current path),
    )
    | inr (entry, e) ↦
        (files, rw (e, kept_directory files current entry v short e) refl, v, λ path long. refl)
  ]

  pub make_directories-Prepared :
      (files : Files) (current : Place) (parts : List String)
      → IsStore sha256 files
      → length current + length parts < 4
      → Prepared files (make_directories current parts files)
  unfolding Prepared make_directories
  make_directories-Prepared files current [] v short =
      make_directory-Prepared files current v (omega (arith, short))
  make_directories-Prepared files current (part ∷ parts) v short =
      let (made, done, v', same) = make_directory-Prepared files current v (omega (arith, short)) in
      let (all_made, rest, v'', same') =
        make_directories-Prepared made (current ++ part ∷ []) parts v'
          (omega (arith, short, length-append current (part ∷ []))) in
      (all_made, rw done rest, v'', λ path long. same' path long ∙ same path long)

  pub IsStore-path_for_digest :
      (files : Files) (digest : String)
      → IsStore sha256 files
      → is_sha256 digest ≡ true
      → path_for_digest digest files ≡ ok (blob_place digest)
  unfolding path_for_digest
  IsStore-path_for_digest files digest v hex = rw (hex, IsStore-blob_place files digest v) refl

  -- What is found at the place of a digest is a file whose content has that digest.
  pub at_place :
      (files : Files) (digest : String) (entry : Entry)
      → IsStore sha256 files
      → lookup (blob_place digest) files ≡ some entry
      → (content : Bytes) × (sha256 content ≡ digest) × (entry ≡ file content)
  at_place files digest entry v e = elim (v.own (blob_place digest) entry e) [
    | inl (short, _) ↦ absurd (omega (arith, short, length-blob_place digest))
    | inr (content, at, is) ↦ (content, sym (blob_place-injective digest (sha256 content) at), is)
  ]

  -- `get_bytes` on a store reads the map.
  pub get_bytes-contents :
      (files : Files) (digest : String)
      → IsStore sha256 files
      → is_sha256 digest ≡ true
      → get_bytes sha256 (by_digest digest) files
        ≡ or_raise (contents files digest) artifact_not_found
  unfolding get_bytes
  get_bytes-contents files digest v hex = elim (Option-cases (lookup (blob_place digest) files)) [
    | inl e ↦ rw (IsStore-path_for_digest files digest v hex, e) refl
    | inr (entry, e) ↦
        let (content, hashed, is) = at_place files digest entry v e in
        IsBlob-get_bytes sha256 (by_digest digest) files content
          (record {
            named = hex;
            safe = IsStore-blob_place files digest v;
            stored = e ∙ ap some is;
            hashed = hashed;
          })
          refl
        ∙ rw (e, is) refl
  ]

  pub get_bytes-unnamed :
      (files : Files) (digest : String)
      → is_sha256 digest ≡ false
      → get_bytes sha256 (by_digest digest) files ≡ err value_error
  unfolding get_bytes path_for_digest
  get_bytes-unnamed files digest off = rw off refl
