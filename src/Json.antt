-- ===== src/Json.antt =====
-- JSON values as Python's `json` reads and writes them, and canonical_json, _unique_json_object
-- and _load_canonical_json of packages/control_plane/src/autolean_control_plane/events.py. The
-- standard library's encoder and decoder are a parameter, `Codec`.
pub mod Equality
use auto_lean.Base.{
  ℕ, ◌≡◌, refl, Bool, true, false, not, ◌&&◌, ◌||◌, Option, none, some, List, [], ◌∷◌, String, Eq,
  ◌==◌, string_Eq, Result, ok, err, value_error, projection_error, ◌>>=◌, ◌>>◌, guard, or_raise,
  or_raise-eq-ok, if◌then◌else◌,
}
use auto_lean.Base.Int.{ℤ}

-- `float` holds the number's shortest representation.
mutual
  pub data Json : Type 0 where
    null : Json
    bool : Bool → Json
    int : ℤ → Json
    float : String → Json
    str : String → Json
    arr : Items → Json
    obj : Fields → Json

  pub data Items : Type 0 where
    nil : Items
    cons : Json → Items → Items

  pub data Fields : Type 0 where
    end : Fields
    field : String → Json → Fields → Fields

-- `payload.get(key)`
unfoldable pub get : String → Fields → Option Json
get key end = none
get key (field k v rest) = if k == key then some v else get key rest

unfoldable pub has_key : String → Fields → Bool
has_key key end = false
has_key key (field k v rest) = k == key || has_key key rest

-- The pairs hook raises on an object with a key that occurs twice, at any depth.
unfoldable mutual
  unfolding has_key

  pub unique_keys : Json → Bool
  unique_keys (arr xs) = unique_items xs
  unique_keys (obj fs) = unique_fields fs
  unique_keys _ = true

  pub unique_items : Items → Bool
  unique_items nil = true
  unique_items (cons x xs) = unique_keys x && unique_items xs

  pub unique_fields : Fields → Bool
  unique_fields end = true
  unique_fields (field k v rest) = not (has_key k rest) && unique_keys v && unique_fields rest

-- `json.dumps` with sorted keys and compact separators, where `none` is a ValueError, and
-- `json.loads`, where `none` is a JSONDecodeError and objects keep their pairs.
pub record Codec : Type 1 where
  pub Doc : Type 0
  pub doc_Eq : Eq Doc
  pub dumps : Json → Option Doc
  pub loads : Doc → Option Json

unfoldable pub texts : List String → Items
texts [] = nil
texts (s ∷ rest) = cons (str s) (texts rest)

-- What the code relies on: a list of texts that was encoded is decoded to itself.
pub record DecodesTexts (c : Codec) : Type 0 where
  pub decodes :
      (xs : List String) (d : c.Doc)
      → c.dumps (arr (texts xs)) ≡ some d
      → c.loads d ≡ some (arr (texts xs))

module _ (c : Codec) where
  unfoldable pub canonical_json : Json → Result c.Doc
  canonical_json v = or_raise (c.dumps v) value_error

  abbrev is_encoding : c.Doc → Option c.Doc → Bool
  is_encoding d none = false
  is_encoding d (some e) = c.doc_Eq.beq e d

  unfoldable pub load_canonical_json : c.Doc → Result Json
  unfolding unique_keys
  load_canonical_json d = do
    decoded ← or_raise (c.loads d) projection_error
    guard (unique_keys decoded) projection_error
    guard (is_encoding d (c.dumps decoded)) projection_error
    ok decoded

  abbrev as_object : Json → Result Fields
  as_object (obj fs) = ok fs
  as_object _ = err projection_error

  unfoldable pub load_canonical_json_object : c.Doc → Result Fields
  unfolding load_canonical_json
  load_canonical_json_object d = do decoded ← load_canonical_json d; as_object decoded

  texts_unique : (xs : List String) → unique_items (texts xs) ≡ true
  unfolding unique_items texts
  texts_unique [] = refl
  texts_unique (x ∷ xs) = texts_unique xs

  -- A list of texts that the store wrote is read back.
  pub load_canonical_json-texts :
      DecodesTexts c
      → (xs : List String) (d : c.Doc) → canonical_json (arr (texts xs)) ≡ ok d
      → load_canonical_json d ≡ ok (arr (texts xs))
  unfolding canonical_json load_canonical_json
  load_canonical_json-texts lawful xs d h =
      let encoded = or_raise-eq-ok (c.dumps (arr (texts xs))) value_error h in
      rw (lawful.decodes xs d encoded, texts_unique xs, encoded, (c.doc_Eq.beq_iff d d).1 refl)
