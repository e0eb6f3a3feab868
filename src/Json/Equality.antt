-- ===== src/Json/Equality.antt =====
-- Equality of JSON values, decided, and a codec whose documents are the values themselves.
use auto_lean.Base.{
  sym, String, eq_iff, ap, ap₂, subst, some, ◌==◌, string_Eq, beq_refl, Bool, true, false, ◌&&◌,
  ◌≡◌, refl, ◌↔◌, arith,
}
use auto_lean.Json.{
  Json, Items, Fields, Codec, DecodesTexts, null, bool, int, float, str, arr, obj, nil, cons, end,
  field,
}
use auto_lean.Base.Int.{int_eq, int_eq_iff}

abbrev pub bool_eq : Bool → Bool → Bool
bool_eq true b = b
bool_eq false true = false
bool_eq false false = true

bool_eq_iff : (a b : Bool) → (bool_eq a b ≡ true) ↔ (a ≡ b)
bool_eq_iff a b = ground arith

unfoldable mutual
  pub json_eq : Json → Json → Bool
  json_eq null null = true
  json_eq (bool a) (bool b) = bool_eq a b
  json_eq (int a) (int b) = int_eq a b
  json_eq (float a) (float b) = a == b
  json_eq (str a) (str b) = a == b
  json_eq (arr a) (arr b) = items_eq a b
  json_eq (obj a) (obj b) = fields_eq a b
  json_eq _ _ = false

  pub items_eq : Items → Items → Bool
  items_eq nil nil = true
  items_eq (cons a xs) (cons b ys) = json_eq a b && items_eq xs ys
  items_eq _ _ = false

  pub fields_eq : Fields → Fields → Bool
  fields_eq end end = true
  fields_eq (field k a xs) (field j b ys) = k == j && json_eq a b && fields_eq xs ys
  fields_eq _ _ = false

and3 : (a b c : Bool) → a && b && c ≡ true → (a ≡ true) × (b ≡ true) × (c ≡ true)
and3 a b c h = ground arith

and2 : (a b : Bool) → a && b ≡ true → (a ≡ true) × (b ≡ true)
and2 a b h = ground arith

field-eq :
    {j k : String} {a b : Json} {xs ys : Fields}
    → j ≡ k
    → a ≡ b
    → xs ≡ ys
    → field j a xs ≡ field k b ys
field-eq p q r = λ i. field (p i) (q i) (r i)

mutual
  unfolding json_eq items_eq fields_eq

  json_eq_sound : (a b : Json) → json_eq a b ≡ true → a ≡ b
  json_eq_sound null null h = refl
  json_eq_sound (bool a) (bool b) h = ap bool ((bool_eq_iff a b).0 h)
  json_eq_sound (int a) (int b) h = ap int ((int_eq_iff a b).0 h)
  json_eq_sound (float a) (float b) h = ap float ((eq_iff a b).0 h)
  json_eq_sound (str a) (str b) h = ap str ((eq_iff a b).0 h)
  json_eq_sound (arr a) (arr b) h = ap arr (items_eq_sound a b h)
  json_eq_sound (obj a) (obj b) h = ap obj (fields_eq_sound a b h)
  json_eq_sound _ _ h = cc

  items_eq_sound : (a b : Items) → items_eq a b ≡ true → a ≡ b
  items_eq_sound nil nil h = refl
  items_eq_sound (cons a xs) (cons b ys) h =
      let (p, q) = and2 (json_eq a b) (items_eq xs ys) h in
      ap₂ cons (json_eq_sound a b p) (items_eq_sound xs ys q)
  items_eq_sound _ _ h = cc

  fields_eq_sound : (a b : Fields) → fields_eq a b ≡ true → a ≡ b
  fields_eq_sound end end h = refl
  fields_eq_sound (field k a xs) (field j b ys) h =
      let (p, q, r) = and3 (k == j) (json_eq a b) (fields_eq xs ys) h in
      field-eq ((eq_iff k j).0 p) (json_eq_sound a b q) (fields_eq_sound xs ys r)
  fields_eq_sound _ _ h = cc

mutual
  unfolding json_eq items_eq fields_eq

  json_eq_refl : (a : Json) → json_eq a a ≡ true
  json_eq_refl null = refl
  json_eq_refl (bool a) = (bool_eq_iff a a).1 refl
  json_eq_refl (int a) = (int_eq_iff a a).1 refl
  json_eq_refl (float a) = beq_refl a
  json_eq_refl (str a) = beq_refl a
  json_eq_refl (arr a) = items_eq_refl a
  json_eq_refl (obj a) = fields_eq_refl a

  items_eq_refl : (a : Items) → items_eq a a ≡ true
  items_eq_refl nil = refl
  items_eq_refl (cons a xs) = rw (json_eq_refl a) (items_eq_refl xs)

  fields_eq_refl : (a : Fields) → fields_eq a a ≡ true
  fields_eq_refl end = refl
  fields_eq_refl (field k a xs) = rw (beq_refl k, json_eq_refl a) (fields_eq_refl xs)

pub json_eq_iff : (a b : Json) → (json_eq a b ≡ true) ↔ (a ≡ b)
json_eq_iff a b = (json_eq_sound a b, λ p. subst (λ x. json_eq a x ≡ true) p (json_eq_refl a))

abbrev pub value_codec : Codec
value_codec = record {
  Doc = Json;
  doc_Eq = record { beq = json_eq; beq_iff = json_eq_iff };
  dumps = λ v. some v;
  loads = λ d. some d;
}

pub value_codec-DecodesTexts : DecodesTexts value_codec
value_codec-DecodesTexts = record { decodes = λ xs d h. sym h }
