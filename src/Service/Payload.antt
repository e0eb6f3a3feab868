-- ===== src/Service/Payload.antt =====
-- service.py: the readers of event payloads, which refuse what does not have the expected form.
use auto_lean.Base.{
  Option, none, some, List, [], ◌∷◌, String, Result, ok, err, invalid_transition, ◌>>=◌, ◌==◌,
  string_Eq, if◌then◌else◌,
}
use auto_lean.Base.Int.{ℤ}
use auto_lean.Json.{Json, Items, Fields, null, int, str, arr, obj, nil, cons, get}

abbrev pub text_or_refuse : Option Json → Result String
text_or_refuse (some (str s)) = if s == "" then err invalid_transition else ok s
text_or_refuse _ = err invalid_transition

unfoldable pub required_text : Fields → String → Result String
required_text payload key = text_or_refuse (get key payload)

abbrev optional_or_refuse : Option Json → Result (Option String)
optional_or_refuse none = ok none
optional_or_refuse (some null) = ok none
optional_or_refuse (some (str s)) = if s == "" then err invalid_transition else ok (some s)
optional_or_refuse _ = err invalid_transition

unfoldable pub optional_text : Fields → String → Result (Option String)
optional_text payload key = optional_or_refuse (get key payload)

abbrev int_or_refuse : Option Json → Result ℤ
int_or_refuse (some (int n)) = ok n
int_or_refuse _ = err invalid_transition

unfoldable pub required_int : Fields → String → Result ℤ
required_int payload key = int_or_refuse (get key payload)

abbrev object_or_refuse : Option Json → Result Fields
object_or_refuse (some (obj fields)) = ok fields
object_or_refuse _ = err invalid_transition

unfoldable pub required_object : Fields → String → Result Fields
required_object payload key = object_or_refuse (get key payload)

abbrev list_or_refuse : Option Json → Result Items
list_or_refuse (some (arr items)) = ok items
list_or_refuse _ = err invalid_transition

unfoldable pub required_list : Fields → String → Result Items
required_list payload key = list_or_refuse (get key payload)

unfoldable pub text_items : Items → Result (List String)
text_items nil = ok []
text_items (cons (str s) items) =
    let rest = text_items items in
    if s == "" then err invalid_transition else (rest >>= λ texts. ok (s ∷ texts))
text_items (cons _ items) = err invalid_transition

unfoldable pub required_texts : Fields → String → Result (List String)
unfolding required_list text_items
required_texts payload key = do items ← required_list payload key; text_items items
