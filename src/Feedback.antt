-- ===== src/Feedback.antt =====
-- packages/control_plane/src/autolean_control_plane/projection.py: the phase feedback that
-- `DashboardProjection` replays from the log. The helpers that read payloads are here. State and
-- Replay have the two loops, Summary what is reported of a bundle's proofs.
pub mod State
pub mod Replay
pub mod Summary
pub mod Changes
pub mod Verdicts
pub mod Available
use auto_lean.Base.{
  ℕ, suc, Bool, true, false, not, ◌&&◌, Option, none, some, List, [], ◌∷◌, String, Result, ok, err,
  projection_error, ◌>>=◌, ◌>>◌, guard, ◌==◌, string_Eq, nat_Eq, if◌then◌else◌,
}
use auto_lean.Base.Int.{pos}
use auto_lean.Base.Text.{codes}
use auto_lean.Json.{Json, Fields, bool, int, str, obj, get}
use auto_lean.Events.{StoredEvent}

-- `value if isinstance(value, str) and value else None`
abbrev pub nonempty : Option Json → Option String
nonempty (some (str s)) = if s == "" then none else some s
nonempty _ = none

unfoldable pub optional_text : Fields → String → Option String
optional_text payload key = nonempty (get key payload)

abbrev pub natural : Option Json → Option ℕ
natural (some (int (pos n))) = some n
natural _ = none

unfoldable pub optional_int : Fields → String → Option ℕ
optional_int payload key = natural (get key payload)

abbrev pub digest_of : Option Json → Option String
digest_of (some (obj artifact)) = optional_text artifact "digest"
digest_of _ = none

unfoldable pub artifact_digest : Fields → String → Option String
artifact_digest payload key = digest_of (get key payload)

-- `value or default`
abbrev pub or_default {ℓ} : {A : Type ℓ} → Option A → A → A
or_default (some value) default = value
or_default none default = default

abbrev pub task_stream : StoredEvent → Option String → Option String
task_stream event (some bundle_id) = some bundle_id
task_stream event none =
    if event.entity_type == "task" && not (event.entity_id == "")
    then some event.entity_id
    else none

unfoldable pub event_task_id : StoredEvent → Option String
event_task_id event = task_stream event (optional_text event.payload "bundle_id")

-- `payload.get(key, text) == text`
abbrev pub absent_or_text : String → Option Json → Bool
absent_or_text text none = true
absent_or_text text (some (str s)) = s == text
absent_or_text text (some _) = false

abbrev pub flag_or_raise : Option Json → Result Bool
flag_or_raise (some (bool accepted)) = ok accepted
flag_or_raise _ = err projection_error

unfoldable pub verification_accepted : StoredEvent → Result Bool
verification_accepted event = do
  guard (absent_or_text "not_a_promotion" (get "promotion_state" event.payload)) projection_error
  guard (absent_or_text "test-only-local" (get "execution_authority_class" event.payload))
      projection_error
  accepted ← flag_or_raise (get "accepted" event.payload)
  guard
      (event.event_type == (if accepted then "verification.accepted" else "verification.rejected"))
      projection_error
  ok accepted

unfoldable pub is_prefix : List ℕ → List ℕ → Bool
is_prefix [] text = true
is_prefix (p ∷ prefix) [] = false
is_prefix (p ∷ prefix) (t ∷ text) = p == t && is_prefix prefix text

-- `event_type.startswith("verification.")`
unfoldable pub is_verification : String → Bool
is_verification event_type = is_prefix (codes "verification.") (codes event_type)
