-- ===== src/Authorization/States.antt =====
-- model_authorization.py: sums over the states of a capability's reservations.
use auto_lean.Base.{
  ℕ, suc, ◌+◌, ◌≡◌, refl, ap, ◌∙◌, Bool-cases, inl, inr, true, false, Option, none, some, [], ◌∷◌,
  ◌++◌, String, ok, lookup, put, arith, string_Eq, ◌==◌, if◌then◌else◌,
}
use auto_lean.Base.Lists.{length, length-append, All}
use auto_lean.Authorization.Ledger.{
  Phase, is_reserved, is_settled, is_abandoned, ReservationState, States, usage_of, add_usage,
  UsageTotals, usage_totals,
}

abbrev or_zero : Option ℕ → ℕ
or_zero none = 0
or_zero (some n) = n

-- What a state takes of the budget: what it reserves, then what it used, and nothing once it is
-- abandoned.
abbrev by_phase : Phase → ℕ → ℕ → ℕ
by_phase is_reserved reserved used = reserved
by_phase is_settled reserved used = used
by_phase is_abandoned reserved used = 0

abbrev pub input_charge : ReservationState → ℕ
input_charge s = by_phase s.phase s.reserved_input_tokens (or_zero s.actual_input_tokens)

abbrev pub output_charge : ReservationState → ℕ
output_charge s = by_phase s.phase s.reserved_output_tokens (or_zero s.actual_output_tokens)

abbrev pub cost_charge : ReservationState → ℕ
cost_charge s = by_phase s.phase s.reserved_cost_microusd (or_zero s.actual_cost_microusd)

unfoldable pub sum_of : (ReservationState → ℕ) → States → ℕ
sum_of charge [] = 0
sum_of charge ((reservation_id, s) ∷ states) = charge s + sum_of charge states

-- The usage of a state is recorded.
abbrev pub IsWhole : String × ReservationState → Type 0
IsWhole entry =
    usage_of entry.1 ≡ ok (input_charge entry.1, output_charge entry.1, cost_charge entry.1)

-- The attempts are numbered in the order of the ledger, from the number after `n`.
abbrev pub Numbered : ℕ → States → Type 0
Numbered n [] = Unit
Numbered n ((reservation_id, s) ∷ states) = (s.attempt_number ≡ suc n) × Numbered (suc n) states

pub add_usage-sums :
    (states : States) (i o c : ℕ)
    → All IsWhole states
    → add_usage states (i, o, c)
      ≡ ok (
        i + sum_of input_charge states,
        o + sum_of output_charge states,
        c + sum_of cost_charge states,
      )
unfolding add_usage sum_of
add_usage-sums [] i o c whole = ap (λ (t : ℕ × ℕ × ℕ). ok t) (ground arith)
add_usage-sums ((reservation_id, s) ∷ states) i o c (here, rest) =
    rw here (add_usage-sums states _ _ _ rest ∙ ap (λ (t : ℕ × ℕ × ℕ). ok t) (ground arith))

abbrev pub totals_of : States → UsageTotals
totals_of states = record {
  attempts = length states;
  input_tokens = sum_of input_charge states;
  output_tokens = sum_of output_charge states;
  total_tokens = sum_of input_charge states + sum_of output_charge states;
  cost_microusd = sum_of cost_charge states;
}

pub usage_totals-sums :
    (states : States) → All IsWhole states → usage_totals states ≡ ok (totals_of states)
unfolding usage_totals
usage_totals-sums states whole = rw (add_usage-sums states 0 0 0 whole) (ground arith)

-- A new key goes to the end.
pub put_fresh :
    (k : String) (v : ReservationState) (states : States)
    → lookup k states ≡ none
    → put k v states ≡ states ++ (k, v) ∷ []
unfolding lookup put
put_fresh k v [] h = refl
put_fresh k v ((j, w) ∷ states) h = ground (arith, h, put_fresh k v states)

sum_of-append :
    (charge : ReservationState → ℕ) (states : States) (k : String) (v : ReservationState)
    → sum_of charge (states ++ (k, v) ∷ []) ≡ sum_of charge states + charge v
unfolding sum_of
sum_of-append charge [] k v = omega arith
sum_of-append charge ((j, w) ∷ states) k v = omega (arith, sum_of-append charge states k v)

pub sum_of-put_fresh :
    (charge : ReservationState → ℕ) (k : String) (v : ReservationState) (states : States)
    → lookup k states ≡ none
    → sum_of charge (put k v states) ≡ sum_of charge states + charge v
sum_of-put_fresh charge k v states h = rw (put_fresh k v states h) (sum_of-append charge states k v)

-- Replacing a state exchanges its charge.
pub sum_of-put :
    (charge : ReservationState → ℕ) (k : String) (v w : ReservationState) (states : States)
    → lookup k states ≡ some w
    → sum_of charge (put k v states) + charge w ≡ sum_of charge states + charge v
unfolding lookup put sum_of
sum_of-put charge k v w [] h = ground (arith, h)
sum_of-put charge k v w ((j, u) ∷ states) h = ground (arith, h, sum_of-put charge k v w states)

pub length-put_fresh :
    (k : String) (v : ReservationState) (states : States)
    → lookup k states ≡ none
    → length (put k v states) ≡ suc (length states)
length-put_fresh k v states h =
    rw (put_fresh k v states h) (omega (arith, length-append states ((k, v) ∷ [])))

pub length-put :
    (k : String) (v w : ReservationState) (states : States)
    → lookup k states ≡ some w
    → length (put k v states) ≡ length states
unfolding lookup put
length-put k v w [] h = ground (arith, h)
length-put k v w ((j, u) ∷ states) h = ground (arith, h, length-put k v w states)

pub All-put :
    (P : String × ReservationState → Type 0) (k : String) (v : ReservationState) (states : States)
    → All P states
    → P (k, v)
    → All P (put k v states)
unfolding put
All-put P k v [] all_p p = (p, tt)
All-put P k v ((j, w) ∷ states) (here, rest) p =
    elim (j == k) as (λ b. All P (if b then (k, v) ∷ states else (j, w) ∷ put k v states)) [
      | true ↦ (p, rest)
      | false ↦ (here, All-put P k v states rest p)
    ]

pub Numbered-append :
    (n : ℕ) (states : States) (k : String) (v : ReservationState)
    → Numbered n states
    → v.attempt_number ≡ suc (n + length states)
    → Numbered n (states ++ (k, v) ∷ [])
Numbered-append n [] k v numbered h = (omega (arith, h), tt)
Numbered-append n ((j, w) ∷ states) k v (here, rest) h =
    (here, Numbered-append (suc n) states k v rest (omega (arith, h)))

pub Numbered-put :
    (n : ℕ) (k : String) (v w : ReservationState) (states : States)
    → lookup k states ≡ some w
    → v.attempt_number ≡ w.attempt_number
    → Numbered n states
    → Numbered n (put k v states)
unfolding lookup put
Numbered-put n k v w [] h same numbered = cc
Numbered-put n k v w ((j, u) ∷ states) h same (here, rest) = elim (Bool-cases (j == k)) [
  | inl e ↦ rw e (ground (arith, h, e, same, here), rest)
  | inr e ↦ rw e (here, Numbered-put (suc n) k v w states (ground (arith, h, e)) same rest)
]
