-- ===== src/Graphs/Counting.antt =====
-- graphs.py, `_validate_graph`: what the two dictionaries hold, and counting without repetition.
use auto_lean.Base.{
  ℕ, suc, ◌+◌, ◌≤◌, true, false, not, ◌&&◌, List, [], ◌∷◌, String, ◌==◌, string_Eq, eq_iff, ◌≡◌,
  refl, inl, inr, arith, if◌then◌else◌, Bool-cases,
}
use auto_lean.Base.Lists.{length, contains, distinct}
use auto_lean.Graphs.Validation.{Link}

unfoldable pub count : String → List String → ℕ
count t [] = 0
count t (x ∷ xs) = (if x == t then 1 else 0) + count t xs

-- The targets of the edges from a node.
unfoldable pub targets_of : List Link → String → List String
targets_of [] n = []
targets_of (e ∷ edges) n =
    let rest = targets_of edges n in if e.source == n then e.target ∷ rest else rest

-- The number of edges into a node from nodes that are not in a list.
unfoldable pub blockers : List Link → List String → String → ℕ
blockers [] done t = 0
blockers (e ∷ edges) done t =
    (if e.target == t && not (contains e.source done) then 1 else 0) + blockers edges done t

-- Visiting a node unblocks its targets, once for each edge.
pub blockers-cons :
    (edges : List Link) (done : List String) (n t : String)
    → contains n done ≡ false
    → blockers edges done t ≡ blockers edges (n ∷ done) t + count t (targets_of edges n)
unfolding blockers targets_of count contains
blockers-cons [] done n t fresh = refl
blockers-cons (e ∷ edges) done n t fresh =
    ground (arith, blockers-cons edges done n t fresh, eq_iff e.source n, eq_iff n e.source)

abbrev pub HasEnds : List String → Link → Type 0
HasEnds known e = (contains e.source known ≡ true) × (contains e.target known ≡ true)

unfoldable pub erase : String → List String → List String
erase x [] = []
erase x (y ∷ ys) = if y == x then ys else y ∷ erase x ys

length-erase :
    (x : String) (ys : List String) → contains x ys ≡ true → length ys ≡ suc (length (erase x ys))
unfolding erase contains
length-erase x [] h = cc
length-erase x (y ∷ ys) h = ground (arith, length-erase x ys)

contains-erase :
    (x t : String) (ys : List String)
    → contains t ys ≡ true
    → (x == t) ≡ false
    → contains t (erase x ys) ≡ true
unfolding erase contains
contains-erase x t [] h differs = cc
contains-erase x t (y ∷ ys) h differs =
    ground (arith, contains-erase x t ys, eq_iff y x, eq_iff y t, eq_iff x t)

abbrev pub Inside : List String → List String → Type 0
Inside xs ys = (t : String) → contains t xs ≡ true → contains t ys ≡ true

Inside-erase :
    (x : String) (xs ys : List String)
    → contains x xs ≡ false
    → Inside (x ∷ xs) ys
    → Inside xs (erase x ys)
unfolding contains
Inside-erase x xs ys fresh inside t h =
    contains-erase x t ys (inside t (ground arith)) (ground (arith, eq_iff x t))

-- A list without repetitions is no longer than a list that has all its members.
pub distinct-length_le :
    (xs ys : List String) → distinct xs ≡ true → Inside xs ys → length xs ≤ length ys
unfolding distinct contains
distinct-length_le [] ys d inside = omega arith
distinct-length_le (x ∷ xs) ys d inside =
    let fresh : contains x xs ≡ false = ground arith in
    let shorter =
      distinct-length_le xs (erase x ys) (ground arith) (Inside-erase x xs ys fresh inside) in
    let longer = length-erase x ys (inside x (ground (arith, eq_iff x x))) in omega arith

-- When it is as long, it has all members of the other list.
pub distinct-full :
    (xs ys : List String) → distinct xs ≡ true → Inside xs ys → length ys ≤ length xs → Inside ys xs
unfolding distinct contains
distinct-full xs ys d inside long t member = elim (Bool-cases (contains t xs)) [
  | inl e ↦ e
  | inr e ↦
      let too_long =
        distinct-length_le (t ∷ xs) ys (ground arith)
          (λ u h. ground (arith, eq_iff t u, inside u)) in
      absurd (omega arith)
]
