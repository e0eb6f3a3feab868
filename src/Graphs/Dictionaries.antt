-- ===== src/Graphs/Dictionaries.antt =====
-- graphs.py, `_validate_graph`: the dictionaries that the loop over the edges fills, and the first
-- queue.
use mathlib.Core.List.{Memᴰ, append_assoc, append-nil}
use auto_lean.Base.{
  ℕ, suc, ◌+◌, true, false, not, ◌&&◌, List, [], ◌∷◌, ◌++◌, String, ok, value_error, ◌==◌,
  string_Eq, eq_iff, ◌≡◌, refl, sym, ap, ◌∙◌, inl, inr, arith, Bool-cases, guard_then-eq-ok,
  >>=-eq-ok, subst,
}
use auto_lean.Base.Int.{ℤ, pos, int_Eq, int_eq}
use auto_lean.Base.Lists.{contains, distinct}
use auto_lean.Graphs.Validation.{Link, Working, connect, add_edge, add_edges, roots}
use auto_lean.Graphs.Counting.{targets_of, blockers, HasEnds}

-- The end points of every edge are nodes, and differ.
abbrev pub AreLinks : List String → List Link → Type 0
AreLinks known edges =
    (e : Link) → Memᴰ e edges → HasEnds known e × ((e.source == e.target) ≡ false)

-- What the loop adds to the dictionaries.
pub record IsFilled (edges : List Link) (w w' : Working) : Type 0 where
  pub adjacent : (n : String) → w'.adjacency n ≡ w.adjacency n ++ targets_of edges n
  pub blocked :
      (t : String) (k : ℕ) → w.indegree t ≡ pos k → w'.indegree t ≡ pos (k + blockers edges [] t)

connect-IsFilled :
    (e : Link) (edges : List Link) (w w' : Working)
    → IsFilled edges (connect e w) w'
    → IsFilled (e ∷ edges) w w'
unfolding targets_of blockers contains
connect-IsFilled e edges w w' f = record {
  adjacent = λ n. elim (Bool-cases (e.source == n)) [
    | inl same ↦
        let assigned : (connect e w).adjacency n ≡ w.adjacency n ++ e.target ∷ [] =
          ground (arith, eq_iff e.source n, eq_iff n e.source) in
        rw same (
          f.adjacent n
          ∙ ap (λ xs. xs ++ targets_of edges n) assigned
          ∙ append_assoc (w.adjacency n) (e.target ∷ []) (targets_of edges n))
    | inr other ↦
        let kept : (connect e w).adjacency n ≡ w.adjacency n =
          ground (arith, eq_iff e.source n, eq_iff n e.source) in
        rw other (f.adjacent n ∙ ap (λ xs. xs ++ targets_of edges n) kept)
  ];
  blocked = λ t k h. elim (Bool-cases (e.target == t)) [
    | inl same ↦
        let grown : (connect e w).indegree t ≡ pos (suc k) =
          ground (arith, eq_iff e.target t, eq_iff t e.target, h) in
        ground (arith, f.blocked t (suc k) grown)
    | inr other ↦
        let kept : (connect e w).indegree t ≡ pos k =
          ground (arith, eq_iff e.target t, eq_iff t e.target, h) in
        ground (arith, f.blocked t k kept)
  ];
}

empty-IsFilled : (w : Working) → IsFilled [] w w
unfolding targets_of blockers
empty-IsFilled w = record {
  adjacent = λ n. sym (append-nil (w.adjacency n));
  blocked = λ t k h. ground (arith, h);
}

AreLinks-cons :
    (known : List String) (e : Link) (edges : List Link)
    → HasEnds known e
    → (e.source == e.target) ≡ false
    → AreLinks known edges
    → AreLinks known (e ∷ edges)
AreLinks-cons known e edges ends differ links f (Memᴰ.head same) =
    subst (λ e. HasEnds known e × ((e.source == e.target) ≡ false)) (sym same) (ends, differ)
AreLinks-cons known e edges ends differ links f (Memᴰ.tail m) = links f m

pub add_edges-IsFilled :
    (known : List String) (edges : List Link) (w w' : Working)
    → add_edges known edges w ≡ ok w'
    → AreLinks known edges × IsFilled edges w w'
unfolding add_edges add_edge
add_edges-IsFilled known [] w w' h =
    let same : w ≡ w' = cc in (λ e m. elim m [ ], subst (IsFilled [] w) same (empty-IsFilled w))
add_edges-IsFilled known (e ∷ edges) w w' h =
    let (w1, first, rest) = >>=-eq-ok (add_edge known e w) _ h in
    let (ends, h1) =
      guard_then-eq-ok (contains e.source known && contains e.target known) value_error _ first in
    let (differ, h2) = guard_then-eq-ok (not (e.source == e.target)) value_error _ h1 in
    let same : w1 ≡ connect e w = cc in
    let (links, filled) = add_edges-IsFilled known edges w1 w' rest in
    (
      AreLinks-cons known e edges (ground (arith, ends), ground (arith, ends))
          (ground (arith, differ)) links,
      connect-IsFilled e edges w w' (subst (λ w1. IsFilled edges w1 w') same filled),
    )

-- Edges with known and different ends are all added.
pub add_edges_succeeds :
    (known : List String) (edges : List Link) (w : Working)
    → AreLinks known edges
    → (w' : Working) × (add_edges known edges w ≡ ok w')
unfolding add_edges add_edge
add_edges_succeeds known [] w links = (w, refl)
add_edges_succeeds known (e ∷ edges) w links =
    let ((s, t), differ) = links e (Memᴰ.head refl) in
    let (w', rest) = add_edges_succeeds known edges (connect e w) (λ f m. links f (Memᴰ.tail m)) in
    (w', rw (s, t, differ) rest)

pub contains-roots :
    (d : String → ℤ) (nodes : List String) (t : String)
    → contains t (roots d nodes) ≡ (contains t nodes && int_eq (d t) (pos 0))
unfolding roots contains
contains-roots d [] t = refl
contains-roots d (n ∷ nodes) t = ground (arith, contains-roots d nodes t, eq_iff n t)

pub distinct-roots :
    (d : String → ℤ) (nodes : List String) → distinct nodes ≡ true → distinct (roots d nodes) ≡ true
unfolding roots distinct contains
distinct-roots d [] h = refl
distinct-roots d (n ∷ nodes) h = ground (arith, distinct-roots d nodes, contains-roots d nodes n)
