-- ===== src/Graphs/Ending.antt =====
-- graphs.py: `_validate_graph` always ends.
use auto_lean.Base.{
  Bool, true, false, ◌&&◌, List, [], ◌∷◌, String, ok, err, value_error, guard, ◌==◌, string_Eq,
  nat_Eq, nat_eq, ◌≡◌, refl, ◌⊎◌, inl, inr, map, Bool-cases, if◌then◌else◌,
}
use auto_lean.Base.Int.{int_Eq}
use auto_lean.Base.Lists.{length, contains, distinct}
use auto_lean.Graphs.Validation.{
  Link, Working, connect, no_edges, add_edge, add_edges, check_order, validate_graph,
}
use auto_lean.Graphs.Dictionaries.{add_edges-IsFilled}
use auto_lean.Graphs.Acyclic.{drain_ends}

guard-cases :
    (test : Bool) → (guard test value_error ≡ ok tt) ⊎ (guard test value_error ≡ err value_error)
guard-cases true = inl refl
guard-cases false = inr refl

add_edges-cases :
    (known : List String) (edges : List Link) (w : Working)
    → ((w' : Working) × (add_edges known edges w ≡ ok w'))
      ⊎ (add_edges known edges w ≡ err value_error)
unfolding add_edges add_edge
add_edges-cases known [] w = inl (w, refl)
add_edges-cases known (e ∷ edges) w =
    elim (Bool-cases (contains e.source known && contains e.target known)) [
      | inr unknown ↦ inr (rw unknown refl)
      | inl ends ↦ elim (Bool-cases (e.source == e.target)) [
        | inl same ↦ inr (rw (ends, same) refl)
        | inr differ ↦ rw (ends, differ) (add_edges-cases known edges (connect e w))
      ]
    ]

-- For all nodes and edges the validation returns or raises a ValueError: the number of nodes is
-- enough fuel for its loop.
pub validation_ends :
    (nodes : List String) (edges : List Link) (allow_cycles : Bool)
    → (validate_graph nodes edges allow_cycles ≡ ok tt)
      ⊎ (validate_graph nodes edges allow_cycles ≡ err value_error)
unfolding validate_graph check_order
validation_ends nodes edges allow_cycles = elim (Bool-cases (distinct nodes)) [
  | inr repeated ↦ inr (rw repeated refl)
  | inl once ↦ elim (Bool-cases (distinct (map (λ (e : Link). e.edge_id) edges))) [
    | inr repeated ↦ inr (rw (once, repeated) refl)
    | inl edges_once ↦ elim (add_edges-cases nodes edges no_edges) [
      | inr refused ↦ inr (rw (once, edges_once, refused) refl)
      | inl (w, added) ↦ rw (once, edges_once, added) (ordered w added once allow_cycles)
    ]
  ]
]
  where
    ordered :
        (w : Working)
        → add_edges nodes edges no_edges ≡ ok w
        → distinct nodes ≡ true
        → (allow : Bool)
        → ((if allow then ok tt else check_order nodes w) ≡ ok tt)
          ⊎ ((if allow then ok tt else check_order nodes w) ≡ err value_error)
    ordered w added once true = inl refl
    ordered w added once false =
        let (links, filled) = add_edges-IsFilled nodes edges no_edges w added in
        let (visited, ends, finished) = drain_ends nodes edges w once links filled in
        rw ends (guard-cases (nat_eq visited (length nodes)))
