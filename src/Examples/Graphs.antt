-- ===== src/Examples/Graphs.antt =====
-- graphs.py on a chain of three nodes and on a cycle.
use auto_lean.Base.{
  true, false, List, [], ◌∷◌, String, ok, err, value_error, ◌≡◌, ◌↔◌, ◌⊎◌, refl, map, string_Eq,
}
use auto_lean.Base.Int.{int_Eq}
use auto_lean.Base.Lists.{contains, distinct}
use auto_lean.Graphs.Validation.{
  Link, add_edge, add_edges, roots, release_target, release_targets, drain, check_order,
  validate_graph,
}
use auto_lean.Graphs.Dictionaries.{AreLinks}
use auto_lean.Graphs.Ending.{validation_ends}
use auto_lean.Graphs.Acyclic.{IsRanked, accepts_iff_IsRanked}

abbrev link : String → String → String → Link
link edge_id source target = record { edge_id = edge_id; source = source; target = target }

abbrev nodes : List String
nodes = "c" ∷ "a" ∷ "b" ∷ []

abbrev chain : List Link
chain = link "1" "a" "b" ∷ link "2" "b" "c" ∷ link "3" "a" "c" ∷ []

abbrev cycle : List Link
cycle = link "1" "a" "b" ∷ link "2" "b" "c" ∷ link "3" "c" "a" ∷ []

chain_accepted : validate_graph nodes chain false ≡ ok tt
unfolding validate_graph check_order drain release_targets release_target roots add_edges add_edge
    distinct contains
chain_accepted = refl

cycle_refused : validate_graph nodes cycle false ≡ err value_error
unfolding validate_graph check_order drain release_targets release_target roots add_edges add_edge
    distinct contains
cycle_refused = refl

cycle_allowed : validate_graph nodes cycle true ≡ ok tt
unfolding validate_graph check_order drain release_targets release_target roots add_edges add_edge
    distinct contains
cycle_allowed = refl

accepts_iff_IsRanked_example : (validate_graph nodes chain false ≡ ok tt) ↔ (
    (distinct nodes ≡ true)
    × (distinct (map (λ (e : Link). e.edge_id) chain) ≡ true)
    × AreLinks nodes chain
    × IsRanked chain)
accepts_iff_IsRanked_example = accepts_iff_IsRanked nodes chain

validation_ends_example :
    (validate_graph nodes cycle false ≡ ok tt)
    ⊎ (validate_graph nodes cycle false ≡ err value_error)
validation_ends_example = validation_ends nodes cycle false
