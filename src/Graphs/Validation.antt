-- ===== src/Graphs/Validation.antt =====
-- graphs.py: `_validate_graph`. The dictionaries are functions; those that the code fills with
-- `dict.fromkeys` and `defaultdict` have a value at every key that it reads.
use auto_lean.Base.{
  ℕ, zero, suc, ◌+◌, Bool, not, ◌&&◌, Option, none, some, List, [], ◌∷◌, ◌++◌, String, Result, ok,
  err, value_error, runtime_error, ◌>>=◌, ◌>>◌, guard, map, ◌==◌, string_Eq, nat_Eq, if◌then◌else◌,
}
use auto_lean.Base.Int.{ℤ, pos, negsuc, int_Eq}
use auto_lean.Base.Lists.{length, contains, distinct}

pub record Link : Type 0 where
  pub edge_id : String
  pub source : String
  pub target : String

pub record Working : Type 0 where
  pub adjacency : String → List String
  pub indegree : String → ℤ

-- `values[key] = value`
abbrev pub assign {ℓ} : {A : Type ℓ} → String → A → (String → A) → String → A
assign key value values k = if k == key then value else values k

abbrev pub add_one : ℤ → ℤ
add_one (pos n) = pos (suc n)
add_one (negsuc zero) = pos 0
add_one (negsuc (suc n)) = negsuc n

abbrev pub subtract_one : ℤ → ℤ
subtract_one (pos zero) = negsuc 0
subtract_one (pos (suc n)) = pos n
subtract_one (negsuc n) = negsuc (suc n)

abbrev pub no_edges : Working
no_edges = record { adjacency = λ k. []; indegree = λ k. pos 0 }

-- The two dictionaries after an edge.
abbrev pub connect : Link → Working → Working
connect edge w = record {
  adjacency = assign edge.source (w.adjacency edge.source ++ edge.target ∷ []) w.adjacency;
  indegree = assign edge.target (add_one (w.indegree edge.target)) w.indegree;
}

-- One round of the loop over the edges.
unfoldable pub add_edge : List String → Link → Working → Result Working
add_edge known edge w = do
  guard (contains edge.source known && contains edge.target known) value_error
  guard (not (edge.source == edge.target)) value_error
  ok (connect edge w)

unfoldable pub add_edges : List String → List Link → Working → Result Working
add_edges known [] w = ok w
add_edges known (edge ∷ edges) w = do w' ← add_edge known edge w; add_edges known edges w'

-- The nodes of degree 0 in the order of the dictionary, which is that of the nodes.
unfoldable pub roots : (String → ℤ) → List String → List String
roots indegree [] = []
roots indegree (n ∷ nodes) =
    let rest = roots indegree nodes in if indegree n == pos 0 then n ∷ rest else rest

-- The inner loop: the degrees and the queue after one target, and after all.
unfoldable pub release_target : String → (String → ℤ) × List String → (String → ℤ) × List String
release_target target (indegree, queue) =
    let degree = subtract_one (indegree target) in
    (assign target degree indegree, if degree == pos 0 then queue ++ target ∷ [] else queue)

unfoldable pub release_targets :
    List String → (String → ℤ) × List String → (String → ℤ) × List String
release_targets [] s = s
release_targets (target ∷ targets) s = release_targets targets (release_target target s)

-- The outer loop on fuel, and the number of visited nodes.
unfoldable pub drain : ℕ → (String → List String) → (String → ℤ) × List String → ℕ → Option ℕ
drain fuel adjacency (indegree, []) visited = some visited
drain zero adjacency (indegree, node ∷ queue) visited = none
drain (suc fuel) adjacency (indegree, node ∷ queue) visited =
    drain fuel adjacency (release_targets (adjacency node) (indegree, queue)) (visited + 1)

-- The last comparison. A run without enough fuel, which is no run of the code, gives its own error.
abbrev pub check_visited : ℕ → Option ℕ → Result (Unit {0})
check_visited nodes none = err runtime_error
check_visited nodes (some visited) = guard (visited == nodes) value_error

-- Each round of the outer loop visits a node of its own: their number is enough fuel.
unfoldable pub check_order : List String → Working → Result (Unit {0})
check_order node_ids w =
    check_visited (length node_ids)
      (drain (length node_ids) w.adjacency (w.indegree, roots w.indegree node_ids) 0)

unfoldable pub validate_graph : List String → List Link → Bool → Result (Unit {0})
validate_graph node_ids edges allow_cycles = do
  guard (distinct node_ids) value_error
  guard (distinct (map (λ e. e.edge_id) edges)) value_error
  w ← add_edges node_ids edges no_edges
  if allow_cycles then ok tt else check_order node_ids w
