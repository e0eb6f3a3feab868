-- ===== src/Graphs/Acyclic.antt =====
-- graphs.py: `_validate_graph` accepts the graphs whose edges can be ranked, and no others.
use mathlib.Core.List.{Memᴰ}
use auto_lean.Base.{
  ℕ, zero, suc, ◌<◌, true, false, some, List, [], ◌∷◌, String, ok, value_error, ◌==◌, string_Eq,
  eq_iff, ◌≡◌, refl, ap, inl, inr, arith, map, ◌↔◌, if◌then◌else◌, Bool-cases, guard_then-eq-ok,
  >>=-eq-ok, subst, nat_Eq,
}
use auto_lean.Base.Int.{ℤ, pos, int_Eq, int_eq_iff}
use auto_lean.Base.Lists.{length, contains, distinct}
use auto_lean.Graphs.Validation.{
  Link, Working, no_edges, add_edges, roots, drain, check_order, validate_graph,
}
use auto_lean.Graphs.Counting.{
  count, targets_of, blockers, Inside, distinct-length_le, distinct-full,
}
use auto_lean.Graphs.Visits.{IsOrdered, IsVisit, Finished, drain-Finished}
use auto_lean.Graphs.Dictionaries.{
  AreLinks, IsFilled, add_edges-IsFilled, add_edges_succeeds, contains-roots, distinct-roots,
}

-- A rank of the nodes that grows along every edge: no path of edges comes back to its start.
pub record IsRanked (edges : List Link) : Type 0 where
  pub rank : String → ℕ
  pub grows : (e : Link) → Memᴰ e edges → rank e.source < rank e.target

-- The position of a visited node.
position : List String → String → ℕ
position [] t = 0
position (n ∷ done) t = if n == t then length done else position done t

position-lt :
    (done : List String) (t : String) → contains t done ≡ true → position done t < length done
unfolding position contains
position-lt [] t h = cc
position-lt (n ∷ done) t h = ground (arith, position-lt done t)

-- A node that nothing blocks has all its sources among the visited nodes.
blockers-zero :
    (edges : List Link) (done : List String) (e : Link)
    → Memᴰ e edges
    → blockers edges done e.target ≡ 0
    → contains e.source done ≡ true
unfolding blockers
blockers-zero [] done e m h = elim m [ ]
blockers-zero (f ∷ edges) done e (Memᴰ.head same) h = ground (
  arith,
  ap (λ (e : Link). e.source) same,
  ap (λ (e : Link). e.target) same,
  eq_iff f.target e.target,
)
blockers-zero (f ∷ edges) done e (Memᴰ.tail m) h = blockers-zero edges done e m (ground arith)

zero-blockers :
    (edges : List Link) (done : List String) (t : String)
    → ((e : Link) → Memᴰ e edges → e.target ≡ t → contains e.source done ≡ true)
    → blockers edges done t ≡ 0
unfolding blockers
zero-blockers [] done t all = refl
zero-blockers (e ∷ edges) done t all = ground (
  arith,
  zero-blockers edges done t (λ f m. all f (Memᴰ.tail m)),
  all e (Memᴰ.head refl),
  eq_iff e.target t,
)

ordered-position :
    (edges : List Link) (done : List String) (e : Link)
    → Memᴰ e edges
    → IsOrdered edges done
    → distinct done ≡ true
    → contains e.target done ≡ true
    → (contains e.source done ≡ true) × (position done e.source < position done e.target)
unfolding contains distinct position
ordered-position edges [] e m o once h = cc
ordered-position edges (n ∷ done) e m (IsOrdered.visit free o) once h =
    elim (Bool-cases (n == e.target)) [
      | inl same ↦
          let before : contains e.source done ≡ true =
            blockers-zero edges done e m
              (subst (λ t. blockers edges done t ≡ 0) ((eq_iff n e.target).0 same) free) in
          (ground arith, ground (arith, position-lt done e.source before, eq_iff n e.source))
      | inr other ↦
          let (before, less) = ordered-position edges done e m o (ground arith) (ground arith) in
          (ground arith, ground (arith, eq_iff n e.source))
    ]

module _ (nodes : List String) (edges : List Link) where
  known_targets :
      (edges : List Link) → AreLinks nodes edges → (n : String) → Inside (targets_of edges n) nodes
  unfolding targets_of contains
  known_targets [] links n t h = cc
  known_targets (e ∷ edges) links n t h =
      let ((source, target), differ) = links e (Memᴰ.head refl) in
      ground (arith, known_targets edges (λ f m. links f (Memᴰ.tail m)) n t, eq_iff e.target t)

  first-IsVisit :
      (w : Working)
      → distinct nodes ≡ true
      → IsFilled edges no_edges w
      → IsVisit nodes edges [] [] w.indegree (roots w.indegree nodes)
  unfolding contains count distinct
  first-IsVisit w once f = record {
    degrees = λ t. ground (arith, f.blocked t 0 refl);
    settled =
        λ t h. ground (arith, contains-roots w.indegree nodes t, int_eq_iff (w.indegree t) (pos 0));
    complete = λ t h e.
        ground (arith, contains-roots w.indegree nodes t, int_eq_iff (w.indegree t) (pos 0));
    inside = λ t h. ground (arith, contains-roots w.indegree nodes t);
    apart = λ t. ground arith;
    queue_once = distinct-roots w.indegree nodes once;
    done_once = refl;
    ordered = IsOrdered.start;
  }

  -- The loop ends within its fuel.
  pub drain_ends :
      (w : Working)
      → distinct nodes ≡ true
      → AreLinks nodes edges
      → IsFilled edges no_edges w
      → (visited : ℕ) × (drain (length nodes) w.adjacency (w.indegree, roots w.indegree nodes) 0
          ≡ some visited)
        × Finished nodes edges visited
  drain_ends w once links f =
      drain-Finished nodes edges (length nodes) w.adjacency [] w.indegree (roots w.indegree nodes)
        f.adjacent (known_targets edges links) (omega arith) (first-IsVisit w once f)

  full-IsRanked :
      (visited : ℕ)
      → AreLinks nodes edges
      → Finished nodes edges visited
      → visited ≡ length nodes
      → IsRanked edges
  unfolding contains
  full-IsRanked visited links end all =
      let v = end.finished in
      let everywhere =
        distinct-full end.done nodes v.done_once (λ t h. v.inside t (ground arith))
          (omega (arith, all, end.counted)) in
      record {
        rank = position end.done;
        grows = λ e m.
            (ordered-position edges end.done e m v.ordered v.done_once
              (everywhere e.target (links e m).0.1)).1;
      }

  -- With a rank, a node is visited once all nodes of lower rank are.
  ranked_is_visited :
      (done : List String) (indegree : String → ℤ)
      → AreLinks nodes edges
      → (r : IsRanked edges) → IsVisit nodes edges done [] indegree []
      → (k : ℕ) (t : String) → contains t nodes ≡ true
      → r.rank t < k
      → contains t done ≡ true
  unfolding contains count
  ranked_is_visited done indegree links r v zero t h less = absurd (omega arith)
  ranked_is_visited done indegree links r v (suc k) t h less =
      let free : blockers edges done t ≡ 0 = zero-blockers edges done t (λ e m same.
        ranked_is_visited done indegree links r v k e.source (links e m).0.0 (lower e m same)) in
      ground (arith, v.complete t h, v.degrees t)
    where
      lower : (e : Link) → Memᴰ e edges → e.target ≡ t → r.rank e.source < k
      lower e m same =
          let grows = r.grows e m in
          let level : r.rank e.target ≡ r.rank t = ap r.rank same in omega arith

  ranked-full :
      (visited : ℕ)
      → distinct nodes ≡ true
      → AreLinks nodes edges
      → IsRanked edges
      → Finished nodes edges visited
      → visited ≡ length nodes
  unfolding contains
  ranked-full visited once links r end =
      let v = end.finished in
      let inside : Inside end.done nodes = λ t h. v.inside t (ground arith) in
      let covered : Inside nodes end.done = λ t h.
        ranked_is_visited end.done end.indegree links r v (suc (r.rank t)) t h (omega arith) in
      let fewer = distinct-length_le end.done nodes v.done_once inside in
      let more = distinct-length_le nodes end.done once covered in omega (arith, end.counted)

  -- Checking dependencies accepts a graph exactly if the identifiers of nodes and of edges do not
  -- repeat, every edge joins two different nodes of the graph, and the nodes have a rank that
  -- grows along every edge.
  pub accepts_iff_IsRanked : (validate_graph nodes edges false ≡ ok tt) ↔ (
      (distinct nodes ≡ true)
      × (distinct (map (λ (e : Link). e.edge_id) edges) ≡ true)
      × AreLinks nodes edges
      × IsRanked edges)
  unfolding validate_graph check_order
  accepts_iff_IsRanked = (accepted, ranked)
    where
      accepted :
          validate_graph nodes edges false ≡ ok tt
          → (distinct nodes ≡ true)
            × (distinct (map (λ (e : Link). e.edge_id) edges) ≡ true)
            × AreLinks nodes edges
            × IsRanked edges
      accepted h =
          let (once, h1) = guard_then-eq-ok (distinct nodes) value_error _ h in
          let (edges_once, h2) =
            guard_then-eq-ok (distinct (map (λ (e : Link). e.edge_id) edges)) value_error _ h1 in
          let (w, added, checked) = >>=-eq-ok (add_edges nodes edges no_edges) _ h2 in
          let (links, filled) = add_edges-IsFilled nodes edges no_edges w added in
          let (visited, ends, finished) = drain_ends w once links filled in
          let all : visited ≡ length nodes = ground (arith, rw ends at checked) in
          (once, edges_once, links, full-IsRanked visited links finished all)

      ranked :
          (distinct nodes ≡ true)
            × (distinct (map (λ (e : Link). e.edge_id) edges) ≡ true)
            × AreLinks nodes edges
            × IsRanked edges
          → validate_graph nodes edges false ≡ ok tt
      ranked (once, edges_once, links, r) =
          let (w, added) = add_edges_succeeds nodes edges no_edges links in
          let (links', filled) = add_edges-IsFilled nodes edges no_edges w added in
          let (visited, ends, finished) = drain_ends w once links filled in
          let all = ranked-full visited once links r finished in
          rw (once, edges_once, added, ends, all) (ground arith)
