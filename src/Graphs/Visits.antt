-- ===== src/Graphs/Visits.antt =====
-- graphs.py, `_validate_graph`: the invariant of the loop over the queue, and how it ends.
use auto_lean.Base.{
  ℕ, zero, suc, ◌+◌, ◌≤◌, true, false, ◌&&◌, ◌||◌, some, List, [], ◌∷◌, ◌++◌, String, string_Eq,
  eq_iff, ◌≡◌, refl, ap₂, ◌∙◌, arith,
}
use auto_lean.Base.Int.{ℤ, pos, int_Eq, int_eq}
use auto_lean.Base.Lists.{length, contains, distinct, contains-append, distinct-append}
use auto_lean.Graphs.Validation.{Link, subtract_one, assign, release_target, release_targets, drain}
use auto_lean.Graphs.Counting.{
  count, targets_of, blockers, blockers-cons, Inside, distinct-length_le,
}

-- The visited nodes, the last first: the sources of the edges into each were visited before it.
pub data IsOrdered (edges : List Link) : List String → Type 0 where
  start : IsOrdered edges []
  visit :
      {n : String} {done : List String}
      → blockers edges done n ≡ 0
      → IsOrdered edges done
      → IsOrdered edges (n ∷ done)

-- Between two rounds of the inner loop: `left` are the targets that are still to be released.
pub record IsVisit (nodes : List String) (edges : List Link) (done left : List String)
    (indegree : String → ℤ) (queue : List String) : Type 0 where
  pub degrees : (t : String) → indegree t ≡ pos (blockers edges done t + count t left)
  pub settled : (t : String) → (contains t queue || contains t done) ≡ true → indegree t ≡ pos 0
  pub complete :
      (t : String)
      → contains t nodes ≡ true
      → indegree t ≡ pos 0
      → (contains t queue || contains t done) ≡ true
  pub inside : (t : String) → (contains t queue || contains t done) ≡ true → contains t nodes ≡ true
  pub apart : (t : String) → (contains t queue && contains t done) ≡ false
  pub queue_once : distinct queue ≡ true
  pub done_once : distinct done ≡ true
  pub ordered : IsOrdered edges done

module _ (nodes : List String) (edges : List Link) where
  -- The next node leaves the queue.
  pop-IsVisit :
      (done : List String) (indegree : String → ℤ) (n : String) (queue : List String)
      → IsVisit nodes edges done [] indegree (n ∷ queue)
      → IsVisit nodes edges (n ∷ done) (targets_of edges n) indegree queue
  unfolding contains distinct count
  pop-IsVisit done indegree n queue v =
      let fresh : contains n done ≡ false = ground (arith, v.apart n, eq_iff n n) in
      let free : blockers edges done n ≡ 0 = ground (arith, v.degrees n, v.settled n, eq_iff n n) in
      record {
        degrees = λ t. ground (arith, v.degrees t, blockers-cons edges done n t fresh);
        settled = λ t h. ground (arith, v.settled t);
        complete = λ t h e. ground (arith, v.complete t);
        inside = λ t h. ground (arith, v.inside t);
        apart = λ t. ground (arith, v.apart t, v.queue_once, eq_iff n t);
        queue_once = ground (arith, v.queue_once);
        done_once = ground (arith, v.done_once);
        ordered = IsOrdered.visit free v.ordered;
      }

  -- A released target that other nodes still block.
  blocked-IsVisit :
      (done : List String) (target : String) (left : List String) (indegree : String → ℤ)
      (queue : List String) (k : ℕ)
      → indegree target ≡ pos (suc (suc k))
      → IsVisit nodes edges done (target ∷ left) indegree queue
      → IsVisit nodes edges done left (assign target (pos (suc k)) indegree) queue
  unfolding count
  blocked-IsVisit done target left indegree queue k degree v = record {
    degrees = λ t. ground (arith, v.degrees t, degree, eq_iff t target, eq_iff target t);
    settled = λ t h. ground (arith, v.settled t, degree, eq_iff t target);
    complete = λ t h e. ground (arith, v.complete t, degree, eq_iff t target);
    inside = v.inside;
    apart = v.apart;
    queue_once = v.queue_once;
    done_once = v.done_once;
    ordered = v.ordered;
  }

  -- A released target that nothing blocks any more joins the queue.
  ready-IsVisit :
      (done : List String) (target : String) (left : List String) (indegree : String → ℤ)
      (queue : List String)
      → contains target nodes ≡ true
      → indegree target ≡ pos 1
      → IsVisit nodes edges done (target ∷ left) indegree queue
      → IsVisit nodes edges done left (assign target (pos 0) indegree) (queue ++ target ∷ [])
  unfolding count
  ready-IsVisit done target left indegree queue known degree v =
      let waiting : (contains target queue || contains target done) ≡ false =
        ground (arith, v.settled target, degree) in
      record {
        degrees = λ t. ground (arith, v.degrees t, degree, eq_iff t target, eq_iff target t);
        settled = λ t h.
            ground (
              arith,
              v.settled t,
              contains-append t queue target,
              eq_iff t target,
              eq_iff target t,
            );
        complete = λ t h e.
            ground (
              arith,
              v.complete t,
              contains-append t queue target,
              eq_iff t target,
              eq_iff target t,
            );
        inside = λ t h. ground (arith, v.inside t, contains-append t queue target, eq_iff target t);
        apart = λ t.
            ground (arith, v.apart t, contains-append t queue target, eq_iff target t, waiting);
        queue_once = distinct-append queue target v.queue_once (ground arith);
        done_once = v.done_once;
        ordered = v.ordered;
      }

  still_blocked : (k : ℕ) → int_eq (subtract_one (pos (suc (suc k)))) (pos 0) ≡ false
  still_blocked k = ground arith

  -- One target is released.
  release-IsVisit :
      (done : List String) (target : String) (left : List String) (indegree : String → ℤ)
      (queue : List String)
      → contains target nodes ≡ true
      → IsVisit nodes edges done (target ∷ left) indegree queue
      → IsVisit nodes edges done left
          (release_target target (indegree, queue)).0
          (release_target target (indegree, queue)).1
  unfolding release_target count
  release-IsVisit done target left indegree queue known v =
      go (blockers edges done target + count target left)
        (ground (arith, v.degrees target, eq_iff target target))
    where
      go :
          (k : ℕ)
          → indegree target ≡ pos (suc k)
          → IsVisit nodes edges done left
              (release_target target (indegree, queue)).0
              (release_target target (indegree, queue)).1
      go zero degree = rw degree (ready-IsVisit done target left indegree queue known degree v)
      go (suc k) degree =
          rw (degree, still_blocked k) (blocked-IsVisit done target left indegree queue k degree v)

  releases-IsVisit :
      (done left : List String) (s : (String → ℤ) × List String)
      → Inside left nodes
      → IsVisit nodes edges done left s.0 s.1
      → IsVisit nodes edges done [] (release_targets left s).0 (release_targets left s).1
  unfolding release_targets contains
  releases-IsVisit done [] s known v = v
  releases-IsVisit done (target ∷ left) s known v =
      releases-IsVisit done left (release_target target s) (λ t h. known t (ground arith))
        (release-IsVisit done target left s.0 s.1
          (known target (ground (arith, eq_iff target target))) v)

  -- The outer loop visits nodes until the queue is empty.
  pub record Finished (visited : ℕ) : Type 0 where
    pub done : List String
    pub indegree : String → ℤ
    pub finished : IsVisit nodes edges done [] indegree []
    pub counted : visited ≡ length done

  next_once :
      (done : List String) (indegree : String → ℤ) (n : String) (queue : List String)
      → IsVisit nodes edges done [] indegree (n ∷ queue)
      → distinct (n ∷ done) ≡ true
  unfolding contains distinct
  next_once done indegree n queue v = ground (arith, v.apart n, v.done_once, eq_iff n n)

  next-Inside :
      (done : List String) (indegree : String → ℤ) (n : String) (queue : List String)
      → IsVisit nodes edges done [] indegree (n ∷ queue)
      → Inside (n ∷ done) nodes
  unfolding contains
  next-Inside done indegree n queue v t h = ground (arith, v.inside t, eq_iff n t)

  pub drain-Finished :
      (fuel : ℕ) (adjacency : String → List String) (done : List String) (indegree : String → ℤ)
      (queue : List String)
      → ((n : String) → adjacency n ≡ targets_of edges n)
      → ((n : String) → Inside (targets_of edges n) nodes)
      → length nodes ≤ fuel + length done
      → IsVisit nodes edges done [] indegree queue
      → (visited : ℕ) × (drain fuel adjacency (indegree, queue) (length done) ≡ some visited)
        × Finished visited
  unfolding drain
  drain-Finished fuel adjacency done indegree [] adjacent known enough v =
      (length done, refl, record { done = done; indegree = indegree; finished = v; counted = refl })
  drain-Finished zero adjacency done indegree (n ∷ queue) adjacent known enough v =
      let longer =
        distinct-length_le (n ∷ done) nodes (next_once done indegree n queue v)
          (next-Inside done indegree n queue v) in
      absurd (omega arith)
  drain-Finished (suc fuel) adjacency done indegree (n ∷ queue) adjacent known enough v =
      let next =
        releases-IsVisit (n ∷ done) (targets_of edges n) (indegree, queue) (known n)
          (pop-IsVisit done indegree n queue v) in
      let (visited, same, finished) =
        drain-Finished fuel adjacency (n ∷ done) _ _ adjacent known (omega arith) next in
      let one_more : length done + 1 ≡ suc (length done) = omega arith in
      (
        visited,
        ap₂ (λ left k. drain fuel adjacency (release_targets left (indegree, queue)) k) (adjacent n)
              one_more
            ∙ same,
        finished,
      )
