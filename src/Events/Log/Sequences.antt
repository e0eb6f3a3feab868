-- ===== src/Events/Log/Sequences.antt =====
-- events.py: the sequence numbers of each stream and the positions of the log have no gap.
use mathlib.Core.List.{append-nil}
use auto_lean.Base.{
  ℕ, zero, suc, ◌+◌, ◌≡◌, refl, sym, ◌∙◌, ap, ap₂, false, ◌&&◌, Option, List, [], ◌∷◌, ◌++◌, String,
  put, lookup-put, arith, ◌==◌, string_Eq, pair_Eq, if◌then◌else◌, eq_iff, Bool-cases, inl, inr,
}
use auto_lean.Base.Lists.{length}
use auto_lean.Json.{Codec}
use auto_lean.Events.{
  NewEvent, StoredEvent, Idempotency, AttestationNonce, EventRow, Db, Env, Request,
}
use auto_lean.Events.Read.{current_sequence, in_stream}
use auto_lean.Events.Log.Rows.{AreRowsOf}
use auto_lean.Events.Log.Effect.{Effect}

-- n numbers upwards from a.
unfoldable pub count_from : ℕ → ℕ → List ℕ
count_from a zero = []
count_from a (suc n) = a ∷ count_from (a + 1) n

count_from-append : (a m n : ℕ) → count_from a (m + n) ≡ count_from a m ++ count_from (a + m) n
unfolding count_from
count_from-append a zero n = ap₂ count_from (omega arith) (omega arith)
count_from-append a (suc m) n =
    let shift : suc m + n ≡ suc (m + n) = omega arith in
    let next : count_from (a + 1 + m) n ≡ count_from (a + suc m) n =
      ap (λ x. count_from x n) (omega arith) in
    rw shift (ap (◌∷◌ a) (count_from-append (a + 1) m n ∙ ap (◌++◌ (count_from (a + 1) m)) next))

module _ (c : Codec) where
  -- The sequence numbers of a stream, in the order of insertion.
  unfoldable pub sequences : String → String → List (EventRow c.Doc) → List ℕ
  sequences t i [] = []
  sequences t i (row ∷ rows) =
      let rest = sequences t i rows in
      if in_stream c t i row then row.entity_sequence ∷ rest else rest

  unfoldable pub positions : List (EventRow c.Doc) → List ℕ
  positions [] = []
  positions (row ∷ rows) = row.global_position ∷ positions rows

  -- Each stream counts 1, 2, ... up to its version, and the log up to its last position.
  pub record IsGapFree (db : Db c.Doc) : Type 0 where
    pub streams :
        (t i : String) → sequences t i db.events ≡ count_from 1 (current_sequence c t i db)
    pub log : positions db.events ≡ count_from 1 db.last_position

  sequences-append :
      (t i : String) (rows rows' : List (EventRow c.Doc))
      → sequences t i (rows ++ rows') ≡ sequences t i rows ++ sequences t i rows'
  unfolding sequences
  sequences-append t i [] rows' = refl
  sequences-append t i (row ∷ rows) rows' = ground (arith, sequences-append t i rows rows')

  positions-append :
      (rows rows' : List (EventRow c.Doc))
      → positions (rows ++ rows') ≡ positions rows ++ positions rows'
  unfolding positions
  positions-append [] rows' = refl
  positions-append (row ∷ rows) rows' = ap (◌∷◌ row.global_position) (positions-append rows rows')

  module _ (env : Env) (t i : String) (n : ℕ) where
    sequences-AreRowsOf :
        (offset position : ℕ) (events : List NewEvent) (rows : List (EventRow c.Doc))
        → AreRowsOf c env t i n offset position events rows
        → sequences t i rows ≡ count_from (n + offset) (length events)
    unfolding sequences count_from
    sequences-AreRowsOf offset position [] [] h = refl
    sequences-AreRowsOf offset position [] (row ∷ rows) h = absurd h
    sequences-AreRowsOf offset position (event ∷ events) [] h = absurd h
    sequences-AreRowsOf offset position (event ∷ events) (row ∷ rows) (is, are) =
        let next : count_from (n + (offset + 1)) (length events)
            ≡ count_from (n + offset + 1) (length events) =
          ap (λ x. count_from x (length events)) (omega arith) in
        ground (
          arith,
          is,
          next,
          eq_iff row.entity_type t,
          eq_iff row.entity_id i,
          sequences-AreRowsOf (offset + 1) (position + 1) events rows are,
        )

    sequences_other-AreRowsOf :
        (j k : String) (offset position : ℕ) (events : List NewEvent) (rows : List (EventRow c.Doc))
        → AreRowsOf c env t i n offset position events rows
        → (t == j && i == k) ≡ false
        → sequences j k rows ≡ []
    unfolding sequences
    sequences_other-AreRowsOf j k offset position [] [] h other = refl
    sequences_other-AreRowsOf j k offset position [] (row ∷ rows) h other = absurd h
    sequences_other-AreRowsOf j k offset position (event ∷ events) [] h other = absurd h
    sequences_other-AreRowsOf j k offset position (event ∷ events) (row ∷ rows) (is, are) other =
        ground (
          arith,
          is,
          eq_iff t j,
          eq_iff i k,
          eq_iff row.entity_type j,
          eq_iff row.entity_id k,
          sequences_other-AreRowsOf j k (offset + 1) (position + 1) events rows are other,
        )

    positions-AreRowsOf :
        (offset position : ℕ) (events : List NewEvent) (rows : List (EventRow c.Doc))
        → AreRowsOf c env t i n offset position events rows
        → (positions rows ≡ count_from (position + 1) (length rows)) × (length rows ≡ length events)
    unfolding positions count_from
    positions-AreRowsOf offset position [] [] h = (refl, refl)
    positions-AreRowsOf offset position [] (row ∷ rows) h = absurd h
    positions-AreRowsOf offset position (event ∷ events) [] h = absurd h
    positions-AreRowsOf offset position (event ∷ events) (row ∷ rows) (is, are) =
        let rest = positions-AreRowsOf (offset + 1) (position + 1) events rows are in
        (ap₂ ◌∷◌ is.at_position rest.0, ap suc rest.1)

  pub current_sequence-put :
      (t i j k : String) (n : ℕ) (db db' : Db c.Doc)
      → db'.entity_versions ≡ put (t, i) n db.entity_versions
      → current_sequence c j k db' ≡ (if t == j && i == k then n else current_sequence c j k db)
  unfolding current_sequence
  current_sequence-put t i j k n db db' h =
      ground (arith, h, lookup-put (t, i) (j, k) n db.entity_versions)

  module _ (env : Env) (r : Request) (idempotency : Option Idempotency)
      (attestation : Option AttestationNonce) (db : Db c.Doc) (events : List StoredEvent)
      (db' : Db c.Doc) (e : Effect c env r idempotency attestation db events db')
      (v : IsGapFree db) where
    stream_grows :
        (t i : String) → sequences t i db'.events ≡ count_from 1 (current_sequence c t i db')
    stream_grows t i =
        let n = current_sequence c r.entity_type r.entity_id db in
        let version = current_sequence-put r.entity_type r.entity_id t i _ db db' e.versions in
        let split : sequences t i db'.events ≡ sequences t i db.events ++ sequences t i e.rows =
          rw e.appended (sequences-append t i db.events e.rows) in
        elim (Bool-cases (r.entity_type == t && r.entity_id == i)) [
          | inl own ↦
              let same : (r.entity_type ≡ t) × (r.entity_id ≡ i) =
                ground (arith, eq_iff r.entity_type t, eq_iff r.entity_id i) in
              let added : sequences t i e.rows ≡ count_from (1 + n) (length r.new_events) =
                rw (← same.0, ← same.1)
                  (sequences-AreRowsOf env r.entity_type r.entity_id n 1 db.last_position
                      r.new_events e.rows e.written
                    ∙ ap (λ x. count_from x (length r.new_events)) (omega arith)) in
              let before : sequences t i db.events ≡ count_from 1 n =
                ground (arith, same, v.streams t i) in
              let after : current_sequence c t i db' ≡ n + length r.new_events =
                ground (arith, version) in
              split
              ∙ ap₂ ◌++◌ before added
              ∙ sym (count_from-append 1 n (length r.new_events))
              ∙ ap (count_from 1) (sym after)
          | inr other ↦
              let added =
                sequences_other-AreRowsOf env r.entity_type r.entity_id n t i 1 db.last_position
                  r.new_events e.rows e.written other in
              let after : current_sequence c t i db' ≡ current_sequence c t i db =
                ground (arith, version) in
              split
              ∙ ap (◌++◌ (sequences t i db.events)) added
              ∙ append-nil _
              ∙ v.streams t i
              ∙ ap (count_from 1) (sym after)
        ]

    -- A write that made events keeps the log without gaps.
    pub Effect-IsGapFree : IsGapFree db'
    Effect-IsGapFree =
        let n = current_sequence c r.entity_type r.entity_id db in
        let placed =
          positions-AreRowsOf env r.entity_type r.entity_id n 1 db.last_position r.new_events e.rows
            e.written in
        record {
          streams = stream_grows;
          log =
              rw (e.appended, e.position, positions-append)
                (ap₂ ◌++◌ v.log (placed.0 ∙ ap (λ x. count_from x (length e.rows)) (omega arith))
                  ∙ sym (count_from-append 1 db.last_position (length e.rows)));
        }
