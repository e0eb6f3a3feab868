-- ===== src/Base/Sql.antt =====
-- An SQL table with a primary key, as an association list. `insert` fails on a key that is there,
-- as SQLite's `IntegrityError`; `put` is `INSERT ... ON CONFLICT DO UPDATE`.
use mathlib.Core.Path.{◌≡◌, refl}
use mathlib.Core.Option.{Option, none, some}
use mathlib.Core.List.{List, [], ◌∷◌}
use native.Mathlib.Omega.{arith}
use auto_lean.Base.Tests.{Eq, ◌==◌, if◌then◌else◌, beq_refl}
use auto_lean.Base.Outcome.{Result, ok, err, integrity_error}

abbrev pub Table {ℓ κ} : Type ℓ → Type κ → Type (ℓ ⊔ κ)
Table K V = List (K × V)

module _ {ℓ κ} {K : Type ℓ} {V : Type κ} ⦃e : Eq K⦄ where
  unfoldable pub lookup : K → Table K V → Option V
  lookup k [] = none
  lookup k ((j, v) ∷ m) = if j == k then some v else lookup k m

  unfoldable pub put : K → V → Table K V → Table K V
  put k v [] = (k, v) ∷ []
  put k v ((j, w) ∷ m) = if j == k then (k, v) ∷ m else (j, w) ∷ put k v m

  unfoldable pub remove : K → Table K V → Table K V
  remove k [] = []
  remove k ((j, w) ∷ m) = if j == k then remove k m else (j, w) ∷ remove k m

  unfoldable pub insert : K → V → Table K V → Result (Table K V)
  insert k v m = elim (lookup k m) [ none ↦ ok ((k, v) ∷ m) | some w ↦ err integrity_error ]

  pub lookup-put :
      (k j : K) (v : V) (m : Table K V)
      → lookup j (put k v m) ≡ (if k == j then some v else lookup j m)
  unfolding lookup put
  lookup-put k j v [] = refl
  lookup-put k j v ((i, w) ∷ m) =
      ground (arith, e.beq_iff k j, e.beq_iff i k, e.beq_iff i j, lookup-put k j v m)

  pub lookup-put_self : (k : K) (v : V) (m : Table K V) → lookup k (put k v m) ≡ some v
  lookup-put_self k v m = rw (lookup-put, beq_refl k)

  pub lookup-remove :
      (k j : K) (m : Table K V) → lookup j (remove k m) ≡ (if k == j then none else lookup j m)
  unfolding lookup remove
  lookup-remove k j [] = ground arith
  lookup-remove k j ((i, w) ∷ m) =
      ground (arith, e.beq_iff k j, e.beq_iff i k, e.beq_iff i j, lookup-remove k j m)

  -- A successful insert wrote a key that was not there.
  pub insert-eq-ok :
      (k : K) (v : V) (m : Table K V) {m' : Table K V}
      → insert k v m ≡ ok m'
      → (lookup k m ≡ none) × (m' ≡ (k, v) ∷ m)
  unfolding insert
  insert-eq-ok k v m h = ground arith

  pub insert_fresh :
      (k : K) (v : V) (m : Table K V) → lookup k m ≡ none → insert k v m ≡ ok ((k, v) ∷ m)
  unfolding insert
  insert_fresh k v m h = ground arith

  pub lookup-cons_self : (k : K) (v : V) (m : Table K V) → lookup k ((k, v) ∷ m) ≡ some v
  unfolding lookup
  lookup-cons_self k v m = rw (beq_refl k)

  -- A new row under a new key hides no row.
  pub lookup-cons_fresh :
      (k j : K) (v w : V) (m : Table K V)
      → lookup k m ≡ none
      → lookup j m ≡ some w
      → lookup j ((k, v) ∷ m) ≡ some w
  unfolding lookup
  lookup-cons_fresh k j v w m fresh found = ground (arith, e.beq_iff k j)
