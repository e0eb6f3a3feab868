-- ===== src/Artifacts/Chunks.antt =====
-- artifacts.py: reading a file chunk by chunk reads the whole of it.
use mathlib.Core.List.{append_assoc, append-nil}
use auto_lean.Base.{ℕ, zero, suc, ◌+◌, ◌≤◌, ◌≡◌, refl, sym, ap, ap₂, ◌∙◌, [], ◌∷◌, ◌++◌, arith}
use auto_lean.Base.Lists.{length, length-append}
use auto_lean.Artifacts.{Bytes, read_chunk, read_all}

read_chunk-append : (n : ℕ) (rest : Bytes) → (read_chunk n rest).0 ++ (read_chunk n rest).1 ≡ rest
unfolding read_chunk
read_chunk-append zero rest = refl
read_chunk-append (suc n) [] = refl
read_chunk-append (suc n) (b ∷ rest) = ap (λ r. b ∷ r) (read_chunk-append n rest)

-- What `read_all` returns for a chunk that was read and what it leaves.
after_chunk :
    (fuel n : ℕ) (content : Bytes) (size : ℕ) (b : ℕ) (rest : Bytes)
    → read_all (suc fuel) (suc n) (content, size) (b ∷ rest)
      ≡ read_all fuel
          (suc n)
          (content ++ b ∷ (read_chunk n rest).0, size + suc (length (read_chunk n rest).0))
          (read_chunk n rest).1
unfolding read_all read_chunk
after_chunk fuel n content size b rest = refl

read_all-whole :
    (fuel n : ℕ) (content : Bytes) (size : ℕ) (rest : Bytes)
    → length rest ≤ fuel
    → read_all fuel (suc n) (content, size) rest ≡ (content ++ rest, size + length rest)
unfolding read_all read_chunk
read_all-whole zero n content size [] h =
    ap₂ (λ c s. (c, s)) (sym (append-nil content)) (omega arith)
read_all-whole zero n content size (b ∷ rest) h = ground (arith, h)
read_all-whole (suc fuel) n content size [] h =
    ap₂ (λ c s. (c, s)) (sym (append-nil content)) (omega arith)
read_all-whole (suc fuel) n content size (b ∷ rest) h =
    let chunk = (read_chunk n rest).0 in
    let left = (read_chunk n rest).1 in
    let whole = read_chunk-append n rest in
    let sizes : length chunk + length left ≡ length rest =
      sym (length-append chunk left) ∙ ap length whole in
    after_chunk fuel n content size b rest
    ∙ read_all-whole fuel n (content ++ b ∷ chunk) (size + suc (length chunk)) left
        (omega (arith, sizes, h))
    ∙ ap₂ (λ c s. (c, s)) (append_assoc content (b ∷ chunk) left ∙ ap (λ r. content ++ b ∷ r) whole)
        (omega (arith, sizes))

pub read_all-file :
    (n : ℕ) (content : Bytes)
    → read_all (length content) (suc n) ([], 0) content ≡ (content, length content)
read_all-file n content =
    read_all-whole (length content) n [] 0 content (omega arith)
    ∙ ap (λ s. (content, s)) (omega arith)
