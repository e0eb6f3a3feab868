-- ===== src/Base/Text.antt =====
-- Tests on identifiers: `not value.strip()`, and the two regular expressions for digests and
-- nonces.
use Prim.Native.Nat.{ℕ}
use Prim.Native.Char.{code}
use Prim.Native.String.{String}
use mathlib.Core.Bool.{Bool, ◌&&◌, ◌||◌}
use mathlib.Core.List.{List, [], ◌∷◌}
use auto_lean.Base.Tests.{leb, nat_eq}
use auto_lean.Base.Lists.{length, all}

abbrev pub codes : String → List ℕ
codes String.[] = []
codes (String.◌∷◌ c s) = code c ∷ codes s

abbrev in_range : ℕ → ℕ → ℕ → Bool
in_range lo hi c = leb lo c && leb c hi

-- Python's `str.isspace` for one character.
unfoldable pub is_space : ℕ → Bool
is_space c =
    in_range 9 13 c
    || in_range 28 32 c
    || nat_eq c 0x85
    || nat_eq c 0xa0
    || nat_eq c 0x1680
    || in_range 0x2000 0x200a c
    || in_range 0x2028 0x2029 c
    || nat_eq c 0x202f
    || nat_eq c 0x205f
    || nat_eq c 0x3000

-- `not value.strip()`
unfoldable pub is_blank : String → Bool
unfolding is_space all
is_blank s = all is_space (codes s)

-- `^[0-9a-f]{64}$` under `fullmatch`
unfoldable pub is_sha256 : String → Bool
unfolding all
is_sha256 s =
    nat_eq (length (codes s)) 64
    && all (λ c. in_range b'0' b'9' c || in_range b'a' b'f' c) (codes s)

-- `^[A-Za-z0-9._-]{16,256}$` under `fullmatch`
unfoldable pub is_nonce : String → Bool
unfolding all
is_nonce s =
    in_range 16 256 (length (codes s))
    && all
        (λ c.
          in_range b'A' b'Z' c
          || in_range b'a' b'z' c
          || in_range b'0' b'9' c
          || nat_eq c b'.'
          || nat_eq c b'_'
          || nat_eq c b'-')
        (codes s)
