-- ===== src/Common/Text.antt =====
-- Texts as lists of bytes: Go's `==`, `strings.HasPrefix`, `TrimPrefix`, `TrimSpace`, `Split`,
-- `SplitN` and `Join` at one-byte separators.
use Prim.Native.Nat.{ℕ, zero, suc}
use Prim.Native.Char.{code}
use Prim.Native.String.{String}
use mathlib.Core.Path.{◌≡◌, refl}
use mathlib.Core.Logic.{◌↔◌, ◌≢◌}
use mathlib.Core.Bool.{Bool, true, false, ◌&&◌, ◌||◌}
use mathlib.Core.List.{List, [], ◌∷◌, ◌++◌, reverse}
use native.Mathlib.Omega.{arith}
use forgebase.Common.Tests.{◌==◌, leb, if◌then◌else◌}

abbrev pub Bytes : Type 0
Bytes = List ℕ

-- The code points of a literal; every literal of the development is ASCII.
abbrev pub codes : String → Bytes
codes String.[] = []
codes (String.◌∷◌ c s) = code c ∷ codes s

-- `a == b` on strings.
unfoldable pub eqb : Bytes → Bytes → Bool
eqb [] [] = true
eqb (x ∷ xs) (y ∷ ys) = x == y && eqb xs ys
eqb _ _ = false

pub eqb_iff : (a b : Bytes) → (eqb a b ≡ true) ↔ (a ≡ b)
unfolding eqb
eqb_iff (x ∷ a) (y ∷ b) = ground (arith, eqb_iff a b)
eqb_iff _ _ = ground arith

pub eqb_refl : (a : Bytes) → eqb a a ≡ true
eqb_refl a = (eqb_iff a a).1 refl

pub eqb-false : (a b : Bytes) → eqb a b ≡ false → a ≢ b
eqb-false a b h e = ground (arith, eqb_iff a b)

-- `strings.HasPrefix`.
unfoldable pub has_prefix : Bytes → Bytes → Bool
has_prefix s [] = true
has_prefix [] (p ∷ ps) = false
has_prefix (c ∷ s) (p ∷ ps) = c == p && has_prefix s ps

pub has_prefix-append : (p s : Bytes) → has_prefix (p ++ s) p ≡ true
unfolding has_prefix
has_prefix-append [] s = refl
has_prefix-append (c ∷ p) s = ground (arith, has_prefix-append p s)

-- What stands behind the prefix; the text itself where the prefix does not fit
-- (`strings.TrimPrefix`).
unfoldable pub strip : Bytes → Bytes → Bytes
strip s [] = s
strip [] (p ∷ ps) = []
strip (c ∷ s) (p ∷ ps) = strip s ps

unfoldable pub trim_prefix : Bytes → Bytes → Bytes
unfolding has_prefix strip
trim_prefix s p = if has_prefix s p then strip s p else s

strip-append : (p s : Bytes) → strip (p ++ s) p ≡ s
unfolding strip
strip-append [] s = refl
strip-append (c ∷ p) s = strip-append p s

pub trim_prefix-append : (p s : Bytes) → trim_prefix (p ++ s) p ≡ s
unfolding trim_prefix
trim_prefix-append p s = rw (has_prefix-append p s) (strip-append p s)

-- A byte occurs in a text (`strings.IndexByte` is not negative).
unfoldable pub has_byte : ℕ → Bytes → Bool
has_byte b [] = false
has_byte b (c ∷ s) = c == b || has_byte b s

-- `s[:strings.IndexByte(s, b)]`, the whole of `s` where `b` is absent.
unfoldable pub until : ℕ → Bytes → Bytes
until b [] = []
until b (c ∷ s) = let rest = until b s in if c == b then [] else c ∷ rest

-- `s[strings.IndexByte(s, b)+1:]`, nothing where `b` is absent.
unfoldable pub behind : ℕ → Bytes → Bytes
behind b [] = []
behind b (c ∷ s) = let rest = behind b s in if c == b then s else rest

pub until-append : (b : ℕ) (s t : Bytes) → has_byte b s ≡ false → until b (s ++ b ∷ t) ≡ s
unfolding until has_byte
until-append b [] t h = ground arith
until-append b (c ∷ s) t h = ground (arith, until-append b s t)

pub until_absent : (b : ℕ) (s : Bytes) → has_byte b s ≡ false → until b s ≡ s
unfolding until has_byte
until_absent b [] h = refl
until_absent b (c ∷ s) h = ground (arith, until_absent b s)

pub behind-append : (b : ℕ) (s t : Bytes) → has_byte b s ≡ false → behind b (s ++ b ∷ t) ≡ t
unfolding behind has_byte
behind-append b [] t h = ground arith
behind-append b (c ∷ s) t h = ground (arith, behind-append b s t)

pub has_byte-append : (b : ℕ) (s t : Bytes) → has_byte b (s ++ t) ≡ (has_byte b s || has_byte b t)
unfolding has_byte
has_byte-append b [] t = refl
has_byte-append b (c ∷ s) t = ground (arith, has_byte-append b s t)

-- ASCII white space, as `strings.TrimSpace` and `strings.Fields` read it.
unfoldable pub is_space : ℕ → Bool
is_space c = leb 9 c && leb c 13 || c == 32

unfoldable pub trim_left : Bytes → Bytes
unfolding is_space
trim_left [] = []
trim_left (c ∷ s) = let rest = trim_left s in if is_space c then rest else c ∷ s

-- `strings.TrimSpace`.
unfoldable pub trim_space : Bytes → Bytes
unfolding trim_left
trim_space s = reverse (trim_left (reverse (trim_left s)))

-- `strings.ToLower` and `strings.ToUpper` on ASCII.
abbrev pub lower_byte : ℕ → ℕ
lower_byte c = if leb b'A' c && leb c b'Z' then Prim.Native.Nat.◌+◌ c 32 else c

unfoldable pub to_lower : Bytes → Bytes
to_lower [] = []
to_lower (c ∷ s) = lower_byte c ∷ to_lower s
