-- ===== src/Common/Split.antt =====
-- `strings.Split`, `strings.SplitN` and `strings.Join` at a separator of one byte.
use Prim.Native.Nat.{ℕ, zero, suc}
use mathlib.Core.Path.{◌≡◌, refl}
use mathlib.Core.Logic.{inl, inr}
use mathlib.Core.Bool.{true, false}
use mathlib.Core.List.{List, [], ◌∷◌, ◌++◌}
use native.Mathlib.Omega.{arith}
use forgebase.Common.Tests.{◌==◌, if◌then◌else◌, Bool-cases}
use forgebase.Common.Lists.{All}
use forgebase.Common.Text.{Bytes, has_byte}

-- Puts a byte in front of the first part.
abbrev pub cons_head : ℕ → List Bytes → List Bytes
cons_head c [] = (c ∷ []) ∷ []
cons_head c (p ∷ ps) = (c ∷ p) ∷ ps

-- `strings.Split(s, sep)`; the result is never empty.
unfoldable pub split : ℕ → Bytes → List Bytes
split b [] = [] ∷ []
split b (c ∷ s) = let rest = split b s in if c == b then [] ∷ rest else cons_head c rest

-- `strings.SplitN(s, sep, n + 1)`: at most `n` cuts.
unfoldable pub split_n : ℕ → ℕ → Bytes → List Bytes
split_n zero b s = s ∷ []
split_n (suc n) b [] = [] ∷ []
split_n (suc n) b (c ∷ s) = elim (c == b) [
  | true ↦ [] ∷ split_n n b s
  | false ↦ cons_head c (split_n (suc n) b s)
]

-- `strings.Join(parts, sep)`.
unfoldable pub join : ℕ → List Bytes → Bytes
join b [] = []
join b (p ∷ []) = p
join b (p ∷ q ∷ ps) = p ++ b ∷ join b (q ∷ ps)

-- No part holds the separator.
abbrev pub Clean : ℕ → List Bytes → Type 0
Clean b = All (λ p. has_byte b p ≡ false)

pub split_clean : (b : ℕ) (p : Bytes) → has_byte b p ≡ false → split b p ≡ p ∷ []
unfolding split has_byte
split_clean b [] h = refl
split_clean b (c ∷ p) h = ground (arith, split_clean b p)

pub split-append :
    (b : ℕ) (p s : Bytes) → has_byte b p ≡ false → split b (p ++ b ∷ s) ≡ p ∷ split b s
unfolding split has_byte
split-append b [] s h = ground arith
split-append b (c ∷ p) s h = ground (arith, split-append b p s)

pub split_n-append :
    (n b : ℕ) (p s : Bytes)
    → has_byte b p ≡ false
    → split_n (suc n) b (p ++ b ∷ s) ≡ p ∷ split_n n b s
unfolding split_n has_byte
split_n-append n b [] s h = ground arith
split_n-append n b (c ∷ p) s h = ground (arith, split_n-append n b p s)

-- Joining clean parts and splitting again gives the parts back.
pub split-join :
    (b : ℕ) (p : Bytes) (ps : List Bytes) → Clean b (p ∷ ps) → split b (join b (p ∷ ps)) ≡ p ∷ ps
unfolding join
split-join b p [] h = split_clean b p h.0
split-join b p (q ∷ ps) h = ground (arith, split-append b p (join b (q ∷ ps)), split-join b q ps)

cons_head-Clean :
    (b c : ℕ) (ps : List Bytes) → (c == b) ≡ false → Clean b ps → Clean b (cons_head c ps)
unfolding has_byte
cons_head-Clean b c [] h t = ground arith
cons_head-Clean b c (p ∷ ps) h t = ground arith

-- Every part of a split text is free of the separator.
pub split-Clean : (b : ℕ) (s : Bytes) → Clean b (split b s)
unfolding split has_byte
split-Clean b [] = ground arith
split-Clean b (c ∷ s) = elim (Bool-cases (c == b)) [
  | inl e ↦ rw e (refl, split-Clean b s)
  | inr e ↦ rw e (cons_head-Clean b c (split b s) e (split-Clean b s))
]
