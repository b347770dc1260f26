-- ===== src/Storage/PathSafety.antt =====
-- Object paths stay below their bucket.
use forgebase.Common.{
  Bool, true, false, ◌||◌, ◌≡◌, refl, sym, ap, ◌∙◌, ◌⊎◌, inl, inr, List, [], ◌∷◌, ◌++◌, arith,
}
use mathlib.Core.List.{append_assoc, reverse, reverse-cons, reverse-reverse}
use forgebase.Common.Tests.{if◌then◌else◌, Bool-cases}
use forgebase.Common.Lists.{keep, All}
use forgebase.Common.Text.{Bytes, eqb, has_byte}
use forgebase.Common.Split.{split, join, Clean, split-join, split-Clean}
use forgebase.Storage.Path.{slash, dot, dots, trim_slashes, is_proper, safe_rel}

abbrev pub IsProper : Bytes → Type 0
IsProper seg = is_proper seg ≡ true

keep-All : (p : Bytes → Bool) (xs : List Bytes) → All (λ x. p x ≡ true) (keep p xs)
keep-All p [] = tt
keep-All p (x ∷ xs) = elim (Bool-cases (p x)) [
  | inl e ↦ rw e (e, keep-All p xs)
  | inr e ↦ rw e (keep-All p xs)
]

keep-Clean : (p : Bytes → Bool) (xs : List Bytes) → Clean slash xs → Clean slash (keep p xs)
keep-Clean p [] h = tt
keep-Clean p (x ∷ xs) h = elim (Bool-cases (p x)) [
  | inl e ↦ rw e (h.0, keep-Clean p xs h.1)
  | inr e ↦ rw e (keep-Clean p xs h.1)
]

keep_id : (p : Bytes → Bool) (xs : List Bytes) → All (λ x. p x ≡ true) xs → keep p xs ≡ xs
keep_id p [] h = refl
keep_id p (x ∷ xs) h = ground (arith, keep_id p xs)

-- A proper first segment starts with a byte that is no slash.
trim_slashes-join :
    (s : Bytes) (ss : List Bytes)
    → IsProper s
    → has_byte slash s ≡ false
    → trim_slashes (join slash (s ∷ ss)) ≡ join slash (s ∷ ss)
unfolding trim_slashes join is_proper has_byte
trim_slashes-join [] ss p h = cc
trim_slashes-join (c ∷ s) [] p h = ground arith
trim_slashes-join (c ∷ s) (t ∷ ss) p h = ground arith

-- The segments of a cleaned path: none, or proper ones with no slash inside.
pub safe_rel_segments :
    (p : Bytes)
    → (ss : List Bytes) × (safe_rel p ≡ join slash ss) × All IsProper ss × Clean slash ss
unfolding safe_rel
safe_rel_segments p =
    let segs = split slash (trim_slashes p) in
    (
      keep is_proper segs,
      refl,
      keep-All is_proper segs,
      keep-Clean is_proper segs (split-Clean slash (trim_slashes p)),
    )

-- A path of proper segments is left as it is.
pub safe_rel-join :
    (ss : List Bytes) → All IsProper ss → Clean slash ss → safe_rel (join slash ss) ≡ join slash ss
unfolding safe_rel
safe_rel-join [] a c = unfold trim_slashes is_proper split join in refl
safe_rel-join (s ∷ ss) a c =
    rw (trim_slashes-join s ss a.0 c.0, split-join slash s ss c)
      (ap (join slash) (keep_id is_proper (s ∷ ss) a))

-- Cleaning a cleaned path changes nothing.
pub safe_rel_idem : (p : Bytes) → safe_rel (safe_rel p) ≡ safe_rel p
safe_rel_idem p = let (ss, e, a, c) = safe_rel_segments p in rw e (safe_rel-join ss a c)

-- How the file system walks a path: the stack holds the directories that it is in, the innermost
-- first. An empty segment and "." stay, ".." leaves a directory.
abbrev pub enter : Bytes → List Bytes → List Bytes
enter s [] = if eqb s [] || eqb s dot || eqb s dots then [] else s ∷ []
enter s (d ∷ ds) = if eqb s [] || eqb s dot then d ∷ ds else if eqb s dots then ds else s ∷ (d ∷ ds)

abbrev pub walk : List Bytes → List Bytes → List Bytes
walk stack [] = stack
walk stack (s ∷ ss) = walk (enter s stack) ss

enter_proper : (s : Bytes) (stack : List Bytes) → IsProper s → enter s stack ≡ s ∷ stack
unfolding is_proper
enter_proper s [] h = ground arith
enter_proper s (d ∷ ds) h = ground arith

walk_proper : (ss stack : List Bytes) → All IsProper ss → walk stack ss ≡ reverse ss ++ stack
walk_proper [] stack h = refl
walk_proper (s ∷ ss) stack h =
    rw (enter_proper s stack h.0, reverse-cons s ss)
      (walk_proper ss (s ∷ stack) h.1 ∙ sym (append_assoc (reverse ss) (s ∷ []) stack))

walk_nil : (root : List Bytes) → walk root (split slash (join slash [])) ≡ root
unfolding split join eqb
walk_nil [] = refl
walk_nil (d ∷ ds) = refl

-- Wherever the walk of a cleaned path starts, it never leaves that directory: it ends in it, or in
-- directories entered from it, one for each segment of the path.
pub walk-safe_rel :
    (p : Bytes) (root : List Bytes)
    → (ss : List Bytes) × (walk root (split slash (safe_rel p)) ≡ ss ++ root)
      × ((ss ≡ []) ⊎ (join slash (reverse ss) ≡ safe_rel p))
walk-safe_rel p root = let (ss, e, a, c) = safe_rel_segments p in go ss e a c
  where
    go :
        (ss : List Bytes)
        → safe_rel p ≡ join slash ss
        → All IsProper ss
        → Clean slash ss
        → (ts : List Bytes) × (walk root (split slash (safe_rel p)) ≡ ts ++ root)
          × ((ts ≡ []) ⊎ (join slash (reverse ts) ≡ safe_rel p))
    go [] e a c = ([], rw e (walk_nil root), inl refl)
    go (s ∷ ss) e a c = (
      reverse (s ∷ ss),
      rw (e, split-join slash s ss c) (walk_proper (s ∷ ss) root a),
      inr (rw (reverse-reverse, e) refl),
    )
