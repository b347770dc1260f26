-- ===== src/Common/Map.antt =====
-- Go maps with string keys, as association lists with at most one entry to a key.
use mathlib.Core.Path.{◌≡◌, refl}
use mathlib.Core.Logic.{inl, inr}
use mathlib.Core.Bool.{Bool}
use mathlib.Core.Option.{Option, none, some}
use mathlib.Core.List.{List, [], ◌∷◌}
use native.Mathlib.Omega.{arith}
use forgebase.Common.Tests.{if◌then◌else◌, Bool-cases}
use forgebase.Common.Text.{Bytes, eqb, eqb_iff}

abbrev pub Map {ℓ} : Type ℓ → Type ℓ
Map V = List (Bytes × V)

module _ {ℓ} {V : Type ℓ} where
  -- `v, ok := m[k]`.
  unfoldable pub lookup : Bytes → Map V → Option V
  lookup k [] = none
  lookup k ((j, v) ∷ m) = if eqb j k then some v else lookup k m

  -- `m[k] = v`.
  unfoldable pub put : Bytes → V → Map V → Map V
  put k v [] = (k, v) ∷ []
  put k v ((j, w) ∷ m) = let rest = put k v m in if eqb j k then (k, v) ∷ m else (j, w) ∷ rest

  -- `delete(m, k)`.
  unfoldable pub remove : Bytes → Map V → Map V
  remove k [] = []
  remove k ((j, w) ∷ m) = let rest = remove k m in if eqb j k then rest else (j, w) ∷ rest

  -- `for k, v := range m { if !p(k, v) { delete(m, k) } }`.
  unfoldable pub retain : (Bytes → V → Bool) → Map V → Map V
  retain p [] = []
  retain p ((j, w) ∷ m) = let rest = retain p m in if p j w then (j, w) ∷ rest else rest

  -- One entry to a key.
  abbrev pub Unique : Map V → Type ℓ
  Unique [] = Unit
  Unique ((k, v) ∷ m) = (lookup k m ≡ none) × Unique m

  pub lookup-put :
      (k j : Bytes) (v : V) (m : Map V)
      → lookup j (put k v m) ≡ (if eqb k j then some v else lookup j m)
  unfolding lookup put
  lookup-put k j v [] = refl
  lookup-put k j v ((i, w) ∷ m) =
      ground (arith, eqb_iff k j, eqb_iff i k, eqb_iff i j, lookup-put k j v m)

  pub lookup-remove :
      (k j : Bytes) (m : Map V) → lookup j (remove k m) ≡ (if eqb k j then none else lookup j m)
  unfolding lookup remove
  lookup-remove k j [] = ground arith
  lookup-remove k j ((i, w) ∷ m) =
      ground (arith, eqb_iff k j, eqb_iff i k, eqb_iff i j, lookup-remove k j m)

  lookup-retain-none :
      (p : Bytes → V → Bool) (j : Bytes) (m : Map V)
      → lookup j m ≡ none
      → lookup j (retain p m) ≡ none
  unfolding lookup retain
  lookup-retain-none p j [] h = refl
  lookup-retain-none p j ((i, w) ∷ m) h = ground (arith, lookup-retain-none p j m)

  -- What a filtered map holds at a key.
  abbrev pub filter_value : (Bytes → V → Bool) → Bytes → Option V → Option V
  filter_value p j none = none
  filter_value p j (some v) = if p j v then some v else none

  pub lookup-retain :
      (p : Bytes → V → Bool) (j : Bytes) (m : Map V)
      → Unique m
      → lookup j (retain p m) ≡ filter_value p j (lookup j m)
  unfolding lookup retain
  lookup-retain p j [] u = refl
  lookup-retain p j ((i, w) ∷ m) u =
      ground (arith, eqb_iff i j, lookup-retain p j m u.1, lookup-retain-none p i m u.0)

  pub put-Unique : (k : Bytes) (v : V) (m : Map V) → Unique m → Unique (put k v m)
  unfolding put lookup
  put-Unique k v [] u = (refl, tt)
  put-Unique k v ((j, w) ∷ m) u = elim (Bool-cases (eqb j k)) [
    | inl e ↦ rw e (ground (arith, eqb_iff j k), u.1)
    | inr e ↦
        rw e (ground (arith, eqb_iff j k, eqb_iff k j, lookup-put k j v m), put-Unique k v m u.1)
  ]

  pub remove-Unique : (k : Bytes) (m : Map V) → Unique m → Unique (remove k m)
  unfolding remove
  remove-Unique k [] u = tt
  remove-Unique k ((j, w) ∷ m) u = elim (Bool-cases (eqb j k)) [
    | inl e ↦ rw e (remove-Unique k m u.1)
    | inr e ↦ rw e (ground (arith, lookup-remove k j m), remove-Unique k m u.1)
  ]

  pub retain-Unique : (p : Bytes → V → Bool) (m : Map V) → Unique m → Unique (retain p m)
  unfolding retain
  retain-Unique p [] u = tt
  retain-Unique p ((j, w) ∷ m) u = elim (Bool-cases (p j w)) [
    | inl e ↦ rw e (lookup-retain-none p j m u.0, retain-Unique p m u.1)
    | inr e ↦ rw e (retain-Unique p m u.1)
  ]
