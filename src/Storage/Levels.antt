-- ===== src/Storage/Levels.antt =====
-- What a listing shows.
use mathlib.Core.Path.{sym}
use forgebase.Common.{
  ℕ, zero, suc, ◌+◌, true, false, ◌&&◌, ◌≡◌, ◌≢◌, ◌↔◌, refl, ap, ◌∙◌, ◌⊎◌, List, [], ◌∷◌, ◌++◌, inl,
  inr, arith,
}
use forgebase.Common.Tests.{◌==◌, Bool-cases}
use forgebase.Common.Lists.{take, drop, any}
use forgebase.Common.Text.{Bytes, eqb, has_prefix, trim_prefix, has_byte, until}
use forgebase.Storage.Path.{slash}
use forgebase.Storage.Bucket.{Object}
use forgebase.Storage.Listing.{Entry, folder, object, any_end, like, is_found, entries, page}

-- No byte of the pattern has a meaning of its own.
abbrev pub IsPlain : Bytes → Type 0
IsPlain [] = Unit
IsPlain (p ∷ ps) = (p ≢ b'%') × (p ≢ b'_') × (p ≢ b'\\') × IsPlain ps

like-any : (s : Bytes) → like false (b'%' ∷ []) s ≡ true
unfolding like any_end
like-any [] = refl
like-any (c ∷ s) = like-any s

-- `LIKE pfx || '%'` is the test for a prefix, where the prefix holds no percent sign, underscore or
-- backslash.
pub like-has_prefix :
    (pfx s : Bytes) → IsPlain pfx → like false (pfx ++ b'%' ∷ []) s ≡ has_prefix s pfx
unfolding like has_prefix
like-has_prefix [] s h = like-any s
like-has_prefix (p ∷ ps) [] (a, b, c, h) =
    let x : (p == b'%') ≡ false = ground arith in
    let y : (p == b'_') ≡ false = ground arith in
    let z : (p == b'\\') ≡ false = ground arith in rw x (rw y (rw z refl))
like-has_prefix (p ∷ ps) (d ∷ s) (a, b, c, h) =
    let x : (p == b'%') ≡ false = ground arith in
    let y : (p == b'_') ≡ false = ground arith in
    let z : (p == b'\\') ≡ false = ground arith in
    rw x (rw y (rw z (ap (λ q. d == p && q) (like-has_prefix ps s h))))

abbrev pub HasEntry : Entry → List Entry → Type 0
HasEntry x [] = ⊥
HasEntry x (y ∷ ys) = (x ≡ y) ⊎ HasEntry x ys

abbrev pub HasRow : Bytes × Object → List (Bytes × Object) → Type 0
HasRow x [] = ⊥
HasRow x (y ∷ ys) = (x ≡ y) ⊎ HasRow x ys

module _ (bucket pfx search : Bytes) where
  -- A row of this path stands at this level under this name, and the search finds it.
  abbrev pub IsAtLevel : Bytes → Bytes → Type 0
  IsAtLevel name p =
      (trim_prefix p pfx ≡ name) × (has_byte slash name ≡ false) × (is_found search name ≡ true)

  abbrev pub IsShown : Bytes → Bytes → Object → List (Bytes × Object) → Type 0
  IsShown name id o rows =
      (p : Bytes) × HasRow (p, o) rows × IsAtLevel name p × (id ≡ bucket ++ slash ∷ p)

  weaken-IsShown :
      (name id : Bytes) (o : Object) (r : Bytes × Object) (rows : List (Bytes × Object))
      → IsShown name id o rows
      → IsShown name id o (r ∷ rows)
  weaken-IsShown name id o r rows (p, h, at_level, e) = (p, inr h, at_level, e)

  object-IsShown :
      {name id p : Bytes} {o q : Object} (rows : List (Bytes × Object))
      → has_byte slash (trim_prefix p pfx) ≡ false
      → is_found search (trim_prefix p pfx) ≡ true
      → object name id o ≡ object (trim_prefix p pfx) (bucket ++ slash ∷ p) q
      → IsShown name id o ((p, q) ∷ rows)
  object-IsShown {name} {id} {p} {o} {q} rows flat here e =
      let n : name ≡ trim_prefix p pfx = cc in
      let i : id ≡ bucket ++ slash ∷ p = cc in
      let same : o ≡ q = cc in (p, inl (ap (λ x. (p, x)) same), (sym n, rw n flat, rw n here), i)

  -- Every object listed is a row.
  entries-IsShown :
      (name id : Bytes) (o : Object) (seen : List Bytes) (rows : List (Bytes × Object))
      → HasEntry (object name id o) (entries bucket pfx search seen rows)
      → IsShown name id o rows
  unfolding entries
  entries-IsShown name id o seen [] h = elim h [ ]
  entries-IsShown name id o seen ((p, q) ∷ rows) h =
      let rel = trim_prefix p pfx in
      let d = until slash rel in
      let more : (seen : List Bytes)
          → HasEntry (object name id o) (entries bucket pfx search seen rows)
          → IsShown name id o ((p, q) ∷ rows) =
        λ seen g. weaken-IsShown name id o (p, q) rows (entries-IsShown name id o seen rows g) in
      elim (Bool-cases (has_byte slash rel)) [
        | inl deep ↦
            let h1 = rw deep at h in
            elim (Bool-cases (any (eqb d) seen)) [
              | inl old ↦ more seen (rw old at h1)
              | inr new ↦ elim (rw new at h1) [ inl e ↦ absurd cc | inr g ↦ more (d ∷ seen) g ]
            ]
        | inr flat ↦
            let h1 = rw flat at h in
            elim (Bool-cases (is_found search rel)) [
              | inl here ↦ elim (rw here at h1) [
                | inl e ↦ object-IsShown rows flat here e
                | inr g ↦ more seen g
              ]
              | inr gone ↦ more seen (rw gone at h1)
            ]
      ]

  -- Every row at this level is listed.
  shown-entries :
      (name p : Bytes) (o : Object) (seen : List Bytes) (rows : List (Bytes × Object))
      → HasRow (p, o) rows
      → IsAtLevel name p
      → HasEntry (object name (bucket ++ slash ∷ p) o) (entries bucket pfx search seen rows)
  unfolding entries
  shown-entries name p o seen [] h l = elim h [ ]
  shown-entries name p o seen ((p', q) ∷ rows) (inl e) (n, flat, here) =
      let same : p ≡ p' = cc in
      let row : o ≡ q = cc in
      let m : trim_prefix p' pfx ≡ name = ap (λ x. trim_prefix x pfx) (sym same) ∙ n in
      let found : is_found search name ≡ true = here in
      rw m (rw flat (rw found (inl (ap (λ x. object name (bucket ++ slash ∷ x.0) x.1) e))))
  shown-entries name p o seen ((p', q) ∷ rows) (inr h) l =
      let rel = trim_prefix p' pfx in
      let d = until slash rel in
      elim (Bool-cases (has_byte slash rel)) [
        | inl deep ↦ elim (Bool-cases (any (eqb d) seen)) [
          | inl old ↦ rw deep (rw old (shown-entries name p o seen rows h l))
          | inr new ↦ rw deep (rw new (inr (shown-entries name p o (d ∷ seen) rows h l)))
        ]
        | inr flat ↦ elim (Bool-cases (is_found search rel)) [
          | inl here ↦ rw flat (rw here (inr (shown-entries name p o seen rows h l)))
          | inr gone ↦ rw flat (rw gone (shown-entries name p o seen rows h l))
        ]
      ]

  -- The objects that a listing shows, before the page is cut, are the rows at its level that the
  -- search finds, under what stands of their paths behind the prefix.
  pub entries_lem :
      (name id : Bytes) (o : Object) (rows : List (Bytes × Object))
      → HasEntry (object name id o) (entries bucket pfx search [] rows) ↔ IsShown name id o rows
  entries_lem name id o rows = (
    entries-IsShown name id o [] rows,
    λ (p, h, at_level, e). rw e (shown-entries name p o [] rows h at_level),
  )

  -- The folders of the entries, none of them in `seen`, and no two alike.
  abbrev pub IsDistinct : List Bytes → List Entry → Type 0
  IsDistinct seen [] = Unit
  IsDistinct seen (object _ _ _ ∷ es) = IsDistinct seen es
  IsDistinct seen (folder d ∷ es) = (any (eqb d) seen ≡ false) × IsDistinct (d ∷ seen) es

  -- A listing shows each folder once.
  pub entries-IsDistinct :
      (seen : List Bytes) (rows : List (Bytes × Object))
      → IsDistinct seen (entries bucket pfx search seen rows)
  unfolding entries
  entries-IsDistinct seen [] = tt
  entries-IsDistinct seen ((p, o) ∷ rows) =
      let rel = trim_prefix p pfx in
      let d = until slash rel in
      elim (Bool-cases (has_byte slash rel)) [
        | inl deep ↦ elim (Bool-cases (any (eqb d) seen)) [
          | inl old ↦ rw deep (rw old (entries-IsDistinct seen rows))
          | inr new ↦ rw deep (rw new (new, entries-IsDistinct (d ∷ seen) rows))
        ]
        | inr flat ↦ elim (Bool-cases (is_found search rel)) [
          | inl here ↦ rw flat (rw here (entries-IsDistinct seen rows))
          | inr gone ↦ rw flat (rw gone (entries-IsDistinct seen rows))
        ]
      ]

module _ {ℓ} {A : Type ℓ} where
  take-suc : (a b : ℕ) (x : A) (xs : List A) → take (suc a + b) (x ∷ xs) ≡ x ∷ take (a + b) xs
  take-suc a b x xs = let e : suc a + b ≡ suc (a + b) = omega arith in rw e refl

  take_nil : (a : ℕ) → take {A = A} a [] ≡ []
  take_nil zero = refl
  take_nil (suc a) = refl

  drop_nil : (a : ℕ) → drop {A = A} a [] ≡ []
  drop_nil zero = refl
  drop_nil (suc a) = refl

  take-append : (a b : ℕ) (xs : List A) → take a xs ++ take b (drop a xs) ≡ take (a + b) xs
  take-append zero b xs = let e : 0 + b ≡ b = omega arith in rw e refl
  take-append (suc a) b [] = take_nil b ∙ sym (take_nil (suc a + b))
  take-append (suc a) b (x ∷ xs) = ap (◌∷◌ x) (take-append a b xs) ∙ sym (take-suc a b x xs)

  drop-drop : (n a : ℕ) (xs : List A) → drop (n + a) xs ≡ drop a (drop n xs)
  drop-drop zero a xs = let e : 0 + a ≡ a = omega arith in rw e refl
  drop-drop (suc n) a [] = drop_nil (suc n + a) ∙ sym (drop_nil a)
  drop-drop (suc n) a (x ∷ xs) =
      let e : suc n + a ≡ suc (n + a) = omega arith in rw e (drop-drop n a xs)

  -- Two pages of the same entries, the second from where the first ends, make one page.
  pub page-page :
      (offset a b : ℕ) (xs : List A)
      → page offset a xs ++ page (offset + a) b xs ≡ page offset (a + b) xs
  page-page offset a b xs = rw (drop-drop offset a xs) (take-append a b (drop offset xs))
