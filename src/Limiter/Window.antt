-- ===== src/Limiter/Window.antt =====
-- What one operation does to the times of a bucket that still count.
use forgebase.Common.{ℕ, ◌≤◌, ◌≡◌, refl, false, List, [], ◌∷◌, ◌++◌, inl, inr, arith}
use forgebase.Common.Tests.{if◌then◌else◌, Option-cases}
use forgebase.Common.Lists.{keep, any}
use forgebase.Common.Text.{Bytes, eqb}
use forgebase.Common.Map.{
  Map, lookup, put, lookup-put, lookup-remove, lookup-retain, Unique, put-Unique, remove-Unique,
  retain-Unique,
}
use forgebase.Limiter.{fresh, times, sweep, hit, prune_map, prune_window}

-- A later look at a narrower window sees nothing that an earlier look dropped.
pub keep-keep :
    (now later w v : ℕ) (ts : List ℕ)
    → now ≤ later
    → v ≤ w
    → keep (fresh later v) (keep (fresh now w) ts) ≡ keep (fresh later v) ts
keep-keep now later w v [] h k = refl
keep-keep now later w v (t ∷ ts) h k = ground (arith, keep-keep now later w v ts h k)

pub keep-append :
    (now w : ℕ) (xs ys : List ℕ)
    → keep (fresh now w) (xs ++ ys) ≡ keep (fresh now w) xs ++ keep (fresh now w) ys
keep-append now w [] ys = refl
keep-append now w (x ∷ xs) ys = ground (arith, keep-append now w xs ys)

-- A bucket that the pruner drops has nothing left in a narrower window.
keep_stale :
    (now later w v : ℕ) (ts : List ℕ)
    → now ≤ later
    → v ≤ w
    → any (fresh now w) ts ≡ false
    → keep (fresh later v) ts ≡ []
keep_stale now later w v [] h k s = refl
keep_stale now later w v (t ∷ ts) h k s = ground (arith, keep_stale now later w v ts h k)

pub times-put :
    (k j : Bytes) (ts : List ℕ) (m : Map (List ℕ))
    → times (put k ts m) j ≡ (if eqb k j then ts else times m j)
unfolding times
times-put k j ts m = ground (arith, lookup-put k j ts m)

pub times-sweep :
    (now w : ℕ) (k j : Bytes) (m : Map (List ℕ))
    → times (sweep now w k m) j ≡ (if eqb k j then keep (fresh now w) (times m k) else times m j)
unfolding times sweep
times-sweep now w k j m = go (keep (fresh now w) (times m k)) refl
  where
    go :
        (ts : List ℕ)
        → keep (fresh now w) (times m k) ≡ ts
        → times (sweep now w k m) j
          ≡ (if eqb k j then keep (fresh now w) (times m k) else times m j)
    go [] e = rw (e, lookup-remove k j m) (ground arith)
    go (t ∷ ts) e = rw (e, lookup-put k j (t ∷ ts) m) (ground arith)

pub times-hit :
    (now : ℕ) (k j : Bytes) (m : Map (List ℕ))
    → times (hit now k m) j ≡ (if eqb k j then times m k ++ now ∷ [] else times m j)
unfolding hit
times-hit now k j m = times-put k j (times m k ++ now ∷ []) m

pub keep-prune_map :
    (now later v : ℕ) (j : Bytes) (m : Map (List ℕ))
    → Unique m
    → now ≤ later
    → v ≤ prune_window
    → keep (fresh later v) (times (prune_map now m) j) ≡ keep (fresh later v) (times m j)
unfolding times prune_map
keep-prune_map now later v j m u h k = elim (Option-cases (lookup j m)) [
  | inl e ↦ rw (lookup-retain (λ _ ts. any (fresh now prune_window) ts) j m u, e)
  | inr (ts, e) ↦
      rw (lookup-retain (λ _ ts. any (fresh now prune_window) ts) j m u, e)
        (ground (arith, keep_stale now later prune_window v ts h k))
]

pub sweep-Unique : (now w : ℕ) (k : Bytes) (m : Map (List ℕ)) → Unique m → Unique (sweep now w k m)
unfolding sweep
sweep-Unique now w k m u = go (keep (fresh now w) (times m k)) refl
  where
    go : (ts : List ℕ) → keep (fresh now w) (times m k) ≡ ts → Unique (sweep now w k m)
    go [] e = rw e (remove-Unique k m u)
    go (t ∷ ts) e = rw e (put-Unique k (t ∷ ts) m u)

pub hit-Unique : (now : ℕ) (k : Bytes) (m : Map (List ℕ)) → Unique m → Unique (hit now k m)
unfolding hit
hit-Unique now k m u = put-Unique k (times m k ++ now ∷ []) m u

pub prune_map-Unique : (now : ℕ) (m : Map (List ℕ)) → Unique m → Unique (prune_map now m)
unfolding prune_map
prune_map-Unique now m u = retain-Unique _ m u
