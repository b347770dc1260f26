-- ===== src/Limiter/Agrees.antt =====
-- A map agrees with a log at a window: from now on, both show the same times within it.
use mathlib.Core.List.{append-nil}
use forgebase.Common.{ℕ, ◌≤◌, ◌≡◌, sym, ap, ◌∙◌, List, [], ◌∷◌, ◌++◌, inl, inr, arith}
use forgebase.Common.Tests.{if◌then◌else◌, Bool-cases}
use forgebase.Common.Lists.{keep}
use forgebase.Common.Text.{Bytes, eqb, eqb_iff}
use forgebase.Common.Map.{Map, put, Unique}
use forgebase.Limiter.{fresh, times, sweep, hit, prune_map, prune_window}
use forgebase.Limiter.Window.{
  keep-keep, keep-append, times-put, times-sweep, times-hit, keep-prune_map,
}

abbrev pub Log : Type 0
Log = Bytes → List ℕ

abbrev pub Agrees : ℕ → ℕ → Map (List ℕ) → Log → Type 0
Agrees v now m log =
    (later : ℕ) (k : Bytes)
    → now ≤ later
    → keep (fresh later v) (times m k) ≡ keep (fresh later v) (log k)

module _ (v : ℕ) (m : Map (List ℕ)) (log : Log) where
  pub Agrees-mono : (now now' : ℕ) → now ≤ now' → Agrees v now m log → Agrees v now' m log
  Agrees-mono now now' h a later k l = a later k (omega arith)

  -- Nothing new was recorded.
  pub Agrees-nil : (now : ℕ) → Agrees v now m log → Agrees v now m (λ k. log k ++ [])
  Agrees-nil now a later k l = rw (append-nil (log k)) (a later k l)

  pub Agrees-sweep :
      (now w : ℕ) (k : Bytes) → v ≤ w → Agrees v now m log → Agrees v now (sweep now w k m) log
  Agrees-sweep now w k h a later j l = elim (Bool-cases (eqb k j)) [
    | inl e ↦
        rw (times-sweep now w k j m, e, (eqb_iff k j).0 e)
          (keep-keep now later w v (times m j) l h ∙ a later j l)
    | inr e ↦ rw (times-sweep now w k j m, e) (a later j l)
  ]

  pub Agrees-hit :
      (now : ℕ) (k : Bytes)
      → Agrees v now m log
      → Agrees v now (hit now k m) (λ j. log j ++ (if eqb k j then now ∷ [] else []))
  Agrees-hit now k a later j l = elim (Bool-cases (eqb k j)) [
    | inl e ↦
        rw (times-hit now k j m, e, (eqb_iff k j).0 e)
          (keep-append later v (times m j) (now ∷ [])
            ∙ ap (λ xs. xs ++ keep (fresh later v) (now ∷ [])) (a later j l)
            ∙ sym (keep-append later v (log j) (now ∷ [])))
    | inr e ↦ rw (times-hit now k j m, e, append-nil (log j)) (a later j l)
  ]

  pub Agrees-prune_map :
      (now : ℕ)
      → v ≤ prune_window
      → Unique m
      → Agrees v now m log
      → Agrees v now (prune_map now m) log
  Agrees-prune_map now h u a later k l = keep-prune_map now later v k m u l h ∙ a later k l

  -- The write of `authRateLimited`.
  pub Agrees-refill :
      (now : ℕ) (k : Bytes)
      → Agrees v now m log
      → Agrees v now
          (put k (keep (fresh now v) (times m k) ++ now ∷ []) m)
          (λ j. log j ++ (if eqb k j then now ∷ [] else []))
  Agrees-refill now k a later j l = elim (Bool-cases (eqb k j)) [
    | inl e ↦
        rw (times-put k j (keep (fresh now v) (times m k) ++ now ∷ []) m, e, (eqb_iff k j).0 e)
          (keep-append later v (keep (fresh now v) (times m j)) (now ∷ [])
            ∙ ap (λ xs. xs ++ keep (fresh later v) (now ∷ []))
                (keep-keep now later v v (times m j) l (omega arith) ∙ a later j l)
            ∙ sym (keep-append later v (log j) (now ∷ [])))
    | inr e ↦
        rw (times-put k j (keep (fresh now v) (times m k) ++ now ∷ []) m, e, append-nil (log j))
          (a later j l)
  ]
