-- ===== src/DataApi/Scan.antt =====
-- The search for a port ends while fewer processes run than there are ports.
use forgebase.Common.{
  ℕ, zero, suc, ◌+◌, ◌-◌, ◌%◌, ◌≤◌, ◌<◌, true, false, not, ◌≡◌, ◌≢◌, none, some, List, [], ◌∷◌, inl,
  inr, arith,
}
use forgebase.Common.Tests.{◌==◌, Bool-cases, Option-cases}
use forgebase.Common.Lists.{length, keep}
use forgebase.DataApi.{is_in, wrap, scan, rounds}

-- A search that fails has found every port that it came to held.
scan-none :
    (fuel : ℕ) (held : List ℕ) (next i : ℕ)
    → 3001 ≤ next
    → next ≤ 65001
    → scan fuel held next ≡ none
    → i < fuel
    → is_in (3001 + (wrap next - 3001 + i) % 62000) held ≡ true
unfolding scan
scan-none zero held next i lo hi e h = elim h [ ]
scan-none (suc fuel) held next i lo hi e h = elim (Bool-cases (is_in (wrap next) held)) [
  | inl full ↦
      step full i h (λ k l.
        scan-none fuel held (wrap next + 1) k (ground arith) (ground arith) (ground arith) l)
  | inr unheld ↦ absurd (ground arith)
]
  where
    step :
        is_in (wrap next) held ≡ true
        → (j : ℕ) → j < suc fuel
        → ((k : ℕ)
            → k < fuel
            → is_in (3001 + (wrap (wrap next + 1) - 3001 + k) % 62000) held ≡ true)
        → is_in (3001 + (wrap next - 3001 + j) % 62000) held ≡ true
    step full zero l later =
        let e : 3001 + (wrap next - 3001 + 0) % 62000 ≡ wrap next = ground arith in rw e full
    step full (suc k) l later =
        let e : (wrap next - 3001 + suc k) % 62000 ≡ (wrap (wrap next + 1) - 3001 + k) % 62000 =
          ground arith in
        rw e (later k (omega arith))

drop_port : ℕ → List ℕ → List ℕ
drop_port n ps = keep (λ p. not (p == n)) ps

is_in-drop_port :
    (n m : ℕ) (ps : List ℕ) → n ≢ m → is_in m ps ≡ true → is_in m (drop_port n ps) ≡ true
unfolding drop_port
is_in-drop_port n m [] ne h = h
is_in-drop_port n m (p ∷ ps) ne h = ground (arith, is_in-drop_port n m ps ne)

length-drop_port-le : (n : ℕ) (ps : List ℕ) → length (drop_port n ps) ≤ length ps
unfolding drop_port
length-drop_port-le n [] = omega arith
length-drop_port-le n (p ∷ ps) = ground (arith, length-drop_port-le n ps)

length-drop_port-lt :
    (n : ℕ) (ps : List ℕ) → is_in n ps ≡ true → length (drop_port n ps) < length ps
unfolding drop_port
length-drop_port-lt n [] h = cc
length-drop_port-lt n (p ∷ ps) h =
    ground (arith, length-drop_port-lt n ps, length-drop_port-le n ps)

-- `n` ports in a row that are all held take `n` entries.
pigeonhole : (n : ℕ) (ps : List ℕ) → ((j : ℕ) → j < n → is_in (3001 + j) ps ≡ true) → n ≤ length ps
pigeonhole zero ps h = omega arith
pigeonhole (suc n) ps h = omega (
  arith,
  length-drop_port-lt (3001 + n) ps (h n (omega arith)),
  pigeonhole n (drop_port (3001 + n) ps)
      (λ j l. is_in-drop_port (3001 + n) (3001 + j) ps (omega arith) (h j (omega arith))),
)

-- Some port is found while fewer than 62000 are held, and it is not among the held ones.
pub scan_finds :
    (held : List ℕ) (next : ℕ)
    → 3001 ≤ next
    → next ≤ 65001
    → length held < 62000
    → (port : ℕ) × (after : ℕ) × (scan rounds held next ≡ some (port, after))
scan_finds held next lo hi few = elim (Option-cases (scan rounds held next)) [
  | inl e ↦ absurd (omega (arith, pigeonhole 62000 held (λ j l. every e j l)))
  | inr (found, e) ↦ (found.0, found.1, e)
]
  where
    every : scan rounds held next ≡ none → (j : ℕ) → j < 62000 → is_in (3001 + j) held ≡ true
    every e j l =
        let i = (j + 62000 - (wrap next - 3001)) % 62000 in
        let there : (wrap next - 3001 + i) % 62000 ≡ j = ground arith in
        rw there at (scan-none rounds held next i lo hi e (omega arith))

-- A port that is found is free, and both it and the counter stay in range.
pub scan_free :
    (fuel : ℕ) (held : List ℕ) (next port after : ℕ)
    → 3001 ≤ next
    → next ≤ 65001
    → scan fuel held next ≡ some (port, after)
    → (is_in port held ≡ false) × (3001 ≤ port) × (port ≤ 65000) × (3001 ≤ after) × (after ≤ 65001)
unfolding scan
scan_free zero held next port after lo hi e = cc
scan_free (suc fuel) held next port after lo hi e = elim (Bool-cases (is_in (wrap next) held)) [
  | inl full ↦
      scan_free fuel held (wrap next + 1) port after (ground arith) (ground arith) (ground arith)
  | inr unheld ↦ (ground arith, ground arith, ground arith, ground arith, ground arith)
]
