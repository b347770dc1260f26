-- ===== src/Update/Order.antt =====
-- Versions are ordered strictly, and nesting is counted.
use forgebase.Common.{
  ℕ, zero, suc, ◌+◌, ◌-◌, ◌≤◌, Bool, true, false, not, ◌≡◌, ◌≢◌, refl, [], ◌∷◌, ◌++◌, arith,
}
use forgebase.Common.Tests.{ltb, ◌==◌, if◌then◌else◌}
use forgebase.Common.Text.{Bytes}
use forgebase.Update.{parse_semver, semver_less, depth_from, graphql_depth}

same_version : (x y : ℕ × ℕ × ℕ) → x.0 ≡ y.0 → x.1 ≡ y.1 → x.2 ≡ y.2 → x ≡ y
same_version (i, j, k) (l, m, n) p q r = rw (p, q, r) refl

-- The comparison of `semver_less` on the versions that it reads.
abbrev less : ℕ × ℕ × ℕ → ℕ × ℕ × ℕ → Bool
less (i, j, k) (l, m, n) =
    if not (i == l)
    then ltb i l
    else if not (j == m)
    then ltb j m
    else if not (k == n)
    then ltb k n
    else false

less_back : (x y : ℕ × ℕ × ℕ) → x ≢ y → less y x ≡ not (less x y)
less_back (i, j, k) (l, m, n) ne =
    let differ : i ≡ l → j ≡ m → k ≡ n → ⊥ = λ p q r. ne (same_version (i, j, k) (l, m, n) p q r) in
    ground (arith, differ)

-- No version is older than itself; of two that differ in major, minor or patch exactly one is older;
-- and older than older is older.
pub semver_less_lem :
    (a b c : Bytes)
    → (semver_less a a ≡ false)
      × (parse_semver a ≢ parse_semver b → semver_less b a ≡ not (semver_less a b))
      × (semver_less a b ≡ true → semver_less b c ≡ true → semver_less a c ≡ true)
unfolding semver_less
semver_less_lem a b c =
    (ground arith, λ ne. less_back (parse_semver a) (parse_semver b) ne, λ p q. ground arith)

-- So many braces.
abbrev pub opened : ℕ → Bytes → Bytes
opened zero q = q
opened (suc n) q = b'{' ∷ opened n q

depth_from-max : (depth max : ℕ) (q : Bytes) → max ≤ depth_from depth max q
unfolding depth_from
depth_from-max depth max [] = omega arith
depth_from-max depth max (c ∷ s) = ground (
  arith,
  depth_from-max (suc depth) (if ltb max (suc depth) then suc depth else max) s,
  depth_from-max (depth - 1) max s,
  depth_from-max depth max s,
)

depth_from-opened :
    (n depth max : ℕ) (q : Bytes) → depth ≤ max → depth + n ≤ depth_from depth max (opened n q)
unfolding depth_from
depth_from-opened zero depth max q h = omega (arith, depth_from-max depth max q)
depth_from-opened (suc n) depth max q h = omega (
  arith,
  depth_from-opened n (suc depth) (if ltb max (suc depth) then suc depth else max) q (ground arith),
)

-- A query that opens `n` braces in a row, anywhere, has a depth of `n` at least.
pub graphql_depth-opened :
    (n : ℕ) (before after : Bytes) → n ≤ graphql_depth (before ++ opened n after)
unfolding graphql_depth depth_from
graphql_depth-opened n before after = from 0 0 before (omega arith)
  where
    from :
        (depth max : ℕ) (s : Bytes) → depth ≤ max → n ≤ depth_from depth max (s ++ opened n after)
    from depth max [] h = omega (arith, depth_from-opened n depth max after h)
    from depth max (c ∷ s) h = ground (
      arith,
      from (suc depth) (if ltb max (suc depth) then suc depth else max) s,
      from (depth - 1) max s,
      from depth max s,
    )
