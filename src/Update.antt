-- ===== src/Update.antt =====
-- The order of versions that the self-update goes by (pgforge/update.go): `parseSemver` and
-- `semverLess`; and the depth of a query that the GraphQL endpoint limits (`graphqlDepth` of
-- pgforge/api.go).
pub mod Order
mod Tests
use forgebase.Common.{
  ℕ, zero, suc, ◌+◌, ◌-◌, ◌*◌, Bool, true, false, not, ◌&&◌, ◌||◌, List, [], ◌∷◌,
}
use forgebase.Common.Tests.{ltb, leb, ◌==◌, if◌then◌else◌}
use forgebase.Common.Text.{Bytes, trim_space}
use forgebase.Common.Split.{split_n}
use forgebase.Common.Decimal.{is_digit}

-- `Sscanf(p, "%d", &v)` on a part with no sign: its leading digits, 0 where there are none. Parts
-- that overflow 64 bits are left aside.
unfoldable pub leading : ℕ → Bytes → ℕ
leading v [] = v
leading v (c ∷ s) = let rest = leading (v * 10 + (c - 48)) s in if is_digit c then rest else v

abbrev pub part : List Bytes → ℕ → ℕ
part [] i = 0
part (p ∷ ps) zero = leading 0 (trim_space p)
part (p ∷ ps) (suc i) = part ps i

-- Major, minor and patch.
unfoldable pub parse_semver : Bytes → ℕ × ℕ × ℕ
unfolding leading split_n trim_space
parse_semver s = let ps = split_n 2 b'.' (trim_space s) in (part ps 0, part ps 1, part ps 2)

unfoldable pub semver_less : Bytes → Bytes → Bool
unfolding parse_semver
semver_less a b =
    let (i, j, k) = parse_semver a in
    let (l, m, n) = parse_semver b in
    if not (i == l)
    then ltb i l
    else if not (j == m)
    then ltb j m
    else if not (k == n)
    then ltb k n
    else false

-- The loop of `graphqlDepth`, from the depth and the maximum so far.
unfoldable pub depth_from : ℕ → ℕ → Bytes → ℕ
depth_from depth max [] = max
depth_from depth max (c ∷ s) =
    let deeper = depth_from (suc depth) (if ltb max (suc depth) then suc depth else max) s in
    let back = depth_from (depth - 1) max s in
    let on = depth_from depth max s in if c == b'{' then deeper else if c == b'}' then back else on

unfoldable pub graphql_depth : Bytes → ℕ
unfolding depth_from
graphql_depth q = depth_from 0 0 q
