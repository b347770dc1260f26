-- ===== src/Auth/Limits.antt =====
-- The ranges that settings and phone numbers are brought into.
use mathlib.Core.Path.{subst}
use forgebase.Common.{ℕ, ◌≤◌, true, ◌||◌, ◌≡◌, refl, ◌⊎◌, some, [], ◌∷◌, inl, inr, arith, sym}
use forgebase.Common.Tests.{ltb, ◌==◌, Bool-cases, Option-cases}
use forgebase.Common.Lists.{length, All}
use forgebase.Common.Text.{Bytes, trim_space, trim_prefix}
use forgebase.Common.Decimal.{ℤ, pos, negsuc}
use forgebase.Auth.Accounts.{
  Config, auth_policy, auth_rate_for, in_range, capped_rate, is_phone_digit, phone_digits,
  phone_runes, normalize_phone,
}

in_range-bounds :
    (lo hi other : ℕ) (n : ℤ)
    → lo ≤ other
    → other ≤ hi
    → (lo ≤ in_range lo hi other n) × (in_range lo hi other n ≤ hi)
in_range-bounds lo hi other (pos n) a b = (ground arith, ground arith)
in_range-bounds lo hi other (negsuc n) a b = (a, b)

capped_rate-bound : (n : ℤ) → capped_rate n ≤ 1000
capped_rate-bound (pos n) = ground arith
capped_rate-bound (negsuc n) = omega arith

-- Whatever the settings are, an access token lives from five minutes to a day, a password has a
-- least length from 6 to 72, and at most a thousand calls a minute are let through.
pub auth_policy-bounds :
    (c : Config)
    → (300 ≤ (auth_policy c).0)
      × ((auth_policy c).0 ≤ 86400)
      × (6 ≤ (auth_policy c).1)
      × ((auth_policy c).1 ≤ 72)
      × (auth_rate_for c ≤ 1000)
unfolding auth_policy auth_rate_for
auth_policy-bounds c =
    let (a, b) = in_range-bounds 5 1440 60 c.access_ttl_min (omega arith) (omega arith) in
    let (d, e) = in_range-bounds 6 72 6 c.min_pw_len (omega arith) (omega arith) in
    (omega (arith, a), omega (arith, b), d, e, capped_rate-bound c.rate_limit_per_min)

abbrev pub AreDigits : Bytes → Type 0
AreDigits = All (λ c. is_phone_digit c ≡ true)

phone_digits-AreDigits : (s t : Bytes) → phone_digits s ≡ some t → AreDigits t
unfolding phone_digits
phone_digits-AreDigits [] t e = let q : [] ≡ t = cc in subst AreDigits q tt
phone_digits-AreDigits (c ∷ s) t e = elim (Option-cases (phone_digits s)) [
  | inl gone ↦ absurd (ground (arith, gone, e))
  | inr (r, more) ↦
      let rest = phone_digits-AreDigits s r more in
      let e1 = rw more at e in
      elim (Bool-cases (is_phone_digit c)) [
        | inl digit ↦
            let q : c ∷ r ≡ t = let e2 = rw digit at e1 in cc in subst AreDigits q (digit, rest)
        | inr space ↦ let q : r ≡ t = ground (arith, space, e1) in subst AreDigits q rest
      ]
]

-- A number behind its sign, if it has one.
abbrev pub IsNumber : Bytes → Type 0
IsNumber [] = AreDigits []
IsNumber (c ∷ s) = ((c ≡ b'+') ⊎ (is_phone_digit c ≡ true)) × AreDigits s

phone_runes-IsNumber : (s t : Bytes) → phone_runes s ≡ some t → IsNumber t
unfolding phone_runes
phone_runes-IsNumber [] t e = let q : [] ≡ t = cc in subst IsNumber q tt
phone_runes-IsNumber (c ∷ s) t e = elim (Bool-cases (c == b'+')) [
  | inl plus ↦
      let e1 = rw plus at e in
      elim (Option-cases (phone_digits s)) [
        | inl gone ↦ absurd (cc (rw gone at e1))
        | inr (r, more) ↦
            let q : c ∷ r ≡ t = let e2 = rw more at e1 in cc in
            subst IsNumber q (inl (ground (arith, plus)), phone_digits-AreDigits s r more)
      ]
  | inr plain ↦ digits t (phone_digits-AreDigits (c ∷ s) t (rw plain at e))
]
  where
    digits : (t : Bytes) → AreDigits t → IsNumber t
    digits [] a = a
    digits (d ∷ t) (a, b) = (inr a, b)

-- A phone number is refused, or comes to seven to fifteen digits behind at most one plus sign.
pub normalize_phone_lem :
    (p : Bytes)
    → (normalize_phone p ≡ [])
      ⊎ (IsNumber (normalize_phone p)
          × (7 ≤ length (trim_prefix (normalize_phone p) (b'+' ∷ [])))
          × (length (trim_prefix (normalize_phone p) (b'+' ∷ [])) ≤ 15))
unfolding normalize_phone
normalize_phone_lem p = elim (Option-cases (phone_runes (trim_space p))) [
  | inl gone ↦ inl (rw gone refl)
  | inr (s, found) ↦
      let n = length (trim_prefix s (b'+' ∷ [])) in
      elim (Bool-cases (ltb n 7 || ltb 15 n)) [
        | inl out ↦ inl (rw found (rw out refl))
        | inr fits ↦
            let same : normalize_phone p ≡ s = rw found (rw fits refl) in
            inr (
              subst IsNumber (sym same) (phone_runes-IsNumber (trim_space p) s found),
              rw same (ground (arith, fits)),
              rw same (ground (arith, fits)),
            )
      ]
]
