-- ===== src/Common/Decimal.antt =====
-- `strconv.FormatInt(n, 10)` of a number that is not negative, and `strconv.ParseInt(s, 10, 64)`.
use Prim.Native.Nat.{ℕ, zero, suc, ◌+◌, ◌-◌, ◌*◌, ◌/◌, ◌%◌, ◌<◌, ◌≤◌}
use mathlib.Core.Path.{◌≡◌, refl}
use mathlib.Core.Logic.{inl, inr}
use mathlib.Core.Bool.{Bool, true, false, ◌&&◌}
use mathlib.Core.Option.{Option, none, some}
use mathlib.Core.List.{[], ◌∷◌}
use native.Mathlib.Omega.{arith}
use forgebase.Common.Tests.{ltb, leb, ◌==◌, if◌then◌else◌, Bool-cases}
use forgebase.Common.Text.{Bytes, has_byte}
use forgebase.Common.Lists.{all}

-- `negsuc n` is -(n + 1).
pub data ℤ : Type 0 where
  pos : ℕ → ℤ
  negsuc : ℕ → ℤ

abbrev pub int64_max : ℕ
int64_max = 9223372036854775807

-- A number has fewer digits than `suc n`, so the fuel of `format` is enough.
unfoldable pub format_onto : ℕ → ℕ → Bytes → Bytes
format_onto zero n rest = rest
format_onto (suc f) n rest =
    let more = format_onto f (n / 10) ((48 + n % 10) ∷ rest) in
    if ltb n 10 then (48 + n) ∷ rest else more

unfoldable pub format : ℕ → Bytes
unfolding format_onto
format n = format_onto (suc n) n []

abbrev pub is_digit : ℕ → Bool
is_digit c = leb 48 c && leb c 57

-- The digits read so far make `v`; `none` at a byte that is no digit.
unfoldable pub read_digits : ℕ → Bytes → Option ℕ
read_digits v [] = some v
read_digits v (c ∷ s) =
    let rest = read_digits (v * 10 + (c - 48)) s in if is_digit c then rest else none

abbrev at_most : ℕ → Option ℕ → Option ℕ
at_most m none = none
at_most m (some n) = if leb n m then some n else none

abbrev negated : Option ℕ → Option ℤ
negated none = none
negated (some zero) = some (pos 0)
negated (some (suc n)) = some (negsuc n)

abbrev positive : Option ℕ → Option ℤ
positive none = none
positive (some n) = some (pos n)

-- The digits behind the sign; an empty text is an error.
unfoldable pub read_nat : ℕ → Bytes → Option ℕ
unfolding read_digits
read_nat m [] = none
read_nat m (c ∷ s) = at_most m (read_digits 0 (c ∷ s))

unfoldable pub parse_int : Bytes → Option ℤ
unfolding read_nat
parse_int [] = none
parse_int (c ∷ s) =
    if c == b'-'
    then negated (read_nat (int64_max + 1) s)
    else if c == b'+'
    then positive (read_nat int64_max s)
    else positive (read_nat int64_max (c ∷ s))

pub read_digits-format_onto :
    (f n : ℕ) (rest : Bytes) → n < f → read_digits 0 (format_onto f n rest) ≡ read_digits n rest
unfolding read_digits format_onto
read_digits-format_onto zero n rest h = elim h [ ]
read_digits-format_onto (suc f) n rest h =
    ground (arith, read_digits-format_onto f (n / 10) ((48 + n % 10) ∷ rest))

-- The text of a number begins with a digit.
pub format_onto-head :
    (f n : ℕ) (rest : Bytes)
    → n < f
    → (c : ℕ) × (s : Bytes) × (format_onto f n rest ≡ c ∷ s) × (is_digit c ≡ true)
unfolding format_onto
format_onto-head zero n rest h = elim h [ ]
format_onto-head (suc f) n rest h = elim (Bool-cases (ltb n 10)) [
  | inl small ↦ (48 + n, rest, rw small, ground arith)
  | inr big ↦ rw big (format_onto-head f (n / 10) ((48 + n % 10) ∷ rest) (ground arith))
]

-- A number that fits `int64` is read back from its text.
pub parse_int-format : (n : ℕ) → n ≤ int64_max → parse_int (format n) ≡ some (pos n)
unfolding parse_int format
parse_int-format n h =
    let (c, s, e, d) = format_onto-head (suc n) n [] (omega arith) in
    rw e (ground (arith, rw e at (read_digits-format_onto (suc n) n [] (omega arith))))

all_digits-format_onto :
    (f n : ℕ) (rest : Bytes) → all is_digit rest ≡ true → all is_digit (format_onto f n rest) ≡ true
unfolding format_onto
all_digits-format_onto zero n rest h = h
all_digits-format_onto (suc f) n rest h =
    ground (arith, all_digits-format_onto f (n / 10) ((48 + n % 10) ∷ rest))

has_byte_digits :
    (b : ℕ) (s : Bytes) → is_digit b ≡ false → all is_digit s ≡ true → has_byte b s ≡ false
unfolding has_byte
has_byte_digits b [] n h = refl
has_byte_digits b (c ∷ s) n h = ground (arith, has_byte_digits b s)

-- The text of a number holds digits only.
pub has_byte-format : (b n : ℕ) → is_digit b ≡ false → has_byte b (format n) ≡ false
unfolding format
has_byte-format b n h = has_byte_digits b _ h (all_digits-format_onto (suc n) n [] refl)
