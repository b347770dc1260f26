-- ===== src/Panel.antt =====
-- Sign-in to the panel (pgforge/auth.go and pgforge/totp.go): session cookies and their rows, the
-- token between the password and the code, the time-based code, and the two steps of the login.
-- `mac` is the hexadecimal HMAC of `app.sign`. Times are Unix seconds, those of the limits
-- nanoseconds.
pub mod Login
pub mod Sessions
pub mod Codes
mod Tests
use forgebase.Common.{
  ℕ, zero, suc, ◌+◌, ◌-◌, ◌*◌, ◌/◌, ◌%◌, ◌^◌, Bool, true, false, not, ◌&&◌, ◌||◌, Option, none,
  some, List, [], ◌∷◌, ◌++◌,
}
use forgebase.Common.Tests.{ltb, leb, ◌==◌, if◌then◌else◌}
use forgebase.Common.Lists.{length}
use forgebase.Common.Text.{Bytes, codes, eqb, to_lower, trim_space}
use forgebase.Common.Split.{split, split_n}
use forgebase.Common.Map.{Map, lookup, put, remove}
use forgebase.Common.Decimal.{ℤ, format, parse_int}
use forgebase.Limiter.{Limiter, rate_limited, record_attempt, acct_locked, record_acct_fail}
use forgebase.Storage.Signed.{full_stop, bar, is_live}

-- A row of `users`.
pub record User : Type 0 where
  pub name : Bytes
  pub email : Bytes
  pub pass_hash : Bytes
  pub totp_secret : Bytes
  pub totp_enabled : Bool

-- The rows of `panel_sessions` are the times at which they expire, by their ids.
pub record Panel : Type 0 where
  pub limiter : Limiter
  pub sessions : Map ℕ
  pub users : List User

abbrev pub colon : ℕ
colon = b':'

-- `"session:" + exp + ":" + b64 + ":" + sid`, and the same with no id.
abbrev pub legacy_message : Bytes → Bytes → Bytes
legacy_message exp b64 = codes "session:" ++ (exp ++ colon ∷ b64)

abbrev pub session_message : Bytes → Bytes → Bytes → Bytes
session_message exp b64 sid = codes "session:" ++ (exp ++ colon ∷ (b64 ++ colon ∷ sid))

-- `EXISTS(SELECT 1 ... WHERE id=$1 AND expires_at > now())`
abbrev pub is_current : ℕ → Option ℕ → Bool
is_current now none = false
is_current now (some e) = ltb now e

abbrev pub lifetime : Bool → ℕ
lifetime remember = if remember then 7 * 24 * 3600 else 12 * 3600

abbrev pub flag : Bool → Bytes
flag true = codes "1"
flag false = codes "0"

-- `"preauth|" + name + "|" + exp + "|" + rem`
abbrev pub preauth_message : Bytes → Bytes → Bytes → Bytes
preauth_message name exp rem = codes "preauth|" ++ (name ++ bar ∷ (exp ++ bar ∷ rem))

module _ (mac : Bytes → Bytes) where
  abbrev pub cookie : (Bytes → Bytes) → Bytes → Bytes → Bytes → Bytes
  cookie encode name exp sid =
      encode name
      ++ full_stop
        ∷ (exp ++ full_stop ∷ (sid ++ full_stop ∷ mac (session_message exp (encode name) sid)))

  -- `setSession`: the new rows and the cookie.
  unfoldable pub set_session : (Bytes → Bytes) → ℕ → Bytes → Bool → Bytes → Map ℕ → Map ℕ × Bytes
  set_session encode now name remember sid rows =
      let exp = now + lifetime remember in (put sid exp rows, cookie encode name (format exp) sid)

  -- The name in a cookie of these parts.
  abbrev pub name_of_parts : (Bytes → Bytes) → ℕ → Map ℕ → List Bytes → Option Bytes
  name_of_parts decode now rows (b64 ∷ exp ∷ sig ∷ []) =
      if not (is_live now (parse_int exp))
      then none
      else if not (eqb (mac (legacy_message exp b64)) sig)
      then none
      else some (decode b64)
  name_of_parts decode now rows (b64 ∷ exp ∷ sid ∷ sig ∷ []) =
      if not (is_live now (parse_int exp))
      then none
      else if not (eqb (mac (session_message exp b64 sid)) sig)
      then none
      else if not (is_current now (lookup sid rows))
      then none
      else some (decode b64)
  name_of_parts decode now rows _ = none

  -- `sessionName`; `decode` gives what `DecodeString` returns beside its error. The write of
  -- `last_seen` is left out.
  unfoldable pub session_name : (Bytes → Bytes) → ℕ → Map ℕ → Bytes → Option Bytes
  session_name decode now rows value = name_of_parts decode now rows (split_n 3 full_stop value)

  unfoldable pub preauth_token : ℕ → Bytes → Bool → Bytes
  preauth_token now name remember =
      let exp = format (now + 300) in
      let rem = flag remember in
      name ++ bar ∷ (exp ++ bar ∷ (rem ++ bar ∷ mac (preauth_message name exp rem)))

  abbrev pub preauth_of_parts : ℕ → List Bytes → Option (Bytes × Bool)
  preauth_of_parts now (name ∷ exp ∷ rem ∷ sig ∷ []) =
      if not (eqb sig (mac (preauth_message name exp rem)))
      then none
      else if not (is_live now (parse_int exp))
      then none
      else some (name, eqb rem (codes "1"))
  preauth_of_parts now _ = none

  unfoldable pub parse_preauth : ℕ → Bytes → Option (Bytes × Bool)
  parse_preauth now tok = preauth_of_parts now (split bar tok)

-- The digits of a code, six at least.
unfoldable pub digits_onto : ℕ → ℕ → Bytes → Bytes
digits_onto zero n rest = rest
digits_onto (suc k) n rest = digits_onto k (n / 10) ((48 + n % 10) ∷ rest)

-- `%06d` of a number below a million.
unfoldable pub six_digits : ℕ → Bytes
unfolding digits_onto
six_digits n = digits_onto 6 n []

abbrev pub byte_at : Bytes → ℕ → ℕ
byte_at [] i = 0
byte_at (c ∷ s) zero = c
byte_at (c ∷ s) (suc i) = byte_at s i

abbrev last_byte : Bytes → ℕ
last_byte [] = 0
last_byte (c ∷ []) = c
last_byte (c ∷ d ∷ s) = last_byte (d ∷ s)

-- `binary.BigEndian.PutUint64`.
abbrev pub big_endian : ℕ → ℕ → Bytes → Bytes
big_endian zero n rest = rest
big_endian (suc k) n rest = big_endian k (n / 256) (n % 256 ∷ rest)

abbrev upper_byte : ℕ → ℕ
upper_byte c = if leb b'a' c && leb c b'z' then c - 32 else c

-- `ToUpper(ReplaceAll(secret, " ", ""))`.
unfoldable pub plain_secret : Bytes → Bytes
plain_secret [] = []
plain_secret (c ∷ s) = let rest = plain_secret s in if c == 32 then rest else upper_byte c ∷ rest

-- The number in a digest.
unfoldable pub truncated : Bytes → ℕ
truncated h =
    let off = last_byte h % 16 in
    (byte_at h off % 128) * 2 ^ 24
    + byte_at h (off + 1) * 2 ^ 16
    + byte_at h (off + 2) * 2 ^ 8
    + byte_at h (off + 3)

-- `base32` decodes a secret, `hmac` is HMAC-SHA1 under a key: both are library calls.
module _ (base32 : Bytes → Option Bytes) (hmac : Bytes → Bytes → Bytes) where
  abbrev pub code_of : Option Bytes → ℕ → Option Bytes
  code_of none t = none
  code_of (some []) t = none
  code_of (some (c ∷ key)) t =
      some (six_digits (truncated (hmac (c ∷ key) (big_endian 8 (t / 30) [])) % 1000000))

  unfoldable pub totp_at : Bytes → ℕ → Option Bytes
  unfolding six_digits truncated plain_secret
  totp_at secret t = code_of (base32 (plain_secret (trim_space secret))) t

  abbrev pub matches : Option Bytes → Bytes → Bool
  matches none code = false
  matches (some c) code = eqb c code

  -- The step of `t`, the one before it and the one after it; `t` is past the first half minute.
  unfoldable pub totp_verify : Bytes → Bytes → ℕ → Bool
  totp_verify secret code t =
      let tried = trim_space code in
      if not (length tried == 6)
      then false
      else matches (totp_at secret (t + 30)) tried
        || matches (totp_at secret (t - 30)) tried
        || matches (totp_at secret t) tried
