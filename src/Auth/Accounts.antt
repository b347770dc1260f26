-- ===== src/Auth/Accounts.antt =====
-- The tables `auth.users`, `auth.one_time_tokens`, `auth.recovery_codes` and
-- `auth.refresh_tokens` of a project with its `auth_config`, and the small functions on them.
use forgebase.Common.{ℕ, ◌*◌, Bool, false, ◌&&◌, ◌||◌, Option, none, some, List, [], ◌∷◌, ◌++◌}
use forgebase.Common.Tests.{ltb, leb, ◌==◌, if◌then◌else◌}
use forgebase.Common.Lists.{length, any}
use forgebase.Common.Text.{Bytes, eqb, trim_space, trim_prefix, to_lower}
use forgebase.Common.Decimal.{ℤ, pos, negsuc}
use forgebase.Refresh.{Token, Mint, issue_tokens}

-- What the code calls of libraries: bcrypt, SHA-256 in hexadecimal, base32 and HMAC-SHA1 for the
-- codes, base64 and HMAC-SHA256 for the links, and the checker of access tokens, which gives the
-- `sub` and the `role` claim.
pub record Crypto : Type 0 where
  pub matches_hash : Bytes → Bytes → Bool
  pub bcrypt : Bytes → Option Bytes
  pub sha : Bytes → Bytes
  pub base32 : Bytes → Option Bytes
  pub hmac : Bytes → Bytes → Bytes
  pub encode : Bytes → Bytes
  pub decode : Bytes → Bytes
  pub mac : Bytes → Bytes
  pub subject : Bytes → Option Bytes
  pub role : Bytes → Option Bytes

-- `none` is NULL; times are Unix seconds.
pub record User : Type 0 where
  pub id : Bytes
  pub email : Option Bytes
  pub phone : Option Bytes
  pub encrypted_password : Bytes
  pub banned_until : Option ℕ
  pub email_confirmed_at : Option ℕ
  pub phone_confirmed_at : Option ℕ
  pub is_anonymous : Bool
  pub totp_secret : Bytes
  pub totp_enabled : Bool

pub record OneTimeToken : Type 0 where
  pub id : Bytes
  pub email : Bytes
  pub phone : Bytes
  pub code_hash : Bytes
  pub attempts : ℕ
  pub created_at : ℕ
  pub expires_at : ℕ

pub record RecoveryCode : Type 0 where
  pub user_id : Bytes
  pub code_hash : Bytes
  pub used : Bool

-- The row of `auth_config`.
pub record Config : Type 0 where
  pub access_ttl_min : ℤ
  pub min_pw_len : ℤ
  pub rate_limit_per_min : ℤ
  pub anonymous : Bool
  pub confirm_email : Bool
  pub leaked_check : Bool

pub record Project : Type 0 where
  pub slug : Bytes
  pub config : Config
  pub users : List User
  pub one_time : List OneTimeToken
  pub recovery : List RecoveryCode
  pub tokens : List Token
  pub single_session : Bool

abbrev pub in_range : ℕ → ℕ → ℕ → ℤ → ℕ
in_range lo hi other (pos n) = if ltb n lo || ltb hi n then other else n
in_range lo hi other (negsuc n) = other

-- The lifetime of an access token in seconds, and the least length of a password; the list of
-- redirects is left out.
unfoldable pub auth_policy : Config → ℕ × ℕ
auth_policy c = (in_range 5 1440 60 c.access_ttl_min * 60, in_range 6 72 6 c.min_pw_len)

abbrev pub capped_rate : ℤ → ℕ
capped_rate (negsuc n) = 30
capped_rate (pos n) = if ltb 1000 n then 1000 else n

unfoldable pub auth_rate_for : Config → ℕ
auth_rate_for c = capped_rate c.rate_limit_per_min

-- `pwned` is what the range API answers for the password.
unfoldable pub pw_rejected : Config → Bool → Bool
pw_rejected c pwned = c.leaked_check && pwned

abbrev is_phone_space : ℕ → Bool
is_phone_space c = c == b' ' || c == b'-' || c == b'(' || c == b')'

abbrev pub is_phone_digit : ℕ → Bool
is_phone_digit c = leb b'0' c && leb c b'9'

abbrev pub cons_to : ℕ → Option Bytes → Option Bytes
cons_to c none = none
cons_to c (some s) = some (c ∷ s)

-- The loop past the first rune; `none` for a rune that no number holds.
unfoldable pub phone_digits : Bytes → Option Bytes
phone_digits [] = some []
phone_digits (c ∷ s) =
    let rest = phone_digits s in
    if is_phone_digit c then cons_to c rest else if is_phone_space c then rest else none

unfoldable pub phone_runes : Bytes → Option Bytes
unfolding phone_digits
phone_runes [] = some []
phone_runes (c ∷ s) = if c == b'+' then cons_to c (phone_digits s) else phone_digits (c ∷ s)

abbrev pub sized : Option Bytes → Bytes
sized none = []
sized (some s) = let n = length (trim_prefix s (b'+' ∷ [])) in if ltb n 7 || ltb 15 n then [] else s

-- "" for a number that is none.
unfoldable pub normalize_phone : Bytes → Bytes
unfolding trim_space phone_runes trim_prefix
normalize_phone p = sized (phone_runes (trim_space p))

unfoldable pub normalize_email : Bytes → Bytes
unfolding trim_space to_lower
normalize_email e = to_lower (trim_space e)

-- `column = value`, which is not true of NULL.
abbrev pub is_value : Bytes → Option Bytes → Bool
is_value v none = false
is_value v (some w) = eqb w v

abbrev pub has_email : Bytes → User → Bool
has_email e u = is_value e u.email

abbrev pub has_phone : Bytes → User → Bool
has_phone p u = is_value p u.phone

abbrev pub is_user : Bytes → User → Bool
is_user i u = eqb u.id i

unfoldable pub find_user : (User → Bool) → List User → Option User
find_user p [] = none
find_user p (u ∷ us) = let rest = find_user p us in if p u then some u else rest

-- UPDATE auth.users SET … WHERE p.
unfoldable pub update_users : (User → Bool) → (User → User) → List User → List User
update_users p f [] = []
update_users p f (u ∷ us) = let rest = update_users p f us in if p u then f u ∷ rest else u ∷ rest

abbrev pub present : Option Bytes → (Bytes → User → Bool) → List User → Bool
present none p us = false
present (some v) p us = any (p v) us

-- The PRIMARY KEY and the UNIQUE columns; `none` for a violation.
unfoldable pub insert_user : User → List User → Option (List User)
insert_user u us =
    if any (is_user u.id) us || present u.email has_email us || present u.phone has_phone us
    then none
    else some (us ++ u ∷ [])

abbrev pub with_users : List User → Project → Project
with_users us st = record st { users = us }

-- A new row with the columns' defaults.
abbrev pub new_user : Bytes → Option Bytes → Option Bytes → Bytes → User
new_user i email phone hash = record {
  id = i;
  email = email;
  phone = phone;
  encrypted_password = hash;
  banned_until = none;
  email_confirmed_at = none;
  phone_confirmed_at = none;
  is_anonymous = false;
  totp_secret = [];
  totp_enabled = false;
}

-- What the handlers answer: an error's status, an acknowledgement, a demand for the second factor,
-- a user who has to confirm, or a session for this user.
pub data Reply : Type 0 where
  refused : ℕ → Reply
  acknowledged mfa_required : Reply
  pending : Bytes → Reply
  signed_in : Bytes → Reply

-- `issueTokens` with no family, and the answer.
unfoldable pub open_session : Mint → ℕ → Bytes → Project → Project × Reply
unfolding issue_tokens
open_session m now user st =
    let (s, ok) =
      issue_tokens m now user []
        (record { tokens = st.tokens; users = []; single_session = st.single_session }) in
    (record st { tokens = s.tokens }, if ok then signed_in user else refused 500)

-- `hashPassword` of pgforge/auth.go.
unfoldable pub hash_password : Crypto → Bytes → Option Bytes
hash_password cr pw = if ltb 72 (length pw) then none else cr.bcrypt pw
