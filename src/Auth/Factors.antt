-- ===== src/Auth/Factors.antt =====
-- The second factor of end users: pgforge/authmfa.go.
use forgebase.Common.{
  ℕ, Bool, true, false, not, ◌&&◌, ◌||◌, Option, none, some, List, [], ◌∷◌, ◌++◌,
}
use forgebase.Common.Tests.{if◌then◌else◌}
use forgebase.Common.Lists.{keep, any}
use forgebase.Common.Text.{Bytes, eqb, trim_space}
use forgebase.Panel.{totp_verify}
use forgebase.Auth.Accounts.{
  Crypto, User, RecoveryCode, Project, is_user, find_user, update_users, with_users, Reply, refused,
  acknowledged,
}

abbrev factor_of : Option User → Bytes × Bool
factor_of none = ([], false)
factor_of (some u) = (u.totp_secret, u.totp_enabled)

-- The secret, and whether the factor is on.
unfoldable pub mfa_state : Bytes → List User → Bytes × Bool
unfolding find_user eqb
mfa_state uid us = factor_of (find_user (is_user uid) us)

-- WHERE user_id = uid AND code_hash = h AND used_at IS NULL.
abbrev pub is_unused : Bytes → Bytes → RecoveryCode → Bool
is_unused uid h c = eqb c.user_id uid && eqb c.code_hash h && not c.used

unfoldable pub mark_used : Bytes → Bytes → List RecoveryCode → List RecoveryCode
mark_used uid h [] = []
mark_used uid h (c ∷ cs) =
    let rest = mark_used uid h cs in
    if is_unused uid h c then record c { used = true } ∷ rest else c ∷ rest

-- Whether a code was consumed.
unfoldable pub try_recovery_code :
    Crypto → Bytes → Bytes → List RecoveryCode → List RecoveryCode × Bool
unfolding mark_used trim_space eqb
try_recovery_code cr uid code cs =
    let h = cr.sha (trim_space code) in (mark_used uid h cs, any (is_unused uid h) cs)

abbrev pub with_recovery : List RecoveryCode → Project → Project
with_recovery cs st = record st { recovery = cs }

-- `totpVerify(…) || tryRecoveryCode(…)`: a recovery code is spent only where the code is wrong.
unfoldable pub second_factor : Crypto → ℕ → Bytes → Bytes → Bytes → Bytes → Project → Project × Bool
unfolding totp_verify try_recovery_code
second_factor cr now uid secret code recovery_code st =
    let (cs, used) = try_recovery_code cr uid recovery_code st.recovery in
    if totp_verify cr.base32 cr.hmac secret code now
    then (st, true)
    else (with_recovery cs st, used)

-- The rows of the freshly drawn codes.
abbrev pub new_codes : Crypto → Bytes → List Bytes → List RecoveryCode
new_codes cr uid [] = []
new_codes cr uid (c ∷ cs) =
    record { user_id = uid; code_hash = cr.sha c; used = false } ∷ new_codes cr uid cs

-- The action with its body; the new secret, and the ten new codes, come from the random source.
pub data Action : Type 0 where
  enroll : Bytes → Action
  verify : Bytes → List Bytes → Action
  disable : Bytes → Bytes → Action
  unknown : Action

abbrev pub set_factor : Bytes → Bool → User → User
set_factor secret on u = record u { totp_secret = secret; totp_enabled = on }

abbrev pub enable : User → User
enable u = record u { totp_enabled = true }

abbrev pub without_codes : Bytes → List RecoveryCode → List RecoveryCode
without_codes uid cs = keep (λ c. not (eqb c.user_id uid)) cs

abbrev pub cleared : Bytes → Project → Project
cleared uid st = record st {
  users = update_users (is_user uid) (set_factor [] false) st.users;
  recovery = without_codes uid st.recovery;
}

abbrev pub disabled : Bytes → Project × Bool → Project × Reply
disabled uid (st, true) = (cleared uid st, acknowledged)
disabled uid (st, false) = (st, refused 401)

-- `on && (…)`: nothing is checked where the factor is off.
abbrev pub disable_as :
    Crypto → ℕ → Bytes → Bytes → Bytes → Bytes × Bool → Project → Project × Reply
disable_as cr now uid code recovery_code (secret, false) st = (cleared uid st, acknowledged)
disable_as cr now uid code recovery_code (secret, true) st =
    disabled uid (second_factor cr now uid secret code recovery_code st)

abbrev pub act : Crypto → ℕ → Bytes → Action → Project → Project × Reply
act cr now uid (enroll secret) st =
    (with_users (update_users (is_user uid) (set_factor secret false) st.users) st, acknowledged)
act cr now uid (verify code fresh) st =
    let secret = (mfa_state uid st.users).0 in
    if eqb secret [] || not (totp_verify cr.base32 cr.hmac secret code now)
    then (st, refused 401)
    else (
      record st {
        users = update_users (is_user uid) enable st.users;
        recovery = without_codes uid st.recovery ++ new_codes cr uid fresh;
      },
      acknowledged,
    )
act cr now uid (disable code recovery_code) st =
    disable_as cr now uid code recovery_code (mfa_state uid st.users) st
act cr now uid unknown st = (st, refused 404)

abbrev pub act_as : Crypto → ℕ → Option Bytes → Action → Project → Project × Reply
act_as cr now none a st = (st, refused 401)
act_as cr now (some uid) a st = act cr now uid a st

unfoldable pub serve_auth_mfa : Crypto → ℕ → Bytes → Action → Project → Project × Reply
unfolding mfa_state second_factor update_users
serve_auth_mfa cr now token a st = act_as cr now (cr.subject token) a st
