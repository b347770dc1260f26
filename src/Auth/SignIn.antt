-- ===== src/Auth/SignIn.antt =====
-- The password cases of `serveAuth`: sign-up, the password grant, the upgrade of an anonymous
-- account, emailed links, recovery and invitations. A handler takes the decoded body and what the
-- environment answers, and returns the new state and its answer.
use forgebase.Common.{ℕ, Bool, true, false, not, ◌&&◌, ◌||◌, Option, none, some, List, []}
use forgebase.Common.Tests.{ltb, if◌then◌else◌}
use forgebase.Common.Lists.{length, keep, any}
use forgebase.Common.Text.{Bytes, codes, eqb, has_byte, trim_prefix}
use forgebase.Refresh.{Token, Mint, revoke}
use forgebase.Auth.Accounts.{
  Crypto, User, Project, auth_policy, pw_rejected, hash_password, normalize_email, has_email,
  is_user, find_user, update_users, insert_user, with_users, new_user, Reply, refused, acknowledged,
  mfa_required, pending, open_session,
}
use forgebase.Auth.Links.{parse_auth_token}
use forgebase.Auth.Factors.{mfa_state, second_factor}
use forgebase.Auth.OneTime.{email, user_for}

-- Whether the limiter refuses the call, the captcha passes, the password is known to have leaked,
-- the project's hook refuses the address, and the email is sent; and the id of a new user.
pub record Answers : Type 0 where
  pub limited : Bool
  pub captcha_ok : Bool
  pub pwned : Bool
  pub hook_refuses : Bool
  pub sends : Bool
  pub id : Bytes

abbrev pub kind_confirm : Bytes
kind_confirm = codes "confirm"

abbrev pub kind_magiclink : Bytes
kind_magiclink = codes "magiclink"

abbrev pub kind_recover : Bytes
kind_recover = codes "recover"

abbrev pub anonymous_user : Bytes → ℕ → User
anonymous_user i now = record (new_user i none none []) {
  is_anonymous = true;
  email_confirmed_at = some now;
}

abbrev pub anonymous_row : Answers → Mint → ℕ → Option (List User) → Project → Project × Reply
anonymous_row n m now none st = (st, refused 500)
anonymous_row n m now (some us) st = open_session m now n.id (with_users us st)

unfoldable pub signup_anonymous : Answers → Mint → ℕ → Project → Project × Reply
unfolding insert_user open_session
signup_anonymous n m now st =
    if not st.config.anonymous
    then (st, refused 403)
    else anonymous_row n m now (insert_user (anonymous_user n.id now) st.users) st

-- The row is taken out again where the confirmation cannot be sent.
abbrev pub created : Answers → Mint → ℕ → Bytes → Option (List User) → Project → Project × Reply
created n m now e none st = (st, refused 400)
created n m now e (some us) st =
    if st.config.confirm_email
    then (if n.sends
        then (with_users us st, pending n.id)
        else (with_users (keep (λ u. not (is_user n.id u)) us) st, refused 500))
    else open_session m now n.id (with_users us st)

abbrev pub create_with : Answers → Mint → ℕ → Bytes → Option Bytes → Project → Project × Reply
create_with n m now e none st = (st, refused 400)
create_with n m now e (some hash) st =
    if n.hook_refuses
    then (st, refused 400)
    else created n m now e (insert_user (new_user n.id (some e) none hash) st.users) st

unfoldable pub signup : Crypto → Answers → Mint → ℕ → Bytes → Bytes → Project → Project × Reply
unfolding normalize_email has_byte eqb auth_policy pw_rejected hash_password insert_user
    open_session signup_anonymous
signup cr n m now form_email password st =
    let e = normalize_email form_email in
    if n.limited
    then (st, refused 429)
    else if not n.captcha_ok
    then (st, refused 400)
    else if eqb e [] && eqb password []
    then signup_anonymous n m now st
    else if not (has_byte b'@' e) || ltb (length password) (auth_policy st.config).1
    then (st, refused 400)
    else if pw_rejected st.config n.pwned
    then (st, refused 400)
    else create_with n m now e (hash_password cr password) st

abbrev pub is_banned : Option ℕ → ℕ → Bool
is_banned none now = false
is_banned (some t) now = ltb now t

abbrev pub is_set : Option ℕ → Bool
is_set none = false
is_set (some t) = true

abbrev pub past_factor : Mint → ℕ → Bytes → Project × Bool → Project × Reply
past_factor m now uid (st, true) = open_session m now uid st
past_factor m now uid (st, false) = (st, mfa_required)

abbrev pub ask_factor :
    Crypto → Mint → ℕ → Bytes → Bytes → Bytes → Bytes × Bool → Project → Project × Reply
ask_factor cr m now uid code recovery_code (secret, on) st =
    if on && not (eqb secret [])
    then past_factor m now uid (second_factor cr now uid secret code recovery_code st)
    else open_session m now uid st

abbrev pub password_of :
    Crypto → Mint → ℕ → Bytes → Bytes → Bytes → Option User → Project → Project × Reply
password_of cr m now password code recovery_code none st = (st, refused 400)
password_of cr m now password code recovery_code (some u) st =
    if not (cr.matches_hash u.encrypted_password password)
    then (st, refused 400)
    else if is_banned u.banned_until now
    then (st, refused 403)
    else if st.config.confirm_email && not (is_set u.email_confirmed_at)
    then (st, refused 403)
    else ask_factor cr m now u.id code recovery_code (mfa_state u.id st.users) st

-- `POST /token` with a password.
unfoldable pub token_password :
    Crypto → Answers → Mint → ℕ → Bytes → Bytes → Bytes → Bytes → Project → Project × Reply
unfolding normalize_email find_user mfa_state second_factor open_session eqb
token_password cr n m now form_email password code recovery_code st =
    if n.limited
    then (st, refused 429)
    else if not n.captcha_ok
    then (st, refused 400)
    else password_of cr m now password code recovery_code
        (find_user (has_email (normalize_email form_email)) st.users) st

abbrev pub is_anonymous_user : Option User → Bool
is_anonymous_user none = false
is_anonymous_user (some u) = u.is_anonymous

abbrev pub upgraded : Bytes → Bytes → Option ℕ → User → User
upgraded e hash confirmed u = record u {
  email = some e;
  encrypted_password = hash;
  is_anonymous = false;
  email_confirmed_at = confirmed;
}

-- The UNIQUE column `email`.
abbrev pub taken : Bytes → Bytes → List User → Bool
taken e uid us = any (λ u. has_email e u && not (is_user uid u)) us

abbrev pub upgrade_with : ℕ → Bytes → Bytes → Option Bytes → Project → Project × Reply
upgrade_with now uid e none st = (st, refused 400)
upgrade_with now uid e (some hash) st =
    let confirmed : Option ℕ = if st.config.confirm_email then none else some now in
    if taken e uid st.users then (st, refused 400) else (
      with_users (update_users (is_user uid) (upgraded e hash confirmed) st.users) st,
      acknowledged,
    )

abbrev pub upgrade_as :
    Crypto → Answers → ℕ → Bytes → Bytes → Option Bytes → Project → Project × Reply
upgrade_as cr n now form_email password none st = (st, refused 401)
upgrade_as cr n now form_email password (some uid) st =
    let e = normalize_email form_email in
    if not (is_anonymous_user (find_user (is_user uid) st.users))
    then (st, refused 400)
    else if not (has_byte b'@' e) || ltb (length password) (auth_policy st.config).1
    then (st, refused 400)
    else if pw_rejected st.config n.pwned
    then (st, refused 400)
    else upgrade_with now uid e (hash_password cr password) st

-- `PUT /user` with an address or a password.
unfoldable pub upgrade : Crypto → Answers → ℕ → Bytes → Bytes → Bytes → Project → Project × Reply
unfolding normalize_email find_user has_byte auth_policy pw_rejected hash_password update_users eqb
upgrade cr n now token form_email password st =
    upgrade_as cr n now form_email password (cr.subject token) st

abbrev pub confirm_email_of : ℕ → User → User
confirm_email_of now u =
    if is_set u.email_confirmed_at then u else record u { email_confirmed_at = some now }

abbrev opened : Mint → ℕ → Project × Bytes → Project × Reply
opened m now (st, uid) = open_session m now uid st

abbrev confirm_link : ℕ → Option Bytes → Project → Project × Reply
confirm_link now none st = (st, refused 400)
confirm_link now (some e) st =
    (with_users (update_users (has_email e) (confirm_email_of now) st.users) st, acknowledged)

abbrev pub magic_link : Bytes → Mint → ℕ → Option Bytes → Option Bytes → Project → Project × Reply
magic_link i m now (some e) confirm st = opened m now (user_for kind_magiclink i now (email e) st)
magic_link i m now none confirm st = confirm_link now confirm st

-- `GET /verify`; `i` is the id of a new user.
unfoldable pub verify_link : Crypto → Bytes → Mint → ℕ → Bytes → Project → Project × Reply
unfolding parse_auth_token user_for update_users open_session
verify_link cr i m now token st =
    magic_link i m now (parse_auth_token cr now token kind_magiclink st.slug)
      (parse_auth_token cr now token kind_confirm st.slug) st

abbrev pub recovered : ℕ → Bytes → User → User
recovered now hash u =
    let confirmed : Option ℕ =
      if is_set u.email_confirmed_at then u.email_confirmed_at else some now in
    record u { encrypted_password = hash; email_confirmed_at = confirmed }

abbrev revoke_all_of : Option User → List Token → List Token
revoke_all_of none ts = ts
revoke_all_of (some u) ts = revoke (λ t. eqb t.user u.id) ts

abbrev recover_with : ℕ → Bytes → Option Bytes → Project → Project × Reply
recover_with now e none st = (st, refused 400)
recover_with now e (some hash) st = (
  record st {
    users = update_users (has_email e) (recovered now hash) st.users;
    tokens = revoke_all_of (find_user (has_email e) st.users) st.tokens;
  },
  acknowledged,
)

abbrev recover_as : Crypto → Answers → ℕ → Bytes → Option Bytes → Project → Project × Reply
recover_as cr n now password none st = (st, refused 400)
recover_as cr n now password (some e) st =
    if ltb (length password) 6
    then (st, refused 400)
    else if pw_rejected st.config n.pwned
    then (st, refused 400)
    else recover_with now e (hash_password cr password) st

-- `POST /recover` with a token.
unfoldable pub recover : Crypto → Answers → ℕ → Bytes → Bytes → Project → Project × Reply
unfolding parse_auth_token pw_rejected hash_password update_users find_user revoke eqb
recover cr n now token password st =
    recover_as cr n now password (parse_auth_token cr now token kind_recover st.slug) st

abbrev is_service : Option Bytes → Bool
is_service none = false
is_service (some r) = eqb r (codes "service_role")

unfoldable pub is_service_role : Crypto → Bytes → Bytes → Bool
unfolding eqb trim_prefix
is_service_role cr apikey authorization =
    let key = if eqb apikey [] then trim_prefix authorization (codes "Bearer ") else apikey in
    is_service (cr.role key)

-- ON CONFLICT (email) DO NOTHING.
abbrev pub invited : Option (List User) → Project → Project
invited none st = st
invited (some us) st = with_users us st

-- `POST /admin/invite`.
unfoldable pub invite : Crypto → Answers → Bytes → Bytes → Bytes → Project → Project × Reply
unfolding is_service_role normalize_email has_byte insert_user
invite cr n apikey authorization form_email st =
    let e = normalize_email form_email in
    let added = invited (insert_user (new_user n.id (some e) none (codes "invited")) st.users) st in
    if not (is_service_role cr apikey authorization)
    then (st, refused 401)
    else if not (has_byte b'@' e)
    then (st, refused 400)
    else if n.sends
    then (added, acknowledged)
    else (added, refused 500)
