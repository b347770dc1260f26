-- ===== src/Auth/OneTime.antt =====
-- Sign-in codes by email and by text message: the cases `POST /otp` and `POST /verify` of
-- `serveAuth`.
use forgebase.Common.{ℕ, ◌+◌, Bool, not, ◌&&◌, Option, none, some, List, [], ◌∷◌, ◌++◌}
use forgebase.Common.Tests.{ltb, if◌then◌else◌}
use forgebase.Common.Lists.{keep, count}
use forgebase.Common.Text.{Bytes, codes, eqb, trim_space, has_byte}
use forgebase.Refresh.{Mint}
use forgebase.Auth.Accounts.{
  Crypto, User, OneTimeToken, Project, normalize_phone, normalize_email, has_email, has_phone,
  is_user, find_user, update_users, insert_user, with_users, new_user, Reply, refused, acknowledged,
  open_session,
}

-- What a code is sent to.
pub data Address : Type 0 where
  phone email : Bytes → Address

-- WHERE phone=$1, or WHERE email=$1.
abbrev pub is_for : Address → OneTimeToken → Bool
is_for (phone p) t = eqb t.phone p
is_for (email e) t = eqb t.email e

abbrev pub one_hour : ℕ
one_hour = 3600

abbrev pub ten_minutes : ℕ
ten_minutes = 600

abbrev pub is_recent : ℕ → Address → OneTimeToken → Bool
is_recent now a t = is_for a t && ltb now (t.created_at + one_hour)

abbrev phone_of : Address → Bytes
phone_of (phone p) = p
phone_of (email e) = []

abbrev email_of : Address → Bytes
email_of (phone p) = []
email_of (email e) = e

abbrev pub code_row : Bytes → Address → Bytes → ℕ → OneTimeToken
code_row i a h now = record {
  id = i;
  email = email_of a;
  phone = phone_of a;
  code_hash = h;
  attempts = 0;
  created_at = now;
  expires_at = now + ten_minutes;
}

-- What the environment answers a request for a code: whether the limiter refuses it, and the id and
-- the six digits that are drawn.
pub record CodeDraw : Type 0 where
  pub limited : Bool
  pub id : Bytes
  pub code : Bytes

-- Up to four recent codes.
unfoldable pub send_code : Crypto → CodeDraw → ℕ → Address → List OneTimeToken → List OneTimeToken
send_code cr d now a ts =
    if ltb (count (is_recent now a) ts) 4
    then keep (λ t. not (is_for a t)) ts ++ code_row d.id a (cr.sha d.code) now ∷ []
    else ts

abbrev with_one_time : List OneTimeToken → Project → Project
with_one_time ts st = record st { one_time = ts }

unfoldable pub otp_request : Crypto → CodeDraw → ℕ → Bytes → Bytes → Project → Project × Reply
unfolding normalize_phone normalize_email send_code eqb has_byte
otp_request cr d now form_email form_phone st =
    let p = normalize_phone form_phone in
    let e = normalize_email form_email in
    if d.limited
    then (st, refused 429)
    else if not (eqb p [])
    then (with_one_time (send_code cr d now (phone p) st.one_time) st, acknowledged)
    else if has_byte b'@' e
    then (with_one_time (send_code cr d now (email e) st.one_time) st, acknowledged)
    else (st, acknowledged)

-- code_hash=$2 AND expires_at > now() AND attempts < 5.
abbrev pub is_usable : ℕ → Address → Bytes → OneTimeToken → Bool
is_usable now a h t = is_for a t && eqb t.code_hash h && ltb now t.expires_at && ltb t.attempts 5

unfoldable pub find_code : (OneTimeToken → Bool) → List OneTimeToken → Option OneTimeToken
find_code p [] = none
find_code p (t ∷ ts) = let rest = find_code p ts in if p t then some t else rest

abbrev pub failed_once : OneTimeToken → OneTimeToken
failed_once t = record t { attempts = t.attempts + 1 }

unfoldable pub count_failure : Address → List OneTimeToken → List OneTimeToken
count_failure a [] = []
count_failure a (t ∷ ts) =
    let rest = count_failure a ts in if is_for a t then failed_once t ∷ rest else t ∷ rest

abbrev pub coalesce : Option ℕ → ℕ → Option ℕ
coalesce none now = some now
coalesce (some t) now = some t

abbrev pub confirm_address : ℕ → Address → User → User
confirm_address now (phone p) u = record u {
  phone_confirmed_at = coalesce u.phone_confirmed_at now;
}
confirm_address now (email e) u = record u {
  email_confirmed_at = coalesce u.email_confirmed_at now;
}

-- The row of a user who first signs in without a password; `mark` stands in its place.
abbrev pub marked_user : Bytes → Bytes → ℕ → Address → User
marked_user mark i now (phone p) = record (new_user i none (some p) mark) {
  phone_confirmed_at = some now;
}
marked_user mark i now (email e) = record (new_user i (some e) none mark) {
  email_confirmed_at = some now;
}

abbrev pub has_address : Address → User → Bool
has_address (phone p) = has_phone p
has_address (email e) = has_email e

abbrev inserted : Bytes → Option (List User) → Project → Project × Bytes
inserted i none st = (st, [])
inserted i (some us) st = (with_users us st, i)

abbrev pub found_or_new : Bytes → Option User → Bytes → ℕ → Address → Project → Project × Bytes
found_or_new mark (some u) i now a st =
    (with_users (update_users (is_user u.id) (confirm_address now a) st.users) st, u.id)
found_or_new mark none i now a st = inserted i (insert_user (marked_user mark i now a) st.users) st

-- The user of the address, made if there is none; "" where that fails.
unfoldable pub user_for : Bytes → Bytes → ℕ → Address → Project → Project × Bytes
unfolding find_user update_users insert_user
user_for mark i now a st = found_or_new mark (find_user (has_address a) st.users) i now a st

-- Only the case of a phone asks whether there is a user.
abbrev pub session_for : Address → Mint → ℕ → Project × Bytes → Project × Reply
session_for (phone p) m now (st, uid) =
    if eqb uid [] then (st, refused 500) else open_session m now uid st
session_for (email e) m now (st, uid) = open_session m now uid st

abbrev pub redeem : Bytes → Mint → ℕ → Address → Option OneTimeToken → Project → Project × Reply
redeem i m now a none st = (record st { one_time = count_failure a st.one_time }, refused 401)
redeem i m now a (some t) st = session_for a m now (
    user_for (codes "otp") i now a
      (record st { one_time = keep (λ u. not (eqb u.id t.id)) st.one_time }))

unfoldable pub check_code : Crypto → Bytes → Mint → ℕ → Address → Bytes → Project → Project × Reply
unfolding find_code count_failure user_for open_session eqb
check_code cr i m now a token st =
    redeem i m now a (find_code (is_usable now a (cr.sha token)) st.one_time) st

-- The address that a request names.
unfoldable pub address_of : Bytes → Bytes → Address
unfolding normalize_phone normalize_email eqb
address_of form_email form_phone =
    let p = normalize_phone form_phone in
    if not (eqb p []) then phone p else email (normalize_email form_email)

-- `i` is the id of a new user.
unfoldable pub otp_verify :
    Crypto → Bool → Bytes → Mint → ℕ → Bytes → Bytes → Bytes → Project → Project × Reply
unfolding address_of check_code trim_space
otp_verify cr limited i m now form_email form_phone form_token st =
    if limited
    then (st, refused 429)
    else check_code cr i m now (address_of form_email form_phone) (trim_space form_token) st
