-- ===== src/Auth/Admin.antt =====
-- The administration of end users: `handleAdminUsers`, and the panel's `addAuthUser`,
-- `setAuthUserPassword`, `revokeUserSessions` and `deleteAuthUser`.
use forgebase.Common.{ℕ, ◌+◌, ◌-◌, Bool, true, false, not, ◌&&◌, ◌||◌, Option, none, some, List, []}
use forgebase.Common.Tests.{ltb, if◌then◌else◌}
use forgebase.Common.Lists.{length, keep, count}
use forgebase.Common.Text.{Bytes, codes, eqb, has_byte}
use forgebase.Common.Decimal.{ℤ, pos, negsuc}
use forgebase.Refresh.{Token, revoke}
use forgebase.Auth.Accounts.{
  Crypto, User, Project, hash_password, normalize_email, is_user, find_user, update_users,
  insert_user, with_users, new_user, Reply, refused, acknowledged,
}

abbrev has_shown_email : Option Bytes → Bool
has_shown_email none = false
has_shown_email (some e) = true

abbrev user_answer : Option User → Reply
user_answer none = refused 404
user_answer (some u) = if has_shown_email u.email then acknowledged else refused 404

-- `adminUserJSON`; a row whose address is NULL does not scan.
unfoldable pub admin_user_json : Bytes → Project → Reply
unfolding find_user eqb
admin_user_json id st = user_answer (find_user (is_user id) st.users)

-- By the rows after the insertion, where it succeeds.
abbrev added_user : Bytes → Option (List User) → Project → Project × Bool
added_user id none st = (st, false)
added_user id (some us) st = (with_users us st, true)

abbrev pub add_hashed : Bytes → Bytes → Option Bytes → Project → Project × Bool
add_hashed id e none st = (st, false)
add_hashed id e (some hash) st =
    added_user id (insert_user (new_user id (some e) none hash) st.users) st

-- What `addAuthUser` and the creation by the API have in common; `id` is drawn.
unfoldable pub add_auth_user : Crypto → Bytes → Bytes → Bytes → Project → Project × Bool
unfolding normalize_email has_byte hash_password insert_user
add_auth_user cr id form_email password st =
    let e = normalize_email form_email in
    if not (has_byte b'@' e) || ltb (length password) 6
    then (st, false)
    else add_hashed id e (hash_password cr password) st

unfoldable pub admin_create : Crypto → Bytes → Bytes → Bytes → Project → Project × Reply
unfolding add_auth_user admin_user_json
admin_create cr id form_email password st =
    let (after, ok) = add_auth_user cr id form_email password st in
    if ok then (after, admin_user_json id after) else (after, refused 400)

abbrev pub is_token_of : Bytes → Token → Bool
is_token_of id t = eqb t.user id

abbrev pub sign_out_user : Bytes → Project → Project
sign_out_user id st = record st { tokens = revoke (is_token_of id) st.tokens }

abbrev pub set_password : Bytes → User → User
set_password hash u = record u { encrypted_password = hash }

abbrev pub set_ban : Option ℕ → User → User
set_ban until u = record u { banned_until = until }

abbrev password_set : Bytes → Option Bytes → Project → Project
password_set id none st = st
password_set id (some hash) st =
    sign_out_user id (with_users (update_users (is_user id) (set_password hash) st.users) st)

-- A time that many seconds from now.
abbrev pub later_by : ℕ → ℤ → ℕ
later_by now (pos n) = now + n
later_by now (negsuc n) = now - (n + 1)

abbrev pub banned_for : Bytes → ℕ → Option ℤ → Project → Project
banned_for id now none st = st
banned_for id now (some d) st =
    sign_out_user id
      (with_users (update_users (is_user id) (set_ban (some (later_by now d))) st.users) st)

-- `parse` is `time.ParseDuration`, in whole seconds.
unfoldable pub apply_ban : (Bytes → Option ℤ) → ℕ → Bytes → Bytes → Project → Project
unfolding update_users revoke eqb
apply_ban parse now id duration st =
    if eqb duration (codes "none") || eqb duration (codes "0")
    then with_users (update_users (is_user id) (set_ban none) st.users) st
    else if not (eqb duration [])
    then banned_for id now (parse duration) st
    else st

unfoldable pub apply_password : Crypto → Bytes → Bytes → Project → Project
unfolding hash_password update_users revoke eqb
apply_password cr id password st =
    if eqb password [] then st else password_set id (hash_password cr password) st

-- `PUT /admin/users/<id>`.
unfoldable pub admin_update :
    Crypto → (Bytes → Option ℤ) → ℕ → Bytes → Bytes → Bytes → Project → Project × Reply
unfolding apply_password apply_ban admin_user_json
admin_update cr parse now id password duration st =
    let after = apply_ban parse now id duration (apply_password cr id password st) in
    (after, admin_user_json id after)

-- `DELETE /admin/users/<id>`.
unfoldable pub admin_delete : Bytes → Project → Project
unfolding eqb
admin_delete id st = record st {
  users = keep (λ u. not (is_user id u)) st.users;
  tokens = keep (λ t. not (is_token_of id t)) st.tokens;
}

abbrev reset_for : Bytes → Bytes → Option User → Project → Project × Bool
reset_for id hash none st = (st, false)
reset_for id hash (some u) st =
    if has_shown_email u.email
    then (with_users (update_users (is_user id) (set_password hash) st.users) st, true)
    else (st, false)

abbrev reset_with : Bytes → Option Bytes → Project → Project × Bool
reset_with id none st = (st, false)
reset_with id (some hash) st = reset_for id hash (find_user (is_user id) st.users) st

-- The sessions of the user stay.
unfoldable pub set_auth_user_password : Crypto → Bytes → Bytes → Project → Project × Bool
unfolding hash_password find_user update_users eqb
set_auth_user_password cr id password st =
    if ltb (length password) 6 then (st, false) else reset_with id (hash_password cr password) st

abbrev is_live_of : Bytes → Token → Bool
is_live_of id t = eqb t.user id && not t.revoked

-- With the number of sessions that were revoked.
unfoldable pub revoke_user_sessions : Bytes → Project → Project × ℕ
unfolding revoke eqb
revoke_user_sessions id st =
    (record st { tokens = revoke (is_live_of id) st.tokens }, count (is_live_of id) st.tokens)

unfoldable pub delete_auth_user : Bytes → Project → Project
unfolding eqb
delete_auth_user id st = record st { users = keep (λ u. not (is_user id u)) st.users }
