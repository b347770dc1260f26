-- ===== src/Panel/Login.antt =====
-- The two steps of a login, `loginSubmit` and `totpSubmit`, over the limits and the session rows.
use forgebase.Common.{
  ℕ, Bool, true, false, not, ◌&&◌, ◌≡◌, refl, Option, none, some, List, [], ◌∷◌, ◌⊎◌, inl, inr,
  arith,
}
use forgebase.Common.Tests.{if◌then◌else◌, Bool-cases, Option-cases}
use forgebase.Common.Text.{Bytes, eqb, eqb_iff, to_lower}
use forgebase.Limiter.{rate_limited, record_attempt, acct_locked, record_acct_fail, login_surge}
use forgebase.Panel.{User, Panel, set_session, preauth_token, parse_preauth}

-- The library calls and the configuration: the HMAC, the encoding of names, the check of a password
-- against its hash, the check of a code against its secret (`totp_verify`), and the break-glass
-- administrator.
pub record Env : Type 0 where
  pub mac : Bytes → Bytes
  pub encode : Bytes → Bytes
  pub accepts : Bytes → Bytes → Bool
  pub verifies : Bytes → Bytes → ℕ → Bool
  pub panel_user : Bytes
  pub panel_pass : Bytes

-- What comes with a request: the address, the times in nanoseconds and in seconds, the random id of
-- a new session.
pub record Visit : Type 0 where
  pub ip : Bytes
  pub nanos : ℕ
  pub now : ℕ
  pub sid : Bytes

pub data Reply : Type 0 where
  slow_down expired locked : Reply
  code_wanted : Bytes → Reply
  wrong : Bool → Reply
  signed_in : Bytes → Bytes → Reply

unfoldable pub find_user : Bytes → List User → Option User
unfolding eqb to_lower
find_user id [] = none
find_user id (u ∷ us) =
    let rest = find_user id us in
    if eqb (to_lower u.email) (to_lower id)
    then some u
    else if eqb (to_lower u.name) (to_lower id)
    then some u
    else rest

abbrev pub lock_key : Bytes → Option User → Bytes
lock_key id none = id
lock_key id (some u) = u.email

abbrev pub open_session : Env → Visit → Bytes → Bool → Panel → Panel × Reply
open_session env v name remember st =
    let (rows, c) = set_session env.mac env.encode v.now name remember v.sid st.sessions in
    (record st { sessions = rows }, signed_in name c)

-- The failure of a login. `wrong` says whether the answer is slowed down further.
abbrev pub fail : Visit → Bytes → Panel → Panel × Reply
fail v key st =
    let (limits, surge, _) =
      login_surge v.nanos (record_acct_fail v.nanos key (record_attempt v.nanos v.ip st.limiter)) in
    (record st { limiter = limits }, wrong surge)

abbrev pub past_password : Env → Visit → User → Bool → Panel → Panel × Reply
past_password env v u remember st =
    if u.totp_enabled && not (eqb u.totp_secret [])
    then (st, code_wanted (preauth_token env.mac v.now u.name remember))
    else open_session env v u.name remember st

abbrev pub check_password : Env → Visit → Bytes → Bytes → Bool → Option User → Panel → Panel × Reply
check_password env v id pass remember none st = fail v id st
check_password env v id pass remember (some u) st =
    if env.accepts u.pass_hash pass then past_password env v u remember st else fail v u.email st

abbrev pub unlocked : Env → Visit → Bytes → Bytes → Bool → Option User → Panel → Panel × Reply
unlocked env v id pass remember user st =
    let (limits, refused) = acct_locked v.nanos (lock_key id user) st.limiter in
    let st' = record st { limiter = limits } in
    if refused then (st', locked) else check_password env v id pass remember user st'

-- `loginSubmit`, on the trimmed `email` field.
unfoldable pub login_submit : Env → Visit → Bytes → Bytes → Bool → Panel → Panel × Reply
login_submit env v id pass remember st =
    let (limits, limited) = rate_limited v.nanos v.ip st.limiter in
    let st' = record st { limiter = limits } in
    if limited
    then (st', slow_down)
    else if eqb id env.panel_user && eqb pass env.panel_pass
    then open_session env v env.panel_user remember st'
    else unlocked env v id pass remember (find_user id st.users) st'

-- `userTOTP`: the secret, or "" where the second step is off.
unfoldable pub user_totp : Bytes → List User → Bytes
user_totp name [] = []
user_totp name (u ∷ us) =
    let rest = user_totp name us in
    if eqb u.name name then if u.totp_enabled then u.totp_secret else [] else rest

abbrev pub with_name : Env → Visit → Bytes → Panel → Option (Bytes × Bool) → Panel × Reply
with_name env v code st none = (st, expired)
with_name env v code st (some (name, remember)) =
    let (limits, refused) = acct_locked v.nanos name st.limiter in
    let st' = record st { limiter = limits } in
    let secret = user_totp name st.users in
    if refused
    then (st', locked)
    else if eqb secret []
    then open_session env v name remember st'
    else if not (env.verifies secret code v.now)
    then (
      record st' { limiter = record_acct_fail v.nanos name (record_attempt v.nanos v.ip limits) },
      wrong false,
    )
    else open_session env v name remember st'

-- `totpSubmit`, on the `token` and `code` fields.
unfoldable pub totp_submit : Env → Visit → Bytes → Bytes → Panel → Panel × Reply
totp_submit env v token code st =
    let (limits, limited) = rate_limited v.nanos v.ip st.limiter in
    let st' = record st { limiter = limits } in
    if limited
    then (st', slow_down)
    else with_name env v code st' (parse_preauth env.mac v.now token)

-- The account of a first step that ends in a session: its password was accepted, it was not locked
-- and it asks for no code.
pub record Entered (env : Env) (v : Visit) (id pass : Bytes) (st : Panel) (name : Bytes)
    : Type 0 where
  pub user : User
  pub found : find_user id st.users ≡ some user
  pub named : user.name ≡ name
  pub accepted : env.accepts user.pass_hash pass ≡ true
  pub not_locked :
      (acct_locked v.nanos user.email (rate_limited v.nanos v.ip st.limiter).0).1 ≡ false
  pub one_step : (user.totp_enabled && not (eqb user.totp_secret [])) ≡ false

module _ (env : Env) (v : Visit) (st : Panel) (name c : Bytes) where
  unlocked-Entered :
      (id pass : Bytes) (remember : Bool) (o : Option User)
      → find_user id st.users ≡ o
      → (unlocked env v id pass remember o
          (record st { limiter = (rate_limited v.nanos v.ip st.limiter).0 })).1
        ≡ signed_in name c
      → Entered env v id pass st name
  unlocked-Entered id pass remember none e h =
      absurd
        (elim (Bool-cases (acct_locked v.nanos id (rate_limited v.nanos v.ip st.limiter).0).1) [
          | inl l ↦ ground (arith, rw l at h)
          | inr l ↦ ground (arith, rw l at h)
        ])
  unlocked-Entered id pass remember (some u) e h =
      elim (Bool-cases (acct_locked v.nanos u.email (rate_limited v.nanos v.ip st.limiter).0).1) [
        | inl l ↦ absurd (ground (arith, rw l at h))
        | inr l ↦ elim (Bool-cases (env.accepts u.pass_hash pass)) [
          | inr a ↦ absurd (ground (arith, rw (l, a) at h))
          | inl a ↦ elim (Bool-cases (u.totp_enabled && not (eqb u.totp_secret []))) [
            | inl t ↦ absurd (ground (arith, rw (l, a, t) at h))
            | inr t ↦ record {
              user = u;
              found = e;
              named = ground (arith, rw (l, a, t) at h);
              accepted = a;
              not_locked = l;
              one_step = t;
            }
          ]
        ]
      ]

  -- A first step that ends in a session came from an address under its limit, with the break-glass
  -- administrator's credentials, or for an account that is not locked, with its password, where no
  -- code is asked for.
  pub login_submit-signed_in :
      (id pass : Bytes) (remember : Bool)
      → (login_submit env v id pass remember st).1 ≡ signed_in name c
      → ((rate_limited v.nanos v.ip st.limiter).1 ≡ false)
        × (((id ≡ env.panel_user) × (pass ≡ env.panel_pass) × (name ≡ env.panel_user))
            ⊎ Entered env v id pass st name)
  unfolding login_submit
  login_submit-signed_in id pass remember h =
      elim (Bool-cases (rate_limited v.nanos v.ip st.limiter).1) [
        | inl l ↦ absurd (ground (arith, rw l at h))
        | inr l ↦ elim (Bool-cases (eqb id env.panel_user && eqb pass env.panel_pass)) [
          | inl b ↦ (
            l,
            inl (
              ground (arith, eqb_iff id env.panel_user),
              ground (arith, eqb_iff pass env.panel_pass),
              ground (arith, rw (l, b) at h),
            ),
          )
          | inr b ↦ (
            l,
            inr (unlocked-Entered id pass remember (find_user id st.users) refl (rw (l, b) at h)),
          )
        ]
      ]

  with_name-signed_in :
      (n code : Bytes) (remember : Bool)
      → (with_name env v code
          (record st { limiter = (rate_limited v.nanos v.ip st.limiter).0 })
          (some (n, remember))).1
        ≡ signed_in name c
      → (n ≡ name)
        × ((acct_locked v.nanos n (rate_limited v.nanos v.ip st.limiter).0).1 ≡ false)
        × ((user_totp n st.users ≡ []) ⊎ (env.verifies (user_totp n st.users) code v.now ≡ true))
  with_name-signed_in n code remember h =
      elim (Bool-cases (acct_locked v.nanos n (rate_limited v.nanos v.ip st.limiter).0).1) [
        | inl l ↦ absurd (ground (arith, rw l at h))
        | inr l ↦ elim (Bool-cases (eqb (user_totp n st.users) [])) [
          | inl t ↦
              (ground (arith, rw (l, t) at h), l, inl ((eqb_iff (user_totp n st.users) []).0 t))
          | inr t ↦ elim (Bool-cases (env.verifies (user_totp n st.users) code v.now)) [
            | inl w ↦ (ground (arith, rw (l, t, w) at h), l, inr w)
            | inr w ↦ absurd (ground (arith, rw (l, t, w) at h))
          ]
        ]
      ]

  -- A second step that ends in a session came from an address under its limit, with a valid token of
  -- the first step whose account's name has no lock, and with a code that verifies unless the
  -- account asks for none any more. Nothing is said of a lock under the account's address, which is
  -- where the first step puts its failures.
  pub totp_submit-signed_in :
      (token code : Bytes)
      → (totp_submit env v token code st).1 ≡ signed_in name c
      → ((rate_limited v.nanos v.ip st.limiter).1 ≡ false)
        × ((remember : Bool) × (parse_preauth env.mac v.now token ≡ some (name, remember)))
        × ((acct_locked v.nanos name (rate_limited v.nanos v.ip st.limiter).0).1 ≡ false)
        × ((user_totp name st.users ≡ [])
            ⊎ (env.verifies (user_totp name st.users) code v.now ≡ true))
  unfolding totp_submit
  totp_submit-signed_in token code h = elim (Bool-cases (rate_limited v.nanos v.ip st.limiter).1) [
    | inl l ↦ absurd (ground (arith, rw l at h))
    | inr l ↦ elim (Option-cases (parse_preauth env.mac v.now token)) [
      | inl e ↦ absurd (ground (arith, rw (l, e) at h))
      | inr (nr, e) ↦
          let (same, open_account, code_ok) = with_name-signed_in nr.0 code nr.1 (rw (l, e) at h) in
          (l, (nr.1, rw (← same) e), rw (← same) open_account, rw (← same) code_ok)
    ]
  ]
