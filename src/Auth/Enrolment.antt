-- ===== src/Auth/Enrolment.antt =====
-- Turning the second factor off, and the recovery codes.
use forgebase.Common.{
  ℕ, Bool, true, false, not, ◌&&◌, ◌≡◌, refl, sym, ap, ◌∙◌, ◌⊎◌, some, List, [], ◌∷◌, inl, inr,
  arith,
}
use forgebase.Common.Tests.{if◌then◌else◌, Bool-cases}
use forgebase.Common.Lists.{any}
use forgebase.Common.Text.{Bytes, eqb_refl, trim_space}
use forgebase.Refresh.{Mint, issue_tokens}
use forgebase.Panel.{totp_verify}
use forgebase.Auth.Accounts.{
  Crypto, User, RecoveryCode, Project, normalize_email, has_email, is_user, find_user, update_users,
  acknowledged, signed_in, open_session,
}
use forgebase.Auth.Factors.{
  mfa_state, is_unused, mark_used, try_recovery_code, second_factor, enroll, disable, set_factor,
  serve_auth_mfa, disable_as,
}
use forgebase.Auth.SignIn.{Answers, is_banned, is_set, token_password}

-- A spent code is spent for good.
mark_used-spent :
    (uid h : Bytes) (cs : List RecoveryCode) → any (is_unused uid h) (mark_used uid h cs) ≡ false
unfolding mark_used
mark_used-spent uid h [] = refl
mark_used-spent uid h (c ∷ cs) =
    let rest = mark_used-spent uid h cs in
    elim (Bool-cases (is_unused uid h c)) [
      | inl e ↦ rw e (ground (arith, rest))
      | inr e ↦ rw e (ground (arith, rest, e))
    ]

mark_used-keeps :
    (uid h uid' h' : Bytes) (cs : List RecoveryCode)
    → any (is_unused uid h) cs ≡ false
    → any (is_unused uid h) (mark_used uid' h' cs) ≡ false
unfolding mark_used
mark_used-keeps uid h uid' h' [] e = refl
mark_used-keeps uid h uid' h' (c ∷ cs) e = elim (Bool-cases (is_unused uid' h' c)) [
  | inl q ↦ rw q (ground (arith, mark_used-keeps uid h uid' h' cs))
  | inr q ↦ rw q (ground (arith, mark_used-keeps uid h uid' h' cs))
]

module _ (cr : Crypto) where
  -- Tries of other codes, by any users.
  abbrev pub tries : List (Bytes × Bytes) → List RecoveryCode → List RecoveryCode
  tries [] cs = cs
  tries ((uid, code) ∷ more) cs = tries more (try_recovery_code cr uid code cs).0

  tries-keeps :
      (uid h : Bytes) (more : List (Bytes × Bytes)) (cs : List RecoveryCode)
      → any (is_unused uid h) cs ≡ false
      → any (is_unused uid h) (tries more cs) ≡ false
  unfolding try_recovery_code
  tries-keeps uid h [] cs e = e
  tries-keeps uid h ((uid', code') ∷ more) cs e =
      tries-keeps uid h more (mark_used uid' (cr.sha (trim_space code')) cs)
        (mark_used-keeps uid h uid' (cr.sha (trim_space code')) cs e)

  -- A recovery code that was tried once, with success or not, is not accepted again, whatever codes
  -- are tried between.
  pub try_recovery_code_once :
      (uid code : Bytes) (between : List (Bytes × Bytes)) (cs : List RecoveryCode)
      → (try_recovery_code cr uid code (tries between (try_recovery_code cr uid code cs).0)).1
        ≡ false
  unfolding try_recovery_code
  try_recovery_code_once uid code between cs =
      tries-keeps uid (cr.sha (trim_space code)) between
        (mark_used uid (cr.sha (trim_space code)) cs)
        (mark_used-spent uid (cr.sha (trim_space code)) cs)

pub find_user-update_users :
    (p q : User → Bool) (f : User → User) (us : List User) (u : User)
    → ((v : User) → p (f v) ≡ p v)
    → find_user p us ≡ some u
    → find_user p (update_users q f us) ≡ some (if q u then f u else u)
unfolding find_user update_users
find_user-update_users p q f [] u same e = absurd cc
find_user-update_users p q f (v ∷ us) u same e = elim (Bool-cases (p v)) [
  | inl here ↦
      let w : v ≡ u = let x = rw here at e in cc in
      elim (Bool-cases (q v)) [
        | inl on ↦
            let kept = same v ∙ here in
            let on' : q u ≡ true = ap q (sym w) ∙ on in
            rw on (rw kept (rw on' (ap (λ x. some (f x)) w)))
        | inr off ↦
            let off' : q u ≡ false = ap q (sym w) ∙ off in rw off (rw here (rw off' (ap some w)))
      ]
  | inr later ↦
      let ih = find_user-update_users p q f us u same (rw later at e) in
      elim (Bool-cases (q v)) [
        | inl on ↦ let kept = same v ∙ later in rw on (rw kept ih)
        | inr off ↦ rw off (rw later ih)
      ]
]

-- Whoever holds an access token of a user turns the user's second factor off with "enroll", which
-- asks for no code: the password alone opens a session after it.
pub serve_auth_mfa-enroll :
    (cr : Crypto) (n : Answers) (m : Mint) (now : ℕ) (token secret : Bytes)
    (form_email password code recovery_code : Bytes) (u : User) (st : Project)
    → cr.subject token ≡ some u.id
    → find_user (is_user u.id) st.users ≡ some u
    → find_user (has_email (normalize_email form_email)) st.users ≡ some u
    → cr.matches_hash u.encrypted_password password ≡ true
    → is_banned u.banned_until now ≡ false
    → (st.config.confirm_email && not (is_set u.email_confirmed_at)) ≡ false
    → n.limited ≡ false
    → n.captcha_ok ≡ true
    → m.inserts ≡ true
    → (token_password cr n m now form_email password code recovery_code
        (serve_auth_mfa cr now token (enroll secret) st).0).1
      ≡ signed_in u.id
unfolding serve_auth_mfa token_password mfa_state open_session issue_tokens
serve_auth_mfa-enroll cr n m now token secret form_email password code recovery_code u st sub by_id
      by_email right free confirmed unlimited human works =
    let f = set_factor secret false in
    let mail =
      find_user-update_users (has_email (normalize_email form_email)) (is_user u.id) f st.users u
        (λ v. refl) by_email in
    let self : is_user u.id u ≡ true = eqb_refl u.id in
    let there =
      find_user-update_users (is_user u.id) (is_user u.id) f st.users u (λ v. refl) by_id in
    let mail' = rw self at mail in
    let there' = rw self at there in
    rw sub (
      rw unlimited
        (rw human (rw mail' (rw right (rw free (rw confirmed (rw there' (rw works refl))))))))

disable_as-acknowledged :
    (cr : Crypto) (now : ℕ) (uid code recovery_code secret : Bytes) (on : Bool) (st : Project)
    → (disable_as cr now uid code recovery_code (secret, on) st).1 ≡ acknowledged
    → (on ≡ false)
      ⊎ (totp_verify cr.base32 cr.hmac secret code now ≡ true)
      ⊎ (any (is_unused uid (cr.sha (trim_space recovery_code))) st.recovery ≡ true)
unfolding second_factor try_recovery_code
disable_as-acknowledged cr now uid code recovery_code secret false st h = inl refl
disable_as-acknowledged cr now uid code recovery_code secret true st h =
    elim (Bool-cases (totp_verify cr.base32 cr.hmac secret code now)) [
      | inl right ↦ inr (inl right)
      | inr wrong ↦
          let h1 = rw wrong at h in
          elim (Bool-cases (any (is_unused uid (cr.sha (trim_space recovery_code))) st.recovery)) [
            | inl used ↦ inr (inr used)
            | inr spent ↦ absurd (cc (rw spent at h1))
          ]
    ]

-- "disable" succeeds where the factor is on only with a right code or an unspent recovery code.
pub serve_auth_mfa-disable :
    (cr : Crypto) (now : ℕ) (token uid code recovery_code : Bytes) (st : Project)
    → cr.subject token ≡ some uid
    → (serve_auth_mfa cr now token (disable code recovery_code) st).1 ≡ acknowledged
    → ((mfa_state uid st.users).1 ≡ false)
      ⊎ (totp_verify cr.base32 cr.hmac (mfa_state uid st.users).0 code now ≡ true)
      ⊎ (any (is_unused uid (cr.sha (trim_space recovery_code))) st.recovery ≡ true)
unfolding serve_auth_mfa
serve_auth_mfa-disable cr now token uid code recovery_code st sub h =
    disable_as-acknowledged cr now uid code recovery_code (mfa_state uid st.users).0
      (mfa_state uid st.users).1 st (rw sub at h)
