-- ===== src/Auth/Password.antt =====
-- What a session opened by a password stands on.
use forgebase.Common.{ℕ, true, false, not, ◌&&◌, ◌≡◌, ◌⊎◌, some, [], inl, inr, arith}
use forgebase.Common.Tests.{Bool-cases, Option-cases}
use forgebase.Common.Lists.{any}
use forgebase.Common.Text.{Bytes, eqb, eqb_iff, trim_space}
use forgebase.Refresh.{Mint, issue_tokens}
use forgebase.Panel.{totp_verify}
use forgebase.Auth.Accounts.{
  Crypto, User, Project, normalize_email, has_email, find_user, signed_in, open_session,
}
use forgebase.Auth.Factors.{mfa_state, is_unused, try_recovery_code, second_factor}
use forgebase.Auth.SignIn.{Answers, is_banned, is_set, token_password, ask_factor, password_of}

-- The second factor is off, or this code is right, or this recovery code is not spent.
abbrev pub IsPastFactor : Crypto → ℕ → Bytes → Bytes → Bytes → Project → Type 0
IsPastFactor cr now uid code recovery_code st =
    let (secret, on) = mfa_state uid st.users in
    (on ≡ false)
    ⊎ (secret ≡ [])
    ⊎ (totp_verify cr.base32 cr.hmac secret code now ≡ true)
    ⊎ (any (is_unused uid (cr.sha (trim_space recovery_code))) st.recovery ≡ true)

open_session-signed_in :
    (m : Mint) (now : ℕ) (user uid : Bytes) (st : Project)
    → (open_session m now user st).1 ≡ signed_in uid
    → uid ≡ user
unfolding open_session issue_tokens
open_session-signed_in m now user uid st h = elim (Bool-cases m.inserts) [
  | inl e ↦ let q : signed_in user ≡ signed_in uid = rw e at h in cc
  | inr e ↦ absurd (cc (rw e at h))
]

module _ (cr : Crypto) (m : Mint) (now : ℕ) (code recovery_code : Bytes) (st : Project) where
  ask_factor-signed_in :
      (user uid : Bytes)
      → (ask_factor cr m now user code recovery_code (mfa_state user st.users) st).1 ≡ signed_in uid
      → (uid ≡ user) × IsPastFactor cr now user code recovery_code st
  unfolding second_factor try_recovery_code
  ask_factor-signed_in user uid h =
      let secret = (mfa_state user st.users).0 in
      let h' = (cr.sha (trim_space recovery_code)) in
      elim (Bool-cases (mfa_state user st.users).1) [
        | inr off ↦ (open_session-signed_in m now user uid st (rw off at h), inl off)
        | inl on ↦
            let h1 = rw on at h in
            elim (Bool-cases (eqb secret [])) [
              | inl blank ↦ (
                open_session-signed_in m now user uid st (rw blank at h1),
                inr (inl ((eqb_iff secret []).0 blank)),
              )
              | inr full ↦
                  let h2 = rw full at h1 in
                  elim (Bool-cases (totp_verify cr.base32 cr.hmac secret code now)) [
                    | inl right ↦ (
                      open_session-signed_in m now user uid st (rw right at h2),
                      inr (inr (inl right)),
                    )
                    | inr wrong ↦
                        let h3 = rw wrong at h2 in
                        elim (Bool-cases (any (is_unused user h') st.recovery)) [
                          | inl used ↦ (
                            open_session-signed_in m now user uid _ (rw used at h3),
                            inr (inr (inr used)),
                          )
                          | inr none_left ↦ absurd (cc (rw none_left at h3))
                        ]
                  ]
            ]
      ]

  password_of-signed_in :
      (password : Bytes) (u : User) (uid : Bytes)
      → (password_of cr m now password code recovery_code (some u) st).1 ≡ signed_in uid
      → (uid ≡ u.id)
        × (cr.matches_hash u.encrypted_password password ≡ true)
        × (is_banned u.banned_until now ≡ false)
        × ((st.config.confirm_email ≡ false) ⊎ (is_set u.email_confirmed_at ≡ true))
        × IsPastFactor cr now u.id code recovery_code st
  password_of-signed_in password u uid h =
      elim (Bool-cases (cr.matches_hash u.encrypted_password password)) [
        | inr wrong ↦ absurd (cc (rw wrong at h))
        | inl right ↦
            let h1 = rw right at h in
            elim (Bool-cases (is_banned u.banned_until now)) [
              | inl banned ↦ absurd (cc (rw banned at h1))
              | inr free ↦
                  let h2 = rw free at h1 in
                  elim (Bool-cases (st.config.confirm_email && not (is_set u.email_confirmed_at))) [
                    | inl unconfirmed ↦ absurd (cc (rw unconfirmed at h2))
                    | inr pass ↦
                        let (same, factor) = ask_factor-signed_in u.id uid (rw pass at h2) in
                        (same, right, free, ground (arith, pass), factor)
                  ]
            ]
      ]

  -- A session opened with a password belongs to the user of the address, whose password it was, who
  -- is not banned, has a confirmed address where the project requires one, and gave a right code or
  -- an unspent recovery code where the second factor is on.
  pub token_password-signed_in :
      (n : Answers) (form_email password uid : Bytes)
      → (token_password cr n m now form_email password code recovery_code st).1 ≡ signed_in uid
      → (u : User) × (find_user (has_email (normalize_email form_email)) st.users ≡ some u)
        × (uid ≡ u.id)
        × (cr.matches_hash u.encrypted_password password ≡ true)
        × (is_banned u.banned_until now ≡ false)
        × ((st.config.confirm_email ≡ false) ⊎ (is_set u.email_confirmed_at ≡ true))
        × IsPastFactor cr now u.id code recovery_code st
  unfolding token_password
  token_password-signed_in n form_email password uid h = elim (Bool-cases n.limited) [
    | inl e ↦ absurd (cc (rw e at h))
    | inr e ↦
        let h1 = rw e at h in
        elim (Bool-cases n.captcha_ok) [
          | inr g ↦ absurd (cc (rw g at h1))
          | inl g ↦
              let h2 = rw g at h1 in
              elim (Option-cases (find_user (has_email (normalize_email form_email)) st.users)) [
                | inl gone ↦ absurd (cc (rw gone at h2))
                | inr (u, found) ↦
                    let (same, right, free, confirmed, factor) =
                      password_of-signed_in password u uid (rw found at h2) in
                    (u, found, same, right, free, confirmed, factor)
              ]
        ]
  ]
