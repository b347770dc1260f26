-- ===== src/Auth/Bans.antt =====
-- What a ban does.
use forgebase.Common.{
  ℕ, ◌+◌, ◌<◌, true, false, ◌≡◌, ◌≢◌, refl, sym, ap, ◌∙◌, Option, some, List, [], ◌∷◌, inl, inr,
  arith,
}
use forgebase.Common.Tests.{Bool-cases}
use forgebase.Common.Lists.{All}
use forgebase.Common.Text.{Bytes, codes, eqb, eqb_iff}
use forgebase.Common.Decimal.{ℤ, pos}
use forgebase.Refresh.{Token, Mint, revoke}
use forgebase.Auth.Accounts.{
  Crypto, User, Project, normalize_email, has_email, is_user, find_user, update_users, signed_in,
}
use forgebase.Auth.Admin.{is_token_of, set_ban, banned_for, apply_ban, apply_password, admin_update}
use forgebase.Auth.SignIn.{Answers, is_banned, token_password}
use forgebase.Auth.Password.{token_password-signed_in}
use forgebase.Auth.Enrolment.{find_user-update_users}

-- No token of the user is live.
abbrev pub IsSignedOut : Bytes → List Token → Type 0
IsSignedOut id = All (λ t. is_token_of id t ≡ true → t.revoked ≡ true)

revoke-IsSignedOut : (id : Bytes) (ts : List Token) → IsSignedOut id (revoke (is_token_of id) ts)
unfolding revoke
revoke-IsSignedOut id [] = tt
revoke-IsSignedOut id (t ∷ ts) = elim (Bool-cases (is_token_of id t)) [
  | inl e ↦ rw e ((λ q. refl), revoke-IsSignedOut id ts)
  | inr e ↦ rw e ((λ q. absurd (ground (arith, e, q))), revoke-IsSignedOut id ts)
]

module _ (cr : Crypto) (parse : Bytes → Option ℤ) (now n : ℕ) (id duration : Bytes) (st : Project)
    (given : duration ≢ []) (not_none : duration ≢ codes "none") (not_zero : duration ≢ codes "0")
    (parsed : parse duration ≡ some (pos n)) where
  admin_update-banned :
      (admin_update cr parse now id [] duration st).0 ≡ banned_for id now (some (pos n)) st
  unfolding admin_update apply_password apply_ban eqb
  admin_update-banned =
      let a : eqb duration (codes "none") ≡ false =
        ground (arith, eqb_iff duration (codes "none")) in
      let b : eqb duration (codes "0") ≡ false = ground (arith, eqb_iff duration (codes "0")) in
      let c : eqb duration [] ≡ false = ground (arith, eqb_iff duration []) in
      rw a (rw b (rw c (rw parsed refl)))

  -- A user who is banned for `n` seconds opens no session with a password until they have passed,
  -- and every refresh token of the user is revoked.
  pub admin_update-IsSignedOut :
      (answers : Answers) (m : Mint) (later : ℕ) (form_email password code recovery_code : Bytes)
      (u : User)
      → find_user (has_email (normalize_email form_email)) st.users ≡ some u
      → u.id ≡ id
      → later < now + n
      → ((uid : Bytes)
          → (token_password cr answers m later form_email password code recovery_code
              (admin_update cr parse now id [] duration st).0).1
            ≢ signed_in uid)
        × IsSignedOut id (admin_update cr parse now id [] duration st).0.tokens
  admin_update-IsSignedOut answers m later form_email password code recovery_code u found own soon =
      let ban = set_ban (some (now + n)) in
      let after = (admin_update cr parse now id [] duration st).0 in
      let users : after.users ≡ update_users (is_user id) ban st.users =
        ap (λ s. s.users) admin_update-banned in
      let self : is_user id u ≡ true = (eqb_iff u.id id).1 own in
      let kept =
        find_user-update_users (has_email (normalize_email form_email)) (is_user id) ban st.users u
          (λ v. refl) found in
      let there : find_user (has_email (normalize_email form_email)) after.users ≡ some (ban u) =
        rw users (kept ∙ (rw self refl)) in
      (
        (λ uid h.
            let (v, held, same, right, free, confirmed, factor) =
              token_password-signed_in cr m later code recovery_code after answers form_email
                password uid h in
            refuse v (sym held ∙ there) free),
        rw (ap (λ s. s.tokens) admin_update-banned) (revoke-IsSignedOut id st.tokens),
      )
    where
      refuse :
          (v : User)
          → some v ≡ some (set_ban (some (now + n)) u)
          → is_banned v.banned_until later ≡ false
          → ⊥
      refuse v e free =
          let w : v ≡ set_ban (some (now + n)) u = cc in
          let b : v.banned_until ≡ some (now + n) = ap (λ x. x.banned_until) w in
          let f : is_banned (some (now + n)) later ≡ false =
            ap (λ x. is_banned x later) (sym b) ∙ free in
          ground arith
