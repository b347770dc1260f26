-- ===== src/Auth/LinkTokens.antt =====
-- The tokens of emailed links.
use forgebase.Common.{
  ℕ, ◌+◌, ◌≤◌, true, false, not, ◌||◌, ◌≡◌, refl, ap, ◌∙◌, none, some, [], ◌∷◌, arith,
}
use forgebase.Common.Tests.{ltb, if◌then◌else◌}
use forgebase.Common.Text.{Bytes, eqb, eqb_refl, has_byte}
use forgebase.Common.Split.{split_n-append, split-join, join}
use forgebase.Common.Decimal.{format, has_byte-format, int64_max}
use forgebase.Refresh.{Mint, issue_tokens}
use forgebase.Storage.Signed.{bar}
use forgebase.Storage.Tokens.{int_value-format}
use forgebase.Auth.Accounts.{
  Crypto, User, Project, is_user, has_email, find_user, update_users, signed_in, open_session,
}
use forgebase.Auth.Links.{full_stop, sign_state, verify_state, sign_auth_token, parse_auth_token}
use forgebase.Auth.OneTime.{email, confirm_address, user_for}
use forgebase.Auth.SignIn.{kind_magiclink, verify_link}
use forgebase.Auth.Enrolment.{find_user-update_users}

-- Base64 without full stops that decodes what it encodes.
pub record IsEncoding (cr : Crypto) : Type 0 where
  pub plain : (p : Bytes) → has_byte full_stop (cr.encode p) ≡ false
  pub inverse : (p : Bytes) → cr.decode (cr.encode p) ≡ p

verify_state-sign_state :
    (cr : Crypto) → IsEncoding cr → (p : Bytes) → verify_state cr (sign_state cr p) ≡ some p
unfolding verify_state sign_state
verify_state-sign_state cr c p =
    rw (split_n-append 0 full_stop (cr.encode p) (cr.mac (cr.encode p)) (c.plain p))
      (rw (eqb_refl (cr.mac (cr.encode p))) (ap some (c.inverse p)))

-- The token of a link gives its address back for its kind and its project, up to and at its time
-- and not after, and nothing for another kind or another project.
pub parse_auth_token-sign_auth_token :
    (cr : Crypto)
    → IsEncoding cr
    → (now ttl later : ℕ) (kind slug address kind' slug' : Bytes) → has_byte bar kind ≡ false
    → has_byte bar slug ≡ false
    → has_byte bar address ≡ false
    → now + ttl ≤ int64_max
    → parse_auth_token cr later (sign_auth_token cr now ttl kind slug address) kind' slug' ≡ (
        if not (eqb kind kind') || not (eqb slug slug')
        then none
        else if ltb (now + ttl) later
        then none
        else some address)
unfolding parse_auth_token sign_auth_token
parse_auth_token-sign_auth_token cr c now ttl later kind slug address kind' slug' k s a small =
    let exp = format (now + ttl) in
    rw (verify_state-sign_state cr c (join bar (kind ∷ slug ∷ address ∷ exp ∷ []))) (
      rw
        (split-join bar kind (slug ∷ address ∷ exp ∷ [])
          (k, (s, (a, (has_byte-format bar (now + ttl) (ground arith), tt)))))
        (rw (int_value-format (now + ttl) small) refl))

-- A session opened for a user who is there.
user_for-found :
    (mark i : Bytes) (now : ℕ) (e : Bytes) (st : Project) (u : User)
    → find_user (has_email e) st.users ≡ some u
    → user_for mark i now (email e) st ≡ (
      record st { users = update_users (is_user u.id) (confirm_address now (email e)) st.users },
      u.id,
    )
unfolding user_for
user_for-found mark i now e st u found = rw found refl

verify_link-found :
    (cr : Crypto) (i : Bytes) (m : Mint) (now : ℕ) (token e : Bytes) (st : Project) (u : User)
    → parse_auth_token cr now token kind_magiclink st.slug ≡ some e
    → find_user (has_email e) st.users ≡ some u
    → m.inserts ≡ true
    → (verify_link cr i m now token st).1 ≡ signed_in u.id
unfolding verify_link open_session issue_tokens
verify_link-found cr i m now token e st u parsed found works =
    rw parsed (rw (user_for-found kind_magiclink i now e st u found) (rw works refl))

verify_link-state :
    (cr : Crypto) (i : Bytes) (m : Mint) (now : ℕ) (token e : Bytes) (st : Project) (u : User)
    → parse_auth_token cr now token kind_magiclink st.slug ≡ some e
    → find_user (has_email e) st.users ≡ some u
    → ((verify_link cr i m now token st).0.users
        ≡ update_users (is_user u.id) (confirm_address now (email e)) st.users)
      × ((verify_link cr i m now token st).0.slug ≡ st.slug)
unfolding verify_link open_session issue_tokens
verify_link-state cr i m now token e st u parsed found = (
  rw parsed (rw (user_for-found kind_magiclink i now e st u found) refl),
  rw parsed (rw (user_for-found kind_magiclink i now e st u found) refl),
)

-- A sign-in link opens a session each time that it is followed before it expires, and not once: no
-- step takes the token back.
pub verify_link_repeats :
    (cr : Crypto) (i i' : Bytes) (m m' : Mint) (now later : ℕ) (token e : Bytes) (st : Project)
    (u : User)
    → parse_auth_token cr now token kind_magiclink st.slug ≡ some e
    → parse_auth_token cr later token kind_magiclink st.slug ≡ some e
    → find_user (has_email e) st.users ≡ some u
    → m.inserts ≡ true
    → m'.inserts ≡ true
    → ((verify_link cr i m now token st).1 ≡ signed_in u.id)
      × ((verify_link cr i' m' later token (verify_link cr i m now token st).0).1 ≡ signed_in u.id)
verify_link_repeats cr i i' m m' now later token e st u first second found works works' =
    let (users, slug) = verify_link-state cr i m now token e st u first found in
    let f = confirm_address now (email e) in
    let after = (verify_link cr i m now token st).0 in
    let self : is_user u.id u ≡ true = eqb_refl u.id in
    let kept = find_user-update_users (has_email e) (is_user u.id) f st.users u (λ v. refl) found in
    let there : find_user (has_email e) after.users ≡ some (f u) =
      rw users (kept ∙ (rw self refl)) in
    (
      verify_link-found cr i m now token e st u first found works,
      verify_link-found cr i' m' later token e after (f u) (rw slug second) there works',
    )
