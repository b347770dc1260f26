-- ===== src/Auth/Handlers.antt =====
-- The handlers of pgforge/authusers.go that write `auth.users`, held to an interface.
use forgebase.Common.{ℕ, true, false, not, ◌≡◌, refl, Option, none, some, List, inl, inr, arith}
use forgebase.Common.Tests.{Bool-cases, Option-cases}
use forgebase.Common.Lists.{keep}
use forgebase.Common.Text.{Bytes, codes, eqb, has_byte}
use forgebase.Refresh.{Mint}
use forgebase.Auth.Accounts.{
  Crypto, User, Project, hash_password, normalize_email, has_email, is_user, find_user, insert_user,
  new_user, open_session, refused, acknowledged, pending,
}
use forgebase.Auth.OneTime.{
  Address, phone, email, confirm_address, marked_user, has_address, found_or_new, user_for,
  session_for, is_usable, find_code, check_code,
}
use forgebase.Auth.SignIn.{
  Answers, anonymous_user, anonymous_row, signup_anonymous, created, create_with, signup, taken,
  is_anonymous_user, upgrade_with, upgrade_as, confirm_email_of, is_set, magic_link, kind_magiclink,
  invited, invite,
}
use forgebase.Auth.Admin.{add_hashed, add_auth_user}
use forgebase.Auth.Rows.{IsMark, IsAddressed, IsAside, Preserved, settled}

confirm_address-IsAside : (now : ℕ) (a : Address) → IsAside (confirm_address now a)
confirm_address-IsAside now (phone p) u = (refl, refl, refl, refl)
confirm_address-IsAside now (email e) u = (refl, refl, refl, refl)

confirm_email_of-IsAside : (now : ℕ) → IsAside (confirm_email_of now)
confirm_email_of-IsAside now u = elim (Bool-cases (is_set u.email_confirmed_at)) [
  | inl e ↦ rw e (refl, refl, refl, refl)
  | inr e ↦ rw e (refl, refl, refl, refl)
]

marked_user-IsAddressed :
    (mark i : Bytes) (now : ℕ) (a : Address) → IsMark mark → IsAddressed (marked_user mark i now a)
marked_user-IsAddressed mark i now (phone p) h = tt
marked_user-IsAddressed mark i now (email e) h = inr h

module _ (P : List User → Type 0) (Removable : Bytes → Type 0) (w : Preserved P Removable) where
  abbrev IsSound : Project → Type 0
  IsSound st = P st.users

  -- A handler's result, with the table that it leaves.
  pub IsKept : {A : Type 0} → Project × A → Type 0
  IsKept (st, a) = IsSound st

  leaf : {A : Type 0} (st : Project) (a : A) → IsSound st → IsKept (st, a)
  unfolding IsKept
  leaf st a s = s

  pub kept-IsSound : {A : Type 0} (r : Project × A) → IsKept r → IsSound r.0
  unfolding IsKept
  kept-IsSound (st, a) k = k

  open_session-IsSound :
      (m : Mint) (now : ℕ) (uid : Bytes) (st : Project)
      → IsSound st
      → IsKept (open_session m now uid st)
  unfolding open_session
  open_session-IsSound m now uid st s = leaf _ _ s

  anonymous_row-IsSound :
      (n : Answers) (m : Mint) (now : ℕ) (st : Project)
      → IsSound st
      → IsKept (anonymous_row n m now (insert_user (anonymous_user n.id now) st.users) st)
  anonymous_row-IsSound n m now st s =
      elim (Option-cases (insert_user (anonymous_user n.id now) st.users)) [
        | inl e ↦ rw e (leaf _ _ s)
        | inr (us, e) ↦
            let k : P us = w.insert (anonymous_user n.id now) st.users us tt s e in
            rw e (open_session-IsSound m now n.id (record st { users = us }) k)
      ]

  signup_anonymous-IsSound :
      (n : Answers) (m : Mint) (now : ℕ) (st : Project)
      → IsSound st
      → IsKept (signup_anonymous n m now st)
  unfolding signup_anonymous
  signup_anonymous-IsSound n m now st s =
      ground (arith, leaf st (refused 403) s, anonymous_row-IsSound n m now st s)

  created-IsSound :
      (n : Answers) (m : Mint) (now : ℕ) (e : Bytes) (us : List User) (st : Project)
      → P us
      → P (keep (λ u. not (is_user n.id u)) us)
      → IsKept (created n m now e (some us) st)
  created-IsSound n m now e us st k gone =
      let after : Project = record st { users = us } in
      let without = keep (λ u. not (is_user n.id u)) us in
      let fails = leaf (record st { users = without }) (refused 500) gone in
      ground (arith, fails, leaf after (pending n.id) k, open_session-IsSound m now n.id after k)

  create_with-IsSound :
      (n : Answers) (m : Mint) (now : ℕ) (e : Bytes) (hash : Option Bytes) (st : Project)
      → has_byte b'@' e ≡ true
      → IsSound st
      → IsKept (create_with n m now e hash st)
  create_with-IsSound n m now e none st at s = leaf st (refused 400) s
  create_with-IsSound n m now e (some hash) st at s =
      let row = new_user n.id (some e) none hash in
      let t = leaf st (refused 400) s in
      elim (Option-cases (insert_user row st.users)) [
        | inl i ↦ rw i (ground (arith, t))
        | inr (us, i) ↦
            let k : P us = w.insert row st.users us (inl at) s i in
            let gone = w.discard row st.users us (inl at) s i in
            rw i (ground (arith, t, created-IsSound n m now e us st k gone))
      ]

  pub signup-IsSound :
      (cr : Crypto) (n : Answers) (m : Mint) (now : ℕ) (e password : Bytes) (st : Project)
      → IsSound st
      → IsKept (signup cr n m now e password st)
  unfolding signup
  signup-IsSound cr n m now form_email password st s =
      let r = leaf st (refused 429) s in
      let t = leaf st (refused 400) s in
      let e = normalize_email form_email in
      let anon = signup_anonymous-IsSound n m now st s in
      elim (Bool-cases (has_byte b'@' e)) [
        | inl at ↦
            let make = create_with-IsSound n m now e (hash_password cr password) st at s in
            ground (arith, r, t, anon, make)
        | inr bad ↦ ground (arith, r, t, anon, bad)
      ]

  upgrade_with-IsSound :
      (now : ℕ) (uid e : Bytes) (hash : Option Bytes) (st : Project)
      → is_anonymous_user (find_user (is_user uid) st.users) ≡ true
      → has_byte b'@' e ≡ true
      → IsSound st
      → IsKept (upgrade_with now uid e hash st)
  upgrade_with-IsSound now uid e none st o at s = leaf _ _ s
  upgrade_with-IsSound now uid e (some hash) st o at s = elim (Bool-cases (taken e uid st.users)) [
    | inl t ↦ rw t (leaf _ _ s)
    | inr t ↦ rw t (leaf _ _ (w.upgrades e uid hash _ st.users o at t s))
  ]

  pub upgrade_as-IsSound :
      (cr : Crypto) (n : Answers) (now : ℕ) (e password : Bytes) (uid : Option Bytes) (st : Project)
      → IsSound st
      → IsKept (upgrade_as cr n now e password uid st)
  upgrade_as-IsSound cr n now e password none st s = leaf st (refused 401) s
  upgrade_as-IsSound cr n now e password (some uid) st s =
      let t = leaf st (refused 400) s in
      elim (Bool-cases (is_anonymous_user (find_user (is_user uid) st.users))) [
        | inr settled ↦ ground (arith, t, settled)
        | inl o ↦ elim (Bool-cases (has_byte b'@' (normalize_email e))) [
          | inr bad ↦ ground (arith, t, bad)
          | inl at ↦
              let make =
                upgrade_with-IsSound now uid (normalize_email e) (hash_password cr password) st o at
                  s in
              ground (arith, t, make)
        ]
      ]

  found_or_new-IsSound :
      (mark : Bytes) (o : Option User) (i : Bytes) (now : ℕ) (a : Address) (st : Project)
      → IsMark mark
      → IsSound st
      → IsKept (found_or_new mark o i now a st)
  found_or_new-IsSound mark (some u) i now a st h s =
      leaf _ _
        (w.aside (is_user u.id) (confirm_address now a) st.users (confirm_address-IsAside now a) s)
  found_or_new-IsSound mark none i now a st h s =
      let row = marked_user mark i now a in
      elim (Option-cases (insert_user row st.users)) [
        | inl e ↦ rw e (leaf _ _ s)
        | inr (us, e) ↦
            rw e (leaf _ _ (w.insert row st.users us (marked_user-IsAddressed mark i now a h) s e))
      ]

  user_for-IsSound :
      (mark i : Bytes) (now : ℕ) (a : Address) (st : Project)
      → IsMark mark
      → IsSound st
      → IsKept (user_for mark i now a st)
  unfolding user_for
  user_for-IsSound mark i now a st h s =
      found_or_new-IsSound mark (find_user (has_address a) st.users) i now a st h s

  session_for-IsSound :
      (a : Address) (m : Mint) (now : ℕ) (r : Project × Bytes)
      → IsKept r
      → IsKept (session_for a m now r)
  session_for-IsSound (phone p) m now (st, uid) k =
      let s = kept-IsSound (st, uid) k in
      ground (arith, leaf st (refused 500) s, open_session-IsSound m now uid st s)
  session_for-IsSound (email e) m now (st, uid) k =
      open_session-IsSound m now uid st (kept-IsSound (st, uid) k)

  pub check_code-IsSound :
      (cr : Crypto) (i : Bytes) (m : Mint) (now : ℕ) (a : Address) (token : Bytes) (st : Project)
      → IsSound st
      → IsKept (check_code cr i m now a token st)
  unfolding check_code
  check_code-IsSound cr i m now a token st s =
      elim (Option-cases (find_code (is_usable now a (cr.sha token)) st.one_time)) [
        | inl e ↦ rw e (leaf _ _ s)
        | inr (t, e) ↦
            let left : Project = record st {
              one_time = keep (λ u. not (eqb u.id t.id)) st.one_time;
            } in
            rw e (
              session_for-IsSound a m now (user_for (codes "otp") i now a left)
                (user_for-IsSound (codes "otp") i now a left (inl refl) s))
      ]

  pub magic_link-IsSound :
      (i : Bytes) (m : Mint) (now : ℕ) (magic confirm : Option Bytes) (st : Project)
      → IsSound st
      → IsKept (magic_link i m now magic confirm st)
  magic_link-IsSound i m now (some e) confirm st s =
      let r = user_for kind_magiclink i now (email e) st in
      open_session-IsSound m now r.1 r.0
        (kept-IsSound r (user_for-IsSound kind_magiclink i now (email e) st (inr refl) s))
  magic_link-IsSound i m now none none st s = leaf _ _ s
  magic_link-IsSound i m now none (some e) st s =
      leaf _ _
        (w.aside (has_email e) (confirm_email_of now) st.users (confirm_email_of-IsAside now) s)

  invited-IsSound :
      (row : User) (st : Project)
      → IsAddressed row
      → IsSound st
      → IsSound (invited (insert_user row st.users) st)
  invited-IsSound row st a s = elim (Option-cases (insert_user row st.users)) [
    | inl e ↦ rw e s
    | inr (us, e) ↦ rw e (w.insert row st.users us a s e)
  ]

  pub invite-IsSound :
      (cr : Crypto) (n : Answers) (apikey authorization e : Bytes) (st : Project)
      → IsSound st
      → IsKept (invite cr n apikey authorization e st)
  unfolding invite
  invite-IsSound cr n apikey authorization e st s =
      let row = new_user n.id (some (normalize_email e)) none (codes "invited") in
      let added = invited (insert_user row st.users) st in
      let t = leaf st (refused 400) s in
      let no_key = leaf st (refused 401) s in
      elim (Bool-cases (has_byte b'@' (normalize_email e))) [
        | inr bad ↦ ground (arith, t, no_key, bad)
        | inl at ↦
            let k = invited-IsSound row st (inl at) s in
            ground (arith, t, no_key, leaf added acknowledged k, leaf added (refused 500) k)
      ]

  add_hashed-IsSound :
      (id e : Bytes) (hash : Option Bytes) (st : Project)
      → has_byte b'@' e ≡ true
      → IsSound st
      → IsKept (add_hashed id e hash st)
  add_hashed-IsSound id e none st at s = leaf _ _ s
  add_hashed-IsSound id e (some hash) st at s =
      elim (Option-cases (insert_user (new_user id (some e) none hash) st.users)) [
        | inl i ↦ rw i (leaf _ _ s)
        | inr (us, i) ↦
            rw i (leaf _ _ (w.insert (new_user id (some e) none hash) st.users us (inl at) s i))
      ]

  pub add_auth_user-IsSound :
      (cr : Crypto) (id e password : Bytes) (st : Project)
      → IsSound st
      → IsKept (add_auth_user cr id e password st)
  unfolding add_auth_user
  add_auth_user-IsSound cr id e password st s =
      let no = leaf st false s in
      elim (Bool-cases (has_byte b'@' (normalize_email e))) [
        | inr bad ↦ ground (arith, no, bad)
        | inl at ↦
            let make =
              add_hashed-IsSound id (normalize_email e) (hash_password cr password) st at s in
            ground (arith, no, make)
      ]
