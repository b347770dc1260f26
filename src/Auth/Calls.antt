-- ===== src/Auth/Calls.antt =====
-- Any sequence of calls of the handlers of pgforge/authusers.go that write `auth.users`.
use forgebase.Common.{ℕ, ◌≢◌, Option, List, [], ◌∷◌}
use forgebase.Common.Lists.{All}
use forgebase.Common.Text.{Bytes}
use forgebase.Refresh.{Mint}
use forgebase.Auth.Accounts.{Crypto, User, Project}
use forgebase.Auth.Links.{parse_auth_token}
use forgebase.Auth.OneTime.{Address, check_code}
use forgebase.Auth.SignIn.{
  Answers, signup, upgrade, kind_magiclink, kind_confirm, verify_link, invite,
}
use forgebase.Auth.Admin.{add_auth_user, admin_delete}
use forgebase.Auth.Emails.{IsKeyed}
use forgebase.Auth.Rows.{IsAddressed, Preserved, keyed, addressed, IsSettled, settled}
use forgebase.Auth.Handlers.{
  signup-IsSound, upgrade_as-IsSound, check_code-IsSound, magic_link-IsSound, invite-IsSound,
  add_auth_user-IsSound, kept-IsSound,
}

-- A call of a handler that adds a user, removes one or gives one an address.
pub data Call : Type 0 where
  sign_up : Answers → Mint → ℕ → Bytes → Bytes → Call
  put_user : Answers → ℕ → Bytes → Bytes → Bytes → Call
  enter_code : Bytes → Mint → ℕ → Address → Bytes → Call
  follow_link : Bytes → Mint → ℕ → Bytes → Call
  send_invitation : Answers → Bytes → Bytes → Bytes → Call
  add_user : Bytes → Bytes → Bytes → Call
  remove_user : Bytes → Call

-- A removal takes a user whose id is in `Removable`.
abbrev pub Removes : (Bytes → Type 0) → Call → Type 0
Removes Removable (remove_user id) = Removable id
Removes Removable _ = Unit

abbrev pub RemovesAll : (Bytes → Type 0) → List Call → Type 0
RemovesAll Removable [] = Unit
RemovesAll Removable (c ∷ cs) = Removes Removable c × RemovesAll Removable cs

module _ (cr : Crypto) where
  abbrev pub apply_call : Call → Project → Project
  apply_call (sign_up n m now e password) st = (signup cr n m now e password st).0
  apply_call (put_user n now token e password) st = (upgrade cr n now token e password st).0
  apply_call (enter_code i m now a token) st = (check_code cr i m now a token st).0
  apply_call (follow_link i m now token) st = (verify_link cr i m now token st).0
  apply_call (send_invitation n apikey authorization e) st =
      (invite cr n apikey authorization e st).0
  apply_call (add_user id e password) st = (add_auth_user cr id e password st).0
  apply_call (remove_user id) st = admin_delete id st

  abbrev pub serve_all : List Call → Project → Project
  serve_all [] st = st
  serve_all (c ∷ cs) st = serve_all cs (apply_call c st)

module _ (P : List User → Type 0) (Removable : Bytes → Type 0) (w : Preserved P Removable) where
  module _ (cr : Crypto) where
    apply_call-IsSound :
        (c : Call) (st : Project) → Removes Removable c → P st.users → P (apply_call cr c st).users
    unfolding upgrade verify_link admin_delete
    apply_call-IsSound (sign_up n m now e password) st r s =
        kept-IsSound P Removable w _ (signup-IsSound P Removable w cr n m now e password st s)
    apply_call-IsSound (put_user n now token e password) st r s =
        kept-IsSound P Removable w _
          (upgrade_as-IsSound P Removable w cr n now e password (cr.subject token) st s)
    apply_call-IsSound (enter_code i m now a token) st r s =
        kept-IsSound P Removable w _ (check_code-IsSound P Removable w cr i m now a token st s)
    apply_call-IsSound (follow_link i m now token) st r s = kept-IsSound P Removable w _ (
        magic_link-IsSound P Removable w i m now
          (parse_auth_token cr now token kind_magiclink st.slug)
          (parse_auth_token cr now token kind_confirm st.slug) st s)
    apply_call-IsSound (send_invitation n apikey authorization e) st r s =
        kept-IsSound P Removable w _ (invite-IsSound P Removable w cr n apikey authorization e st s)
    apply_call-IsSound (add_user id e password) st r s =
        kept-IsSound P Removable w _ (add_auth_user-IsSound P Removable w cr id e password st s)
    apply_call-IsSound (remove_user id) st r s = w.removes id st.users r s

    serve_all-IsSound :
        (cs : List Call) (st : Project)
        → RemovesAll Removable cs
        → P st.users
        → P (serve_all cr cs st).users
    serve_all-IsSound [] st r s = s
    serve_all-IsSound (c ∷ cs) st (r, rs) s =
        serve_all-IsSound cs (apply_call cr c st) rs (apply_call-IsSound c st r s)

any_removal : (cs : List Call) → RemovesAll (λ id. Unit) cs
any_removal [] = tt
any_removal (remove_user id ∷ cs) = (tt, any_removal cs)
any_removal (sign_up n m now e password ∷ cs) = (tt, any_removal cs)
any_removal (put_user n now token e password ∷ cs) = (tt, any_removal cs)
any_removal (enter_code i m now a token ∷ cs) = (tt, any_removal cs)
any_removal (follow_link i m now token ∷ cs) = (tt, any_removal cs)
any_removal (send_invitation n apikey authorization e ∷ cs) = (tt, any_removal cs)
any_removal (add_user id e password ∷ cs) = (tt, any_removal cs)

-- Any sequence of sign-ups, upgrades of anonymous accounts, codes, followed links, invitations,
-- additions and removals keeps three things: no two users have one id or one address; every address
-- holds an "@", but for those of rows that a code or a link made; and a user who is not anonymous
-- and is not removed stays so, with the same address and password.
pub serve_all_lem :
    (cr : Crypto) (cs : List Call) (st : Project) (i : Bytes) (e : Option Bytes) (h : Bytes)
    → IsKeyed st.users
    → All IsAddressed st.users
    → IsSettled i e h st.users
    → RemovesAll (λ id. id ≢ i) cs
    → IsKeyed (serve_all cr cs st).users
      × All IsAddressed (serve_all cr cs st).users
      × IsSettled i e h (serve_all cr cs st).users
serve_all_lem cr cs st i e h k a s r = (
  serve_all-IsSound IsKeyed (λ id. Unit) keyed cr cs st (any_removal cs) k,
  serve_all-IsSound (All IsAddressed) (λ id. Unit) addressed cr cs st (any_removal cs) a,
  serve_all-IsSound (IsSettled i e h) (λ id. id ≢ i) (settled i e h) cr cs st r s,
)
