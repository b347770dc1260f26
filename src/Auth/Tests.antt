-- ===== src/Auth/Tests.antt =====
-- The accounts' theorems on a concrete project. The digests are the identity, a password is its own
-- hash, and a token is its own subject.
use forgebase.Common.{
  inl, ℕ, ◌+◌, ◌-◌, ◌*◌, ◌≤◌, Bool, true, false, not, ◌&&◌, ◌||◌, ◌≡◌, ◌≢◌, refl, ◌⊎◌, Option, none,
  some, List, [], ◌∷◌, ◌++◌, arith,
}
use forgebase.Common.Tests.{ltb, if◌then◌else◌}
use forgebase.Common.Lists.{keep, All}
use forgebase.Common.Text.{
  Bytes, codes, eqb, eqb_iff, eqb-false, trim_space, trim_left, trim_prefix, has_prefix, strip,
  to_lower, has_byte,
}
use forgebase.Common.Decimal.{ℤ, pos}
use forgebase.Refresh.{Mint, issue_tokens}
use forgebase.Panel.{totp_verify}
use forgebase.Storage.Signed.{bar}
use forgebase.Auth.Accounts.{
  Crypto, User, OneTimeToken, RecoveryCode, Config, Project, auth_policy, auth_rate_for,
  normalize_email, normalize_phone, has_email, is_user, find_user, new_user, acknowledged,
  signed_in, open_session,
}
use forgebase.Auth.Links.{parse_auth_token, sign_auth_token}
use forgebase.Auth.Factors.{
  mfa_state, is_unused, try_recovery_code, enroll, disable, serve_auth_mfa,
}
use forgebase.Auth.OneTime.{
  Address, phone, email, is_for, find_code, count_failure, check_code, CodeDraw, send_code,
  code_row,
}
use forgebase.Auth.SignIn.{Answers, kind_magiclink, is_banned, is_set, token_password}
use forgebase.Auth.LinkTokens.{IsEncoding, parse_auth_token-sign_auth_token}
use forgebase.Auth.Admin.{admin_update}
use forgebase.Auth.Bans.{IsSignedOut, admin_update-IsSignedOut}
use forgebase.Auth.Password.{IsPastFactor, token_password-signed_in}
use forgebase.Auth.Enrolment.{tries, try_recovery_code_once, serve_auth_mfa-enroll}
use forgebase.Auth.Attempts.{Guess, guess, check_all, check_code_locked}
use forgebase.Auth.Emails.{IsKeyed}
use forgebase.Auth.Rows.{IsAddressed, IsSettled}
use forgebase.Auth.Calls.{
  Call, sign_up, put_user, enter_code, follow_link, send_invitation, add_user, remove_user,
  RemovesAll, serve_all, serve_all_lem,
}
use forgebase.Auth.Requests.{Op, ask, run, send_code-unthrottled}

-- An encoding without full stops: every byte a hundred places up.
abbrev shift : Bytes → Bytes
shift [] = []
shift (c ∷ s) = (c + 100) ∷ shift s

abbrev unshift : Bytes → Bytes
unshift [] = []
unshift (c ∷ s) = (c - 100) ∷ unshift s

abbrev toy : Crypto
toy = record {
  matches_hash = eqb;
  bcrypt = λ p. some p;
  sha = λ s. s;
  base32 = λ s. none;
  hmac = λ k s. s;
  encode = shift;
  decode = unshift;
  mac = λ s. [];
  subject = λ t. some t;
  role = λ t. none;
}

abbrev settings : Config
settings = record {
  access_ttl_min = pos 60;
  min_pw_len = pos 8;
  rate_limit_per_min = pos 30;
  anonymous = false;
  confirm_email = false;
  leaked_check = false;
}

abbrev ann : User
ann = record (new_user (codes "1") (some (codes "ann@x")) none (codes "secret12")) {
  totp_secret = codes "ABC";
  totp_enabled = true;
}

abbrev shop : Project
shop = record {
  slug = codes "shop";
  config = settings;
  users = ann ∷ [];
  one_time = [];
  recovery = record { user_id = codes "1"; code_hash = codes "aa"; used = false } ∷ [];
  tokens = [];
  single_session = false;
}

abbrev fine : Answers
fine = record {
  limited = false;
  captcha_ok = true;
  pwned = false;
  hook_refuses = false;
  sends = true;
  id = codes "2";
}

abbrev mint : Mint
mint = record { hash = codes "h"; new_family = codes "f"; inserts = true }

by_recovery :
    (token_password toy fine mint 100 (codes "Ann@x ") (codes "secret12") [] (codes "aa") shop).1
    ≡ signed_in (codes "1")
unfolding token_password normalize_email trim_space trim_left to_lower find_user eqb mfa_state
    totp_verify try_recovery_code open_session issue_tokens forgebase.Auth.Factors.second_factor
    forgebase.Common.Text.is_space
by_recovery = refl

token_password-signed_in_example :
    (u : User) × (find_user (has_email (normalize_email (codes "Ann@x "))) shop.users ≡ some u)
    × (codes "1" ≡ u.id)
    × (eqb u.encrypted_password (codes "secret12") ≡ true)
    × (is_banned u.banned_until 100 ≡ false)
    × ((shop.config.confirm_email ≡ false) ⊎ (is_set u.email_confirmed_at ≡ true))
    × IsPastFactor toy 100 u.id [] (codes "aa") shop
token_password-signed_in_example =
    token_password-signed_in toy mint 100 [] (codes "aa") shop fine (codes "Ann@x ")
      (codes "secret12") (codes "1") by_recovery

ann_by_id : find_user (is_user ann.id) shop.users ≡ some ann
unfolding find_user eqb
ann_by_id = refl

ann_by_email : find_user (has_email (normalize_email (codes "ann@x"))) shop.users ≡ some ann
unfolding find_user eqb normalize_email trim_space trim_left to_lower forgebase.Common.Text.is_space
ann_by_email = refl

ann_by_link : find_user (has_email (codes "ann@x")) shop.users ≡ some ann
unfolding find_user eqb
ann_by_link = refl

right_password : eqb ann.encrypted_password (codes "secret12") ≡ true
unfolding eqb
right_password = refl

serve_auth_mfa-enroll_example :
    (token_password toy fine mint 100
      (codes "ann@x")
      (codes "secret12")
      []
      []
      (serve_auth_mfa toy 100 (codes "1") (enroll (codes "NEW")) shop).0).1
    ≡ signed_in (codes "1")
serve_auth_mfa-enroll_example =
    serve_auth_mfa-enroll toy fine mint 100 (codes "1") (codes "NEW") (codes "ann@x")
      (codes "secret12") [] [] ann shop refl ann_by_id ann_by_email right_password refl refl refl
      refl refl

by_code : (serve_auth_mfa toy 100 (codes "1") (disable [] (codes "aa")) shop).1 ≡ acknowledged
unfolding serve_auth_mfa mfa_state find_user eqb totp_verify try_recovery_code trim_space trim_left
    forgebase.Auth.Factors.second_factor forgebase.Common.Text.is_space
by_code = refl

try_recovery_code_once_example :
    (try_recovery_code toy (codes "1") (codes "aa") (
      tries toy
        ((codes "2", codes "bb") ∷ [])
        (try_recovery_code toy (codes "1") (codes "aa") shop.recovery).0)).1
    ≡ false
try_recovery_code_once_example =
    try_recovery_code_once toy (codes "1") (codes "aa") ((codes "2", codes "bb") ∷ []) shop.recovery

-- One code is out, to a phone.
abbrev texted : Project
texted = record shop {
  one_time = code_row (codes "9") (phone (codes "+4912345")) (codes "123456") 90 ∷ [];
}

abbrev wrong : List Guess
wrong =
    (100, codes "a")
    ∷ (101, codes "b")
    ∷ (102, codes "c")
    ∷ (103, codes "d")
    ∷ (104, codes "e")
    ∷ []

abbrev others : List (Address × Guess)
others = (email (codes "ann@x"), (104, codes "f")) ∷ []

-- The guesses name neither an address nor a phone, and lock the code all the same.
check_code_locked_example :
    (check_code toy (codes "2") mint 105 (phone (codes "+4912345")) (codes "123456") (
      check_all toy (codes "2") mint others (guess toy (codes "2") mint (email []) wrong texted))).1
    ≡ forgebase.Auth.Accounts.Reply.refused 401
unfolding check_code find_code count_failure eqb
check_code_locked_example =
    check_code_locked toy (codes "2") mint (phone (codes "+4912345")) (email []) wrong others 105
      (codes "123456") texted (refl, (refl, (refl, (refl, (refl, tt))))) (omega arith)
      ((λ e. refl), tt)

abbrev draw : CodeDraw
draw = record { limited = false; id = codes "7"; code = codes "111111" }

abbrev asked : List Op
asked = ask draw 10 (email (codes "ann@x")) ∷ ask draw 11 (email (codes "ann@x")) ∷ []

named : codes "ann@x" ≢ []
unfolding eqb
named = eqb-false (codes "ann@x") [] refl

send_code-unthrottled_example :
    send_code toy draw 12 (email (codes "ann@x")) (run toy asked shop).one_time
    ≡ keep (λ t. not (is_for (email (codes "ann@x")) t)) (run toy asked shop).one_time
      ++ code_row (codes "7") (email (codes "ann@x")) (codes "111111") 12 ∷ []
send_code-unthrottled_example =
    send_code-unthrottled toy asked shop draw 12 (email (codes "ann@x")) (λ a n. omega arith) named

shift-plain : (p : Bytes) → has_byte b'.' (shift p) ≡ false
unfolding has_byte
shift-plain [] = refl
shift-plain (c ∷ p) = ground (arith, shift-plain p)

unshift-shift : (p : Bytes) → unshift (shift p) ≡ p
unshift-shift [] = refl
unshift-shift (c ∷ p) = ground (arith, unshift-shift p)

toy-IsEncoding : IsEncoding toy
toy-IsEncoding = record { plain = shift-plain; inverse = unshift-shift }

clean_texts :
    (has_byte bar kind_magiclink ≡ false)
    × (has_byte bar (codes "shop") ≡ false)
    × (has_byte bar (codes "ann@x") ≡ false)
unfolding has_byte
clean_texts = (refl, refl, refl)

abbrev link : Bytes
link = sign_auth_token toy 100 3600 kind_magiclink (codes "shop") (codes "ann@x")

parse_auth_token-sign_auth_token_example :
    parse_auth_token toy 200 link kind_magiclink (codes "shop") ≡ (
      if not (eqb kind_magiclink kind_magiclink) || not (eqb (codes "shop") (codes "shop"))
      then none
      else if ltb 3700 200
      then none
      else some (codes "ann@x"))
parse_auth_token-sign_auth_token_example =
    parse_auth_token-sign_auth_token toy toy-IsEncoding 100 3600 200 kind_magiclink (codes "shop")
      (codes "ann@x") kind_magiclink (codes "shop") clean_texts.0 clean_texts.1 clean_texts.2
      (omega arith)

read_at :
    (later : ℕ)
    → later ≤ 3700
    → parse_auth_token toy later link kind_magiclink (codes "shop") ≡ some (codes "ann@x")
read_at later le = ground (
  arith,
  parse_auth_token-sign_auth_token toy toy-IsEncoding 100 3600 later kind_magiclink (codes "shop")
      (codes "ann@x") kind_magiclink (codes "shop") clean_texts.0 clean_texts.1 clean_texts.2
      (omega arith),
  eqb_iff kind_magiclink kind_magiclink,
  eqb_iff (codes "shop") (codes "shop"),
)

-- A duration of one day, whatever the text.
abbrev a_day : Bytes → Option ℤ
a_day s = some (pos 86400)

abbrev dur : Bytes
dur = codes "24h"

durations : (dur ≢ []) × (dur ≢ codes "none") × (dur ≢ codes "0")
unfolding eqb
durations =
    (eqb-false dur [] refl, eqb-false dur (codes "none") refl, eqb-false dur (codes "0") refl)

admin_update-IsSignedOut_example :
    ((uid : Bytes)
      → (token_password toy fine mint 500
          (codes "ann@x")
          (codes "secret12")
          []
          (codes "aa")
          (admin_update toy a_day 100 (codes "1") [] dur shop).0).1
        ≢ signed_in uid)
    × IsSignedOut (codes "1") (admin_update toy a_day 100 (codes "1") [] dur shop).0.tokens
admin_update-IsSignedOut_example =
    admin_update-IsSignedOut toy a_day 100 86400 (codes "1") dur shop durations.0 durations.1
      durations.2 refl fine mint 500 (codes "ann@x") (codes "secret12") [] (codes "aa") ann
      ann_by_email refl (omega arith)

-- Two sign-ups with one address, an invitation, an upgrade, a link and a removal.
abbrev calls : List Call
calls =
    sign_up fine mint 100 (codes "Bo@x") (codes "secret34")
    ∷ sign_up fine mint 101 (codes "bo@x ") (codes "secret56")
    ∷ send_invitation fine [] [] (codes "cy@x")
    ∷ put_user fine 102 (codes "2") (codes "ann@x") (codes "secret78")
    ∷ enter_code (codes "3") mint 103 (phone (codes "+4912345")) (codes "123456")
    ∷ follow_link (codes "4") mint 104 (codes "a.b")
    ∷ add_user (codes "5") (codes "di@x") (codes "secret90")
    ∷ remove_user (codes "1")
    ∷ []

not_one : codes "1" ≢ codes "9"
not_one = eqb-false (codes "1") (codes "9") (unfold eqb in refl)

not_ann : codes "ann@x" ≢ codes "bo@y"
not_ann = eqb-false (codes "ann@x") (codes "bo@y") (unfold eqb in refl)

-- Ann is removed, so the user who stays is Bo, who signed up before.
abbrev bo : User
bo = new_user (codes "9") (some (codes "bo@y")) none (codes "secret12")

abbrev both : Project
both = record shop { users = ann ∷ bo ∷ [] }

both-IsKeyed : IsKeyed both.users
unfolding eqb
both-IsKeyed = (
  (λ e. ground (arith, eqb_iff (codes "ann@x") e, eqb_iff (codes "bo@y") e, not_ann)),
  (λ i. ground (arith, eqb_iff (codes "1") i, eqb_iff (codes "9") i, not_one)),
)

both-IsAddressed : All IsAddressed both.users
unfolding has_byte
both-IsAddressed = (inl refl, (inl refl, tt))

bo-IsSettled : IsSettled (codes "9") (some (codes "bo@y")) (codes "secret12") both.users
unfolding eqb
bo-IsSettled = (refl, ((λ m. absurd cc), ((λ m. (refl, refl, refl)), tt)))

nine_stays : RemovesAll (λ id. id ≢ codes "9") calls
nine_stays = (tt, (tt, (tt, (tt, (tt, (tt, (tt, (not_one, tt))))))))

serve_all_lem_example :
    IsKeyed (serve_all toy calls both).users
    × All IsAddressed (serve_all toy calls both).users
    × IsSettled
        (codes "9")
        (some (codes "bo@y"))
        (codes "secret12")
        (serve_all toy calls both).users
serve_all_lem_example =
    serve_all_lem toy calls both (codes "9") (some (codes "bo@y")) (codes "secret12") both-IsKeyed
      both-IsAddressed bo-IsSettled nine_stays
