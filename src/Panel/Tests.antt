-- ===== src/Panel/Tests.antt =====
-- Sign-in on concrete accounts. The digest and the encoding of names are the identity.
use forgebase.Common.{◌≡◌, ◌⊎◌, refl, Bool, true, false, Option, some, [], ◌∷◌, ◌++◌, arith}
use forgebase.Common.Text.{
  Bytes, codes, eqb, until, has_byte, trim_space, trim_left, is_space, to_lower,
}
use forgebase.Common.Map.{lookup, remove}
use forgebase.Limiter.{new, rate_limited, acct_locked, sweep, times, account_key}
use forgebase.Storage.Signed.{bar, full_stop}
use forgebase.Panel.{
  User, Panel, colon, set_session, session_name, preauth_token, parse_preauth, totp_at, six_digits,
  digits_onto, truncated, plain_secret,
}
use forgebase.Panel.Sessions.{older, session_name-set_session, session_name_revived}
use forgebase.Panel.Codes.{parse_preauth-preauth_token}
use forgebase.Panel.Login.{
  Env, Visit, signed_in, find_user, user_totp, login_submit, totp_submit, Entered,
  login_submit-signed_in, totp_submit-signed_in,
}

abbrev same : Bytes → Bytes
same s = s

-- A digest that is always the same, and a decoding that stops at the ":".
abbrev digest : Bytes → Bytes
digest s = codes "0a"

abbrev decode : Bytes → Bytes
decode s = until colon s

abbrev ann : Bytes
ann = codes "ann"

abbrev row : Bytes
row = codes "5f"

ann-clean : has_byte full_stop ann ≡ false
unfolding has_byte
ann-clean = refl

row-clean : has_byte full_stop row ≡ false
unfolding has_byte
row-clean = refl

session_name-set_session_example :
    session_name digest same 200
      ((row, 43300) ∷ [])
      (set_session digest same 100 ann false row []).1
    ≡ some ann
unfolding lookup eqb
session_name-set_session_example =
    session_name-set_session digest same same ann row ann-clean row-clean 100 200 false []
      ((row, 43300) ∷ []) refl (omega arith)

cut_back : decode (ann ++ colon ∷ row) ≡ ann
unfolding until
cut_back = refl

digest-clean : has_byte full_stop (digest []) ≡ false
unfolding has_byte
digest-clean = refl

session_name_revived_example :
    session_name digest decode 200 [] (older digest same ann 43300 row) ≡ some ann
session_name_revived_example =
    session_name_revived digest same decode ann row ann-clean row-clean 43300 200 [] cut_back
      digest-clean (omega arith)

no_bar : has_byte bar ann ≡ false
unfolding has_byte
no_bar = refl

digest_no_bar : has_byte bar (digest []) ≡ false
unfolding has_byte
digest_no_bar = refl

a_bar : has_byte bar (codes "a|b") ≡ true
unfolding has_byte
a_bar = refl

abbrev base32 : Bytes → Option Bytes
base32 s = some s

abbrev hmac : Bytes → Bytes → Bytes
hmac key message = message ++ key

shown : totp_at base32 hmac (codes "AF") 60 ≡ some (codes "147782")
unfolding totp_at plain_secret trim_space trim_left is_space truncated six_digits digits_onto
shown = refl

typed_code : trim_space (codes " 147782") ≡ codes "147782"
unfolding trim_space trim_left is_space
typed_code = refl

abbrev env : Env
env = record {
  mac = digest;
  encode = same;
  accepts = λ hash pass. eqb hash pass;
  verifies = λ secret code now. eqb secret code;
  panel_user = codes "root";
  panel_pass = codes "toor";
}

abbrev visit : Visit
visit = record { ip = codes "10.0.0.7"; nanos = 5; now = 100; sid = row }

abbrev account : Bytes → User
account secret = record {
  name = ann;
  email = codes "ann@x.io";
  pass_hash = codes "pw";
  totp_secret = secret;
  totp_enabled = true;
}

abbrev panel : Bytes → Panel
panel secret = record { limiter = new; sessions = []; users = account secret ∷ [] }

entered :
    (login_submit env visit ann (codes "pw") false (panel [])).1
    ≡ signed_in ann (set_session digest same 100 ann false row []).1
unfolding login_submit rate_limited times sweep new lookup remove eqb find_user to_lower acct_locked
    account_key trim_space trim_left set_session
entered = refl

login_submit-signed_in_example :
    ((rate_limited 5 (codes "10.0.0.7") new).1 ≡ false)
    × (((ann ≡ codes "root") × (codes "pw" ≡ codes "toor") × (ann ≡ codes "root"))
        ⊎ Entered env visit ann (codes "pw") (panel []) ann)
login_submit-signed_in_example =
    login_submit-signed_in env visit (panel []) ann (set_session digest same 100 ann false row []).1
      ann (codes "pw") false entered

finished :
    (totp_submit env visit
      (preauth_token digest 90 ann false)
      (codes "123456")
      (panel (codes "123456"))).1
    ≡ signed_in ann (set_session digest same 100 ann false row []).1
unfolding totp_submit rate_limited times sweep new lookup remove eqb user_totp acct_locked
    account_key
finished =
    rw (parse_preauth-preauth_token digest ann false 90 100 no_bar digest_no_bar (omega arith)) refl

totp_submit-signed_in_example :
    ((rate_limited 5 (codes "10.0.0.7") new).1 ≡ false)
    × ((remember : Bool) × (parse_preauth digest 100 (preauth_token digest 90 ann false)
          ≡ some (ann, remember)))
    × ((acct_locked 5 ann (rate_limited 5 (codes "10.0.0.7") new).0).1 ≡ false)
    × ((user_totp ann (panel (codes "123456")).users ≡ [])
        ⊎ (eqb (user_totp ann (panel (codes "123456")).users) (codes "123456") ≡ true))
totp_submit-signed_in_example =
    totp_submit-signed_in env visit (panel (codes "123456")) ann
      (set_session digest same 100 ann false row []).1 (preauth_token digest 90 ann false)
      (codes "123456") finished
