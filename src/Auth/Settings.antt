-- ===== src/Auth/Settings.antt =====
-- The form of the auth settings, `saveAuthPolicy`.
use forgebase.Common.{
  ℕ, ◌*◌, Bool, true, false, not, ◌&&◌, ◌||◌, ◌≡◌, refl, Option, none, some, List, [], ◌∷◌, inl,
  inr, arith,
}
use forgebase.Common.Tests.{ltb, if◌then◌else◌, Bool-cases}
use forgebase.Common.Text.{Bytes, codes, eqb, has_prefix, trim_space}
use forgebase.Common.Split.{split}
use forgebase.Common.Decimal.{ℤ, pos, negsuc, parse_int}
use forgebase.Auth.Accounts.{Project, in_range, capped_rate, auth_policy, auth_rate_for}

-- The fields that the model keeps, and the two that are only checked.
pub record PolicyForm : Type 0 where
  pub ttl_min : Bytes
  pub min_pw : Bytes
  pub rate_limit : Bytes
  pub single_session : Bool
  pub leaked_check : Bool
  pub sms_webhook : Bytes
  pub redirects : Bytes

-- `none` where the text is no number in the range.
abbrev pub between : ℕ → ℕ → Option ℤ → Option ℕ
between lo hi none = none
between lo hi (some (negsuc n)) = none
between lo hi (some (pos n)) = if ltb n lo || ltb hi n then none else some n

abbrev is_https : Bytes → Bool
is_https e = eqb e [] || has_prefix e (codes "https://")

unfoldable pub are_https : List Bytes → Bool
unfolding trim_space has_prefix eqb
are_https [] = true
are_https (e ∷ es) = is_https (trim_space e) && are_https es

abbrev saved : PolicyForm → ℕ → ℕ → ℕ → Project → Project
saved f ttl least rate st = record st {
  config = record st.config {
    access_ttl_min = pos ttl;
    min_pw_len = pos least;
    rate_limit_per_min = pos rate;
    leaked_check = f.leaked_check;
  };
  single_session = f.single_session;
}

abbrev pub save_values : PolicyForm → Option ℕ → Option ℕ → Option ℕ → Project → Project × Bool
save_values f none least rate st = (st, false)
save_values f (some ttl) none rate st = (st, false)
save_values f (some ttl) (some least) none st = (st, false)
save_values f (some ttl) (some least) (some rate) st =
    if not (is_https (trim_space f.sms_webhook))
    then (st, false)
    else if not (are_https (split b',' (trim_space f.redirects)))
    then (st, false)
    else (saved f ttl least rate st, true)

unfoldable pub save_auth_policy : PolicyForm → Project → Project × Bool
unfolding parse_int are_https split trim_space
save_auth_policy f st =
    save_values f (between 5 1440 (parse_int f.ttl_min)) (between 6 72 (parse_int f.min_pw))
      (between 0 1000 (parse_int f.rate_limit)) st

between-in_range :
    (lo hi other n : ℕ) (z : Option ℤ) → between lo hi z ≡ some n → in_range lo hi other (pos n) ≡ n
between-in_range lo hi other n none e = absurd cc
between-in_range lo hi other n (some (negsuc k)) e = absurd cc
between-in_range lo hi other n (some (pos k)) e = ground arith

between-capped_rate : (n : ℕ) (z : Option ℤ) → between 0 1000 z ≡ some n → capped_rate (pos n) ≡ n
between-capped_rate n none e = absurd cc
between-capped_rate n (some (negsuc k)) e = absurd cc
between-capped_rate n (some (pos k)) e = ground arith

-- The settings that a form saves are those that the code reads from then on, with no clamping.
pub auth_policy-save_auth_policy :
    (f : PolicyForm) (st : Project) (ttl least rate : ℕ)
    → between 5 1440 (parse_int f.ttl_min) ≡ some ttl
    → between 6 72 (parse_int f.min_pw) ≡ some least
    → between 0 1000 (parse_int f.rate_limit) ≡ some rate
    → (save_auth_policy f st).1 ≡ true
    → (auth_policy (save_auth_policy f st).0.config ≡ (ttl * 60, least))
      × (auth_rate_for (save_auth_policy f st).0.config ≡ rate)
unfolding save_auth_policy auth_policy auth_rate_for
auth_policy-save_auth_policy f st ttl least rate a b c ok =
    let t = between-in_range 5 1440 60 ttl (parse_int f.ttl_min) a in
    let l = between-in_range 6 72 6 least (parse_int f.min_pw) b in
    let r = between-capped_rate rate (parse_int f.rate_limit) c in
    let h = rw (a, b, c) at ok in
    elim (Bool-cases (is_https (trim_space f.sms_webhook))) [
      | inr bad ↦ absurd (cc (rw bad at h))
      | inl good ↦
          let h1 = rw good at h in
          elim (Bool-cases (are_https (split b',' (trim_space f.redirects)))) [
            | inr bad ↦ absurd (cc (rw bad at h1))
            | inl fine ↦ (
              rw (a, b, c) (rw good (rw fine (rw t (rw l refl)))),
              rw (a, b, c) (rw good (rw fine r)),
            )
          ]
    ]
