-- ===== src/Auth/Attempts.antt =====
-- Guessing a one-time code.
use mathlib.Core.Path.{subst}
use forgebase.Common.{
  ℕ, suc, ◌+◌, ◌≤◌, Bool, true, false, not, ◌≡◌, refl, sym, ap, ◌∙◌, none, List, [], ◌∷◌, inl, inr,
  arith,
}
use forgebase.Common.Tests.{Bool-cases, Option-cases}
use forgebase.Common.Lists.{length, All, keep}
use forgebase.Common.Text.{Bytes, codes, eqb}
use forgebase.Refresh.{Mint}
use forgebase.Auth.Accounts.{
  Crypto, OneTimeToken, Project, refused, find_user, insert_user, open_session,
}
use forgebase.Auth.OneTime.{
  Address, phone, email, is_for, is_usable, find_code, failed_once, count_failure, check_code,
  marked_user, has_address, user_for, session_for,
}

-- A guess: the code that is tried, when, and the id of the user that a right one makes.
abbrev pub Guess : Type 0
Guess = ℕ × Bytes

-- Every row of `a` has been tried `n` times.
abbrev pub IsTried : ℕ → Address → List OneTimeToken → Type 0
IsTried n a = All (λ t. is_for a t ≡ true → n ≤ t.attempts)

-- The rows of `a` are among those of `b`.
abbrev pub IsWithin : Address → Address → List OneTimeToken → Type 0
IsWithin a b = All (λ t. is_for a t ≡ true → is_for b t ≡ true)

pub is_for-failed_once : (a : Address) (t : OneTimeToken) → is_for a (failed_once t) ≡ is_for a t
is_for-failed_once (phone p) t = refl
is_for-failed_once (email e) t = refl

count_failure-IsTried :
    (n : ℕ) (a b : Address) (ts : List OneTimeToken)
    → IsWithin a b ts
    → IsTried n a ts
    → IsTried (suc n) a (count_failure b ts) × IsWithin a b (count_failure b ts)
unfolding count_failure
count_failure-IsTried n a b [] w h = (tt, tt)
count_failure-IsTried n a b (t ∷ ts) (w, ws) (h, hs) =
    let (rest, within) = count_failure-IsTried n a b ts ws hs in
    elim (Bool-cases (is_for b t)) [
      | inl on ↦ rw on (
        ((λ e. let q = h (sym (is_for-failed_once a t) ∙ e) in omega (arith, q)), rest),
        ((λ e. is_for-failed_once b t ∙ on), within),
      )
      | inr off ↦ rw off (((λ e. absurd (ground (arith, off, w e))), rest), (w, within))
    ]

-- A code that was tried five times is not usable.
find_code-tried :
    (now : ℕ) (a : Address) (h : Bytes) (ts : List OneTimeToken)
    → IsTried 5 a ts
    → find_code (is_usable now a h) ts ≡ none
unfolding find_code
find_code-tried now a h [] q = refl
find_code-tried now a h (t ∷ ts) (q, qs) =
    let e : is_usable now a h t ≡ false = elim (Bool-cases (is_for a t)) [
      | inl on ↦ let k = q on in ground (arith, on, k)
      | inr off ↦ rw off refl
    ] in
    rw e (find_code-tried now a h ts qs)

pub user_for-one_time :
    (mark i : Bytes) (now : ℕ) (a : Address) (st : Project)
    → (user_for mark i now a st).0.one_time ≡ st.one_time
unfolding user_for
user_for-one_time mark i now a st = elim (Option-cases (find_user (has_address a) st.users)) [
  | inr (u, e) ↦ rw e refl
  | inl e ↦ elim (Option-cases (insert_user (marked_user mark i now a) st.users)) [
    | inl f ↦ rw e (rw f refl)
    | inr (us, f) ↦ rw e (rw f refl)
  ]
]

pub session_for-one_time :
    (a : Address) (m : Mint) (now : ℕ) (r : Project × Bytes)
    → (session_for a m now r).0.one_time ≡ r.0.one_time
unfolding open_session
session_for-one_time (phone p) m now (st, uid) = elim (Bool-cases (eqb uid [])) [
  | inl e ↦ rw e refl
  | inr e ↦ rw e refl
]
session_for-one_time (email p) m now (st, uid) = refl

count_failure_keeps :
    (n : ℕ) (a c : Address) (ts : List OneTimeToken)
    → IsTried n a ts
    → IsTried n a (count_failure c ts)
unfolding count_failure
count_failure_keeps n a c [] h = tt
count_failure_keeps n a c (t ∷ ts) (h, hs) =
    let rest = count_failure_keeps n a c ts hs in
    elim (Bool-cases (is_for c t)) [
      | inl on ↦
          rw on ((λ e. let q = h (sym (is_for-failed_once a t) ∙ e) in omega (arith, q)), rest)
      | inr off ↦ rw off (h, rest)
    ]

keep-IsTried :
    (n : ℕ) (a : Address) (p : OneTimeToken → Bool) (ts : List OneTimeToken)
    → IsTried n a ts
    → IsTried n a (keep p ts)
keep-IsTried n a p [] h = tt
keep-IsTried n a p (t ∷ ts) (h, hs) = elim (Bool-cases (p t)) [
  | inl e ↦ rw e (h, keep-IsTried n a p ts hs)
  | inr e ↦ rw e (keep-IsTried n a p ts hs)
]

module _ (cr : Crypto) (i : Bytes) (m : Mint) where
  abbrev pub guess : Address → List Guess → Project → Project
  guess a [] st = st
  guess a ((now, token) ∷ gs) st = guess a gs (check_code cr i m now a token st).0

  -- None of the guesses finds a code.
  abbrev pub IsWrong : Address → List Guess → Project → Type 0
  IsWrong a [] st = Unit
  IsWrong a ((now, token) ∷ gs) st =
      (find_code (is_usable now a (cr.sha token)) st.one_time ≡ none)
      × IsWrong a gs (check_code cr i m now a token st).0

  wrong_state :
      (now : ℕ) (a : Address) (token : Bytes) (st : Project)
      → find_code (is_usable now a (cr.sha token)) st.one_time ≡ none
      → check_code cr i m now a token st
        ≡ (record st { one_time = count_failure a st.one_time }, refused 401)
  unfolding check_code
  wrong_state now a token st w = rw w refl

  guess-IsTried :
      (a b : Address) (gs : List Guess) (n : ℕ) (st : Project)
      → IsWrong b gs st
      → IsWithin a b st.one_time
      → IsTried n a st.one_time
      → IsTried (n + length gs) a (guess b gs st).one_time
  guess-IsTried a b [] n st w in_b t = let e : n + 0 ≡ n = omega arith in rw e t
  guess-IsTried a b ((now, token) ∷ gs) n st (w, ws) in_b t =
      let (t', in_b') = count_failure-IsTried n a b st.one_time in_b t in
      let e : n + suc (length gs) ≡ suc n + length gs = omega arith in
      let s = ap (λ r. r.0) (wrong_state now b token st w) in
      subst (λ k. IsTried k a (guess b ((now, token) ∷ gs) st).one_time) (sym e)
        (subst (λ q. IsTried (suc n + length gs) a (guess b gs q).one_time) (sym s)
          (guess-IsTried a b gs (suc n) (record st { one_time = count_failure b st.one_time })
            (subst (λ q. IsWrong b gs q) s ws) in_b' t'))

  zero-IsTried : (a : Address) (ts : List OneTimeToken) → IsTried 0 a ts
  zero-IsTried a [] = tt
  zero-IsTried a (t ∷ ts) = ((λ e. omega arith), zero-IsTried a ts)

  at_least_five :
      (a : Address) (n : ℕ) (ts : List OneTimeToken) → 5 ≤ n → IsTried n a ts → IsTried 5 a ts
  at_least_five a n [] le t = tt
  at_least_five a n (r ∷ ts) le (t, rest) =
      ((λ e. let q = t e in omega arith), at_least_five a n ts le rest)

  -- A check at any address leaves the rows of `a` tried as often.
  check_code-IsTried :
      (n : ℕ) (a c : Address) (now : ℕ) (token : Bytes) (st : Project)
      → IsTried n a st.one_time
      → IsTried n a (check_code cr i m now c token st).0.one_time
  unfolding check_code
  check_code-IsTried n a c now token st h =
      elim (Option-cases (find_code (is_usable now c (cr.sha token)) st.one_time)) [
        | inl e ↦ rw e (count_failure_keeps n a c st.one_time h)
        | inr (t, e) ↦
            let kept = keep (λ u. not (eqb u.id t.id)) st.one_time in
            let left : Project = record st { one_time = kept } in
            let found = user_for (codes "otp") i now c left in
            let same : (session_for c m now found).0.one_time ≡ kept =
              session_for-one_time c m now found ∙ user_for-one_time (codes "otp") i now c left in
            rw e (
              subst (IsTried n a) (sym same)
                (keep-IsTried n a (λ u. not (eqb u.id t.id)) st.one_time h))
      ]

  -- Codes entered one after the other, each at its address and time.
  abbrev pub check_all : List (Address × Guess) → Project → Project
  check_all [] st = st
  check_all ((c, (now, token)) ∷ cs) st = check_all cs (check_code cr i m now c token st).0

  check_all-IsTried :
      (n : ℕ) (a : Address) (cs : List (Address × Guess)) (st : Project)
      → IsTried n a st.one_time
      → IsTried n a (check_all cs st).one_time
  check_all-IsTried n a [] st h = h
  check_all-IsTried n a ((c, (now, token)) ∷ cs) st h =
      check_all-IsTried n a cs (check_code cr i m now c token st).0
        (check_code-IsTried n a c now token st h)

  -- After five wrong guesses at `b`, no code of an address whose rows are among those of `b` is
  -- accepted, the right one included, whatever codes are entered at whatever addresses in between.
  -- No new code is requested in the meantime: one that is takes the place of those that were tried.
  pub check_code_locked :
      (a b : Address) (gs : List Guess) (cs : List (Address × Guess)) (now : ℕ) (token : Bytes)
      (st : Project)
      → IsWrong b gs st
      → 5 ≤ length gs
      → IsWithin a b st.one_time
      → (check_code cr i m now a token (check_all cs (guess b gs st))).1 ≡ refused 401
  check_code_locked a b gs cs now token st w five in_b =
      let tried = guess-IsTried a b gs 0 st w in_b (zero-IsTried a st.one_time) in
      let spent = at_least_five a (0 + length gs) (guess b gs st).one_time (omega arith) tried in
      let after = check_all cs (guess b gs st) in
      let still = check_all-IsTried 5 a cs (guess b gs st) spent in
      ap (λ r. r.1)
        (wrong_state now a token after (find_code-tried now a (cr.sha token) after.one_time still))
