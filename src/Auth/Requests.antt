-- ===== src/Auth/Requests.antt =====
-- The hourly limit on asking for a one-time code.
use forgebase.Common.{
  ℕ, ◌+◌, ◌≤◌, Bool, true, not, ◌≡◌, ◌≢◌, refl, sym, ap, ◌∙◌, List, [], ◌∷◌, ◌++◌, inl, inr, arith,
}
use mathlib.Core.Path.{subst}
use forgebase.Common.Tests.{ltb, Bool-cases, Option-cases}
use forgebase.Common.Lists.{keep, count}
use forgebase.Common.Text.{Bytes, eqb, eqb_iff}
use forgebase.Refresh.{Mint}
use forgebase.Auth.Accounts.{Crypto, OneTimeToken, Project}
use forgebase.Auth.OneTime.{
  Address, phone, email, is_for, is_recent, is_usable, find_code, count_failure, check_code,
  CodeDraw, send_code, code_row, user_for, session_for,
}
use forgebase.Auth.Attempts.{is_for-failed_once, user_for-one_time, session_for-one_time}

-- An address that a code can be sent to.
abbrev pub IsNamed : Address → Type 0
IsNamed (phone p) = p ≢ []
IsNamed (email e) = e ≢ []

-- At most one code to an address.
abbrev pub IsSingle : List OneTimeToken → Type 0
IsSingle ts = (a : Address) → IsNamed a → count (is_for a) ts ≤ 1

count-recent :
    (now : ℕ) (a : Address) (ts : List OneTimeToken)
    → count (is_recent now a) ts ≤ count (is_for a) ts
count-recent now a [] = omega arith
count-recent now a (t ∷ ts) = ground (arith, count-recent now a ts)

count-append :
    (p : OneTimeToken → Bool) (ts us : List OneTimeToken)
    → count p (ts ++ us) ≡ count p ts + count p us
count-append p [] us = omega arith
count-append p (t ∷ ts) us = ground (arith, count-append p ts us)

count-keep : (p q : OneTimeToken → Bool) (ts : List OneTimeToken) → count p (keep q ts) ≤ count p ts
count-keep p q [] = omega arith
count-keep p q (t ∷ ts) = ground (arith, count-keep p q ts)

count-keep-not :
    (p : OneTimeToken → Bool) (ts : List OneTimeToken) → count p (keep (λ t. not (p t)) ts) ≡ 0
count-keep-not p [] = refl
count-keep-not p (t ∷ ts) = elim (Bool-cases (p t)) [
  | inl e ↦ rw e (count-keep-not p ts)
  | inr e ↦ rw e (rw e (count-keep-not p ts))
]

count-count_failure :
    (a b : Address) (ts : List OneTimeToken)
    → count (is_for a) (count_failure b ts) ≡ count (is_for a) ts
unfolding count_failure
count-count_failure a b [] = refl
count-count_failure a b (t ∷ ts) =
    let ih = count-count_failure a b ts in
    elim (Bool-cases (is_for b t)) [
      | inl e ↦ rw e (ground (arith, ih, is_for-failed_once a t))
      | inr e ↦ rw e (ground (arith, ih))
    ]

is_for-code_row :
    (i h : Bytes) (now : ℕ) (a b : Address)
    → IsNamed b
    → is_for b (code_row i a h now) ≡ true
    → b ≡ a
is_for-code_row i h now (phone p) (phone q) n e = ap phone (sym ((eqb_iff p q).0 e))
is_for-code_row i h now (phone p) (email q) n e = absurd (n (sym ((eqb_iff [] q).0 e)))
is_for-code_row i h now (email p) (phone q) n e = absurd (n (sym ((eqb_iff [] q).0 e)))
is_for-code_row i h now (email p) (email q) n e = ap email (sym ((eqb_iff p q).0 e))

send_code-IsSingle :
    (cr : Crypto) (d : CodeDraw) (now : ℕ) (a : Address) (ts : List OneTimeToken)
    → IsSingle ts
    → IsSingle (send_code cr d now a ts)
unfolding send_code
send_code-IsSingle cr d now a ts s = elim (Bool-cases (ltb (count (is_recent now a) ts) 4)) [
  | inr e ↦ rw e s
  | inl e ↦ rw e (λ b n.
      let row = code_row d.id a (cr.sha d.code) now in
      let kept = keep (λ t. not (is_for a t)) ts in
      let sum = count-append (is_for b) kept (row ∷ []) in
      elim (Bool-cases (is_for b row)) [
        | inl mine ↦
            let same = is_for-code_row d.id (cr.sha d.code) now a b n mine in
            let none_left : count (is_for b) kept ≡ 0 =
              subst (λ x. count (is_for x) kept ≡ 0) (sym same) (count-keep-not (is_for a) ts) in
            ground (arith, sum, none_left, mine)
        | inr other ↦
            ground (arith, sum, other, count-keep (is_for b) (λ t. not (is_for a t)) ts, s b n)
      ])
]

check_code-IsSingle :
    (cr : Crypto) (i : Bytes) (m : Mint) (now : ℕ) (a : Address) (token : Bytes) (st : Project)
    → IsSingle st.one_time
    → IsSingle (check_code cr i m now a token st).0.one_time
unfolding check_code
check_code-IsSingle cr i m now a token st s =
    elim (Option-cases (find_code (is_usable now a (cr.sha token)) st.one_time)) [
      | inl e ↦ rw e (λ b n. ground (arith, count-count_failure b a st.one_time, s b n))
      | inr (t, e) ↦
          let kept = keep (λ u. not (eqb u.id t.id)) st.one_time in
          let left : Project = record st { one_time = kept } in
          let found = user_for _ i now a left in
          let same : (session_for a m now found).0.one_time ≡ kept =
            session_for-one_time a m now found ∙ user_for-one_time _ i now a left in
          rw e (
            subst IsSingle (sym same) (λ b n.
              let c = count-keep (is_for b) (λ u. not (eqb u.id t.id)) st.one_time in
              let k = s b n in omega (arith, c, k)))
    ]

-- A request for a code, or the check of one.
pub data Op : Type 0 where
  ask : CodeDraw → ℕ → Address → Op
  check : Bytes → Mint → ℕ → Address → Bytes → Op

module _ (cr : Crypto) where
  abbrev pub step : Op → Project → Project
  step (ask d now a) st = record st { one_time = send_code cr d now a st.one_time }
  step (check i m now a token) st = (check_code cr i m now a token st).0

  abbrev pub run : List Op → Project → Project
  run [] st = st
  run (o ∷ os) st = run os (step o st)

  run-IsSingle :
      (os : List Op) (st : Project) → IsSingle st.one_time → IsSingle (run os st).one_time
  run-IsSingle [] st s = s
  run-IsSingle (ask d now a ∷ os) st s =
      run-IsSingle os (step (ask d now a) st) (send_code-IsSingle cr d now a st.one_time s)
  run-IsSingle (check i m now a token ∷ os) st s =
      run-IsSingle os (step (check i m now a token) st)
        (check_code-IsSingle cr i m now a token st s)

  -- A request removes the codes that the limit counts: after any run of requests and checks from a
  -- table with at most one code to an address, the next request sends a code, however many were
  -- sent within the hour.
  pub send_code-unthrottled :
      (os : List Op) (st : Project) (d : CodeDraw) (now : ℕ) (a : Address)
      → IsSingle st.one_time
      → IsNamed a
      → send_code cr d now a (run os st).one_time
        ≡ keep (λ t. not (is_for a t)) (run os st).one_time
          ++ code_row d.id a (cr.sha d.code) now ∷ []
  unfolding send_code
  send_code-unthrottled os st d now a s n =
      let single = run-IsSingle os st s a n in
      let few : ltb (count (is_recent now a) (run os st).one_time) 4 ≡ true =
        ground (arith, count-recent now a (run os st).one_time, single) in
      rw few refl
