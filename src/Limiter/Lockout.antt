-- ===== src/Limiter/Lockout.antt =====
-- The account lockout against the history. The pruner's cut of ten minutes is shorter than the
-- lockout's window of fifteen, and that shows in what holds.
use mathlib.Core.List.{append_assoc, append-nil}
use forgebase.Common.{
  ℕ, ◌+◌, ◌≤◌, ◌≡◌, refl, sym, ap, Bool, true, false, List, [], ◌∷◌, ◌++◌, inl, inr, arith,
}
use forgebase.Common.Tests.{leb→le, le→leb, if◌then◌else◌, Bool-cases, Option-cases}
use forgebase.Common.Lists.{length, keep, count, any, length-keep}
use forgebase.Common.Text.{Bytes, eqb, eqb_iff}
use forgebase.Common.Map.{Map, lookup, lookup-retain, Unique}
use forgebase.Limiter.{
  Limiter, new, fresh, times, sweep, hit, prune_map, account_window, prune_window, rate_limited,
  record_attempt, account_key, acct_locked, record_acct_fail, prune, auth_rate_limited, login_surge,
}
use forgebase.Limiter.Window.{times-sweep, times-hit, sweep-Unique, hit-Unique, prune_map-Unique}
use forgebase.Limiter.Trace.{
  Op, login_check, login_fail, acct_check, acct_fail, auth_call, surge, tick, step, run, Clocked,
  failure_of, logged,
}
use forgebase.Limiter.Agrees.{
  Log, Agrees, Agrees-mono, Agrees-nil, Agrees-sweep, Agrees-hit, Agrees-prune_map,
}

-- A bucket shows no more than was recorded.
abbrev Bounded : Map (List ℕ) → Log → Type 0
Bounded m log =
    (w later : ℕ) (k : Bytes) → count (fresh later w) (times m k) ≤ count (fresh later w) (log k)

count-append : (p : ℕ → Bool) (xs ys : List ℕ) → count p (xs ++ ys) ≡ count p xs + count p ys
count-append p [] ys = omega arith
count-append p (x ∷ xs) ys = ground (arith, count-append p xs ys)

count-keep-le : (p q : ℕ → Bool) (xs : List ℕ) → count p (keep q xs) ≤ count p xs
count-keep-le p q [] = omega arith
count-keep-le p q (x ∷ xs) = ground (arith, count-keep-le p q xs)

-- A wider window shows at least as many.
count_wider : (now v w : ℕ) (ts : List ℕ) → v ≤ w → count (fresh now v) ts ≤ count (fresh now w) ts
count_wider now v w [] h = omega arith
count_wider now v w (t ∷ ts) h = ground (arith, count_wider now v w ts h)

module _ (m : Map (List ℕ)) (log : Log) where
  Bounded-sweep : (now w : ℕ) (k : Bytes) → Bounded m log → Bounded (sweep now w k m) log
  Bounded-sweep now w k b v later j = rw (times-sweep now w k j m) (
      ground
        (arith, eqb_iff k j, b v later j, count-keep-le (fresh later v) (fresh now w) (times m k)))

  Bounded-hit :
      (now : ℕ) (k : Bytes)
      → Bounded m log
      → Bounded (hit now k m) (λ j. log j ++ (if eqb k j then now ∷ [] else []))
  Bounded-hit now k b v later j = elim (Bool-cases (eqb k j)) [
    | inl e ↦
        rw (times-hit now k j m, e, (eqb_iff k j).0 e)
          (omega (
            arith,
            count-append (fresh later v) (times m j) (now ∷ []),
            count-append (fresh later v) (log j) (now ∷ []),
            b v later j,
          ))
    | inr e ↦ rw (times-hit now k j m, e, append-nil (log j)) (b v later j)
  ]

  Bounded-prune_map : (now : ℕ) → Unique m → Bounded m log → Bounded (prune_map now m) log
  unfolding prune_map times
  Bounded-prune_map now u b v later j = elim (Option-cases (lookup j m)) [
    | inl e ↦ rw (lookup-retain (λ _ ts. any (fresh now prune_window) ts) j m u, e) (omega arith)
    | inr (ts, e) ↦
        rw (lookup-retain (λ _ ts. any (fresh now prune_window) ts) j m u, e)
          (ground (arith, rw e at (b v later j)))
  ]

  Bounded-nil : Bounded m log → Bounded m (λ k. log k ++ [])
  Bounded-nil b v later k = rw (append-nil (log k)) (b v later k)

record Inv (now : ℕ) (m : Map (List ℕ)) (log : Log) : Type 0 where
  unique : Unique m
  agree : Agrees prune_window now m log
  bounded : Bounded m log

module _ (now : ℕ) (m : Map (List ℕ)) (log : Log) (v : Inv now m log) where
  idle : Inv now m (λ k. log k ++ [])
  idle = record {
    unique = v.unique;
    agree = Agrees-nil prune_window m log now v.agree;
    bounded = Bounded-nil m log v.bounded;
  }

  sweep-Inv : (k : Bytes) → Inv now (sweep now account_window k m) log
  sweep-Inv k = record {
    unique = sweep-Unique now account_window k m v.unique;
    agree = Agrees-sweep prune_window m log now account_window k (omega arith) v.agree;
    bounded = Bounded-sweep m log now account_window k v.bounded;
  }

  hit-Inv : (k : Bytes) → Inv now (hit now k m) (λ j. log j ++ (if eqb k j then now ∷ [] else []))
  hit-Inv k = record {
    unique = hit-Unique now k m v.unique;
    agree = Agrees-hit prune_window m log now k v.agree;
    bounded = Bounded-hit m log now k v.bounded;
  }

  prune_map-Inv : Inv now (prune_map now m) log
  prune_map-Inv = record {
    unique = prune_map-Unique now m v.unique;
    agree = Agrees-prune_map prune_window m log now (omega arith) v.unique v.agree;
    bounded = Bounded-prune_map m log now v.unique v.bounded;
  }

  Inv_mono : (now' : ℕ) → now ≤ now' → Inv now' m log
  Inv_mono now' h = record {
    unique = v.unique;
    agree = Agrees-mono prune_window m log now now' h v.agree;
    bounded = v.bounded;
  }

  regroup : (log' : Log) → ((k : Bytes) → log k ≡ log' k) → Inv now m log'
  regroup log' p = record {
    unique = v.unique;
    agree = λ later k l. rw (← p k) (v.agree later k l);
    bounded = λ w later k. rw (← p k) (v.bounded w later k);
  }

auth_rate_limited-acct :
    (now : ℕ) (ip : Bytes) (max : ℕ) (st : Limiter)
    → (auth_rate_limited now ip max st).0.acct_fails ≡ st.acct_fails
unfolding auth_rate_limited
auth_rate_limited-acct now ip max st = ground arith

login_surge-acct : (now : ℕ) (st : Limiter) → (login_surge now st).0.acct_fails ≡ st.acct_fails
unfolding login_surge
login_surge-acct now st = ground arith

step-Inv :
    (now : ℕ) (op : Op) (st : Limiter) (log : Log)
    → Inv now st.acct_fails log
    → Inv now (step now op st).acct_fails (λ k. log k ++ failure_of now op k)
unfolding step rate_limited record_attempt acct_locked record_acct_fail prune
step-Inv now (acct_check id) st log v =
    idle now _ log (sweep-Inv now st.acct_fails log v (account_key id))
step-Inv now (acct_fail id) st log v = hit-Inv now st.acct_fails log v (account_key id)
step-Inv now tick st log v = idle now _ log (prune_map-Inv now st.acct_fails log v)
step-Inv now (login_check ip) st log v = idle now st.acct_fails log v
step-Inv now (login_fail ip) st log v = idle now st.acct_fails log v
step-Inv now (auth_call ip max) st log v =
    rw (auth_rate_limited-acct now ip max st) (idle now st.acct_fails log v)
step-Inv now surge st log v = rw (login_surge-acct now st) (idle now st.acct_fails log v)

run-Inv :
    (lo hi : ℕ) (ops : List (ℕ × Op)) (st : Limiter) (log : Log)
    → Clocked lo ops hi
    → Inv lo st.acct_fails log
    → Inv hi (run st ops).acct_fails (λ k. log k ++ logged failure_of ops k)
unfolding run
run-Inv lo hi [] st log c v =
    regroup hi _ log (Inv_mono lo _ log v hi c) _ (λ k. sym (append-nil (log k)))
run-Inv lo hi ((t, op) ∷ ops) st log c v =
    regroup hi _ _
      (run-Inv t hi ops (step t op st) _ c.1
        (step-Inv t op st log (Inv_mono lo st.acct_fails log v t c.0)))
      _ (λ k. append_assoc (log k) (failure_of t op k) (logged failure_of ops k))

new-Inv : Inv 0 new.acct_fails (λ _. [])
unfolding new times lookup
new-Inv = record { unique = tt; agree = λ later k l. refl; bounded = λ w later k. omega arith }

-- After any run from the start, with a clock that does not go back: an account that is locked has
-- five or more failures recorded within the last fifteen minutes, and an account with five or more
-- within the last ten minutes is locked. Between ten and fifteen minutes the pruner decides.
pub acct_locked-history :
    (ops : List (ℕ × Op)) (now : ℕ) (id : Bytes)
    → Clocked 0 ops now
    → ((acct_locked now id (run new ops)).1 ≡ true
        → 5 ≤ count (fresh now account_window) (logged failure_of ops (account_key id)))
      × (5 ≤ count (fresh now prune_window) (logged failure_of ops (account_key id))
          → (acct_locked now id (run new ops)).1 ≡ true)
unfolding acct_locked
acct_locked-history ops now id c =
    let v = run-Inv 0 now ops new (λ _. []) c new-Inv in
    let key = account_key id in
    let ts = times (run new ops).acct_fails key in
    let log = logged failure_of ops key in
    let seen = length-keep (fresh now account_window) ts in
    (
      λ h. omega (arith, leb→le 5 _ h, seen, v.bounded account_window now key),
      λ h. le→leb 5 _ (
          omega (
            arith,
            seen,
            count_wider now prune_window account_window ts (omega arith),
            length-keep (fresh now prune_window) ts,
            length-keep (fresh now prune_window) log,
            ap length (v.agree now key (omega arith)),
          )),
    )

count_none : (p : ℕ → Bool) (ts : List ℕ) → count p ts ≡ 0 → any p ts ≡ false
count_none p [] h = refl
count_none p (t ∷ ts) h = ground (arith, count_none p ts)

-- A tick of the pruner opens a locked account before its window is over: where an account has five
-- or more failures within fifteen minutes and none of them within ten, it is locked before the
-- tick and open after it, at the same instant.
prune_unlocks :
    (st : Limiter) (now : ℕ) (id : Bytes)
    → Unique st.acct_fails
    → 5 ≤ count (fresh now account_window) (times st.acct_fails (account_key id))
    → count (fresh now prune_window) (times st.acct_fails (account_key id)) ≡ 0
    → ((acct_locked now id st).1 ≡ true) × ((acct_locked now id (prune now st)).1 ≡ false)
unfolding acct_locked prune prune_map times
prune_unlocks st now id u many none_recent =
    let key = account_key id in
    (
      le→leb 5 _ (omega (arith, length-keep (fresh now account_window) (times st.acct_fails key))),
      elim (Option-cases (lookup key st.acct_fails)) [
        | inl e ↦
            rw (lookup-retain (λ _ ts. any (fresh now prune_window) ts) key st.acct_fails u, e) refl
        | inr (ts, e) ↦
            rw (lookup-retain (λ _ ts. any (fresh now prune_window) ts) key st.acct_fails u, e)
              (ground (arith, count_none (fresh now prune_window) ts (rw e at none_recent)))
      ],
    )
