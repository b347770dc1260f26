-- ===== src/Limiter/Tests.antt =====
-- The limiter's theorems on concrete runs.
use forgebase.Common.{ℕ, ◌*◌, ◌≤◌, ◌≡◌, refl, true, List, [], ◌∷◌, arith}
use forgebase.Common.Lists.{count}
use forgebase.Common.Text.{Bytes, codes, eqb, trim_space, trim_left, is_space, to_lower}
use forgebase.Common.Map.{lookup, put}
use forgebase.Limiter.{
  Limiter, new, minute, times, fresh, rate_limited, account_key, acct_locked, prune_window,
  account_window, login_surge, surge_total, record_attempt, hit,
}
use forgebase.Limiter.Trace.{
  Op, login_fail, acct_fail, auth_call, tick, run, step, logged, failure_of,
}
use forgebase.Limiter.History.{rate_limited-history}
use forgebase.Limiter.Lockout.{acct_locked-history}

abbrev ip : Bytes
ip = codes "10.0.0.7"

abbrev account : Bytes
account = codes "ann"

-- Eight failures of one address, and a tick of the pruner among them.
abbrev attack : List (ℕ × Op)
attack =
    (1, login_fail ip)
    ∷ (2, login_fail ip)
    ∷ (3, login_fail ip)
    ∷ (4, login_fail ip)
    ∷ (5, tick)
    ∷ (6, login_fail ip)
    ∷ (7, login_fail ip)
    ∷ (8, login_fail ip)
    ∷ (9, login_fail ip)
    ∷ []

rate_limited-history_example : (rate_limited minute ip (run new attack)).1 ≡ true
unfolding eqb
rate_limited-history_example = rate_limited-history attack minute ip (ground arith)

abbrev calls : List (ℕ × Op)
calls = (1, auth_call ip 2) ∷ (2, auth_call ip 2) ∷ []

abbrev guesses : List (ℕ × Op)
guesses =
    (1, acct_fail account)
    ∷ (2, acct_fail account)
    ∷ (3, acct_fail account)
    ∷ (4, acct_fail account)
    ∷ (5, acct_fail account)
    ∷ []

acct_locked-history_example :
    ((acct_locked 6 account (run new guesses)).1 ≡ true
      → 5 ≤ count (fresh 6 account_window) (logged failure_of guesses (account_key account)))
    × (5 ≤ count (fresh 6 prune_window) (logged failure_of guesses (account_key account))
        → (acct_locked 6 account (run new guesses)).1 ≡ true)
acct_locked-history_example = acct_locked-history guesses 6 account (ground arith)

-- An account with five failures at the clock's start.
abbrev locked : Limiter
locked = record {
  attempts = [];
  acct_fails = (account, 1 ∷ 2 ∷ 3 ∷ 4 ∷ 5 ∷ []) ∷ [];
  surge_alert_at = 0;
  auth_attempts = [];
}

five_fresh :
    5 ≤ count (fresh (12 * minute) account_window) (times locked.acct_fails (account_key account))
unfolding times lookup eqb account_key trim_space trim_left is_space to_lower
five_fresh = omega arith

none_fresh :
    count (fresh (12 * minute) prune_window) (times locked.acct_fails (account_key account)) ≡ 0
unfolding times lookup eqb account_key trim_space trim_left is_space to_lower
none_fresh = refl

-- Fifteen failures within ten minutes, and the last alert two hours ago.
abbrev surging : Limiter
surging = record {
  attempts =
      (
        ip,
        500 * minute
            ∷ 500 * minute
            ∷ 500 * minute
            ∷ 500 * minute
            ∷ 500 * minute
            ∷ 500 * minute
            ∷ 500 * minute
            ∷ 500 * minute
            ∷ 500 * minute
            ∷ 500 * minute
            ∷ 500 * minute
            ∷ 500 * minute
            ∷ 500 * minute
            ∷ 500 * minute
            ∷ 500 * minute
            ∷ [],
      )
      ∷ [];
  acct_fails = [];
  surge_alert_at = 380 * minute;
  auth_attempts = [];
}

first_alert : (login_surge (501 * minute) surging).2 ≡ true
unfolding login_surge surge_total
first_alert = refl

-- Fifteen more, at the end of the run.
abbrev second_wave : List (ℕ × Op)
second_wave =
    (600 * minute, login_fail ip)
    ∷ (600 * minute, login_fail ip)
    ∷ (600 * minute, login_fail ip)
    ∷ (600 * minute, login_fail ip)
    ∷ (600 * minute, login_fail ip)
    ∷ (600 * minute, login_fail ip)
    ∷ (600 * minute, login_fail ip)
    ∷ (600 * minute, login_fail ip)
    ∷ (600 * minute, login_fail ip)
    ∷ (600 * minute, login_fail ip)
    ∷ (600 * minute, login_fail ip)
    ∷ (600 * minute, login_fail ip)
    ∷ (600 * minute, login_fail ip)
    ∷ (600 * minute, login_fail ip)
    ∷ (600 * minute, login_fail ip)
    ∷ []

second_alert :
    (login_surge (601 * minute) (run (login_surge (501 * minute) surging).0 second_wave)).2 ≡ true
unfolding login_surge surge_total run step record_attempt hit times lookup put eqb
second_alert = refl
