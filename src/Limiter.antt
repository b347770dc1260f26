-- ===== src/Limiter.antt =====
-- The login limits of pgforge/main.go and pgforge/auth.go: attempts per address, failures per
-- account, calls per address of the end users' endpoints, and the brute-force alarm. Times are
-- nanoseconds of `time.Now`; `t.After(now.Add(-w))` is `now < t + w`, with no subtraction.
pub mod Window
pub mod Trace
pub mod Agrees
pub mod History
pub mod Lockout
pub mod Surge
mod Tests
use forgebase.Common.{ℕ, ◌+◌, ◌*◌, Bool, true, false, ◌&&◌, Option, none, some, List, [], ◌∷◌, ◌++◌}
use forgebase.Common.Tests.{ltb, leb, if◌then◌else◌}
use forgebase.Common.Lists.{length, keep, any, count}
use forgebase.Common.Text.{Bytes, trim_space, to_lower}
use forgebase.Common.Map.{Map, lookup, put, remove, retain}

abbrev pub minute : ℕ
minute = 60000000000

-- The windows of `rateLimited`, `acctLocked`, `authRateLimited` and of the pruner.
abbrev pub attempt_window : ℕ
attempt_window = 10 * minute

abbrev pub account_window : ℕ
account_window = 15 * minute

abbrev pub endpoint_window : ℕ
endpoint_window = minute

abbrev pub prune_window : ℕ
prune_window = 10 * minute

-- `t.After(now.Add(-w))`.
abbrev pub fresh : ℕ → ℕ → ℕ → Bool
fresh now w t = ltb now (t + w)

pub record Limiter : Type 0 where
  pub attempts : Map (List ℕ)
  pub acct_fails : Map (List ℕ)
  pub surge_alert_at : ℕ
  pub auth_attempts : Map (List ℕ)

unfoldable pub new : Limiter
new = record { attempts = []; acct_fails = []; surge_alert_at = 0; auth_attempts = [] }

-- `m[k]`, nil where there is no entry.
abbrev times_or : Option (List ℕ) → List ℕ
times_or none = []
times_or (some ts) = ts

unfoldable pub times : Map (List ℕ) → Bytes → List ℕ
unfolding lookup
times m k = times_or (lookup k m)

-- The bucket goes when nothing of it is kept.
abbrev store : Bytes → List ℕ → Map (List ℕ) → Map (List ℕ)
store k [] m = remove k m
store k (t ∷ ts) m = put k (t ∷ ts) m

-- The first half of `rateLimited` and `acctLocked`: what lies in the window stays.
unfoldable pub sweep : ℕ → ℕ → Bytes → Map (List ℕ) → Map (List ℕ)
unfolding times
sweep now w k m = store k (keep (fresh now w) (times m k)) m

unfoldable pub hit : ℕ → Bytes → Map (List ℕ) → Map (List ℕ)
unfolding times
hit now k m = put k (times m k ++ now ∷ []) m

unfoldable pub rate_limited : ℕ → Bytes → Limiter → Limiter × Bool
unfolding sweep
rate_limited now ip st = (
  record st { attempts = sweep now attempt_window ip st.attempts },
  leb 8 (length (keep (fresh now attempt_window) (times st.attempts ip))),
)

unfoldable pub record_attempt : ℕ → Bytes → Limiter → Limiter
unfolding hit
record_attempt now ip st = record st { attempts = hit now ip st.attempts }

-- `strings.ToLower(strings.TrimSpace(id))`.
unfoldable pub account_key : Bytes → Bytes
unfolding trim_space to_lower
account_key id = to_lower (trim_space id)

unfoldable pub acct_locked : ℕ → Bytes → Limiter → Limiter × Bool
unfolding sweep
acct_locked now id st =
    let key = account_key id in
    (
      record st { acct_fails = sweep now account_window key st.acct_fails },
      leb 5 (length (keep (fresh now account_window) (times st.acct_fails key))),
    )

unfoldable pub record_acct_fail : ℕ → Bytes → Limiter → Limiter
unfolding hit
record_acct_fail now id st = record st { acct_fails = hit now (account_key id) st.acct_fails }

-- One pass of the pruner over one map.
unfoldable pub prune_map : ℕ → Map (List ℕ) → Map (List ℕ)
unfolding retain
prune_map now m = retain (λ _ ts. any (fresh now prune_window) ts) m

-- One tick of `startRateLimitPruner`.
unfoldable pub prune : ℕ → Limiter → Limiter
unfolding prune_map
prune now st = record st {
  attempts = prune_map now st.attempts;
  acct_fails = prune_map now st.acct_fails;
  auth_attempts = prune_map now st.auth_attempts;
}

-- `max` is a Go `int`; `max <= 0` is 0 here, which turns the limiter off.
unfoldable pub auth_rate_limited : ℕ → Bytes → ℕ → Limiter → Limiter × Bool
unfolding times put
auth_rate_limited now ip max st =
    let kept = keep (fresh now endpoint_window) (times st.auth_attempts ip) ++ now ∷ [] in
    if leb max 0
    then (st, false)
    else (record st { auth_attempts = put ip kept st.auth_attempts }, ltb max (length kept))

-- The failures of all addresses within ten minutes.
unfoldable pub surge_total : ℕ → Map (List ℕ) → ℕ
surge_total now [] = 0
surge_total now ((_, ts) ∷ m) = count (fresh now attempt_window) ts + surge_total now m

-- `loginSurge`: the new state, whether there is a surge, and whether the alert is sent.
unfoldable pub login_surge : ℕ → Limiter → Limiter × Bool × Bool
unfolding surge_total
login_surge now st =
    let surge = leb 15 (surge_total now st.attempts) in
    let alert = surge && ltb (st.surge_alert_at + 60 * minute) now in
    (if alert then record st { surge_alert_at = now } else st, surge, alert)
