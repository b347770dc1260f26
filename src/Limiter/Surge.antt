-- ===== src/Limiter/Surge.antt =====
-- The brute-force alert of `loginSurge`.
use forgebase.Common.{ℕ, ◌+◌, ◌*◌, ◌≤◌, ◌<◌, ◌≡◌, true, List, [], ◌∷◌, arith}
use forgebase.Limiter.{
  Limiter, minute, rate_limited, record_attempt, acct_locked, record_acct_fail, prune,
  auth_rate_limited, login_surge,
}
use forgebase.Limiter.Trace.{Op, step, run, Clocked}

-- No call moves the time of the last alert back.
step-surge_alert_at :
    (t now : ℕ) (op : Op) (st : Limiter)
    → t ≤ now
    → t ≤ st.surge_alert_at
    → t ≤ (step now op st).surge_alert_at
unfolding step rate_limited record_attempt acct_locked record_acct_fail prune auth_rate_limited
    login_surge
step-surge_alert_at t now op st h a = ground arith

run-surge_alert_at :
    (t lo hi : ℕ) (ops : List (ℕ × Op)) (st : Limiter)
    → t ≤ lo
    → Clocked lo ops hi
    → t ≤ st.surge_alert_at
    → t ≤ (run st ops).surge_alert_at
unfolding run
run-surge_alert_at t lo hi [] st h c a = a
run-surge_alert_at t lo hi ((now, op) ∷ ops) st h c a =
    run-surge_alert_at t now hi ops (step now op st) (omega arith) c.1
      (step-surge_alert_at t now op st (omega arith) a)

login_surge-sets :
    (now : ℕ) (st : Limiter)
    → (login_surge now st).2 ≡ true
    → now ≤ (login_surge now st).0.surge_alert_at
unfolding login_surge
login_surge-sets now st h = ground arith

login_surge-waits :
    (now : ℕ) (st : Limiter) → (login_surge now st).2 ≡ true → st.surge_alert_at + 60 * minute < now
unfolding login_surge
login_surge-waits now st h = ground arith

-- Two alerts lie more than an hour apart, whatever calls of the limiter stand between them, on a
-- clock that does not go back.
pub login_surge_hourly :
    (st : Limiter) (first second : ℕ) (ops : List (ℕ × Op))
    → (login_surge first st).2 ≡ true
    → Clocked first ops second
    → (login_surge second (run (login_surge first st).0 ops)).2 ≡ true
    → first + 60 * minute < second
login_surge_hourly st first second ops a c b = omega (
  arith,
  login_surge-waits second (run (login_surge first st).0 ops) b,
  run-surge_alert_at first first second ops (login_surge first st).0 (omega arith) c
      (login_surge-sets first st a),
)
