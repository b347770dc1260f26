-- ===== src/Limiter/Trace.antt =====
-- Runs of the limiter, and what was recorded in them whatever the limiter kept of it.
use forgebase.Common.{ℕ, ◌≤◌, List, [], ◌∷◌, ◌++◌}
use forgebase.Common.Tests.{leb, if◌then◌else◌}
use forgebase.Common.Text.{Bytes, eqb}
use forgebase.Limiter.{
  Limiter, rate_limited, record_attempt, acct_locked, record_acct_fail, prune, auth_rate_limited,
  login_surge, account_key,
}

-- One call of the limiter; `tick` is the pruner's.
pub data Op : Type 0 where
  login_check : Bytes → Op
  login_fail : Bytes → Op
  acct_check : Bytes → Op
  acct_fail : Bytes → Op
  auth_call : Bytes → ℕ → Op
  surge : Op
  tick : Op

unfoldable pub step : ℕ → Op → Limiter → Limiter
step now (login_check ip) st = (rate_limited now ip st).0
step now (login_fail ip) st = record_attempt now ip st
step now (acct_check id) st = (acct_locked now id st).0
step now (acct_fail id) st = record_acct_fail now id st
step now (auth_call ip max) st = (auth_rate_limited now ip max st).0
step now surge st = (login_surge now st).0
step now tick st = prune now st

unfoldable pub run : Limiter → List (ℕ × Op) → Limiter
run st [] = st
run st ((t, op) ∷ ops) = run (step t op st) ops

-- The clock does not go back, from `lo` to `hi`.
abbrev pub Clocked : ℕ → List (ℕ × Op) → ℕ → Type 0
Clocked lo [] hi = lo ≤ hi
Clocked lo ((t, _) ∷ ops) hi = (lo ≤ t) × Clocked t ops hi

-- What one call records for an address, for an account, and for the endpoints' limit.
abbrev pub attempt_of : ℕ → Op → Bytes → List ℕ
attempt_of t (login_fail ip) k = if eqb ip k then t ∷ [] else []
attempt_of t _ k = []

abbrev pub failure_of : ℕ → Op → Bytes → List ℕ
failure_of t (acct_fail id) k = if eqb (account_key id) k then t ∷ [] else []
failure_of t _ k = []

abbrev pub call_of : ℕ → Op → Bytes → List ℕ
call_of t (auth_call ip max) k = if leb max 0 then [] else if eqb ip k then t ∷ [] else []
call_of t _ k = []

-- Everything recorded in a run.
abbrev pub logged : (ℕ → Op → Bytes → List ℕ) → List (ℕ × Op) → Bytes → List ℕ
logged f [] k = []
logged f ((t, op) ∷ ops) k = f t op k ++ logged f ops k
