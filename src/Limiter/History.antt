-- ===== src/Limiter/History.antt =====
-- The limits against the history: whatever was swept, pruned or dropped on the way, a decision
-- counts exactly what was recorded within its window.
use mathlib.Core.List.{append_assoc, append-nil}
use forgebase.Common.{
  ℕ, suc, ◌≤◌, ◌≡◌, refl, sym, ap, ◌∙◌, not, ◌&&◌, List, [], ◌∷◌, ◌++◌, inl, inr, arith,
}
use forgebase.Common.Tests.{ltb, leb, Bool-cases}
use forgebase.Common.Lists.{length, keep, count, length-keep, length-append}
use forgebase.Common.Text.{Bytes}
use forgebase.Common.Map.{lookup, Unique, put-Unique}
use forgebase.Limiter.{
  Limiter, new, fresh, times, attempt_window, endpoint_window, rate_limited, record_attempt,
  acct_locked, record_acct_fail, prune, auth_rate_limited, login_surge,
}
use forgebase.Limiter.Window.{sweep-Unique, hit-Unique, prune_map-Unique}
use forgebase.Limiter.Trace.{
  Op, login_check, login_fail, acct_check, acct_fail, auth_call, surge, tick, step, run, Clocked,
  attempt_of, call_of, logged,
}
use forgebase.Limiter.Agrees.{
  Log, Agrees, Agrees-mono, Agrees-nil, Agrees-sweep, Agrees-hit, Agrees-prune_map, Agrees-refill,
}

-- Where the attempts and the endpoints' calls agree with the logs `f` and `g`.
record Inv (now : ℕ) (st : Limiter) (f g : Log) : Type 0 where
  attempts_unique : Unique st.attempts
  calls_unique : Unique st.auth_attempts
  attempts_agree : Agrees attempt_window now st.attempts f
  calls_agree : Agrees endpoint_window now st.auth_attempts g

-- A call that touches neither map, or sweeps one.
module _ (now : ℕ) (f g : Log) where
  idle : (st : Limiter) → Inv now st f g → Inv now st (λ k. f k ++ []) (λ k. g k ++ [])
  idle st v = record {
    attempts_unique = v.attempts_unique;
    calls_unique = v.calls_unique;
    attempts_agree = Agrees-nil attempt_window st.attempts f now v.attempts_agree;
    calls_agree = Agrees-nil endpoint_window st.auth_attempts g now v.calls_agree;
  }

  rate_limited-Inv :
      (ip : Bytes) (st : Limiter) → Inv now st f g → Inv now (rate_limited now ip st).0 f g
  unfolding rate_limited
  rate_limited-Inv ip st v = record {
    attempts_unique = sweep-Unique now attempt_window ip st.attempts v.attempts_unique;
    calls_unique = v.calls_unique;
    attempts_agree =
        Agrees-sweep attempt_window st.attempts f now attempt_window ip (omega arith)
          v.attempts_agree;
    calls_agree = v.calls_agree;
  }

  record_attempt-Inv :
      (ip : Bytes) (st : Limiter)
      → Inv now st f g
      → Inv now
          (record_attempt now ip st)
          (λ k. f k ++ attempt_of now (login_fail ip) k)
          (λ k. g k ++ [])
  unfolding record_attempt
  record_attempt-Inv ip st v = record {
    attempts_unique = hit-Unique now ip st.attempts v.attempts_unique;
    calls_unique = v.calls_unique;
    attempts_agree = Agrees-hit attempt_window st.attempts f now ip v.attempts_agree;
    calls_agree = Agrees-nil endpoint_window st.auth_attempts g now v.calls_agree;
  }

  prune-Inv : (st : Limiter) → Inv now st f g → Inv now (prune now st) f g
  unfolding prune
  prune-Inv st v = record {
    attempts_unique = prune_map-Unique now st.attempts v.attempts_unique;
    calls_unique = prune_map-Unique now st.auth_attempts v.calls_unique;
    attempts_agree =
        Agrees-prune_map attempt_window st.attempts f now (omega arith) v.attempts_unique
          v.attempts_agree;
    calls_agree =
        Agrees-prune_map endpoint_window st.auth_attempts g now (omega arith) v.calls_unique
          v.calls_agree;
  }

  auth_rate_limited-Inv :
      (ip : Bytes) (max : ℕ) (st : Limiter)
      → Inv now st f g
      → Inv now
          (auth_rate_limited now ip max st).0
          (λ k. f k ++ [])
          (λ k. g k ++ call_of now (auth_call ip max) k)
  unfolding auth_rate_limited
  auth_rate_limited-Inv ip max st v = elim (Bool-cases (leb max 0)) [
    | inl off ↦ rw off (idle st v)
    | inr on ↦ rw on (record {
      attempts_unique = v.attempts_unique;
      calls_unique = put-Unique ip _ st.auth_attempts v.calls_unique;
      attempts_agree = Agrees-nil attempt_window st.attempts f now v.attempts_agree;
      calls_agree = Agrees-refill endpoint_window st.auth_attempts g now ip v.calls_agree;
    })
  ]

  login_surge-Inv : (st : Limiter) → Inv now st f g → Inv now (login_surge now st).0 f g
  unfolding login_surge
  login_surge-Inv st v = record {
    attempts_unique = ground (arith, v.attempts_unique);
    calls_unique = ground (arith, v.calls_unique);
    attempts_agree = λ later k l. ground (arith, v.attempts_agree later k l);
    calls_agree = λ later k l. ground (arith, v.calls_agree later k l);
  }

step-Inv :
    (now : ℕ) (op : Op) (st : Limiter) (f g : Log)
    → Inv now st f g
    → Inv now (step now op st) (λ k. f k ++ attempt_of now op k) (λ k. g k ++ call_of now op k)
unfolding step acct_locked record_acct_fail
step-Inv now (login_check ip) st f g v = idle now f g _ (rate_limited-Inv now f g ip st v)
step-Inv now (login_fail ip) st f g v = record_attempt-Inv now f g ip st v
step-Inv now (acct_check id) st f g v = idle now f g _ (record {
  attempts_unique = v.attempts_unique;
  calls_unique = v.calls_unique;
  attempts_agree = v.attempts_agree;
  calls_agree = v.calls_agree;
})
step-Inv now (acct_fail id) st f g v = idle now f g _ (record {
  attempts_unique = v.attempts_unique;
  calls_unique = v.calls_unique;
  attempts_agree = v.attempts_agree;
  calls_agree = v.calls_agree;
})
step-Inv now (auth_call ip max) st f g v = auth_rate_limited-Inv now f g ip max st v
step-Inv now surge st f g v = idle now f g _ (login_surge-Inv now f g st v)
step-Inv now tick st f g v = idle now f g _ (prune-Inv now f g st v)

Inv_mono : (now now' : ℕ) (st : Limiter) (f g : Log) → now ≤ now' → Inv now st f g → Inv now' st f g
Inv_mono now now' st f g h v = record {
  attempts_unique = v.attempts_unique;
  calls_unique = v.calls_unique;
  attempts_agree = Agrees-mono attempt_window st.attempts f now now' h v.attempts_agree;
  calls_agree = Agrees-mono endpoint_window st.auth_attempts g now now' h v.calls_agree;
}

-- The logs are regrouped along the run.
regroup :
    (now : ℕ) (st : Limiter) (f g f' g' : Log)
    → ((k : Bytes) → f k ≡ f' k)
    → ((k : Bytes) → g k ≡ g' k)
    → Inv now st f g
    → Inv now st f' g'
regroup now st f g f' g' p q v = record {
  attempts_unique = v.attempts_unique;
  calls_unique = v.calls_unique;
  attempts_agree = λ later k l. rw (← p k) (v.attempts_agree later k l);
  calls_agree = λ later k l. rw (← q k) (v.calls_agree later k l);
}

run-Inv :
    (lo hi : ℕ) (ops : List (ℕ × Op)) (st : Limiter) (f g : Log)
    → Clocked lo ops hi
    → Inv lo st f g
    → Inv hi (run st ops) (λ k. f k ++ logged attempt_of ops k) (λ k. g k ++ logged call_of ops k)
unfolding run
run-Inv lo hi [] st f g c v =
    Inv_mono lo hi st _ _ c
      (regroup lo st f g _ _ (λ k. sym (append-nil (f k))) (λ k. sym (append-nil (g k))) v)
run-Inv lo hi ((t, op) ∷ ops) st f g c v =
    regroup hi _ _ _ _ _ (λ k. append_assoc (f k) (attempt_of t op k) (logged attempt_of ops k))
      (λ k. append_assoc (g k) (call_of t op k) (logged call_of ops k))
      (run-Inv t hi ops (step t op st) _ _ c.1 (step-Inv t op st f g (Inv_mono lo t st f g c.0 v)))

new-Inv : Inv 0 new (λ _. []) (λ _. [])
unfolding new times lookup
new-Inv = record {
  attempts_unique = tt;
  calls_unique = tt;
  attempts_agree = λ later k l. refl;
  calls_agree = λ later k l. refl;
}

-- After any run of the limiter from its start, with a clock that does not go back, an address is
-- refused a login exactly when eight or more of all its failed attempts lie within the last ten
-- minutes: no sweep and no pruner's tick changes a decision.
pub rate_limited-history :
    (ops : List (ℕ × Op)) (now : ℕ) (ip : Bytes)
    → Clocked 0 ops now
    → (rate_limited now ip (run new ops)).1
      ≡ leb 8 (count (fresh now attempt_window) (logged attempt_of ops ip))
unfolding rate_limited
rate_limited-history ops now ip c =
    let v = run-Inv 0 now ops new (λ _. []) (λ _. []) c new-Inv in
    ap (λ ts. leb 8 (length ts)) (v.attempts_agree now ip (omega arith))
    ∙ ap (leb 8) (length-keep (fresh now attempt_window) (logged attempt_of ops ip))

-- After any such run, a call of the end users' endpoints by an address is refused exactly when the
-- limiter is on (`max` is positive) and, with this call, more than `max` of its calls made while
-- the limiter was on lie within the last minute.
pub auth_rate_limited-history :
    (ops : List (ℕ × Op)) (now : ℕ) (ip : Bytes) (max : ℕ)
    → Clocked 0 ops now
    → (auth_rate_limited now ip max (run new ops)).1 ≡ (
        not (leb max 0)
        && ltb max (suc (count (fresh now endpoint_window) (logged call_of ops ip))))
unfolding auth_rate_limited
auth_rate_limited-history ops now ip max c =
    let v = run-Inv 0 now ops new (λ _. []) (λ _. []) c new-Inv in
    let kept = keep (fresh now endpoint_window) (times (run new ops).auth_attempts ip) in
    ground (
      arith,
      length-append kept (now ∷ []),
      ap length (v.calls_agree now ip (omega arith)),
      length-keep (fresh now endpoint_window) (logged call_of ops ip),
    )
