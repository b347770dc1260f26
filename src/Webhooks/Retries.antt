-- ===== src/Webhooks/Retries.antt =====
-- How often a change is sent, and what the log keeps of it.
use mathlib.Core.Path.{subst}
use forgebase.Common.{
  ℕ, zero, suc, ◌+◌, ◌≤◌, ◌<◌, true, false, ◌≡◌, refl, sym, ap, Option, none, some, List, [], ◌∷◌,
  inl, inr, arith,
}
use forgebase.Common.Tests.{if◌then◌else◌, Bool-cases}
use forgebase.Common.Lists.{length, take, length-take}
use forgebase.Common.Text.{Bytes}
use forgebase.Webhooks.{
  Delivery, Log, Response, unbuildable, unanswered, status, is_ok, code_of, kept_rows, stored,
  log_delivery, goes_on, attempts_from, deliver_webhook,
}

-- The attempts that are made: up to the first that is not gone on from.
abbrev pub made : ℕ → ℕ → (ℕ → Response) → ℕ
made zero attempt answers = 0
made (suc left) attempt answers =
    let rest = made left (attempt + 1) answers in if goes_on (answers attempt) then suc rest else 1

log_delivery-length :
    (hook : Bytes) (attempt : ℕ) (r : Response) (payload : Bytes) (log : Log)
    → (log_delivery hook attempt r payload log).next_id ≡ log.next_id + 1
unfolding log_delivery
log_delivery-length hook attempt r payload log = refl

attempts_from-next_id :
    (left attempt : ℕ) (answers : ℕ → Response) (hook payload : Bytes) (log : Log)
    → (attempts_from left attempt answers hook payload log).next_id
      ≡ log.next_id + made left attempt answers
unfolding attempts_from
attempts_from-next_id zero attempt answers hook payload log = omega arith
attempts_from-next_id (suc left) attempt answers hook payload log =
    let logged = log_delivery hook attempt (answers attempt) payload log in
    let one = log_delivery-length hook attempt (answers attempt) payload log in
    let ih = attempts_from-next_id left (attempt + 1) answers hook payload logged in
    elim (Bool-cases (goes_on (answers attempt))) [
      | inl on ↦ rw on (omega (arith, ih, one))
      | inr off ↦ rw off one
    ]

-- The attempts `first`, …, `first + k - 1` fail with or without an answer.
abbrev pub FailFrom : ℕ → ℕ → (ℕ → Response) → Type 0
FailFrom zero first answers = Unit
FailFrom (suc k) first answers = (goes_on (answers first) ≡ true) × FailFrom k (first + 1) answers

abbrev newest_of : List Delivery → Option Delivery
newest_of [] = none
newest_of (d ∷ ds) = some d

-- The newest row says that this attempt got through.
abbrev pub IsDelivered : ℕ → Log → Type 0
IsDelivered attempt log =
    (d : Delivery) × (newest_of log.rows ≡ some d) × (d.ok ≡ true) × (d.attempt ≡ attempt)

ok_stops : (r : Response) → is_ok r ≡ true → goes_on r ≡ false
ok_stops unbuildable h = refl
ok_stops unanswered h = absurd cc
ok_stops (status code) h = rw h refl

attempts_from-IsDelivered :
    (k left first : ℕ) (answers : ℕ → Response) (hook payload : Bytes) (log : Log)
    → k < left
    → FailFrom k first answers
    → is_ok (answers (first + k)) ≡ true
    → IsDelivered (first + k) (attempts_from left first answers hook payload log)
      × (made left first answers ≡ suc k)
unfolding attempts_from log_delivery
attempts_from-IsDelivered k zero first answers hook payload log lt f ok = absurd (omega arith)
attempts_from-IsDelivered zero (suc left) first answers hook payload log lt f ok =
    let e : first + 0 ≡ first = omega arith in
    let ok' : is_ok (answers first) ≡ true = rw e at ok in
    let stop = ok_stops (answers first) ok' in
    (
      subst (λ n. IsDelivered n (attempts_from (suc left) first answers hook payload log)) (sym e)
          (rw stop (_, refl, ok', refl)),
      rw stop refl,
    )
attempts_from-IsDelivered (suc k) (suc left) first answers hook payload log lt (on, f) ok =
    let e : first + suc k ≡ first + 1 + k = omega arith in
    let logged = log_delivery hook first (answers first) payload log in
    let (there, n) =
      attempts_from-IsDelivered k left (first + 1) answers hook payload logged (omega arith) f
        (rw e at ok) in
    (
      subst (λ n. IsDelivered n (attempts_from (suc left) first answers hook payload log)) (sym e)
          (rw on there),
      rw on (ap suc n),
    )

made-bound : (left attempt : ℕ) (answers : ℕ → Response) → made left attempt answers ≤ left
made-bound zero attempt answers = omega arith
made-bound (suc left) attempt answers = ground (arith, made-bound left (attempt + 1) answers)

-- A change whose first `k` attempts fail and whose next one is answered with a 2xx status, `k`
-- being below five, is logged as delivered by that attempt, and `k + 1` attempts are logged.
pub deliver_webhook-IsDelivered :
    (k : ℕ) (answers : ℕ → Response) (hook payload : Bytes) (log : Log)
    → k < 5
    → FailFrom k 1 answers
    → is_ok (answers (1 + k)) ≡ true
    → IsDelivered (1 + k) (deliver_webhook answers hook payload log)
      × ((deliver_webhook answers hook payload log).next_id ≡ log.next_id + (k + 1))
unfolding deliver_webhook
deliver_webhook-IsDelivered k answers hook payload log lt f ok =
    let (there, n) = attempts_from-IsDelivered k 5 1 answers hook payload log lt f ok in
    let ids = attempts_from-next_id 5 1 answers hook payload log in (there, omega (arith, ids, n))

length-take_le : (n : ℕ) (ds : List Delivery) → length (take n ds) ≤ n
length-take_le n ds = omega (arith, length-take n ds)

log_delivery-bound :
    (hook : Bytes) (attempt : ℕ) (r : Response) (payload : Bytes) (log : Log)
    → length (log_delivery hook attempt r payload log).rows ≤ kept_rows
unfolding log_delivery
log_delivery-bound hook attempt r payload log = length-take_le kept_rows (
    record {
      id = log.next_id;
      webhook_id = hook;
      status_code = code_of r;
      ok = is_ok r;
      attempt = attempt;
      payload = stored attempt payload;
    }
    ∷ log.rows)

attempts_from-bound :
    (left attempt : ℕ) (answers : ℕ → Response) (hook payload : Bytes) (log : Log)
    → length log.rows ≤ kept_rows
    → length (attempts_from left attempt answers hook payload log).rows ≤ kept_rows
unfolding attempts_from
attempts_from-bound zero attempt answers hook payload log le = le
attempts_from-bound (suc left) attempt answers hook payload log le =
    let logged = log_delivery hook attempt (answers attempt) payload log in
    let short = log_delivery-bound hook attempt (answers attempt) payload log in
    let ih = attempts_from-bound left (attempt + 1) answers hook payload logged short in
    elim (Bool-cases (goes_on (answers attempt))) [ inl on ↦ rw on ih | inr off ↦ rw off short ]

-- Whatever the answers are, a delivery makes at most five attempts, and leaves at most 500 rows in
-- the log.
pub deliver_webhook-bounds :
    (answers : ℕ → Response) (hook payload : Bytes) (log : Log)
    → length log.rows ≤ kept_rows
    → ((deliver_webhook answers hook payload log).next_id ≤ log.next_id + 5)
      × (length (deliver_webhook answers hook payload log).rows ≤ kept_rows)
unfolding deliver_webhook
deliver_webhook-bounds answers hook payload log le =
    let ids = attempts_from-next_id 5 1 answers hook payload log in
    let few = made-bound 5 1 answers in
    (omega (arith, ids, few), attempts_from-bound 5 1 answers hook payload log le)
