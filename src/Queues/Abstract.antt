-- ===== src/Queues/Abstract.antt =====
-- A mailbox refines a queue that knows of no locks: the pending messages with their ids, and the
-- next id.
use mathlib.Core.Path.{subst, sym}
use forgebase.Common.{
  ℕ, suc, ◌+◌, ◌≤◌, ◌<◌, Bool, true, not, ◌||◌, ◌&&◌, ◌≡◌, refl, ap, Option, some, List, [], ◌∷◌,
  ◌++◌, inl, inr, arith,
}
use forgebase.Common.Tests.{◌==◌, Bool-cases}
use forgebase.Common.Lists.{length, length-take, keep, any, count, length-keep, All}
use forgebase.Common.Text.{Bytes, eqb, eqb_refl}
use forgebase.Queues.Tables.{
  Message, Table, has_id, is_in, is_visible, ids_of, picked, update_rows, read_rows, sent, send_to,
  read_from, delete_from,
}
use forgebase.Queues.Mailbox.{
  IsAscending, IsSound, Op, send, read, remove, step, run, send_to_sound, read_from_sound,
  step-IsSound, update_rows-IsAscending,
}

-- The specification's state.
pub record Pending : Type 0 where
  pub next : ℕ
  pub entries : List (ℕ × Bytes)

-- What an operation answers: the new id, the delivered messages, or whether one was removed.
pub data Answer : Type 0 where
  id_of : Option ℕ → Answer
  delivered : Option (List Message) → Answer
  removed : Bool → Answer

abbrev pub entries_of : List Message → List (ℕ × Bytes)
entries_of [] = []
entries_of (m ∷ ms) = (m.msg_id, m.message) ∷ entries_of ms

abbrev pub abstract_of : Table → Pending
abstract_of t = record { next = t.next_id; entries = entries_of t.rows }

abbrev pub answer : Op → Table → Answer
answer (send now msg) t = id_of (send_to now msg t).1
answer (read now vt qty) t = delivered (read_from now vt qty t).1
answer (remove mid) t = removed (delete_from mid t).1

-- The specification holds this message.
abbrev pub IsPending : List (ℕ × Bytes) → Message → Type 0
IsPending entries m = any (λ e. e.0 == m.msg_id && eqb e.1 m.message) entries ≡ true

-- The messages are pending ones, at most `qty`.
abbrev pub IsDelivery : ℕ → List (ℕ × Bytes) → List Message → Type 0
IsDelivery qty entries ms = All (IsPending entries) ms × (length ms ≤ qty)

-- What the specification allows.
abbrev pub Allows : Op → Pending → Answer → Pending → Type 0
Allows (send now msg) p (id_of o) q =
    (o ≡ some p.next)
    × (q ≡ record { next = p.next + 1; entries = p.entries ++ (p.next, msg) ∷ [] })
Allows (read now vt qty) p (delivered (some ms)) q = IsDelivery qty p.entries ms × (q ≡ p)
Allows (remove mid) p (removed b) q =
    (b ≡ any (λ e. e.0 == mid) p.entries)
    × (q ≡ record p { entries = keep (λ e. not (e.0 == mid)) p.entries })
Allows _ p _ q = ⊥

-- A run of the specification with these answers.
abbrev pub AllowsRun : List Op → Pending → List Answer → Pending → Type 0
AllowsRun [] p [] q = p ≡ q
AllowsRun (o ∷ os) p (a ∷ rest) q = (m : Pending) × Allows o p a m × AllowsRun os m rest q
AllowsRun _ p _ q = ⊥

abbrev pub answers : List Op → Table → List Answer
answers [] t = []
answers (o ∷ os) t = answer o t ∷ answers os (step o t)

entries_of-append : (ms ns : List Message) → entries_of (ms ++ ns) ≡ entries_of ms ++ entries_of ns
entries_of-append [] ns = refl
entries_of-append (m ∷ ms) ns = ap (◌∷◌ (m.msg_id, m.message)) (entries_of-append ms ns)

entries_of-update_rows :
    (now vt : ℕ) (ids : List ℕ) (ms : List Message)
    → entries_of (update_rows now vt ids ms) ≡ entries_of ms
unfolding update_rows
entries_of-update_rows now vt ids [] = refl
entries_of-update_rows now vt ids (m ∷ ms) =
    let ih = ap (◌∷◌ (m.msg_id, m.message)) (entries_of-update_rows now vt ids ms) in
    elim (Bool-cases (is_in ids m)) [ inl e ↦ rw e ih | inr e ↦ rw e ih ]

entries_of-keep :
    (mid : ℕ) (ms : List Message)
    → entries_of (keep (λ m. not (has_id mid m)) ms) ≡ keep (λ e. not (e.0 == mid)) (entries_of ms)
entries_of-keep mid [] = refl
entries_of-keep mid (m ∷ ms) = elim (Bool-cases (m.msg_id == mid)) [
  | inl e ↦ rw e (entries_of-keep mid ms)
  | inr e ↦ rw e (ap (◌∷◌ (m.msg_id, m.message)) (entries_of-keep mid ms))
]

any-entries_of :
    (mid : ℕ) (ms : List Message) → any (has_id mid) ms ≡ any (λ e. e.0 == mid) (entries_of ms)
any-entries_of mid [] = refl
any-entries_of mid (m ∷ ms) = ap (λ b. m.msg_id == mid || b) (any-entries_of mid ms)

-- The delivered rows are rows.
weaken-IsPending :
    (e : ℕ × Bytes) (es : List (ℕ × Bytes)) (ms : List Message)
    → All (IsPending es) ms
    → All (IsPending (e ∷ es)) ms
weaken-IsPending e es [] a = tt
weaken-IsPending e es (m ∷ ms) (a, b) = (ground arith, weaken-IsPending e es ms b)

keep-IsPending :
    (f : Message → Bool) (ms : List Message) → All (IsPending (entries_of ms)) (keep f ms)
keep-IsPending f [] = tt
keep-IsPending f (m ∷ ms) =
    let rest =
      weaken-IsPending (m.msg_id, m.message) (entries_of ms) (keep f ms) (keep-IsPending f ms) in
    elim (Bool-cases (f m)) [
      | inl e ↦ rw e (ground (arith, eqb_refl m.message), rest)
      | inr e ↦ rw e rest
    ]

-- At most one row to an id.
count-ascending :
    (i lo hi : ℕ) (ms : List Message)
    → IsAscending lo hi ms
    → (count (λ m. m.msg_id == i) ms ≤ 1) × (i < lo → count (λ m. m.msg_id == i) ms ≡ 0)
count-ascending i lo hi [] a = (omega arith, λ _. refl)
count-ascending i lo hi (m ∷ ms) (p, a) =
    let ih = count-ascending i (suc m.msg_id) hi ms a in
    (ground (arith, ih), λ lt. ground (arith, ih))

count-split :
    (i : ℕ) (ids : List ℕ) (ms : List Message)
    → count (is_in (i ∷ ids)) ms ≤ count (λ m. m.msg_id == i) ms + count (is_in ids) ms
count-split i ids [] = omega arith
count-split i ids (m ∷ ms) = ground (arith, count-split i ids ms)

count-is_in :
    (ids : List ℕ) (lo hi : ℕ) (ms : List Message)
    → IsAscending lo hi ms
    → count (is_in ids) ms ≤ length ids
count-is_in [] lo hi [] a = omega arith
count-is_in [] lo hi (m ∷ ms) (p, a) = count-is_in [] (suc m.msg_id) hi ms a
count-is_in (i ∷ ids) lo hi ms a =
    omega
      (arith, count-split i ids ms, (count-ascending i lo hi ms a).0, count-is_in ids lo hi ms a)

length-ids_of : (ms : List Message) → length (ids_of ms) ≡ length ms
length-ids_of [] = refl
length-ids_of (m ∷ ms) = ap suc (length-ids_of ms)

read_rows-IsDelivery :
    (now vt qty lo hi : ℕ) (ms : List Message)
    → IsAscending lo hi ms
    → IsDelivery qty (entries_of ms) (read_rows now vt qty ms).1
unfolding read_rows picked
read_rows-IsDelivery now vt qty lo hi ms a =
    let ids = picked now qty ms in
    let after = update_rows now vt ids ms in
    let chosen = keep (is_visible now) ms in
    (
      subst (λ es. All (IsPending es) (keep (is_in ids) after))
          (entries_of-update_rows now vt ids ms) (keep-IsPending (is_in ids) after),
      omega (
        arith,
        length-keep (is_in ids) after,
        count-is_in ids lo hi after (update_rows-IsAscending now vt lo hi ids ms a),
        length-take qty (ids_of chosen),
      ),
    )

-- Each operation is one that the specification allows, with its answer.
step-Allows :
    (o : Op) (t : Table)
    → IsSound t
    → Allows o (abstract_of t) (answer o t) (abstract_of (step o t))
unfolding delete_from read_rows
step-Allows (send now msg) t s =
    subst (λ r. Allows (send now msg) (abstract_of t) (id_of r.1) (abstract_of r.0))
      (sym (send_to_sound now msg t s))
      (
        refl,
        ap (λ es. record { next = t.next_id + 1; entries = es })
            (entries_of-append t.rows (sent now msg t.next_id ∷ [])),
      )
step-Allows (read now vt qty) t (k, a) =
    subst (λ r. Allows (read now vt qty) (abstract_of t) (delivered r.1) (abstract_of r.0))
      (sym (read_from_sound now vt qty t k))
      (
        read_rows-IsDelivery now vt qty 0 t.next_id t.rows a,
        ap (λ es. record { next = t.next_id; entries = es })
            (entries_of-update_rows now vt (picked now qty t.rows) t.rows),
      )
step-Allows (remove mid) t s = (
  any-entries_of mid t.rows,
  ap (λ es. record { next = t.next_id; entries = es }) (entries_of-keep mid t.rows),
)

-- A sound mailbox refines the queue of pending messages: every run, with its answers, is one of
-- the specification, where a send takes the next id, a read changes nothing and delivers at most
-- `qty` pending messages, and a removal says whether the message was pending.
pub run-AllowsRun :
    (os : List Op) (t : Table)
    → IsSound t
    → AllowsRun os (abstract_of t) (answers os t) (abstract_of (run os t))
run-AllowsRun [] t s = refl
run-AllowsRun (o ∷ os) t s =
    (abstract_of (step o t), step-Allows o t s, run-AllowsRun os (step o t) (step-IsSound o t s))
