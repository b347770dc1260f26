-- ===== src/Queues/Mailbox.antt =====
-- One mailbox over any run of sends, reads and removals: its rows stay in the order of their ids,
-- and every id is below the serial.
use mathlib.Core.Path.{subst, sym}
use forgebase.Common.{
  ℕ, suc, ◌+◌, ◌≤◌, Bool, false, ◌≡◌, refl, some, List, [], ◌∷◌, ◌++◌, inl, inr, arith,
}
use forgebase.Common.Tests.{ltb, ◌==◌, Bool-cases}
use forgebase.Common.Lists.{keep}
use forgebase.Common.Text.{Bytes}
use forgebase.Queues.Tables.{
  Message, mailbox, Table, is_in, insert_row, picked, update_rows, read_rows, sent, send_to,
  read_from, delete_from, with_rows,
}

-- The ids ascend from `lo`, and stay below `hi`.
abbrev pub IsAscending : ℕ → ℕ → List Message → Type 0
IsAscending lo hi [] = lo ≤ hi
IsAscending lo hi (m ∷ ms) = (lo ≤ m.msg_id) × IsAscending (suc m.msg_id) hi ms

abbrev pub IsSound : Table → Type 0
IsSound t = (t.kind ≡ mailbox) × IsAscending 0 t.next_id t.rows

-- What a client does to a mailbox; `remove` stands for an acknowledgement and for the deletion in
-- `queue_archive`.
pub data Op : Type 0 where
  send : ℕ → Bytes → Op
  read : ℕ → ℕ → ℕ → Op
  remove : ℕ → Op

abbrev pub step : Op → Table → Table
step (send now msg) t = (send_to now msg t).0
step (read now vt qty) t = (read_from now vt qty t).0
step (remove mid) t = (delete_from mid t).0

abbrev pub run : List Op → Table → Table
run [] t = t
run (o ∷ os) t = run os (step o t)

IsAscending-weaken :
    (lo lo' hi hi' : ℕ) (ms : List Message)
    → lo' ≤ lo
    → hi ≤ hi'
    → IsAscending lo hi ms
    → IsAscending lo' hi' ms
IsAscending-weaken lo lo' hi hi' [] a b h = ground arith
IsAscending-weaken lo lo' hi hi' (m ∷ ms) a b (p, q) =
    (ground arith, IsAscending-weaken (suc m.msg_id) (suc m.msg_id) hi hi' ms (ground arith) b q)

-- A row under a fresh id goes to the end.
pub insert_row-fresh :
    (lo hi : ℕ) (m : Message) (ms : List Message)
    → IsAscending lo hi ms
    → hi ≤ m.msg_id
    → insert_row m ms ≡ some (ms ++ m ∷ [])
unfolding insert_row
insert_row-fresh lo hi m [] a le = refl
insert_row-fresh lo hi m (r ∷ rs) (p, q) le =
    let ih = insert_row-fresh (suc r.msg_id) hi m rs q le in
    let bound = top (suc r.msg_id) hi rs q in
    let over : ltb m.msg_id r.msg_id ≡ false = ground arith in
    let other : (m.msg_id == r.msg_id) ≡ false = ground arith in rw over (rw other (rw ih refl))
  where
    top : (lo hi : ℕ) (ms : List Message) → IsAscending lo hi ms → lo ≤ hi
    top lo hi [] h = h
    top lo hi (m ∷ ms) (p, q) = ground (arith, top (suc m.msg_id) hi ms q)

append-IsAscending :
    (lo hi : ℕ) (m : Message) (ms : List Message)
    → IsAscending lo hi ms
    → m.msg_id ≡ hi
    → IsAscending lo (hi + 1) (ms ++ m ∷ [])
append-IsAscending lo hi m [] a e = ground arith
append-IsAscending lo hi m (r ∷ rs) (p, q) e = (p, append-IsAscending (suc r.msg_id) hi m rs q e)

pub update_rows-IsAscending :
    (now vt lo hi : ℕ) (ids : List ℕ) (ms : List Message)
    → IsAscending lo hi ms
    → IsAscending lo hi (update_rows now vt ids ms)
unfolding update_rows
update_rows-IsAscending now vt lo hi ids [] a = a
update_rows-IsAscending now vt lo hi ids (m ∷ ms) (p, q) =
    let rest = update_rows-IsAscending now vt (suc m.msg_id) hi ids ms q in
    elim (Bool-cases (is_in ids m)) [ inl e ↦ rw e (p, rest) | inr e ↦ rw e (p, rest) ]

keep-IsAscending :
    (f : Message → Bool) (lo hi : ℕ) (ms : List Message)
    → IsAscending lo hi ms
    → IsAscending lo hi (keep f ms)
keep-IsAscending f lo hi [] a = a
keep-IsAscending f lo hi (m ∷ ms) (p, q) =
    let rest = keep-IsAscending f (suc m.msg_id) hi ms q in
    elim (Bool-cases (f m)) [
      | inl e ↦ rw e (p, rest)
      | inr e ↦ rw e (
          IsAscending-weaken (suc m.msg_id) lo hi hi (keep f ms) (ground arith) (ground arith) rest)
    ]

-- On a sound mailbox a send succeeds, with the serial for the id.
pub send_to_sound :
    (now : ℕ) (msg : Bytes) (t : Table)
    → IsSound t
    → send_to now msg t ≡ (
      record t { next_id = t.next_id + 1; rows = t.rows ++ sent now msg t.next_id ∷ [] },
      some t.next_id,
    )
unfolding send_to
send_to_sound now msg t (k, a) =
    ground (arith, k, insert_row-fresh 0 t.next_id (sent now msg t.next_id) t.rows a (omega arith))

pub read_from_sound :
    (now vt qty : ℕ) (t : Table)
    → t.kind ≡ mailbox
    → read_from now vt qty t
      ≡ (with_rows t (read_rows now vt qty t.rows).0, some (read_rows now vt qty t.rows).1)
unfolding read_from
read_from_sound now vt qty t k = ground (arith, k)

pub step-IsSound : (o : Op) (t : Table) → IsSound t → IsSound (step o t)
unfolding read_from read_rows delete_from
step-IsSound (send now msg) t s =
    subst (λ r. IsSound r.0) (sym (send_to_sound now msg t s))
      (s.0, append-IsAscending 0 t.next_id (sent now msg t.next_id) t.rows s.1 refl)
step-IsSound (read now vt qty) t (k, a) =
    subst (λ r. IsSound r.0) (sym (read_from_sound now vt qty t k))
      (k, update_rows-IsAscending now vt 0 t.next_id (picked now qty t.rows) t.rows a)
step-IsSound (remove mid) t s = (s.0, keep-IsAscending _ 0 t.next_id t.rows s.1)

pub run-IsSound : (os : List Op) (t : Table) → IsSound t → IsSound (run os t)
run-IsSound [] t s = s
run-IsSound (o ∷ os) t s = run-IsSound os (step o t) (step-IsSound o t s)
