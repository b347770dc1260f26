-- ===== src/Queues/Delivery.antt =====
-- A message is leased to one reader at a time.
use mathlib.Core.Path.{subst, sym}
use forgebase.Common.{ℕ, ◌+◌, ◌≤◌, ◌<◌, Bool, ◌≢◌, List, [], ◌∷◌, ◌++◌, arith}
use forgebase.Common.Lists.{keep}
use forgebase.Queues.Tables.{Message, Table, picked, read_rows, sent, delete_from}
use forgebase.Queues.Leases.{
  IsLocked, IsReturned, picked-locked, read_rows-locks, read_rows-locked, update_rows-keeps,
}
use forgebase.Queues.Mailbox.{
  IsSound, Op, send, read, remove, step, run, send_to_sound, read_from_sound, step-IsSound,
}

-- Every read of a run happens at `limit` at the latest.
abbrev pub IsBy : ℕ → List Op → Type 0
IsBy limit [] = Unit
IsBy limit (send now msg ∷ os) = IsBy limit os
IsBy limit (read now vt qty ∷ os) = (now ≤ limit) × IsBy limit os
IsBy limit (remove mid ∷ os) = IsBy limit os

keep-IsLocked :
    (later i : ℕ) (f : Message → Bool) (ms : List Message)
    → IsLocked later i ms
    → IsLocked later i (keep f ms)
keep-IsLocked later i f [] l = l
keep-IsLocked later i f (m ∷ ms) l = ground (arith, keep-IsLocked later i f ms)

append-IsLocked :
    (later i : ℕ) (m : Message) (ms : List Message)
    → IsLocked later i ms
    → i ≢ m.msg_id
    → IsLocked later i (ms ++ m ∷ [])
append-IsLocked later i m [] l ne = ground arith
append-IsLocked later i m (r ∷ ms) l ne = ground (arith, append-IsLocked later i m ms)

module _ (later i : ℕ) where
  step-IsLocked :
      (o : Op) (t : Table)
      → IsSound t
      → i < t.next_id
      → IsBy later (o ∷ [])
      → IsLocked later i t.rows
      → IsLocked later i (step o t).rows
  unfolding read_rows delete_from
  step-IsLocked (send now msg) t s lt by l =
      subst (λ r. IsLocked later i r.0.rows) (sym (send_to_sound now msg t s))
        (append-IsLocked later i (sent now msg t.next_id) t.rows l (ground arith))
  step-IsLocked (read now vt qty) t s lt (le, _) l =
      subst (λ r. IsLocked later i r.0.rows) (sym (read_from_sound now vt qty t s.0))
        (update_rows-keeps now vt later i (picked now qty t.rows) t.rows
          (picked-locked now later qty i t.rows l le) l)
  step-IsLocked (remove mid) t s lt by l = keep-IsLocked later i _ t.rows l

  step-next_id : (o : Op) (t : Table) → IsSound t → t.next_id ≤ (step o t).next_id
  unfolding delete_from
  step-next_id (send now msg) t s =
      subst (λ r. t.next_id ≤ r.0.next_id) (sym (send_to_sound now msg t s)) (omega arith)
  step-next_id (read now vt qty) t s =
      subst (λ r. t.next_id ≤ r.0.next_id) (sym (read_from_sound now vt qty t s.0)) (omega arith)
  step-next_id (remove mid) t s = omega arith

  IsBy-head : (o : Op) (os : List Op) → IsBy later (o ∷ os) → IsBy later (o ∷ []) × IsBy later os
  IsBy-head (send now msg) os b = (tt, b)
  IsBy-head (read now vt qty) os (a, b) = ((a, tt), b)
  IsBy-head (remove mid) os b = (tt, b)

  run-IsLocked :
      (os : List Op) (t : Table)
      → IsSound t
      → i < t.next_id
      → IsBy later os
      → IsLocked later i t.rows
      → IsLocked later i (run os t).rows
  run-IsLocked [] t s lt by l = l
  run-IsLocked (o ∷ os) t s lt by l =
      let (here, rest) = IsBy-head o os by in
      run-IsLocked os (step o t) (step-IsSound o t s) (ground (arith, step-next_id o t s)) rest
        (step-IsLocked o t s lt here l)

-- A delivered message is not delivered again before its visibility timeout has passed, whatever
-- sends, removals and reads up to that time come between.
pub read_from-exclusive :
    (t : Table) (now vt qty i : ℕ) (os : List Op) (later vt' qty' : ℕ)
    → IsSound t
    → i < t.next_id
    → IsReturned i (read_rows now vt qty t.rows)
    → later < now + vt
    → IsBy later os
    → ¬ IsReturned i (read_rows later vt' qty' (run os (step (read now vt qty) t)).rows)
read_from-exclusive t now vt qty i os later vt' qty' s lt returned before by =
    let o = read now vt qty in
    let locked : IsLocked later i (step o t).rows =
      subst (λ r. IsLocked later i r.0.rows) (sym (read_from_sound now vt qty t s.0))
        (read_rows-locks now vt qty later i t.rows returned before) in
    read_rows-locked later vt' qty' later i (run os (step o t)).rows
      (run-IsLocked later i os (step o t) (step-IsSound o t s)
        (ground (arith, step-next_id later i o t s)) by locked)
      (omega arith)
