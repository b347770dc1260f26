-- ===== src/Queues/Redelivery.antt =====
-- A message that nobody removes is delivered again.
use mathlib.Core.Path.{subst, sym}
use forgebase.Common.{
  ℕ, zero, suc, ◌+◌, ◌≤◌, ◌<◌, Bool, true, not, ◌≡◌, ◌≢◌, refl, ap, List, [], ◌∷◌, ◌++◌, ◌⊎◌, inl,
  inr, arith,
}
use forgebase.Common.Tests.{ltb, leb, ◌==◌, Bool-cases}
use forgebase.Common.Lists.{take, keep, count}
use forgebase.Common.Text.{Bytes}
use forgebase.Queues.Tables.{
  Message, Table, has_id, is_in, is_visible, ids_of, picked, update_rows, read_rows, sent,
  delete_from,
}
use forgebase.Queues.Leases.{IsIn}
use forgebase.Queues.Mailbox.{
  IsAscending, IsSound, Op, send, read, remove, step, run, send_to_sound, read_from_sound,
  step-IsSound, run-IsSound,
}

-- A row of this id with this body.
abbrev pub HasMessage : ℕ → Bytes → List Message → Type 0
HasMessage i msg [] = ⊥
HasMessage i msg (m ∷ ms) = ((m.msg_id ≡ i) × (m.message ≡ msg)) ⊎ HasMessage i msg ms

-- No operation of the run removes this id.
abbrev pub IsUnacked : ℕ → List Op → Type 0
IsUnacked i [] = Unit
IsUnacked i (send now msg ∷ os) = IsUnacked i os
IsUnacked i (read now vt qty ∷ os) = IsUnacked i os
IsUnacked i (remove mid ∷ os) = (mid ≢ i) × IsUnacked i os

append-HasMessage :
    (i : ℕ) (msg : Bytes) (ms ns : List Message) → HasMessage i msg ms → HasMessage i msg (ms ++ ns)
append-HasMessage i msg [] ns h = elim h [ ]
append-HasMessage i msg (m ∷ ms) ns (inl h) = inl h
append-HasMessage i msg (m ∷ ms) ns (inr h) = inr (append-HasMessage i msg ms ns h)

update_rows-HasMessage :
    (now vt i : ℕ) (msg : Bytes) (ids : List ℕ) (ms : List Message)
    → HasMessage i msg ms
    → HasMessage i msg (update_rows now vt ids ms)
unfolding update_rows
update_rows-HasMessage now vt i msg ids [] h = elim h [ ]
update_rows-HasMessage now vt i msg ids (m ∷ ms) (inl h) = elim (Bool-cases (is_in ids m)) [
  | inl e ↦ rw e (inl h)
  | inr e ↦ rw e (inl h)
]
update_rows-HasMessage now vt i msg ids (m ∷ ms) (inr h) =
    let rest = update_rows-HasMessage now vt i msg ids ms h in
    elim (Bool-cases (is_in ids m)) [ inl e ↦ rw e (inr rest) | inr e ↦ rw e (inr rest) ]

keep-HasMessage :
    (i : ℕ) (msg : Bytes) (mid : ℕ) (ms : List Message)
    → mid ≢ i
    → HasMessage i msg ms
    → HasMessage i msg (keep (λ m. not (has_id mid m)) ms)
keep-HasMessage i msg mid [] ne h = elim h [ ]
keep-HasMessage i msg mid (m ∷ ms) ne (inl h) =
    let e : not (m.msg_id == mid) ≡ true = ground arith in rw e (inl h)
keep-HasMessage i msg mid (m ∷ ms) ne (inr h) =
    let rest = keep-HasMessage i msg mid ms ne h in
    elim (Bool-cases (not (has_id mid m))) [ inl e ↦ rw e (inr rest) | inr e ↦ rw e rest ]

pub run-HasMessage :
    (i : ℕ) (msg : Bytes) (os : List Op) (t : Table)
    → IsSound t
    → IsUnacked i os
    → HasMessage i msg t.rows
    → HasMessage i msg (run os t).rows
unfolding read_rows delete_from
run-HasMessage i msg [] t s u h = h
run-HasMessage i msg (send now body ∷ os) t s u h =
    run-HasMessage i msg os (step (send now body) t) (step-IsSound (send now body) t s) u (
      subst (λ r. HasMessage i msg r.0.rows) (sym (send_to_sound now body t s))
        (append-HasMessage i msg t.rows (sent now body t.next_id ∷ []) h))
run-HasMessage i msg (read now vt qty ∷ os) t s u h =
    run-HasMessage i msg os (step (read now vt qty) t) (step-IsSound (read now vt qty) t s) u (
      subst (λ r. HasMessage i msg r.0.rows) (sym (read_from_sound now vt qty t s.0))
        (update_rows-HasMessage now vt i msg (picked now qty t.rows) t.rows h))
run-HasMessage i msg (remove mid ∷ os) t s (ne, u) h =
    run-HasMessage i msg os (step (remove mid) t) (step-IsSound (remove mid) t s) u
      (keep-HasMessage i msg mid t.rows ne h)

-- Every lock that the run takes has lapsed at `now`.
abbrev pub IsLapsed : ℕ → List Op → Type 0
IsLapsed now [] = Unit
IsLapsed now (send at msg ∷ os) = (at ≤ now) × IsLapsed now os
IsLapsed now (read at vt qty ∷ os) = (at + vt ≤ now) × IsLapsed now os
IsLapsed now (remove mid ∷ os) = IsLapsed now os

abbrev pub IsVisible : ℕ → List Message → Type 0
IsVisible now [] = Unit
IsVisible now (m ∷ ms) = (m.stamp ≤ now) × IsVisible now ms

append-IsVisible :
    (now : ℕ) (m : Message) (ms : List Message)
    → IsVisible now ms
    → m.stamp ≤ now
    → IsVisible now (ms ++ m ∷ [])
append-IsVisible now m [] v le = (le, tt)
append-IsVisible now m (r ∷ ms) (a, v) le = (a, append-IsVisible now m ms v le)

update_rows-IsVisible :
    (now at vt : ℕ) (ids : List ℕ) (ms : List Message)
    → IsVisible now ms
    → at + vt ≤ now
    → IsVisible now (update_rows at vt ids ms)
unfolding update_rows
update_rows-IsVisible now at vt ids [] v le = tt
update_rows-IsVisible now at vt ids (m ∷ ms) (a, v) le =
    let rest = update_rows-IsVisible now at vt ids ms v le in
    elim (Bool-cases (is_in ids m)) [ inl e ↦ rw e (le, rest) | inr e ↦ rw e (a, rest) ]

keep-IsVisible :
    (now : ℕ) (f : Message → Bool) (ms : List Message)
    → IsVisible now ms
    → IsVisible now (keep f ms)
keep-IsVisible now f [] v = tt
keep-IsVisible now f (m ∷ ms) (a, v) =
    let rest = keep-IsVisible now f ms v in
    elim (Bool-cases (f m)) [ inl e ↦ rw e (a, rest) | inr e ↦ rw e rest ]

run-IsVisible :
    (now : ℕ) (os : List Op) (t : Table)
    → IsSound t
    → IsLapsed now os
    → IsVisible now t.rows
    → IsVisible now (run os t).rows
unfolding read_rows delete_from
run-IsVisible now [] t s l v = v
run-IsVisible now (send at body ∷ os) t s (a, l) v =
    run-IsVisible now os (step (send at body) t) (step-IsSound (send at body) t s) l (
      subst (λ r. IsVisible now r.0.rows) (sym (send_to_sound at body t s))
        (append-IsVisible now (sent at body t.next_id) t.rows v a))
run-IsVisible now (read at vt qty ∷ os) t s (a, l) v =
    run-IsVisible now os (step (read at vt qty) t) (step-IsSound (read at vt qty) t s) l (
      subst (λ r. IsVisible now r.0.rows) (sym (read_from_sound at vt qty t s.0))
        (update_rows-IsVisible now at vt (picked at qty t.rows) t.rows v a))
run-IsVisible now (remove mid ∷ os) t s l v =
    run-IsVisible now os (step (remove mid) t) (step-IsSound (remove mid) t s) l
      (keep-IsVisible now _ t.rows v)

keep-visible : (now : ℕ) (ms : List Message) → IsVisible now ms → keep (is_visible now) ms ≡ ms
keep-visible now [] v = refl
keep-visible now (m ∷ ms) (a, v) =
    let e : leb m.stamp now ≡ true = ground arith in rw e (ap (◌∷◌ m) (keep-visible now ms v))

-- The row of an id stands behind those of smaller ids only.
take-HasMessage :
    (lo hi i qty : ℕ) (msg : Bytes) (ms : List Message)
    → IsAscending lo hi ms
    → HasMessage i msg ms
    → count (λ m. ltb m.msg_id i) ms < qty
    → IsIn i (take qty (ids_of ms)) × (lo ≤ i)
take-HasMessage lo hi i qty msg [] a h lt = elim h [ ]
take-HasMessage lo hi i zero msg (m ∷ ms) a h lt = absurd (omega arith)
take-HasMessage lo hi i (suc q) msg (m ∷ ms) (p, a) (inl (e, _)) lt = (ground arith, ground arith)
take-HasMessage lo hi i (suc q) msg (m ∷ ms) (p, a) (inr h) lt =
    elim (Bool-cases (ltb m.msg_id i)) [
      | inl less ↦
          let ih = take-HasMessage (suc m.msg_id) hi i q msg ms a h (ground arith) in
          (ground arith, ground arith)
      | inr not_less ↦ absurd (late (suc m.msg_id) ms a h (ground arith))
    ]
  where
    late : (lo : ℕ) (ms : List Message) → IsAscending lo hi ms → HasMessage i msg ms → i < lo → ⊥
    late lo [] a h lt = h
    late lo (m ∷ ms) (p, a) (inl (e, _)) lt = omega arith
    late lo (m ∷ ms) (p, a) (inr h) lt = late (suc m.msg_id) ms a h (omega arith)

returned-HasMessage :
    (now vt i : ℕ) (msg : Bytes) (ids : List ℕ) (ms : List Message)
    → HasMessage i msg ms
    → IsIn i ids
    → HasMessage i msg (keep (is_in ids) (update_rows now vt ids ms))
unfolding update_rows
returned-HasMessage now vt i msg ids [] h p = elim h [ ]
returned-HasMessage now vt i msg ids (m ∷ ms) (inl (e, b)) p =
    let q : is_in ids m ≡ true = rw e p in rw q (rw q (inl (e, b)))
returned-HasMessage now vt i msg ids (m ∷ ms) (inr h) p =
    let rest = returned-HasMessage now vt i msg ids ms h p in
    elim (Bool-cases (is_in ids m)) [ inl e ↦ rw e (rw e (inr rest)) | inr e ↦ rw e (rw e rest) ]

-- A message that no operation of the run removes is delivered, with its body, by a read after it,
-- once every lock taken before has lapsed and where the read asks for more messages than there are
-- older ones.
pub read_from-redelivers :
    (t : Table) (i : ℕ) (msg : Bytes) (os : List Op) (now vt qty : ℕ)
    → IsSound t
    → HasMessage i msg t.rows
    → IsUnacked i os
    → IsVisible now t.rows
    → IsLapsed now os
    → count (λ m. ltb m.msg_id i) (run os t).rows < qty
    → HasMessage i msg (read_rows now vt qty (run os t).rows).1
unfolding read_rows picked
read_from-redelivers t i msg os now vt qty s h u v l lt =
    let rows = (run os t).rows in
    let kept = run-HasMessage i msg os t s u h in
    let whole = keep-visible now rows (run-IsVisible now os t s l v) in
    let ordered = (run-IsSound os t s).1 in
    let p = (take-HasMessage 0 (run os t).next_id i qty msg rows ordered kept lt).0 in
    returned-HasMessage now vt i msg (take qty (ids_of (keep (is_visible now) rows))) rows kept
      (rw whole p)
