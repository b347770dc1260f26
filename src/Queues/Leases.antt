-- ===== src/Queues/Leases.antt =====
-- No message is delivered twice within its visibility timeout, and a message that nobody
-- acknowledged is delivered again once it has passed.
use forgebase.Common.{
  ℕ, zero, suc, ◌+◌, ◌≤◌, ◌<◌, true, false, ◌&&◌, ◌≡◌, refl, List, [], ◌∷◌, inl, inr, arith,
}
use forgebase.Common.Tests.{leb, ◌==◌, Bool-cases}
use forgebase.Common.Lists.{take, keep, any}
use forgebase.Queues.Tables.{Message, ids_of, is_visible, is_in, picked, update_rows, read_rows}

-- A row's id among the picked ones.
abbrev pub IsIn : ℕ → List ℕ → Type 0
IsIn i ids = any (λ j. i == j) ids ≡ true

-- Every picked id is that of a visible row.
take-any : (i n : ℕ) (xs : List ℕ) → IsIn i (take n xs) → IsIn i xs
take-any i zero xs h = ground arith
take-any i (suc n) [] h = ground arith
take-any i (suc n) (x ∷ xs) h = ground (arith, take-any i n xs)

-- Some visible row has this id.
abbrev IsWaiting : ℕ → ℕ → List Message → Type 0
IsWaiting now i rows = any (λ m. leb m.stamp now && i == m.msg_id) rows ≡ true

ids_of-keep :
    (now i : ℕ) (rows : List Message)
    → IsIn i (ids_of (keep (is_visible now) rows))
    → IsWaiting now i rows
ids_of-keep now i [] h = ground arith
ids_of-keep now i (m ∷ ms) h = ground (arith, ids_of-keep now i ms)

-- After an update, a row of an id that it names is locked until the lease ends.
update_rows-locked :
    (now vt later i : ℕ) (ids : List ℕ) (rows : List Message)
    → IsIn i ids
    → later < now + vt
    → any (λ m. leb m.stamp later && i == m.msg_id) (update_rows now vt ids rows) ≡ false
unfolding update_rows
update_rows-locked now vt later i ids [] p lt = refl
update_rows-locked now vt later i ids (m ∷ ms) p lt =
    let q = update_rows-locked now vt later i ids ms p lt in
    elim (Bool-cases (is_in ids m)) [
      | inl e ↦ rw e (ground arith)
      | inr e ↦ elim (Bool-cases (i == m.msg_id)) [
        | inl same ↦ let w : i ≡ m.msg_id = ground arith in absurd (cc (rw w at p))
        | inr other ↦ rw e (ground arith)
      ]
    ]

-- What a read returns are rows that it picked.
returned-picked :
    (i : ℕ) (ids : List ℕ) (rows : List Message)
    → IsIn i (ids_of (keep (is_in ids) rows))
    → IsIn i ids
returned-picked i ids [] h = ground arith
returned-picked i ids (m ∷ ms) h = elim (Bool-cases (i == m.msg_id)) [
  | inl same ↦
      let e : i ≡ m.msg_id = ground arith in
      elim (Bool-cases (is_in ids m)) [
        | inl p ↦ rw e p
        | inr p ↦ returned-picked i ids ms (cc (rw p at h))
      ]
  | inr other ↦ returned-picked i ids ms (ground arith)
]

-- No row of this id is visible at any time up to `later`.
abbrev pub IsLocked : ℕ → ℕ → List Message → Type 0
IsLocked later i rows = any (λ m. leb m.stamp later && i == m.msg_id) rows ≡ false

-- A read returns this id.
abbrev pub IsReturned : ℕ → List Message × List Message → Type 0
IsReturned i r = IsIn i (ids_of r.1)

pub picked-IsWaiting :
    (now qty i : ℕ) (rows : List Message) → IsIn i (picked now qty rows) → IsWaiting now i rows
unfolding picked
picked-IsWaiting now qty i rows h = ids_of-keep now i rows (take-any i qty _ h)

-- A locked row is not picked, at any time before the lock lapses.
pub picked-locked :
    (now later qty i : ℕ) (rows : List Message)
    → IsLocked later i rows
    → now ≤ later
    → any (λ j. i == j) (picked now qty rows) ≡ false
picked-locked now later qty i rows l le =
    elim (Bool-cases (any (λ j. i == j) (picked now qty rows))) [
      | inl p ↦ absurd (clash rows (picked-IsWaiting now qty i rows p) l)
      | inr p ↦ p
    ]
  where
    clash : (rows : List Message) → IsWaiting now i rows → IsLocked later i rows → ⊥
    clash [] w l = ground arith
    clash (m ∷ ms) w l = ground (arith, clash ms)

pub read_rows-locks :
    (now vt qty later i : ℕ) (rows : List Message)
    → IsReturned i (read_rows now vt qty rows)
    → later < now + vt
    → IsLocked later i (read_rows now vt qty rows).0
unfolding read_rows
read_rows-locks now vt qty later i rows h lt =
    update_rows-locked now vt later i (picked now qty rows) rows
      (returned-picked i (picked now qty rows) (update_rows now vt (picked now qty rows) rows) h) lt

pub read_rows-locked :
    (now vt qty later i : ℕ) (rows : List Message)
    → IsLocked later i rows
    → now ≤ later
    → ¬ IsReturned i (read_rows now vt qty rows)
unfolding read_rows
read_rows-locked now vt qty later i rows l le h =
    let p =
      returned-picked i (picked now qty rows) (update_rows now vt (picked now qty rows) rows) h in
    absurd (cc (p, picked-locked now later qty i rows l le))

-- A read that does not pick the row leaves it as it is.
pub update_rows-keeps :
    (now vt later i : ℕ) (ids : List ℕ) (rows : List Message)
    → any (λ j. i == j) ids ≡ false
    → IsLocked later i rows
    → IsLocked later i (update_rows now vt ids rows)
unfolding update_rows
update_rows-keeps now vt later i ids [] p l = l
update_rows-keeps now vt later i ids (m ∷ ms) p l =
    let q = update_rows-keeps now vt later i ids ms p in
    elim (Bool-cases (is_in ids m)) [
      | inl e ↦ elim (Bool-cases (i == m.msg_id)) [
        | inl same ↦ let w : i ≡ m.msg_id = ground arith in absurd (cc (rw w at p))
        | inr other ↦ rw e (ground arith)
      ]
      | inr e ↦ rw e (ground arith)
    ]
