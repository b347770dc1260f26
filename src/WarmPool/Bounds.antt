-- ===== src/WarmPool/Bounds.antt =====
-- How many processes stay warm, and the range of their ports.
use forgebase.Common.{
  ℕ, zero, suc, ◌≤◌, ◌<◌, true, false, ◌≡◌, refl, ◌⊎◌, Option, none, some, [], ◌∷◌, inl, inr, arith,
}
use forgebase.Common.Tests.{ltb, leb, Bool-cases, Option-cases}
use forgebase.Common.Lists.{length}
use forgebase.Common.Text.{Bytes, eqb, eqb_iff}
use forgebase.Common.Map.{Map, lookup, put, remove}
use forgebase.WarmPool.{
  Process, Pool, Answers, Probe, ready, died, silent, oldest_before, evict, scan, start, added,
  is_current, warm_proxy,
}

-- Every process was last used before `now`.
abbrev pub IsBefore : ℕ → Map Process → Type 0
IsBefore now [] = Unit
IsBefore now ((k, p) ∷ m) = (p.last_use < now) × IsBefore now m

-- The search over entries that hold a key gives a key that stands there.
oldest_before-some :
    (oldest : ℕ) (k : Bytes) (m : Map Process)
    → (j : Bytes) × (oldest_before oldest (some k) m ≡ some j)
unfolding oldest_before
oldest_before-some oldest k [] = (k, refl)
oldest_before-some oldest k ((i, p) ∷ m) = elim (Bool-cases (ltb p.last_use oldest)) [
  | inl e ↦ let (j, q) = oldest_before-some p.last_use i m in (j, rw e q)
  | inr e ↦ let (j, q) = oldest_before-some oldest k m in (j, rw e q)
]

-- It is the key of the first or stands among the rest.
abbrev pub IsKey : Bytes → Map Process → Type 0
IsKey j [] = ⊥
IsKey j ((k, p) ∷ m) = (j ≡ k) ⊎ IsKey j m

oldest_before-IsKey :
    (oldest : ℕ) (key : Option Bytes) (m : Map Process) (j : Bytes)
    → oldest_before oldest key m ≡ some j
    → (key ≡ some j) ⊎ IsKey j m
unfolding oldest_before
oldest_before-IsKey oldest key [] j e = inl e
oldest_before-IsKey oldest key ((k, p) ∷ m) j e = elim (Bool-cases (ltb p.last_use oldest)) [
  | inl q ↦ elim (oldest_before-IsKey p.last_use (some k) m j (rw q at e)) [
    | inl here ↦ inr (inl (cc))
    | inr later ↦ inr (inr later)
  ]
  | inr q ↦ elim (oldest_before-IsKey oldest key m j (rw q at e)) [
    | inl here ↦ inl here
    | inr later ↦ inr (inr later)
  ]
]

length-remove_le : (j : Bytes) (m : Map Process) → length (remove j m) ≤ length m
unfolding remove
length-remove_le j [] = omega arith
length-remove_le j ((k, p) ∷ m) = ground (arith, length-remove_le j m)

length-remove_key : (j : Bytes) (m : Map Process) → IsKey j m → length (remove j m) < length m
unfolding remove
length-remove_key j [] h = elim h [ ]
length-remove_key j ((k, p) ∷ m) (inl e) =
    let here : eqb k j ≡ true = ground (arith, eqb_iff k j) in
    rw here (ground (arith, length-remove_le j m))
length-remove_key j ((k, p) ∷ m) (inr h) =
    ground (arith, length-remove_key j m h, length-remove_le j m)

remove-IsBefore :
    (now : ℕ) (j : Bytes) (m : Map Process) → IsBefore now m → IsBefore now (remove j m)
unfolding remove
remove-IsBefore now j [] b = tt
remove-IsBefore now j ((k, p) ∷ m) (b, bs) = elim (Bool-cases (eqb k j)) [
  | inl e ↦ rw e (remove-IsBefore now j m bs)
  | inr e ↦ rw e (b, remove-IsBefore now j m bs)
]

oldest_before-found :
    (now : ℕ) (m : Map Process)
    → IsBefore now m
    → 0 < length m
    → (j : Bytes) × (oldest_before now none m ≡ some j) × IsKey j m
unfolding oldest_before
oldest_before-found now [] b lt = absurd (omega arith)
oldest_before-found now ((k, p) ∷ m) (b, bs) lt =
    let e : ltb p.last_use now ≡ true = ground arith in
    let (j, q) = oldest_before-some p.last_use k m in
    (
      j,
      rw e q,
      elim (oldest_before-IsKey p.last_use (some k) m j q) [
        | inl here ↦ inl cc
        | inr later ↦ inr later
      ],
    )

-- The eviction leaves room for one more.
pub evict-below :
    (f max now : ℕ) (m : Map Process)
    → IsBefore now m
    → length m ≤ f
    → 0 < max
    → length (evict f max now m) < max
unfolding evict
evict-below zero max now m b le pos = ground arith
evict-below (suc f) max now m b le pos = elim (Bool-cases (leb max (length m))) [
  | inl full ↦
      let (j, q, key) = oldest_before-found now m b (ground arith) in
      let rest =
        evict-below f max now (remove j m) (remove-IsBefore now j m b)
          (ground (arith, length-remove_key j m key)) pos in
      rw full (rw q rest)
  | inr room ↦ rw room (ground arith)
]

length-put : (k : Bytes) (p : Process) (m : Map Process) → length (put k p m) ≤ suc (length m)
unfolding put
length-put k p [] = omega arith
length-put k p ((j, q) ∷ m) = ground (arith, length-put k p m)

start-bound :
    (max : ℕ) (e : Answers) (now : ℕ) (key : Bytes) (mtime : ℕ) (w : Pool)
    → IsBefore now w.procs
    → 0 < max
    → length (start max e now key mtime w).0.procs ≤ max
unfolding start
start-bound max e now key mtime w b pos =
    let room = evict (length w.procs) max now w.procs in
    let below = evict-below (length w.procs) max now w.procs b (omega arith) pos in
    elim (Option-cases (scan 500 e.is_free w.next).1) [
      | inl none_free ↦ rw none_free (omega (arith, below))
      | inr (port, free) ↦ elim (Bool-cases e.starts) [
        | inr fails ↦ rw free (rw fails (omega (arith, below)))
        | inl starts ↦ rw free (rw starts (probed e.probe port room below))
      ]
    ]
  where
    probed :
        (pr : Probe) (port : ℕ) (room : Map Process)
        → length room < max
        → length
            (added pr key
              (record { port = port; mtime = mtime; env_sig = e.sig; last_use = now; dead = false })
              (record { procs = room; next = (scan 500 e.is_free w.next).0 })).0.procs
          ≤ max
    probed ready port room lt =
        let p : Process = record {
          port = port;
          mtime = mtime;
          env_sig = e.sig;
          last_use = now;
          dead = false;
        } in
        omega (arith, length-put key p room)
    probed died port room lt = omega arith
    probed silent port room lt = omega arith

length-put_held :
    (k : Bytes) (p q : Process) (m : Map Process)
    → lookup k m ≡ some q
    → length (put k p m) ≡ length m
unfolding put lookup
length-put_held k p q [] e = absurd cc
length-put_held k p q ((j, r) ∷ m) e = ground (arith, length-put_held k p q m)

-- A pool within its cap, whose processes were last used before now, stays within it.
pub warm_proxy-bound :
    (max : ℕ) (e : Answers) (now : ℕ) (key : Bytes) (w : Pool)
    → IsBefore now w.procs
    → 0 < max
    → length w.procs ≤ max
    → length (warm_proxy max e now key w).0.procs ≤ max
unfolding warm_proxy
warm_proxy-bound max e now key w b pos le = elim (Bool-cases e.runner) [
  | inr off ↦ rw off le
  | inl on ↦ elim (Option-cases e.mtime) [
    | inl gone ↦ rw on (rw gone le)
    | inr (mtime, there) ↦ elim (Option-cases (lookup key w.procs)) [
      | inl new ↦ rw on (rw there (rw new (start-bound max e now key mtime w b pos)))
      | inr (p, old) ↦ elim (Bool-cases (is_current mtime e.sig p)) [
        | inl current ↦ rw on (
            rw there (
              rw old (
                rw current (
                  omega
                    (arith, le, length-put_held key (record p { last_use = now }) p w.procs old)))))
        | inr stale ↦ rw on (
            rw there (
              rw old (
                rw stale (
                  start-bound max e now key mtime (record w { procs = remove key w.procs })
                    (remove-IsBefore now key w.procs b) pos))))
      ]
    ]
  ]
]
