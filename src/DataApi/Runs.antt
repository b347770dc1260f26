-- ===== src/DataApi/Runs.antt =====
-- The pool under any interleaving of its locked steps: cold starts that succeed or fail, waits that
-- give up, stops, requests and the reaper.
use forgebase.Common.{
  ℕ, suc, ◌≤◌, ◌<◌, Bool, true, ◌≡◌, ◌≢◌, refl, none, some, List, [], ◌∷◌, inl, inr, arith, ap,
}
use forgebase.Common.Tests.{Option-cases}
use forgebase.Common.Lists.{length}
use forgebase.Common.Text.{Bytes, eqb_iff}
use forgebase.Common.Map.{Map, lookup}
use forgebase.DataApi.{
  Process, Pool, initial, ports, no_port, alloc_from, start_on, ensure_postgrest, give_up,
  stop_postgrest, touch, reap_postgrest, alloc_pgrst_port,
}
use forgebase.DataApi.Scan.{scan_finds}
use forgebase.DataApi.Ports.{
  times, Inv, initial-Inv, ensure_postgrest-Inv, give_up-Inv, stop_postgrest-Inv, touch-Inv,
  reap_postgrest-Inv,
}

pub data Step : Pool → Pool → Type 0 where
  ensure :
      (s : Pool) (slug : Bytes) (enabled starts : Bool) (now : ℕ)
      → Step s (ensure_postgrest slug enabled starts now s).0
  unready : (s : Pool) (slug : Bytes) (id : ℕ) → Step s (give_up slug id s)
  stop : (s : Pool) (slug : Bytes) → Step s (stop_postgrest slug s)
  request : (s : Pool) (slug : Bytes) (now : ℕ) → Step s (touch slug now s)
  reap :
      (s : Pool) (idle now : ℕ) (pinned : Bytes → Bool) → Step s (reap_postgrest idle now pinned s)

pub data Reach : Pool → Type 0 where
  start : Reach initial
  next : {s t : Pool} → Reach s → Step s t → Reach t

Step-Inv : {s t : Pool} → Step s t → Inv s → Inv t
Step-Inv (ensure s slug enabled starts now) v = ensure_postgrest-Inv slug enabled starts now s v
Step-Inv (unready s slug id) v = give_up-Inv slug id s v
Step-Inv (stop s slug) v = stop_postgrest-Inv slug s v
Step-Inv (request s slug now) v = touch-Inv slug now s v
Step-Inv (reap s idle now pinned) v = reap_postgrest-Inv idle now pinned s v

Reach-Inv : {s : Pool} → Reach s → Inv s
Reach-Inv start = initial-Inv
Reach-Inv (next r st) = Step-Inv st (Reach-Inv r)

times_of_lookup :
    (k : Bytes) (p : Process) (m : Map Process) → lookup k m ≡ some p → 1 ≤ times p.port (ports m)
unfolding lookup
times_of_lookup k p [] e = cc
times_of_lookup k p ((j, q) ∷ m) e = ground (arith, times_of_lookup k p m)

-- Two projects on one port are two entries with it.
times_of_two :
    (k l : Bytes) (p q : Process) (m : Map Process)
    → lookup k m ≡ some p
    → lookup l m ≡ some q
    → k ≢ l
    → p.port ≡ q.port
    → 2 ≤ times p.port (ports m)
unfolding lookup
times_of_two k l p q [] e f ne same = cc
times_of_two k l p q ((j, r) ∷ m) e f ne same = ground (
  arith,
  times_of_two k l p q m,
  times_of_lookup k p m,
  times_of_lookup l q m,
  eqb_iff j k,
  eqb_iff j l,
)

-- In every state that the pool can reach, the processes of two projects listen on different ports.
pub ports_differ :
    {s : Pool} (a b : Bytes) (p q : Process)
    → Reach s
    → lookup a s.procs ≡ some p
    → lookup b s.procs ≡ some q
    → a ≢ b
    → p.port ≢ q.port
ports_differ {s} a b p q r e f ne same =
    omega (arith, (Reach-Inv r).once p.port, times_of_two a b p q s.procs e f ne same)

length-ports : (m : Map Process) → length (ports m) ≡ length m
length-ports [] = refl
length-ports (_ ∷ m) = ap suc (length-ports m)

-- A reachable pool with fewer than 62000 processes finds a port for an enabled project that has no
-- process: the search of `allocPgrstPort` ends.
pub ensure_postgrest_finds :
    {s : Pool} (slug : Bytes) (starts : Bool) (now : ℕ)
    → Reach s
    → lookup slug s.procs ≡ none
    → length s.procs < 62000
    → (ensure_postgrest slug true starts now s).1 ≢ no_port
unfolding ensure_postgrest alloc_pgrst_port
ensure_postgrest_finds {s} slug starts now r e few h = elim (Option-cases (alloc_from s s.free)) [
  | inl n ↦ searched s.free refl n
  | inr (pt, a) ↦ started pt.0 pt.1 (rw (e, a) at h)
]
  where
    searched : (free : List ℕ) → s.free ≡ free → alloc_from s s.free ≡ none → ⊥
    searched (p ∷ ps) f n = cc (rw f at n)
    searched [] f n =
        let v = Reach-Inv r in
        let (port, after, q) =
          scan_finds (ports s.procs) s.next v.next_low v.next_high
            (omega (arith, length-ports s.procs)) in
        cc (rw (f, q) at n)

    started : (port : ℕ) (t : Pool) → (start_on slug starts now s (some (port, t))).1 ≡ no_port → ⊥
    started port t h = ground arith
