-- ===== src/WarmPool.antt =====
-- The pool of warm edge-function processes, `warmProcs` of pgforge/edgewarm.go: `warmProxy`, the
-- reaper, and the deaths of processes.
pub mod Reuse
pub mod Bounds
mod Tests
use forgebase.Common.{
  ℕ, zero, suc, ◌+◌, Bool, true, false, not, ◌&&◌, ◌||◌, Option, none, some, List, [], ◌∷◌, ◌++◌,
}
use forgebase.Common.Tests.{ltb, leb, ◌==◌, if◌then◌else◌}
use forgebase.Common.Lists.{length}
use forgebase.Common.Text.{Bytes, eqb}
use forgebase.Common.Map.{Map, lookup, put, remove, retain}

-- Times are in seconds; the proxy is known by its port.
pub record Process : Type 0 where
  pub port : ℕ
  pub mtime : ℕ
  pub env_sig : Bytes
  pub last_use : ℕ
  pub dead : Bool

pub record Pool : Type 0 where
  pub procs : Map Process
  pub next : ℕ

abbrev pub first_port : ℕ
first_port = 21500

abbrev pub last_port : ℕ
last_port = 21999

abbrev pub five_minutes : ℕ
five_minutes = 300

-- `warmMaxPer` from the number that `EDGE_WARM_MAX` scans to, `none` where it is unset.
abbrev pub warm_max_per : Option ℕ → ℕ
warm_max_per none = 8
warm_max_per (some zero) = 8
warm_max_per (some (suc n)) = suc n

-- What comes of the 60 probes of a new process.
pub data Probe : Type 0 where
  ready died silent : Probe

-- What the environment answers a call: whether the runner is there, the function's modification
-- time, the digest of its environment, the free ports, whether deno starts, and the probes.
pub record Answers : Type 0 where
  pub runner : Bool
  pub mtime : Option ℕ
  pub sig : Bytes
  pub is_free : ℕ → Bool
  pub starts : Bool
  pub probe : Probe

abbrev pub is_kept : ℕ → Process → Bool
is_kept now p = not (p.dead || ltb (p.last_use + five_minutes) now)

-- A tick of the reaper.
unfoldable pub warm_reaper : ℕ → Pool → Pool
unfolding retain
warm_reaper now w = record w { procs = retain (λ k p. is_kept now p) w.procs }

-- The least recently used entry before `oldest`, if there is one.
unfoldable pub oldest_before : ℕ → Option Bytes → Map Process → Option Bytes
oldest_before oldest key [] = key
oldest_before oldest key ((k, p) ∷ m) =
    let older = oldest_before p.last_use (some k) m in
    let same = oldest_before oldest key m in if ltb p.last_use oldest then older else same

abbrev pub is_found : Option Bytes → Bool
is_found none = false
is_found (some k) = true

abbrev pub without : Option Bytes → Map Process → Map Process
without none m = m
without (some k) m = remove k m

-- The loop of the eviction, one process a round; each round takes one away, so the number of the
-- processes is fuel enough.
unfoldable pub evict : ℕ → ℕ → ℕ → Map Process → Map Process
unfolding oldest_before remove
evict zero max now m = m
evict (suc f) max now m =
    let key = oldest_before now none m in
    let rest = evict f max now (without key m) in
    if leb max (length m) then (if is_found key then rest else m) else m

abbrev pub wrap : ℕ → ℕ
wrap n = if ltb last_port n then first_port else n

-- The scan for a port, from `next`; the new `next` and the port.
unfoldable pub scan : ℕ → (ℕ → Bool) → ℕ → ℕ × Option ℕ
scan zero is_free next = (next, none)
scan (suc i) is_free next =
    let rest = scan i is_free (wrap (next + 1)) in
    if is_free next then (wrap (next + 1), some next) else rest

-- A process that serves this version of the function under this environment.
abbrev pub is_current : ℕ → Bytes → Process → Bool
is_current mtime sig p = not p.dead && p.mtime == mtime && eqb p.env_sig sig

abbrev pub added : Probe → Bytes → Process → Pool → Pool × Option ℕ
added ready key p w = (record w { procs = put key p w.procs }, some p.port)
added died key p w = (w, none)
added silent key p w = (w, none)

abbrev pub start_on : Answers → ℕ → Bytes → ℕ → Option ℕ → Pool → Pool × Option ℕ
start_on e now key mtime none w = (w, none)
start_on e now key mtime (some port) w =
    let p : Process = record {
      port = port;
      mtime = mtime;
      env_sig = e.sig;
      last_use = now;
      dead = false;
    } in
    if e.starts then added e.probe key p w else (w, none)

-- Makes room and starts a process.
unfoldable pub start : ℕ → Answers → ℕ → Bytes → ℕ → Pool → Pool × Option ℕ
unfolding evict scan put
start max e now key mtime w =
    let room = evict (length w.procs) max now w.procs in
    let (next, port) = scan 500 e.is_free w.next in
    start_on e now key mtime port (record { procs = room; next = next })

-- By the entry that stands at the key.
abbrev pub serve : ℕ → Answers → ℕ → Bytes → ℕ → Option Process → Pool → Pool × Option ℕ
serve max e now key mtime none w = start max e now key mtime w
serve max e now key mtime (some p) w =
    if is_current mtime e.sig p
    then (record w { procs = put key (record p { last_use = now }) w.procs }, some p.port)
    else start max e now key mtime (record w { procs = remove key w.procs })

abbrev pub serve_version : ℕ → Answers → ℕ → Bytes → Option ℕ → Pool → Pool × Option ℕ
serve_version max e now key none w = (w, none)
serve_version max e now key (some mtime) w = serve max e now key mtime (lookup key w.procs) w

-- The new pool and the port of the proxy; `none` falls back to a run of its own.
unfoldable pub warm_proxy : ℕ → Answers → ℕ → Bytes → Pool → Pool × Option ℕ
unfolding start lookup put remove eqb
warm_proxy max e now key w =
    if not e.runner then (w, none) else serve_version max e now key e.mtime w

abbrev mark_dead : Option Process → Bytes → Map Process → Map Process
mark_dead none key m = m
mark_dead (some p) key m = put key (record p { dead = true }) m

-- A process exits, or its proxy fails.
unfoldable pub die : Bytes → Pool → Pool
unfolding lookup put
die key w = record w { procs = mark_dead (lookup key w.procs) key w.procs }
