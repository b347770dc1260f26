-- ===== src/DataApi.antt =====
-- The pool of PostgREST processes behind the Data API (pgforge/api.go): one process to a project,
-- each on a port of its own. The functions that hold `pgrstMu` are atomic steps here; the
-- readiness wait of `ensurePostgREST` lies between two of them.
pub mod Scan
pub mod Ports
pub mod Runs
mod Tests
use forgebase.Common.{
  ℕ, zero, suc, ◌+◌, ◌<◌, Bool, true, false, not, ◌&&◌, ◌||◌, Option, none, some, List, [], ◌∷◌,
}
use forgebase.Common.Tests.{ltb, ◌==◌, if◌then◌else◌}
use forgebase.Common.Text.{Bytes}
use forgebase.Common.Map.{Map, lookup, put, remove}

-- `pgrst`: `id` stands for the address of the struct, by which `cur == p` compares.
pub record Process : Type 0 where
  pub id : ℕ
  pub port : ℕ
  pub last_req : ℕ

-- `pgrstProc`, `pgrstNext` and `pgrstFree` (its end first), and how many structs were made.
pub record Pool : Type 0 where
  pub procs : Map Process
  pub next : ℕ
  pub free : List ℕ
  pub made : ℕ

unfoldable pub initial : Pool
initial = record { procs = []; next = 3001; free = []; made = 0 }

abbrev pub ports : Map Process → List ℕ
ports [] = []
ports ((_, p) ∷ m) = p.port ∷ ports m

abbrev pub is_in : ℕ → List ℕ → Bool
is_in n [] = false
is_in n (p ∷ ps) = p == n || is_in n ps

abbrev pub wrap : ℕ → ℕ
wrap n = if ltb 65000 n then 3001 else n

-- The loop of `allocPgrstPort` over the ports that are held: the port, and the counter after it.
unfoldable pub scan : ℕ → List ℕ → ℕ → Option (ℕ × ℕ)
scan zero held next = none
scan (suc fuel) held next =
    let port = wrap next in
    let rest = scan fuel held (port + 1) in if is_in port held then rest else some (port, port + 1)

-- One round for each port from 3001 to 65000.
abbrev pub rounds : ℕ
rounds = 62000

abbrev pub from_counter : Pool → Option (ℕ × ℕ) → Option (ℕ × Pool)
from_counter s none = none
from_counter s (some (port, next)) = some (port, record s { next = next })

abbrev pub alloc_from : Pool → List ℕ → Option (ℕ × Pool)
alloc_from s [] = from_counter s (scan rounds (ports s.procs) s.next)
alloc_from s (p ∷ ps) = some (p, record s { free = ps })

-- `allocPgrstPort`; `none` where the loop of the source would not end.
unfoldable pub alloc_pgrst_port : Pool → Option (ℕ × Pool)
alloc_pgrst_port s = alloc_from s s.free

abbrev pub free_pgrst_port : ℕ → Pool → Pool
free_pgrst_port port s = record s { free = port ∷ s.free }

-- What the locked part of `ensurePostgREST` comes to.
pub data Claim : Type 0 where
  running : Process → Claim
  claimed : Process → Claim
  not_enabled : Claim
  not_started : Claim
  no_port : Claim

-- A process that does not start keeps its port out of both the pool and the free list.
abbrev pub start_on : Bytes → Bool → ℕ → Pool → Option (ℕ × Pool) → Pool × Claim
start_on slug starts now s none = (s, no_port)
start_on slug starts now s (some (port, t)) =
    let p : Process = record { id = t.made; port = port; last_req = now } in
    if starts
    then (record t { procs = put slug p t.procs; made = t.made + 1 }, claimed p)
    else (t, not_started)

abbrev claim_for : Bytes → Bool → Bool → ℕ → Pool → Option Process → Pool × Claim
claim_for slug enabled starts now s (some p) = (s, running p)
claim_for slug enabled starts now s none =
    if enabled then start_on slug starts now s (alloc_pgrst_port s) else (s, not_enabled)

-- `ensurePostgREST` up to the first unlock; `enabled` is the project's configuration, `starts`
-- what `cmd.Start` answers.
unfoldable pub ensure_postgrest : Bytes → Bool → Bool → ℕ → Pool → Pool × Claim
ensure_postgrest slug enabled starts now s =
    claim_for slug enabled starts now s (lookup slug s.procs)

abbrev give_up_on : Bytes → ℕ → Pool → Option Process → Pool
give_up_on slug id s none = s
give_up_on slug id s (some cur) =
    if cur.id == id then free_pgrst_port cur.port (record s { procs = remove slug s.procs }) else s

-- `ensurePostgREST` after a wait in which its struct, at address `id`, did not get ready. Where the
-- addresses are equal, `p.port` is the field of `cur`.
unfoldable pub give_up : Bytes → ℕ → Pool → Pool
give_up slug id s = give_up_on slug id s (lookup slug s.procs)

abbrev stop_on : Bytes → Pool → Option Process → Pool
stop_on slug s none = s
stop_on slug s (some p) = free_pgrst_port p.port (record s { procs = remove slug s.procs })

unfoldable pub stop_postgrest : Bytes → Pool → Pool
stop_postgrest slug s = stop_on slug s (lookup slug s.procs)

abbrev touch_on : Bytes → ℕ → Pool → Option Process → Pool
touch_on slug now s none = s
touch_on slug now s (some p) = record s { procs = put slug (record p { last_req = now }) s.procs }

-- The write of `lastReq` for a proxied request.
unfoldable pub touch : Bytes → ℕ → Pool → Pool
touch slug now s = touch_on slug now s (lookup slug s.procs)

-- Idle for longer than `idle`, and not pinned.
abbrev pub is_reaped : ℕ → ℕ → (Bytes → Bool) → Bytes → Process → Bool
is_reaped idle now pinned slug p = not (pinned slug) && ltb (p.last_req + idle) now

unfoldable pub reap_from : ℕ → ℕ → (Bytes → Bool) → Map Process → List ℕ → Map Process × List ℕ
reap_from idle now pinned [] free = ([], free)
reap_from idle now pinned ((slug, p) ∷ m) free =
    let (rest, freed) = reap_from idle now pinned m free in
    if is_reaped idle now pinned slug p then (rest, p.port ∷ freed) else ((slug, p) ∷ rest, freed)

unfoldable pub reap_postgrest : ℕ → ℕ → (Bytes → Bool) → Pool → Pool
reap_postgrest idle now pinned s =
    let (procs, free) = reap_from idle now pinned s.procs s.free in
    record s { procs = procs; free = free }
