-- ===== src/WarmPool/Reuse.antt =====
-- Which process of the pool of pgforge/edgewarm.go serves a call.
use forgebase.Common.{
  ℕ, zero, suc, ◌+◌, ◌≤◌, ◌<◌, Bool, true, false, ◌≡◌, ◌≢◌, refl, ap, ◌∙◌, Option, none, some, List,
  [], ◌∷◌, inl, inr, arith,
}
use forgebase.Common.Tests.{Bool-cases, Option-cases}
use forgebase.Common.Lists.{length}
use forgebase.Common.Text.{Bytes, eqb_iff, eqb_refl}
use forgebase.Common.Map.{Map, lookup, put, remove, retain, lookup-put, lookup-remove}
use forgebase.WarmPool.{
  Process, Pool, Answers, Probe, ready, died, silent, five_minutes, is_kept, warm_reaper, evict,
  scan, start, start_on, added, is_current, serve, warm_proxy, die,
}

-- The pool holds, at the key, a live process of this version and environment on this port, used
-- now.
abbrev pub IsServing : ℕ → Bytes → Bytes → ℕ → ℕ → Pool → Type 0
IsServing mtime sig key now port w =
    (p : Process) × (lookup key w.procs ≡ some p)
    × (p.port ≡ port)
    × (is_current mtime sig p ≡ true)
    × (p.last_use ≡ now)

added-IsServing :
    (mtime : ℕ) (sig key : Bytes) (now port port' : ℕ) (pr : Probe) (w : Pool)
    → let p : Process = record {
      port = port';
      mtime = mtime;
      env_sig = sig;
      last_use = now;
      dead = false;
    } in
      (added pr key p w).1 ≡ some port → IsServing mtime sig key now port (added pr key p w).0
added-IsServing mtime sig key now port port' ready w h =
    let p : Process = record {
      port = port';
      mtime = mtime;
      env_sig = sig;
      last_use = now;
      dead = false;
    } in
    (
      p,
      ground (arith, lookup-put key key p w.procs, eqb_refl key),
      cc,
      ground (arith, eqb_refl sig),
      refl,
    )
added-IsServing mtime sig key now port port' died w h = absurd cc
added-IsServing mtime sig key now port port' silent w h = absurd cc

start-IsServing :
    (max : ℕ) (e : Answers) (now : ℕ) (key : Bytes) (mtime port : ℕ) (w : Pool)
    → (start max e now key mtime w).1 ≡ some port
    → IsServing mtime e.sig key now port (start max e now key mtime w).0
unfolding start
start-IsServing max e now key mtime port w h =
    let room = evict (length w.procs) max now w.procs in
    let found = scan 500 e.is_free w.next in
    elim (Option-cases found.1) [
      | inl none_free ↦ absurd (cc (rw none_free at h))
      | inr (port', free) ↦
          let h1 = rw free at h in
          elim (Bool-cases e.starts) [
            | inr fails ↦ absurd (cc (rw fails at h1))
            | inl starts ↦ rw free (
                rw starts (
                  added-IsServing mtime e.sig key now port port' e.probe
                    (record { procs = room; next = found.0 }) (rw starts at h1)))
          ]
    ]

-- A call that is given a proxy is given that of a live process of the function's present version
-- and environment, which the pool holds from then on as used now.
pub warm_proxy-IsServing :
    (max : ℕ) (e : Answers) (now : ℕ) (key : Bytes) (port : ℕ) (w : Pool)
    → (warm_proxy max e now key w).1 ≡ some port
    → (mtime : ℕ) × (e.mtime ≡ some mtime)
      × IsServing mtime e.sig key now port (warm_proxy max e now key w).0
unfolding warm_proxy
warm_proxy-IsServing max e now key port w h = elim (Bool-cases e.runner) [
  | inr off ↦ absurd (cc (rw off at h))
  | inl on ↦
      let h1 = rw on at h in
      elim (Option-cases e.mtime) [
        | inl gone ↦ absurd (cc (rw gone at h1))
        | inr (mtime, there) ↦
            let h2 = rw there at h1 in
            elim (Option-cases (lookup key w.procs)) [
              | inl new ↦ (
                mtime,
                there,
                rw on
                    (rw there (rw new (start-IsServing max e now key mtime port w (rw new at h2)))),
              )
              | inr (p, old) ↦
                  let h3 = rw old at h2 in
                  elim (Bool-cases (is_current mtime e.sig p)) [
                    | inl current ↦
                        let used : Process = record p { last_use = now } in
                        let h4 = rw current at h3 in
                        (
                          mtime,
                          there,
                          rw on (
                              rw there (
                                rw old (
                                  rw current (
                                    used,
                                    ground (arith, lookup-put key key used w.procs, eqb_refl key),
                                    cc,
                                    current,
                                    refl,
                                  )))),
                        )
                    | inr stale ↦ (
                      mtime,
                      there,
                      rw on (
                          rw there (
                            rw old (
                              rw stale (
                                start-IsServing max e now key mtime port
                                  (record w { procs = remove key w.procs }) (rw stale at h3))))),
                    )
                  ]
            ]
      ]
]

lookup-retain_kept :
    (f : Bytes → Process → Bool) (k : Bytes) (m : Map Process) (p : Process)
    → lookup k m ≡ some p
    → f k p ≡ true
    → lookup k (retain f m) ≡ some p
unfolding lookup retain
lookup-retain_kept f k [] p e t = absurd cc
lookup-retain_kept f k ((j, q) ∷ m) p e t = ground (arith, eqb_iff j k, lookup-retain_kept f k m p)

-- What may come between two calls of a function, at times: a tick of the reaper, the death of a
-- process, a call of a function.
pub data Event : Type 0 where
  tick : ℕ → Event
  death : Bytes → Event
  call : Answers → ℕ → Bytes → Event

module _ (max : ℕ) where
  abbrev pub apply : Event → Pool → Pool
  apply (tick t) w = warm_reaper t w
  apply (death j) w = die j w
  apply (call e t j) w = (warm_proxy max e t j w).0

  abbrev pub run : List Event → Pool → Pool
  run [] w = w
  run (v ∷ vs) w = run vs (apply v w)

  -- A tick within five minutes of `now`, the death of another function's process, or a call of
  -- another function while the pool has room.
  abbrev pub Spares : Bytes → ℕ → Event → Pool → Type 0
  Spares key now (tick t) w = t ≤ now + five_minutes
  Spares key now (death j) w = j ≢ key
  Spares key now (call e t j) w = (j ≢ key) × (length w.procs < max)

  abbrev pub SparesRun : Bytes → ℕ → List Event → Pool → Type 0
  SparesRun key now [] w = Unit
  SparesRun key now (v ∷ vs) w = Spares key now v w × SparesRun key now vs (apply v w)

length-remove_le : (k : Bytes) (m : Map Process) → length (remove k m) ≤ length m
unfolding remove
length-remove_le k [] = omega arith
length-remove_le k ((j, p) ∷ m) = ground (arith, length-remove_le k m)

evict_room : (f max now : ℕ) (m : Map Process) → length m < max → evict f max now m ≡ m
unfolding evict
evict_room zero max now m h = refl
evict_room (suc f) max now m h = ground arith

lookup-put_other :
    (k j : Bytes) (p : Process) (m : Map Process) → k ≢ j → lookup j (put k p m) ≡ lookup j m
lookup-put_other k j p m d = ground (arith, lookup-put k j p m, eqb_iff k j)

lookup-remove_other : (k j : Bytes) (m : Map Process) → k ≢ j → lookup j (remove k m) ≡ lookup j m
lookup-remove_other k j m d = ground (arith, lookup-remove k j m, eqb_iff k j)

added_other :
    (pr : Probe) (j key : Bytes) (p : Process) (w : Pool)
    → j ≢ key
    → lookup key (added pr j p w).0.procs ≡ lookup key w.procs
added_other ready j key p w d = lookup-put_other j key p w.procs d
added_other died j key p w d = refl
added_other silent j key p w d = refl

start_on_other :
    (e : Answers) (now : ℕ) (j key : Bytes) (mtime : ℕ) (o : Option ℕ) (w : Pool)
    → j ≢ key
    → lookup key (start_on e now j mtime o w).0.procs ≡ lookup key w.procs
start_on_other e now j key mtime none w d = refl
start_on_other e now j key mtime (some port) w d = ground (
  arith,
  added_other e.probe j key
      (record { port = port; mtime = mtime; env_sig = e.sig; last_use = now; dead = false }) w d,
)

start_other :
    (max : ℕ) (e : Answers) (now : ℕ) (j key : Bytes) (mtime : ℕ) (w : Pool)
    → j ≢ key
    → length w.procs < max
    → lookup key (start max e now j mtime w).0.procs ≡ lookup key w.procs
unfolding start
start_other max e now j key mtime w d h =
    let found = scan 500 e.is_free w.next in
    let room = evict (length w.procs) max now w.procs in
    start_on_other e now j key mtime found.1 (record { procs = room; next = found.0 }) d
    ∙ ap (lookup key) (evict_room (length w.procs) max now w.procs h)

serve_other :
    (max : ℕ) (e : Answers) (now : ℕ) (j key : Bytes) (mtime : ℕ) (o : Option Process) (w : Pool)
    → j ≢ key
    → length w.procs < max
    → lookup key (serve max e now j mtime o w).0.procs ≡ lookup key w.procs
serve_other max e now j key mtime none w d h = start_other max e now j key mtime w d h
serve_other max e now j key mtime (some p) w d h =
    let fresh : Pool = record w { procs = remove j w.procs } in
    let again =
      start_other max e now j key mtime fresh d (omega (arith, h, length-remove_le j w.procs))
      ∙ lookup-remove_other j key w.procs d in
    ground (arith, again, lookup-put_other j key (record p { last_use = now }) w.procs d)

-- A call of a function touches the process of no other function while the pool has room.
warm_proxy_other :
    (max : ℕ) (e : Answers) (now : ℕ) (j key : Bytes) (w : Pool)
    → j ≢ key
    → length w.procs < max
    → lookup key (warm_proxy max e now j w).0.procs ≡ lookup key w.procs
unfolding warm_proxy
warm_proxy_other max e now j key w d h = elim (Bool-cases e.runner) [
  | inr off ↦ rw off refl
  | inl on ↦ elim (Option-cases e.mtime) [
    | inl gone ↦ rw on (rw gone refl)
    | inr (mtime, there) ↦
        rw on (rw there (serve_other max e now j key mtime (lookup j w.procs) w d h))
  ]
]

die_other : (j key : Bytes) (w : Pool) → j ≢ key → lookup key (die j w).procs ≡ lookup key w.procs
unfolding die
die_other j key w d = elim (Option-cases (lookup j w.procs)) [
  | inl e ↦ rw e refl
  | inr (p, e) ↦ rw e (lookup-put_other j key (record p { dead = true }) w.procs d)
]

apply-lookup :
    (max : ℕ) (v : Event) (key : Bytes) (now : ℕ) (p : Process) (w : Pool)
    → lookup key w.procs ≡ some p
    → p.dead ≡ false
    → p.last_use ≡ now
    → Spares max key now v w
    → lookup key (apply max v w).procs ≡ some p
unfolding warm_reaper
apply-lookup max (tick t) key now p w held live used s =
    lookup-retain_kept (λ k q. is_kept t q) key w.procs p held (ground (arith, live, used, s))
apply-lookup max (death j) key now p w held live used s = die_other j key w s ∙ held
apply-lookup max (call e t j) key now p w held live used (d, room) =
    warm_proxy_other max e t j key w d room ∙ held

run-lookup :
    (max : ℕ) (vs : List Event) (key : Bytes) (now : ℕ) (p : Process) (w : Pool)
    → lookup key w.procs ≡ some p
    → p.dead ≡ false
    → p.last_use ≡ now
    → SparesRun max key now vs w
    → lookup key (run max vs w).procs ≡ some p
run-lookup max [] key now p w held live used s = held
run-lookup max (v ∷ vs) key now p w held live used (s, ss) =
    run-lookup max vs key now p (apply max v w) (apply-lookup max v key now p w held live used s)
      live used ss

-- A call at the same version and environment.
again :
    (max : ℕ) (e : Answers) (later : ℕ) (key : Bytes) (port mtime : ℕ) (p : Process) (v : Pool)
    → e.runner ≡ true
    → lookup key v.procs ≡ some p
    → e.mtime ≡ some mtime
    → is_current mtime e.sig p ≡ true
    → p.port ≡ port
    → (warm_proxy max e later key v).1 ≡ some port
unfolding warm_proxy
again max e later key port mtime p v runs held there current on_port =
    rw runs (rw there (rw held (rw current (ap some on_port))))

-- A function that is called again, at the same version and environment, is served by the process
-- that served it, whatever ticks of the reaper within five minutes of the first call, deaths of
-- other functions' processes, and calls of other functions while the pool has room came between.
pub warm_proxy-run :
    (max : ℕ) (e e' : Answers) (now later : ℕ) (key : Bytes) (port : ℕ) (vs : List Event) (w : Pool)
    → (warm_proxy max e now key w).1 ≡ some port
    → SparesRun max key now vs (warm_proxy max e now key w).0
    → e'.runner ≡ true
    → e'.mtime ≡ e.mtime
    → e'.sig ≡ e.sig
    → (warm_proxy max e' later key (run max vs (warm_proxy max e now key w).0)).1 ≡ some port
warm_proxy-run max e e' now later key port vs w h spared runs same_file same_env =
    let (mtime, there, (p, held, on_port, current, used)) =
      warm_proxy-IsServing max e now key port w h in
    let live : p.dead ≡ false = ground (arith, current) in
    let still = run-lookup max vs key now p (warm_proxy max e now key w).0 held live used spared in
    again max e' later key port mtime p (run max vs (warm_proxy max e now key w).0) runs still
      (same_file ∙ there) (rw same_env current) on_port
