-- ===== src/WarmPool/Tests.antt =====
-- The pool's theorems on concrete calls.
use forgebase.Common.{◌≤◌, ◌≡◌, ◌≢◌, refl, true, false, some, List, [], ◌∷◌, arith}
use forgebase.Common.Lists.{length}
use forgebase.Common.Text.{codes, eqb, eqb-false}
use forgebase.Common.Map.{lookup, put, remove, retain}
use forgebase.WarmPool.{
  Pool, Answers, ready, oldest_before, evict, scan, start, warm_reaper, warm_proxy, die,
}
use forgebase.WarmPool.Reuse.{Event, tick, death, call, SparesRun, run, warm_proxy-run}
use forgebase.WarmPool.Bounds.{warm_proxy-bound}

abbrev runs : Answers
runs = record {
  runner = true;
  mtime = some 7;
  sig = codes "env";
  is_free = λ p. true;
  starts = true;
  probe = ready;
}

abbrev one : Pool
one = record {
  procs =
      (
        codes "shop/old",
        record { port = 21500; mtime = 1; env_sig = []; last_use = 5; dead = false },
      )
      ∷ [];
  next = 21501;
}

-- With room for one process, the old one goes.
started : (warm_proxy 1 runs 10 (codes "shop/new") one).1 ≡ some 21501
unfolding warm_proxy start evict oldest_before scan lookup put remove eqb
started = refl

differ : codes "shop/other" ≢ codes "shop/new"
differ = eqb-false (codes "shop/other") (codes "shop/new") (unfold eqb in refl)

-- Ticks of every minute, another function's call and its process's death.
abbrev quiet : List Event
quiet =
    tick 70
    ∷ call runs 100 (codes "shop/other")
    ∷ tick 130
    ∷ death (codes "shop/other")
    ∷ tick 190
    ∷ tick 250
    ∷ tick 310
    ∷ []

quiet_spares :
    SparesRun 3 (codes "shop/new") 10 quiet (warm_proxy 3 runs 10 (codes "shop/new") one).0
unfolding warm_proxy start evict oldest_before scan lookup put remove eqb warm_reaper retain die
quiet_spares = (
  omega arith,
  ((differ, omega arith), (omega arith, (differ, (omega arith, (omega arith, (omega arith, tt)))))),
)

started_beside : (warm_proxy 3 runs 10 (codes "shop/new") one).1 ≡ some 21501
unfolding warm_proxy start evict oldest_before scan lookup put remove eqb
started_beside = refl

warm_proxy-run_example :
    (warm_proxy 3 runs 320
      (codes "shop/new")
      (run 3 quiet (warm_proxy 3 runs 10 (codes "shop/new") one).0)).1
    ≡ some 21501
warm_proxy-run_example =
    warm_proxy-run 3 runs runs 10 320 (codes "shop/new") 21501 quiet one started_beside quiet_spares
      refl refl refl

warm_proxy-bound_example : length (warm_proxy 1 runs 10 (codes "shop/new") one).0.procs ≤ 1
warm_proxy-bound_example =
    warm_proxy-bound 1 runs 10 (codes "shop/new") one (omega arith, tt) (omega arith) (omega arith)
