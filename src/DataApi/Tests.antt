-- ===== src/DataApi/Tests.antt =====
-- The pool's theorems on concrete states.
use forgebase.Common.{◌≡◌, ◌≢◌, refl, true, some, [], ◌∷◌, arith}
use forgebase.Common.Text.{Bytes, codes, eqb, eqb-false}
use forgebase.Common.Map.{lookup, put}
use forgebase.DataApi.{Process, Pool, initial, scan, alloc_pgrst_port, no_port, ensure_postgrest}
use forgebase.DataApi.Runs.{Reach, start, next, ensure, ports_differ, ensure_postgrest_finds}

abbrev shop : Bytes
shop = codes "shop"

abbrev blog : Bytes
blog = codes "blog"

-- Two projects, started one after the other.
abbrev both : Pool
both = (ensure_postgrest blog true true 5 (ensure_postgrest shop true true 4 initial).0).0

both-Reach : Reach both
both-Reach =
    next (next start (ensure initial shop true true 4))
      (ensure (ensure_postgrest shop true true 4 initial).0 blog true true 5)

abbrev shop_process : Process
shop_process = record { id = 0; port = 3001; last_req = 4 }

abbrev blog_process : Process
blog_process = record { id = 1; port = 3002; last_req = 5 }

shop_runs : lookup shop both.procs ≡ some shop_process
unfolding ensure_postgrest alloc_pgrst_port initial scan lookup put eqb
shop_runs = refl

blog_runs : lookup blog both.procs ≡ some blog_process
unfolding ensure_postgrest alloc_pgrst_port initial scan lookup put eqb
blog_runs = refl

blog_ne_shop : blog ≢ shop
blog_ne_shop = eqb-false blog shop (unfold eqb in refl)

ports_differ_example : blog_process.port ≢ shop_process.port
ports_differ_example =
    ports_differ blog shop blog_process shop_process both-Reach blog_runs shop_runs blog_ne_shop

ensure_postgrest_finds_example : (ensure_postgrest shop true true 4 initial).1 ≢ no_port
unfolding initial lookup
ensure_postgrest_finds_example = ensure_postgrest_finds shop true 4 start refl (omega arith)

wrapped : scan 5 (3001 ∷ 3002 ∷ []) 65001 ≡ some (3003, 3004)
unfolding scan
wrapped = refl
