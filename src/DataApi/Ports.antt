-- ===== src/DataApi/Ports.antt =====
-- No port is held twice.
use forgebase.Common.{
  ℕ, ◌+◌, ◌≤◌, Bool, false, ◌≡◌, refl, Option, none, some, List, [], ◌∷◌, inl, inr, arith,
}
use forgebase.Common.Tests.{◌==◌, if◌then◌else◌, Bool-cases, Option-cases}
use forgebase.Common.Lists.{count}
use forgebase.Common.Text.{Bytes}
use forgebase.Common.Map.{Map, lookup, put, remove}
use forgebase.DataApi.{
  Process, Pool, initial, ports, is_in, alloc_from, start_on, alloc_pgrst_port, ensure_postgrest,
  give_up, stop_postgrest, touch, reap_from, reap_postgrest, scan, rounds,
}
use forgebase.DataApi.Scan.{scan_free}

-- How often a port occurs.
abbrev pub times : ℕ → List ℕ → ℕ
times n ps = count (λ p. p == n) ps

abbrev one : ℕ → ℕ → ℕ
one p n = if p == n then 1 else 0

-- Each port is held by one process, or waits in the free list once; all are in range.
pub record Inv (s : Pool) : Type 0 where
  pub once : (n : ℕ) → times n (ports s.procs) + times n s.free ≤ 1
  pub next_low : 3001 ≤ s.next
  pub next_high : s.next ≤ 65001

times_absent : (n : ℕ) (ps : List ℕ) → is_in n ps ≡ false → times n ps ≡ 0
times_absent n [] h = refl
times_absent n (p ∷ ps) h = ground (arith, times_absent n ps)

times-put :
    (n : ℕ) (k : Bytes) (p : Process) (m : Map Process)
    → lookup k m ≡ none
    → times n (ports (put k p m)) ≡ times n (ports m) + one p.port n
unfolding lookup put
times-put n k p [] h = ground arith
times-put n k p ((j, q) ∷ m) h = ground (arith, times-put n k p m)

times-put_same :
    (n : ℕ) (k : Bytes) (p q : Process) (m : Map Process)
    → lookup k m ≡ some q
    → q.port ≡ p.port
    → times n (ports (put k p m)) ≡ times n (ports m)
unfolding lookup put
times-put_same n k p q [] h e = cc
times-put_same n k p q ((j, r) ∷ m) h e = ground (arith, times-put_same n k p q m)

times-remove-le :
    (n : ℕ) (k : Bytes) (m : Map Process) → times n (ports (remove k m)) ≤ times n (ports m)
unfolding remove
times-remove-le n k [] = omega arith
times-remove-le n k ((j, q) ∷ m) = ground (arith, times-remove-le n k m)

times-remove :
    (n : ℕ) (k : Bytes) (p : Process) (m : Map Process)
    → lookup k m ≡ some p
    → times n (ports (remove k m)) + one p.port n ≤ times n (ports m)
unfolding lookup remove
times-remove n k p [] h = cc
times-remove n k p ((j, q) ∷ m) h = ground (arith, times-remove n k p m, times-remove-le n k m)

times-reap_from :
    (n idle now : ℕ) (pinned : Bytes → Bool) (m : Map Process) (free : List ℕ)
    → times n (ports (reap_from idle now pinned m free).0)
        + times n (reap_from idle now pinned m free).1
      ≡ times n (ports m) + times n free
unfolding reap_from
times-reap_from n idle now pinned [] free = omega arith
times-reap_from n idle now pinned ((k, p) ∷ m) free =
    ground (arith, times-reap_from n idle now pinned m free)

pub initial-Inv : Inv initial
unfolding initial
initial-Inv = record { once = λ n. omega arith; next_low = omega arith; next_high = omega arith }

-- What an allocation leaves: the port that it takes is held by nobody.
abbrev Takes : Pool → ℕ → Pool → Type 0
Takes s port t =
    (t.procs ≡ s.procs)
    × (t.made ≡ s.made)
    × (3001 ≤ t.next)
    × (t.next ≤ 65001)
    × ((n : ℕ) → times n (ports s.procs) + times n t.free + one port n ≤ 1)

alloc_from-Takes :
    (s : Pool) (free : List ℕ) (port : ℕ) (t : Pool)
    → Inv s
    → s.free ≡ free
    → alloc_from s free ≡ some (port, t)
    → Takes s port t
alloc_from-Takes s (p ∷ ps) port t v f e = (
  ground arith,
  ground arith,
  ground (arith, v.next_low),
  ground (arith, v.next_high),
  λ n. ground (arith, v.once n),
)
alloc_from-Takes s [] port t v f e = elim (Option-cases (scan rounds (ports s.procs) s.next)) [
  | inl none_left ↦ absurd (cc (rw none_left at e))
  | inr (found, q) ↦ counted found.0 found.1 q (rw q at e)
]
  where
    counted :
        (p after : ℕ)
        → scan rounds (ports s.procs) s.next ≡ some (p, after)
        → ◌≡◌ {A = Option (ℕ × Pool)} (some (p, record s { next = after })) (some (port, t))
        → Takes s port t
    counted p after q w =
        let (unheld, _, _, low, high) =
          scan_free rounds (ports s.procs) s.next p after v.next_low v.next_high q in
        let same : p ≡ port = ground arith in
        (
          ground arith,
          ground arith,
          ground arith,
          ground arith,
          λ n. ground (arith, v.once n, times_absent n (ports s.procs)),
        )

pub ensure_postgrest-Inv :
    (slug : Bytes) (enabled starts : Bool) (now : ℕ) (s : Pool)
    → Inv s
    → Inv (ensure_postgrest slug enabled starts now s).0
unfolding ensure_postgrest alloc_pgrst_port
ensure_postgrest-Inv slug enabled starts now s v = elim (Option-cases (lookup slug s.procs)) [
  | inr (p, e) ↦ rw e v
  | inl e ↦ rw e (elim (Bool-cases enabled) [
    | inr off ↦ rw off v
    | inl on ↦ rw on (elim (Option-cases (alloc_from s s.free)) [
      | inl n ↦ rw n v
      | inr (pt, a) ↦ rw a (started e pt.0 pt.1 (alloc_from-Takes s s.free pt.0 pt.1 v refl a))
    ])
  ])
]
  where
    started :
        lookup slug s.procs ≡ none
        → (port : ℕ) (t : Pool) → Takes s port t
        → Inv (start_on slug starts now s (some (port, t))).0
    started e port t k =
        let p : Process = record { id = t.made; port = port; last_req = now } in
        elim (Bool-cases starts) [
          | inl up ↦ rw up (record {
            once = λ n. rw k.0 (omega (arith, k.4 n, times-put n slug p s.procs e));
            next_low = k.2;
            next_high = k.3;
          })
          | inr down ↦ rw down (record {
            once = λ n. rw k.0 (omega (arith, k.4 n));
            next_low = k.2;
            next_high = k.3;
          })
        ]

pub stop_postgrest-Inv : (slug : Bytes) (s : Pool) → Inv s → Inv (stop_postgrest slug s)
unfolding stop_postgrest
stop_postgrest-Inv slug s v = elim (Option-cases (lookup slug s.procs)) [
  | inl e ↦ rw e v
  | inr (p, e) ↦ rw e (record {
    once = λ n. ground (arith, v.once n, times-remove n slug p s.procs e);
    next_low = v.next_low;
    next_high = v.next_high;
  })
]

pub give_up-Inv : (slug : Bytes) (id : ℕ) (s : Pool) → Inv s → Inv (give_up slug id s)
unfolding give_up
give_up-Inv slug id s v = elim (Option-cases (lookup slug s.procs)) [
  | inl e ↦ rw e v
  | inr (p, e) ↦ elim (Bool-cases (p.id == id)) [
    | inl same ↦
        rw (e, same)
          (record {
            once = λ n. ground (arith, v.once n, times-remove n slug p s.procs e);
            next_low = v.next_low;
            next_high = v.next_high;
          })
    | inr other ↦ rw (e, other) v
  ]
]

pub touch-Inv : (slug : Bytes) (now : ℕ) (s : Pool) → Inv s → Inv (touch slug now s)
unfolding touch
touch-Inv slug now s v = elim (Option-cases (lookup slug s.procs)) [
  | inl e ↦ rw e v
  | inr (p, e) ↦ rw e (record {
    once = λ n.
        omega
          (arith, v.once n, times-put_same n slug (record p { last_req = now }) p s.procs e refl);
    next_low = v.next_low;
    next_high = v.next_high;
  })
]

pub reap_postgrest-Inv :
    (idle now : ℕ) (pinned : Bytes → Bool) (s : Pool)
    → Inv s
    → Inv (reap_postgrest idle now pinned s)
unfolding reap_postgrest
reap_postgrest-Inv idle now pinned s v = record {
  once = λ n. omega (arith, v.once n, times-reap_from n idle now pinned s.procs s.free);
  next_low = v.next_low;
  next_high = v.next_high;
}
