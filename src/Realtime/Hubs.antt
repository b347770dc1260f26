-- ===== src/Realtime/Hubs.antt =====
-- The reaper closes only hubs without clients, and nobody is left on a closed one.
use forgebase.Common.{ℕ, Bool, true, false, not, ◌&&◌, ◌≡◌, refl, some, [], ◌∷◌, inl, inr}
use forgebase.Common.Tests.{Bool-cases}
use forgebase.Realtime.{
  Sub, Clients, Hub, is_client, drop_client, without, leave, deliver, enter, close_empty,
  empty_long, reap_if_unused, reap_hub,
}

-- One locked part of a hub's operations. The reaper has seen the hub as `seen` before.
pub data Step : Hub → Hub → Type 0 where
  enters : (h : Hub) (c : ℕ) (sub : Sub) → Step h (enter c sub h)
  leaves : (h : Hub) (now c : ℕ) → Step h (leave now c h)
  delivers :
      (h : Hub) (now : ℕ) (writes : ℕ → Bool) (ts : Clients) → Step h (deliver now writes ts h).0
  unused : (h : Hub) (has_webhooks : Bool) → Step h (reap_if_unused has_webhooks h)
  reaps :
      (h seen : Hub) (idle now : ℕ) (pinned has_webhooks : Bool)
      → Step h (reap_hub idle now pinned has_webhooks seen h)

pub data Reach : Hub → Type 0 where
  created : (now : ℕ) → Reach (record { clients = []; empty_since = some now; closed = false })
  next : {h h' : Hub} → Reach h → Step h h' → Reach h'

-- Nobody is left on a closed hub.
abbrev IsQuiet : Hub → Type 0
IsQuiet h = h.closed ≡ true → h.clients ≡ []

without-closed : (now : ℕ) (cs : Clients) (h : Hub) → (without now cs h).closed ≡ h.closed
without-closed now [] h = refl
without-closed now (t ∷ ts) h = refl

leave-IsQuiet : (now c : ℕ) (h : Hub) → IsQuiet h → IsQuiet (leave now c h)
unfolding leave
leave-IsQuiet now c h q e =
    let was = q (rw (without-closed now (drop_client c h.clients) h) at e) in rw was refl

deliver-IsQuiet :
    (now : ℕ) (writes : ℕ → Bool) (ts : Clients) (h : Hub)
    → IsQuiet h
    → IsQuiet (deliver now writes ts h).0
unfolding deliver
deliver-IsQuiet now writes [] h q = q
deliver-IsQuiet now writes ((c, sub) ∷ ts) h q = elim (Bool-cases (is_client c h.clients)) [
  | inr a ↦ rw a (deliver-IsQuiet now writes ts h q)
  | inl a ↦ elim (Bool-cases (writes c)) [
    | inl b ↦ rw (a, b) (deliver-IsQuiet now writes ts h q)
    | inr b ↦ rw (a, b) (deliver-IsQuiet now writes ts (leave now c h) (leave-IsQuiet now c h q))
  ]
]

close_empty-IsQuiet :
    (h : Hub) (cs : Clients) → h.clients ≡ cs → IsQuiet h → IsQuiet (close_empty cs h)
close_empty-IsQuiet h [] e q = λ c. e
close_empty-IsQuiet h (t ∷ ts) e q = q

enter-IsQuiet : (c : ℕ) (sub : Sub) (h : Hub) → IsQuiet h → IsQuiet (enter c sub h)
unfolding enter
enter-IsQuiet c sub h q = elim (Bool-cases h.closed) [
  | inl e ↦ rw e (λ f. q e)
  | inr e ↦ rw e (λ f. absurd (cc))
]

Step-IsQuiet : {h h' : Hub} → Step h h' → IsQuiet h → IsQuiet h'
unfolding reap_if_unused reap_hub
Step-IsQuiet (enters h c sub) q = enter-IsQuiet c sub h q
Step-IsQuiet (leaves h now c) q = leave-IsQuiet now c h q
Step-IsQuiet (delivers h now writes ts) q = deliver-IsQuiet now writes ts h q
Step-IsQuiet (unused h true) q = q
Step-IsQuiet (unused h false) q = close_empty-IsQuiet h h.clients refl q
Step-IsQuiet (reaps h seen idle now true hooks) q = q
Step-IsQuiet (reaps h seen idle now false hooks) q =
    elim (Bool-cases (empty_long idle now seen.clients seen.empty_since && not hooks)) [
      | inl e ↦ rw e (close_empty-IsQuiet h h.clients refl q)
      | inr e ↦ rw e q
    ]

-- In every state that a hub can reach, by joins, departures, deliveries and both reapers in any
-- order, with whatever the reaper had seen before, a closed hub has no clients.
pub closed_empty : (h : Hub) → Reach h → h.closed ≡ true → h.clients ≡ []
closed_empty h r = quiet r
  where
    quiet : {g : Hub} → Reach g → IsQuiet g
    quiet (created now) = λ e. absurd (cc)
    quiet (next s t) = Step-IsQuiet t (quiet s)
