-- ===== src/Realtime/Delivery.antt =====
-- Whom a delivery reaches, and whom it drops.
use forgebase.Common.{ℕ, Bool, true, not, ◌&&◌, ◌||◌, ◌≡◌, refl, [], ◌∷◌, inl, inr, arith}
use forgebase.Common.Tests.{◌==◌, Bool-cases}
use forgebase.Common.Lists.{any, keep, All}
use forgebase.Common.Text.{Bytes}
use forgebase.Realtime.{
  Event, Sub, Clients, Hub, is_change, is_target, is_exempt, targets, broadcast, is_client,
  drop_client, without, leave, deliver,
}
use forgebase.Realtime.Gate.{gate-keep}

pub is_client-drop_client :
    (c d : ℕ) (cs : Clients) → is_client c (drop_client d cs) ≡ (is_client c cs && not (d == c))
is_client-drop_client c d [] = refl
is_client-drop_client c d ((e, sub) ∷ cs) = ground (arith, is_client-drop_client c d cs)

pub leave-clients : (now c : ℕ) (h : Hub) → (leave now c h).clients ≡ drop_client c h.clients
unfolding leave
leave-clients now c h = same (drop_client c h.clients)
  where
    same : (cs : Clients) → (without now cs h).clients ≡ cs
    same [] = refl
    same (t ∷ ts) = refl

-- A delivery writes to subscribers that it was given, that are still clients and whose writes
-- succeed; and afterwards the clients are those from before without the subscribers it was given
-- whose writes fail.
pub deliver_lem :
    (now : ℕ) (writes : ℕ → Bool) (ts : Clients) (h : Hub) (c : ℕ)
    → (any (λ d. d == c) (deliver now writes ts h).1
        ≡ (is_client c ts && is_client c h.clients && writes c))
      × (is_client c (deliver now writes ts h).0.clients
          ≡ (is_client c h.clients && not (is_client c ts && not (writes c))))
unfolding deliver
deliver_lem now writes [] h c = (ground arith, ground arith)
deliver_lem now writes ((d, sub) ∷ ts) h c =
    let kept = deliver_lem now writes ts h c in
    let dropped = deliver_lem now writes ts (leave now d h) c in
    let left = rw (leave-clients now d h) at dropped in
    let others = is_client-drop_client c d h.clients in
    elim (Bool-cases (is_client d h.clients)) [
      | inr a ↦ rw a (ground (arith, kept.0, here a), ground (arith, kept.1, here a))
      | inl a ↦ elim (Bool-cases (writes d)) [
        | inl b ↦
            rw (a, b)
              (ground (arith, kept.0, here a, written b), ground (arith, kept.1, here a, written b))
        | inr b ↦
            rw (a, b)
              (
                ground (arith, left.0, others, here a, written b),
                ground (arith, left.1, others, here a, written b),
              )
      ]
    ]
  where
    here : {x : Bool} → is_client d h.clients ≡ x → (d == c) ≡ true → is_client c h.clients ≡ x
    here {x} e q = let same : d ≡ c = ground arith in rw same at e

    written : {x : Bool} → writes d ≡ x → (d == c) ≡ true → writes c ≡ x
    written {x} e q = let same : d ≡ c = ground arith in rw same at e

keep-keep : (p q : ℕ × Sub → Bool) (cs : Clients) → keep q (keep p cs) ≡ keep (λ t. p t && q t) cs
keep-keep p q [] = refl
keep-keep p q (t ∷ ts) = ground (arith, keep-keep p q ts)

and_true : (p : ℕ × Sub → Bool) (cs : Clients) → keep (λ t. p t && true) cs ≡ keep p cs
and_true p [] = refl
and_true p (t ∷ ts) = ground (arith, and_true p ts)

keep-All : (P : ℕ × Sub → Type 0) (p : ℕ × Sub → Bool) (cs : Clients) → All P cs → All P (keep p cs)
keep-All P p [] a = tt
keep-All P p (t ∷ ts) a = elim (Bool-cases (p t)) [
  | inl e ↦ rw e (a.0, keep-All P p ts a.1)
  | inr e ↦ rw e (keep-All P p ts a.1)
]

-- A broadcast writes to a connection exactly if it was a client of the hub that the event is meant
-- for when the hub was read, no policy held the event back where the project filters its changes,
-- it is a client still, and the write succeeds; the claims determine the roles of the clients.
pub broadcast_lem :
    (sees : Bytes → Bytes → Bool) (role_of : Bytes → Bytes) (ev : Event) (rls : Bool) (now : ℕ)
    (writes : ℕ → Bool) (h h' : Hub) (c : ℕ)
    → All (λ t. t.1.role ≡ role_of t.1.claims) h.clients
    → any (λ d. d == c) (broadcast sees ev rls now writes h h').1 ≡ (
        is_client c (
          keep
            (λ t.
              is_target ev t.1
              && (not (is_change ev && rls) || is_exempt ev t.1 || sees t.1.claims t.1.role))
            h.clients)
        && is_client c h'.clients
        && writes c)
unfolding broadcast targets
broadcast_lem sees role_of ev rls now writes h h' c a = elim (Bool-cases (is_change ev && rls)) [
  | inl e ↦
      rw
        (
          e,
          gate-keep sees role_of ev (keep (λ t. is_target ev t.1) h.clients)
              (keep-All _ (λ t. is_target ev t.1) h.clients a),
          keep-keep (λ t. is_target ev t.1) (λ t. is_exempt ev t.1 || sees t.1.claims t.1.role)
              h.clients,
        )
        (deliver_lem now writes _ h' c).0
  | inr e ↦
      rw (e, and_true (λ t. is_target ev t.1) h.clients)
        (deliver_lem now writes (keep (λ t. is_target ev t.1) h.clients) h' c).0
]
