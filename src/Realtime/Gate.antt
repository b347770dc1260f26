-- ===== src/Realtime/Gate.antt =====
-- Who may join, and whose events a policy holds back.
use forgebase.Common.{
  Bool, true, false, ◌&&◌, ◌||◌, ◌≡◌, ◌≢◌, refl, sym, ◌∙◌, Option, none, some, [], ◌∷◌, inl, inr,
  arith,
}
use forgebase.Common.Tests.{if◌then◌else◌, Bool-cases, Option-cases}
use forgebase.Common.Lists.{keep, All}
use forgebase.Common.Text.{Bytes, codes, eqb, eqb_iff, has_prefix, trim_prefix}
use forgebase.Common.Map.{Map, lookup, lookup-put}
use forgebase.Realtime.{
  Sub, Clients, Event, is_exempt, answer, remember, gate, Join, joins, anon, join_claims,
  serve_realtime,
}

module _ (sees : Bytes → Bytes → Bool) (role_of : Bytes → Bytes) where
  -- The remembered answers are those of the database.
  abbrev IsTrue : Map Bool → Type 0
  IsTrue memo = (c : Bytes) (vis : Bool) → lookup c memo ≡ some vis → vis ≡ sees c (role_of c)

  remember-IsTrue :
      (sub : Sub) (memo : Map Bool)
      → sub.role ≡ role_of sub.claims
      → IsTrue memo
      → IsTrue (remember sees sub (lookup sub.claims memo) memo)
  remember-IsTrue sub memo r t = elim (Option-cases (lookup sub.claims memo)) [
    | inr (vis, e) ↦ rw e t
    | inl e ↦ rw e (λ c vis f. elim (Bool-cases (eqb sub.claims c)) [
      | inl q ↦
          let at_c = (eqb_iff sub.claims c).0 q in
          let new : some (sees sub.claims sub.role) ≡ some vis =
            sym (lookup-put sub.claims c (sees sub.claims sub.role) memo ∙ rw q refl) ∙ f in
          let got : sees sub.claims sub.role ≡ vis = ground (arith, new) in
          rw (← at_c, ← got, r) refl
      | inr q ↦
          t c vis (sym (lookup-put sub.claims c (sees sub.claims sub.role) memo ∙ rw q refl) ∙ f)
    ])
  ]

  answer-IsTrue :
      (sub : Sub) (memo : Map Bool)
      → sub.role ≡ role_of sub.claims
      → IsTrue memo
      → answer sees sub (lookup sub.claims memo) ≡ sees sub.claims sub.role
  answer-IsTrue sub memo r t = elim (Option-cases (lookup sub.claims memo)) [
    | inl e ↦ rw e refl
    | inr (vis, e) ↦ rw (e, r) (t sub.claims vis e)
  ]

  gate-memo :
      (ev : Event) (memo : Map Bool) (cs : Clients)
      → All (λ t. t.1.role ≡ role_of t.1.claims) cs
      → IsTrue memo
      → gate sees ev memo cs ≡ keep (λ t. is_exempt ev t.1 || sees t.1.claims t.1.role) cs
  unfolding gate
  gate-memo ev memo [] a t = refl
  gate-memo ev memo ((c, sub) ∷ cs) a t = ground (
    arith,
    gate-memo ev memo cs a.1 t,
    answer-IsTrue sub memo a.0 t,
    gate-memo ev (remember sees sub (lookup sub.claims memo) memo) cs a.1
        (remember-IsTrue sub memo a.0 t),
  )

  -- Asking once for each set of claims holds back the same subscribers as asking for every one,
  -- where the claims determine the role: those who are not exempt and do not see the row.
  pub gate-keep :
      (ev : Event) (cs : Clients)
      → All (λ t. t.1.role ≡ role_of t.1.claims) cs
      → gate sees ev [] cs ≡ keep (λ t. is_exempt ev t.1 || sees t.1.claims t.1.role) cs
  unfolding lookup
  gate-keep ev cs a = gate-memo ev [] cs a (λ c vis e. absurd (cc))

-- Who joins has a token of the project that verifies, and its role and claims are those of the
-- token; the anonymous role joins only where the project does not require more, and no private
-- channel.
pub serve_realtime-joins :
    (verify : Bytes → Bytes → Option (Bytes × Bytes)) (enabled require_auth : Bool) (secret : Bytes)
    (q : Join) (sub : Sub)
    → serve_realtime verify enabled require_auth secret q ≡ joins sub
    → (enabled ≡ true)
      × (secret ≢ [])
      × (verify secret
            (if eqb q.apikey [] then trim_prefix q.authorization (codes "Bearer ") else q.apikey)
          ≡ some (sub.role, sub.claims))
      × (sub.role ≡ anon
          → (require_auth ≡ false) × (has_prefix sub.channel (codes "private-") ≡ false))
unfolding serve_realtime
serve_realtime-joins verify enabled require_auth secret q sub h = elim (Bool-cases enabled) [
  | inr e ↦ absurd (cc (rw e at h))
  | inl e ↦ elim (Bool-cases (eqb secret [])) [
    | inl s ↦ absurd (cc (rw (e, s) at h))
    | inr s ↦
        let key =
          if eqb q.apikey [] then trim_prefix q.authorization (codes "Bearer ") else q.apikey in
        let (found, may) = token (verify secret key) (rw (e, s) at h) in
        (e, (λ z. ground (arith, eqb_iff secret [])), found, may)
  ]
]
  where
    token :
        (o : Option (Bytes × Bytes))
        → join_claims require_auth q o ≡ joins sub
        → (o ≡ some (sub.role, sub.claims))
          × (sub.role ≡ anon
              → (require_auth ≡ false) × (has_prefix sub.channel (codes "private-") ≡ false))
    token none j = absurd (cc)
    token (some (role, claims)) j = elim (Bool-cases (eqb role anon && require_auth)) [
      | inl a ↦ absurd (cc (rw a at j))
      | inr a ↦ elim (Bool-cases (has_prefix q.channel (codes "private-") && eqb role anon)) [
        | inl b ↦ absurd (cc (rw (a, b) at j))
        | inr b ↦
            let k = rw (a, b) at j in
            let r : role ≡ sub.role = ground (arith, k) in
            let c : claims ≡ sub.claims = ground (arith, k) in
            let ch : q.channel ≡ sub.channel = ground (arith, k) in
            (
              rw (r, c) refl,
              λ z. (
                ground (arith, eqb_iff role anon, r, z),
                rw (← ch) (ground (arith, eqb_iff role anon, r, z)),
              ),
            )
      ]
    ]
