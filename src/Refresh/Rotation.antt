-- ===== src/Refresh/Rotation.antt =====
-- A refresh token works once.
use forgebase.Common.{
  ℕ, Bool, true, false, ◌≡◌, ◌≢◌, refl, ◌∙◌, Option, none, some, List, [], ◌∷◌, ◌++◌, inl, inr,
  arith,
}
use forgebase.Common.Tests.{leb, if◌then◌else◌, Bool-cases, Option-cases}
use forgebase.Common.Text.{Bytes, eqb, eqb_iff, eqb_refl}
use forgebase.Common.Map.{lookup}
use forgebase.Refresh.{
  Token, Sessions, Mint, revoke, find_token, issue_tokens, minted, sweep, insert, revoke_user_of,
  issued, refresh_row, refresh_found, refresh_user, rotated, handle_refresh, logout, Op, refresh,
  sign_in, sign_out, step, run,
}

-- The row of this hash is revoked.
abbrev pub IsSpent : Bytes → List Token → Type 0
IsSpent h ts = (t : Token) × (find_token h ts ≡ some t) × (t.revoked ≡ true)

find_token-revoke :
    (p : Token → Bool) (h : Bytes) (ts : List Token) (t : Token)
    → find_token h ts ≡ some t
    → find_token h (revoke p ts) ≡ some (if p t then record t { revoked = true } else t)
unfolding find_token revoke
find_token-revoke p h [] t e = cc
find_token-revoke p h (u ∷ ts) t e = elim (Bool-cases (eqb u.hash h)) [
  | inl here ↦ let q : u ≡ t = ground arith in rw (← q) (ground arith)
  | inr later ↦ let q = find_token-revoke p h ts t (ground arith) in ground arith
]

find_token-append :
    (h : Bytes) (ts us : List Token) (t : Token)
    → find_token h ts ≡ some t
    → find_token h (ts ++ us) ≡ some t
unfolding find_token
find_token-append h [] us t e = cc
find_token-append h (u ∷ ts) us t e = ground (arith, find_token-append h ts us t)

pub find_token-hash :
    (h : Bytes) (ts : List Token) (t : Token) → find_token h ts ≡ some t → t.hash ≡ h
unfolding find_token
find_token-hash h [] t e = cc
find_token-hash h (u ∷ ts) t e = ground (arith, find_token-hash h ts t, eqb_iff u.hash h)

revoke-IsSpent :
    (p : Token → Bool) (h : Bytes) (ts : List Token) → IsSpent h ts → IsSpent h (revoke p ts)
revoke-IsSpent p h ts (t, e, r) =
    (if p t then record t { revoked = true } else t, find_token-revoke p h ts t e, ground arith)

append-IsSpent : (h : Bytes) (ts us : List Token) → IsSpent h ts → IsSpent h (ts ++ us)
append-IsSpent h ts us (t, e, r) = (t, find_token-append h ts us t e, r)

issue_tokens-IsSpent :
    (m : Mint) (now : ℕ) (user family h : Bytes) (s : Sessions)
    → IsSpent h s.tokens
    → IsSpent h (issue_tokens m now user family s).0.tokens
unfolding issue_tokens insert sweep
issue_tokens-IsSpent m now user family h s sp =
    inserted (sweep s.single_session user s.tokens) (swept s.single_session)
  where
    swept : (b : Bool) → IsSpent h (sweep b user s.tokens)
    swept true = revoke-IsSpent _ h s.tokens sp
    swept false = sp

    inserted : (ts : List Token) → IsSpent h ts → IsSpent h (insert m (minted m now user family) ts)
    inserted ts q = elim (Bool-cases m.inserts) [
      | inl on ↦ rw on (append-IsSpent h ts (minted m now user family ∷ []) q)
      | inr off ↦ rw off q
    ]

pub rotated-state : (t : Token) (r : Sessions × Bool) → (rotated t r).0 ≡ r.0
rotated-state t (s, true) = refl
rotated-state t (s, false) = refl

refresh_row-IsSpent :
    (m : Mint) (now : ℕ) (g h : Bytes) (s : Sessions) (t : Token)
    → IsSpent h s.tokens
    → IsSpent h (refresh_row m now g s t).0.tokens
refresh_row-IsSpent m now g h s t sp = elim (Bool-cases t.revoked) [
  | inl r ↦ rw r (revoke-IsSpent _ h s.tokens sp)
  | inr live ↦ elim (Bool-cases (leb t.expires_at now)) [
    | inl old ↦ rw (live, old) sp
    | inr young ↦
        rw (live, young, rotated-state t)
          (issue_tokens-IsSpent m now t.user t.family h
            (record s { tokens = revoke (λ u. eqb u.hash g) s.tokens })
            (revoke-IsSpent _ h s.tokens sp))
  ]
]

module _ (sha : Bytes → Bytes) where
  handle_refresh-IsSpent :
      (m : Mint) (now : ℕ) (token h : Bytes) (s : Sessions)
      → IsSpent h s.tokens
      → IsSpent h (handle_refresh sha m now token s).0.tokens
  unfolding handle_refresh
  handle_refresh-IsSpent m now token h s sp = elim (Bool-cases (eqb token [])) [
    | inl e ↦ rw e sp
    | inr e ↦ rw e (found (find_token (sha token) s.tokens))
  ]
    where
      joined :
          (t : Token) (o : Option Bytes) → IsSpent h (refresh_user m now (sha token) s t o).0.tokens
      joined t none = sp
      joined t (some email) = refresh_row-IsSpent m now (sha token) h s t sp

      found : (o : Option Token) → IsSpent h (refresh_found m now (sha token) s o).0.tokens
      found none = sp
      found (some t) = joined t (lookup t.user s.users)

  logout-IsSpent :
      (global : Bool) (token h : Bytes) (s : Sessions)
      → IsSpent h s.tokens
      → IsSpent h (logout sha global token s).tokens
  unfolding logout
  logout-IsSpent global token h s sp = elim (Bool-cases (eqb token [])) [
    | inl e ↦ rw e sp
    | inr e ↦ elim (Bool-cases global) [
      | inr one ↦ rw (e, one) (revoke-IsSpent _ h s.tokens sp)
      | inl all ↦ rw (e, all) (of_user (find_token (sha token) s.tokens))
    ]
  ]
    where
      of_user : (o : Option Token) → IsSpent h (revoke_user_of o s.tokens)
      of_user none = sp
      of_user (some t) = revoke-IsSpent _ h s.tokens sp

  step-IsSpent :
      (op : Op) (h : Bytes) (s : Sessions) → IsSpent h s.tokens → IsSpent h (step sha op s).tokens
  unfolding step
  step-IsSpent (refresh m now token) h s sp = handle_refresh-IsSpent m now token h s sp
  step-IsSpent (sign_in m now user) h s sp = issue_tokens-IsSpent m now user [] h s sp
  step-IsSpent (sign_out global token) h s sp = logout-IsSpent global token h s sp

  run-IsSpent :
      (ops : List Op) (h : Bytes) (s : Sessions)
      → IsSpent h s.tokens
      → IsSpent h (run sha ops s).tokens
  unfolding run
  run-IsSpent [] h s sp = sp
  run-IsSpent (op ∷ ops) h s sp = run-IsSpent ops h (step sha op s) (step-IsSpent op h s sp)

  -- A spent token is not exchanged.
  spent_refused :
      (m : Mint) (now : ℕ) (token : Bytes) (s : Sessions) (user family : Bytes)
      → IsSpent (sha token) s.tokens
      → (handle_refresh sha m now token s).1 ≢ issued user family
  unfolding handle_refresh
  spent_refused m now token s user family (t, e, r) q =
      elim (Option-cases (lookup t.user s.users)) [
        | inl n ↦ ground (arith, rw (e, n) at q)
        | inr (email, n) ↦ ground (arith, rw (e, n, r) at q)
      ]

  -- What an exchange went through, and the state that it leaves.
  pub issued_cases :
      (m : Mint) (now : ℕ) (token : Bytes) (s : Sessions) (user family : Bytes)
      → (handle_refresh sha m now token s).1 ≡ issued user family
      → (t : Token) × (find_token (sha token) s.tokens ≡ some t)
        × (t.revoked ≡ false)
        × (leb t.expires_at now ≡ false)
        × (m.inserts ≡ true)
        × (t.user ≡ user)
        × (t.family ≡ family)
        × ((handle_refresh sha m now token s).0
            ≡ (issue_tokens m now t.user t.family
                (record s { tokens = revoke (λ u. eqb u.hash (sha token)) s.tokens })).0)
  unfolding handle_refresh issue_tokens
  issued_cases m now token s user family q = elim (Bool-cases (eqb token [])) [
    | inl e ↦ absurd (cc (rw e at q))
    | inr e ↦ elim (Option-cases (find_token (sha token) s.tokens)) [
      | inl f ↦ absurd (cc (rw (e, f) at q))
      | inr (t, f) ↦ elim (Option-cases (lookup t.user s.users)) [
        | inl u ↦ absurd (cc (rw (e, f, u) at q))
        | inr (email, u) ↦ rw (e, f, u) (row t f (rw (e, f, u) at q))
      ]
    ]
  ]
    where
      row :
          (t : Token)
          → find_token (sha token) s.tokens ≡ some t
          → (refresh_row m now (sha token) s t).1 ≡ issued user family
          → (t' : Token) × (some t ≡ some t')
            × (t'.revoked ≡ false)
            × (leb t'.expires_at now ≡ false)
            × (m.inserts ≡ true)
            × (t'.user ≡ user)
            × (t'.family ≡ family)
            × ((refresh_row m now (sha token) s t).0
                ≡ (issue_tokens m now t'.user t'.family
                    (record s { tokens = revoke (λ u. eqb u.hash (sha token)) s.tokens })).0)
      row t f p = elim (Bool-cases t.revoked) [
        | inl r ↦ absurd (cc (rw r at p))
        | inr r ↦ elim (Bool-cases (leb t.expires_at now)) [
          | inl x ↦ absurd (cc (rw (r, x) at p))
          | inr x ↦ elim (Bool-cases m.inserts) [
            | inr i ↦ absurd (cc (rw (r, x, i) at p))
            | inl i ↦ (
              t,
              refl,
              r,
              x,
              i,
              ground (arith, rw (r, x, i) at p),
              ground (arith, rw (r, x, i) at p),
              rw (r, x)
                  (rotated-state t (
                    issue_tokens m now t.user t.family
                      (record s { tokens = revoke (λ u. eqb u.hash (sha token)) s.tokens }))),
            )
          ]
        ]
      ]

  -- A token that was exchanged is spent.
  issued-IsSpent :
      (m : Mint) (now : ℕ) (token : Bytes) (s : Sessions) (user family : Bytes)
      → (handle_refresh sha m now token s).1 ≡ issued user family
      → IsSpent (sha token) (handle_refresh sha m now token s).0.tokens
  unfolding handle_refresh
  issued-IsSpent m now token s user family q =
      let (t, f, _, _, _, _, _, e) = issued_cases m now token s user family q in
      let marked = record s { tokens = revoke (λ u. eqb u.hash (sha token)) s.tokens } in
      rw e (
        issue_tokens-IsSpent m now t.user t.family (sha token) marked (
          record t { revoked = true },
          find_token-revoke (λ u. eqb u.hash (sha token)) (sha token) s.tokens t f
              ∙ rw (find_token-hash (sha token) s.tokens t f, eqb_refl (sha token)) refl,
          refl,
        ))

  -- Once a refresh token has been exchanged, no request with it is ever answered with new tokens
  -- again, whatever refreshes, sign-ins and log-outs come between.
  pub handle_refresh_once :
      (m m' : Mint) (now now' : ℕ) (token : Bytes) (s : Sessions) (ops : List Op)
      (user family user' family' : Bytes)
      → (handle_refresh sha m now token s).1 ≡ issued user family
      → (handle_refresh sha m' now' token (run sha ops (handle_refresh sha m now token s).0)).1
        ≢ issued user' family'
  handle_refresh_once m m' now now' token s ops user family user' family' q =
      spent_refused m' now' token (run sha ops (handle_refresh sha m now token s).0) user' family' (
        run-IsSpent ops (sha token) (handle_refresh sha m now token s).0
          (issued-IsSpent m now token s user family q))
