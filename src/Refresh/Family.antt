-- ===== src/Refresh/Family.antt =====
-- A replayed token ends its whole lineage.
use forgebase.Common.{
  ℕ, Bool, true, false, ◌≡◌, ◌≢◌, refl, Option, none, some, List, [], ◌∷◌, ◌++◌, inl, inr, arith,
}
use forgebase.Common.Tests.{leb, Bool-cases, Option-cases}
use forgebase.Common.Lists.{All}
use forgebase.Common.Text.{Bytes, eqb, eqb_iff}
use forgebase.Common.Map.{lookup}
use forgebase.Refresh.{
  Token, Sessions, Mint, revoke, find_token, issue_tokens, minted, sweep, insert, revoke_user_of,
  reused, issued, refresh_row, refresh_found, refresh_user, handle_refresh, logout, Op, refresh,
  sign_in, sign_out, step, run,
}
use forgebase.Refresh.Rotation.{issued_cases, rotated-state}

-- Every token of the family is revoked.
abbrev pub IsDead : Bytes → List Token → Type 0
IsDead f ts = All (λ t. t.family ≡ f → t.revoked ≡ true) ts

-- The new families that a call may draw are not this one.
abbrev pub Draws : Bytes → Op → Type 0
Draws f (refresh m now token) = m.new_family ≢ f
Draws f (sign_in m now user) = m.new_family ≢ f
Draws f (sign_out global token) = Unit

revoke-IsDead :
    (f : Bytes) (p : Token → Bool) (ts : List Token) → IsDead f ts → IsDead f (revoke p ts)
unfolding revoke
revoke-IsDead f p [] d = tt
revoke-IsDead f p (t ∷ ts) d = ((λ e. ground (arith, d.0)), revoke-IsDead f p ts d.1)

revoke_family-IsDead : (f : Bytes) (ts : List Token) → IsDead f (revoke (λ u. eqb u.family f) ts)
unfolding revoke
revoke_family-IsDead f [] = tt
revoke_family-IsDead f (t ∷ ts) =
    ((λ e. ground (arith, eqb_iff t.family f)), revoke_family-IsDead f ts)

append-IsDead :
    (f : Bytes) (ts : List Token) (t : Token) → t.family ≢ f → IsDead f ts → IsDead f (ts ++ t ∷ [])
append-IsDead f [] t ne d = ((λ e. absurd (ne e)), tt)
append-IsDead f (u ∷ ts) t ne d = (d.0, append-IsDead f ts t ne d.1)

find_token-IsDead :
    (f h : Bytes) (ts : List Token) (t : Token)
    → IsDead f ts
    → find_token h ts ≡ some t
    → t.family ≡ f
    → t.revoked ≡ true
unfolding find_token
find_token-IsDead f h [] t d e w = cc
find_token-IsDead f h (u ∷ ts) t d e w = elim (Bool-cases (eqb u.hash h)) [
  | inl here ↦ let q : u ≡ t = ground arith in rw q at (d.0 (rw (← q) at w))
  | inr later ↦ find_token-IsDead f h ts t d.1 (ground arith) w
]

issue_tokens-IsDead :
    (m : Mint) (now : ℕ) (user family f : Bytes) (s : Sessions)
    → (minted m now user family).family ≢ f
    → IsDead f s.tokens
    → IsDead f (issue_tokens m now user family s).0.tokens
unfolding issue_tokens insert sweep
issue_tokens-IsDead m now user family f s ne d =
    inserted (sweep s.single_session user s.tokens) (swept s.single_session)
  where
    swept : (b : Bool) → IsDead f (sweep b user s.tokens)
    swept true = revoke-IsDead f _ s.tokens d
    swept false = d

    inserted : (ts : List Token) → IsDead f ts → IsDead f (insert m (minted m now user family) ts)
    inserted ts q = elim (Bool-cases m.inserts) [
      | inl on ↦ rw on (append-IsDead f ts (minted m now user family) ne q)
      | inr off ↦ rw off q
    ]

refresh_row-IsDead :
    (m : Mint) (now : ℕ) (g f : Bytes) (s : Sessions) (t : Token)
    → m.new_family ≢ f
    → (t.family ≡ f → t.revoked ≡ true)
    → IsDead f s.tokens
    → IsDead f (refresh_row m now g s t).0.tokens
refresh_row-IsDead m now g f s t ne dead d = elim (Bool-cases t.revoked) [
  | inl r ↦ rw r (revoke-IsDead f _ s.tokens d)
  | inr live ↦ elim (Bool-cases (leb t.expires_at now)) [
    | inl old ↦ rw (live, old) d
    | inr young ↦
        rw (live, young, rotated-state t)
          (issue_tokens-IsDead m now t.user t.family f
            (record s { tokens = revoke (λ u. eqb u.hash g) s.tokens }) (ground (arith, ne, dead))
            (revoke-IsDead f _ s.tokens d))
  ]
]

module _ (sha : Bytes → Bytes) where
  handle_refresh-IsDead :
      (m : Mint) (now : ℕ) (token f : Bytes) (s : Sessions)
      → m.new_family ≢ f
      → IsDead f s.tokens
      → IsDead f (handle_refresh sha m now token s).0.tokens
  unfolding handle_refresh
  handle_refresh-IsDead m now token f s ne d = elim (Bool-cases (eqb token [])) [
    | inl e ↦ rw e d
    | inr e ↦ rw e (found (find_token (sha token) s.tokens) refl)
  ]
    where
      joined :
          (t : Token)
          → find_token (sha token) s.tokens ≡ some t
          → (o : Option Bytes) → IsDead f (refresh_user m now (sha token) s t o).0.tokens
      joined t e none = d
      joined t e (some email) =
          refresh_row-IsDead m now (sha token) f s t ne
            (find_token-IsDead f (sha token) s.tokens t d e) d

      found :
          (o : Option Token)
          → find_token (sha token) s.tokens ≡ o
          → IsDead f (refresh_found m now (sha token) s o).0.tokens
      found none e = d
      found (some t) e = joined t e (lookup t.user s.users)

  logout-IsDead :
      (global : Bool) (token f : Bytes) (s : Sessions)
      → IsDead f s.tokens
      → IsDead f (logout sha global token s).tokens
  unfolding logout
  logout-IsDead global token f s d = elim (Bool-cases (eqb token [])) [
    | inl e ↦ rw e d
    | inr e ↦ elim (Bool-cases global) [
      | inr one ↦ rw (e, one) (revoke-IsDead f _ s.tokens d)
      | inl all ↦ rw (e, all) (of_user (find_token (sha token) s.tokens))
    ]
  ]
    where
      of_user : (o : Option Token) → IsDead f (revoke_user_of o s.tokens)
      of_user none = d
      of_user (some t) = revoke-IsDead f _ s.tokens d

  step-IsDead :
      (op : Op) (f : Bytes) (s : Sessions)
      → Draws f op
      → IsDead f s.tokens
      → IsDead f (step sha op s).tokens
  unfolding step
  step-IsDead (refresh m now token) f s ne d = handle_refresh-IsDead m now token f s ne d
  step-IsDead (sign_in m now user) f s ne d =
      issue_tokens-IsDead m now user [] f s (unfold eqb in ne) d
  step-IsDead (sign_out global token) f s ne d = logout-IsDead global token f s d

  run-IsDead :
      (ops : List Op) (f : Bytes) (s : Sessions)
      → All (Draws f) ops
      → IsDead f s.tokens
      → IsDead f (run sha ops s).tokens
  unfolding run
  run-IsDead [] f s a d = d
  run-IsDead (op ∷ ops) f s a d = run-IsDead ops f (step sha op s) a.1 (step-IsDead op f s a.0 d)

  reused-IsDead :
      (m : Mint) (now : ℕ) (token : Bytes) (s : Sessions) (t : Token)
      → find_token (sha token) s.tokens ≡ some t
      → (handle_refresh sha m now token s).1 ≡ reused
      → IsDead t.family (handle_refresh sha m now token s).0.tokens
  unfolding handle_refresh issue_tokens
  reused-IsDead m now token s t f q = elim (Bool-cases (eqb token [])) [
    | inl e ↦ absurd (cc (rw e at q))
    | inr e ↦ elim (Option-cases (lookup t.user s.users)) [
      | inl u ↦ absurd (cc (rw (e, f, u) at q))
      | inr (email, u) ↦ elim (Bool-cases t.revoked) [
        | inl r ↦ rw (e, f, u, r) (revoke_family-IsDead t.family s.tokens)
        | inr r ↦ elim (Bool-cases (leb t.expires_at now)) [
          | inl x ↦ absurd (cc (rw (e, f, u, r, x) at q))
          | inr x ↦ elim (Bool-cases m.inserts) [
            | inl i ↦ absurd (cc (rw (e, f, u, r, x, i) at q))
            | inr i ↦ absurd (cc (rw (e, f, u, r, x, i) at q))
          ]
        ]
      ]
    ]
  ]

  -- Where a revoked token is presented, from then on no request with any token is answered with new
  -- tokens of its family, whatever refreshes, sign-ins and log-outs come between, as long as no
  -- draw of a new family repeats that one.
  pub handle_refresh_reused :
      (m m' : Mint) (now now' : ℕ) (token token' : Bytes) (s : Sessions) (t : Token) (ops : List Op)
      (user : Bytes)
      → find_token (sha token) s.tokens ≡ some t
      → (handle_refresh sha m now token s).1 ≡ reused
      → All (Draws t.family) ops
      → (handle_refresh sha m' now' token' (run sha ops (handle_refresh sha m now token s).0)).1
        ≢ issued user t.family
  handle_refresh_reused m m' now now' token token' s t ops user f q a i =
      let after = run sha ops (handle_refresh sha m now token s).0 in
      let d =
        run-IsDead ops t.family (handle_refresh sha m now token s).0 a
          (reused-IsDead m now token s t f q) in
      let (u, g, live, _, _, _, same, _) = issued_cases sha m' now' token' after user t.family i in
      let dead = find_token-IsDead t.family (sha token') after.tokens u d g same in cc
