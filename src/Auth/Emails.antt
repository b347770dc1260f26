-- ===== src/Auth/Emails.antt =====
-- The keys of `auth.users`, its ids and its addresses, under the updates and insertions of
-- pgforge/authusers.go.
use mathlib.Core.Path.{subst}
use forgebase.Common.{
  ℕ, ◌+◌, ◌≤◌, Bool, true, false, ◌||◌, ◌≡◌, refl, ap, ◌⊎◌, Option, none, some, List, [], ◌∷◌, ◌++◌,
  inl, inr, arith,
}
use forgebase.Common.Tests.{Bool-cases}
use forgebase.Common.Lists.{any, count, keep}
use forgebase.Common.Text.{Bytes, eqb, eqb_iff}
use forgebase.Auth.Accounts.{
  User, is_value, has_email, has_phone, is_user, update_users, present, insert_user,
}
use forgebase.Auth.SignIn.{taken, upgraded}

abbrev pub IsKeyed : List User → Type 0
IsKeyed us = ((e : Bytes) → count (has_email e) us ≤ 1) × ((i : Bytes) → count (is_user i) us ≤ 1)

count-append : (p : User → Bool) (us vs : List User) → count p (us ++ vs) ≡ count p us + count p vs
count-append p [] vs = omega arith
count-append p (u ∷ us) vs = ground (arith, count-append p us vs)

count-any : (p : User → Bool) (us : List User) → any p us ≡ false → count p us ≡ 0
count-any p [] h = refl
count-any p (u ∷ us) h = ground (arith, count-any p us)

count-keep_le : (p q : User → Bool) (us : List User) → count p (keep q us) ≤ count p us
count-keep_le p q [] = omega arith
count-keep_le p q (u ∷ us) = ground (arith, count-keep_le p q us)

count-update_users :
    (p q : User → Bool) (f : User → User) (us : List User)
    → ((u : User) → p (f u) ≡ p u)
    → count p (update_users q f us) ≡ count p us
unfolding update_users
count-update_users p q f [] h = refl
count-update_users p q f (u ∷ us) h =
    let ih = count-update_users p q f us h in
    elim (Bool-cases (q u)) [
      | inl e ↦ rw e (ground (arith, ih, h u))
      | inr e ↦ rw e (ground (arith, ih))
    ]

pub keep-IsKeyed : (q : User → Bool) (us : List User) → IsKeyed us → IsKeyed (keep q us)
keep-IsKeyed q us (k, l) = (
  (λ e. let a = k e in omega (arith, a, count-keep_le (has_email e) q us)),
  (λ i. let a = l i in omega (arith, a, count-keep_le (is_user i) q us)),
)

pub update_users-IsKeyed :
    (q : User → Bool) (f : User → User) (us : List User)
    → ((u : User) → (f u).email ≡ u.email)
    → ((u : User) → (f u).id ≡ u.id)
    → IsKeyed us
    → IsKeyed (update_users q f us)
update_users-IsKeyed q f us se si (k, l) = (
  (λ e.
      let a = k e in
      let s = count-update_users (has_email e) q f us (λ u. ap (is_value e) (se u)) in
      omega (arith, a, s)),
  (λ i.
      let a = l i in
      let s = count-update_users (is_user i) q f us (λ u. ap (λ j. eqb j i) (si u)) in
      omega (arith, a, s)),
)

-- A value that is not present counts for none.
present-count :
    (e : Bytes) (o : Option Bytes) (us : List User)
    → present o has_email us ≡ false
    → is_value e o ≡ true
    → count (has_email e) us ≡ 0
present-count e none us p v = absurd cc
present-count e (some w) us p v =
    let same : w ≡ e = (eqb_iff w e).0 v in
    count-any (has_email e) us (subst (λ x. any (has_email x) us ≡ false) same p)

pub insert_user-IsKeyed :
    (u : User) (us new : List User) → IsKeyed us → insert_user u us ≡ some new → IsKeyed new
unfolding insert_user
insert_user-IsKeyed u us new (k, l) h =
    elim (Bool-cases
      (any (is_user u.id) us || present u.email has_email us || present u.phone has_phone us)) [
        | inl e ↦ absurd (cc (rw e at h))
        | inr e ↦
            let w : us ++ u ∷ [] ≡ new = let h1 = rw e at h in cc in
            let no_id : any (is_user u.id) us ≡ false = ground (arith, e) in
            let no_email : present u.email has_email us ≡ false = ground (arith, e) in
            subst IsKeyed w (
              (λ v.
                  let a = k v in
                  let s = count-append (has_email v) us (u ∷ []) in
                  elim (Bool-cases (has_email v u)) [
                    | inl mine ↦
                        let z = present-count v u.email us no_email mine in
                        ground (arith, s, z, mine)
                    | inr other ↦ ground (arith, s, a, other)
                  ]),
              (λ i.
                  let a = l i in
                  let s = count-append (is_user i) us (u ∷ []) in
                  elim (Bool-cases (is_user i u)) [
                    | inl mine ↦
                        let same : u.id ≡ i = (eqb_iff u.id i).0 mine in
                        let z =
                          count-any (is_user i) us
                            (subst (λ x. any (is_user x) us ≡ false) same no_id) in
                        ground (arith, s, z, mine)
                    | inr other ↦ ground (arith, s, a, other)
                  ]),
            )
      ]

count-other :
    (e v uid hash : Bytes) (confirmed : Option ℕ) (us : List User)
    → eqb e v ≡ false
    → count (has_email v) (update_users (is_user uid) (upgraded e hash confirmed) us)
      ≤ count (has_email v) us
unfolding update_users
count-other e v uid hash confirmed [] d = omega arith
count-other e v uid hash confirmed (u ∷ us) d =
    let ih = count-other e v uid hash confirmed us d in
    elim (Bool-cases (is_user uid u)) [
      | inl m ↦ rw m (rw d (ground (arith, ih)))
      | inr m ↦ rw m (ground (arith, ih))
    ]

count-own :
    (e v uid hash : Bytes) (confirmed : Option ℕ) (us : List User)
    → eqb e v ≡ true
    → taken v uid us ≡ false
    → count (has_email v) (update_users (is_user uid) (upgraded e hash confirmed) us)
      ≤ count (is_user uid) us
unfolding update_users
count-own e v uid hash confirmed [] s t = omega arith
count-own e v uid hash confirmed (u ∷ us) s t = elim (Bool-cases (is_user uid u)) [
  | inl m ↦
      let ih = count-own e v uid hash confirmed us s (ground (arith, t)) in
      rw m (rw s (ground (arith, ih)))
  | inr m ↦
      let ih = count-own e v uid hash confirmed us s (ground (arith, t)) in
      rw m (ground (arith, ih, t))
]

-- The one user of an id takes an address that no other user has.
count-upgraded :
    (e v uid hash : Bytes) (confirmed : Option ℕ) (us : List User)
    → taken e uid us ≡ false
    → (count (has_email v) (update_users (is_user uid) (upgraded e hash confirmed) us)
        ≤ count (has_email v) us)
      ⊎ (count (has_email v) (update_users (is_user uid) (upgraded e hash confirmed) us)
          ≤ count (is_user uid) us)
count-upgraded e v uid hash confirmed us t = elim (Bool-cases (eqb e v)) [
  | inr d ↦ inl (count-other e v uid hash confirmed us d)
  | inl s ↦ inr (
      count-own e v uid hash confirmed us s
        (subst (λ x. taken x uid us ≡ false) ((eqb_iff e v).0 s) t))
]

pub upgraded-IsKeyed :
    (e uid hash : Bytes) (confirmed : Option ℕ) (us : List User)
    → taken e uid us ≡ false
    → IsKeyed us
    → IsKeyed (update_users (is_user uid) (upgraded e hash confirmed) us)
upgraded-IsKeyed e uid hash confirmed us t (k, l) = (
  (λ v. elim (count-upgraded e v uid hash confirmed us t) [
    | inl h ↦ let a = k v in omega (arith, a, h)
    | inr h ↦ let a = l uid in omega (arith, a, h)
  ]),
  (λ i.
      let a = l i in
      let s =
        count-update_users (is_user i) (is_user uid) (upgraded e hash confirmed) us (λ u. refl) in
      omega (arith, a, s)),
)
