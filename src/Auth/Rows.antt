-- ===== src/Auth/Rows.antt =====
-- What the writes of pgforge/authusers.go to `auth.users` may be held to: an interface for the
-- handlers, and three predicates on the rows that fill it.
use mathlib.Core.Path.{subst}
use forgebase.Common.{
  ℕ, Bool, true, false, not, ◌||◌, ◌≡◌, ◌≢◌, refl, sym, ap, ◌∙◌, ◌⊎◌, Option, none, some, List, [],
  ◌∷◌, ◌++◌, inl, inr, arith,
}
use forgebase.Common.Tests.{Bool-cases}
use forgebase.Common.Lists.{any, keep, All}
use forgebase.Common.Text.{Bytes, codes, eqb, eqb_iff, has_byte}
use forgebase.Auth.Accounts.{
  User, is_user, find_user, update_users, has_email, present, has_phone, insert_user,
}
use forgebase.Auth.SignIn.{taken, is_anonymous_user, upgraded, kind_magiclink}
use forgebase.Auth.Emails.{
  IsKeyed, keep-IsKeyed, update_users-IsKeyed, insert_user-IsKeyed, upgraded-IsKeyed,
}

-- What stands in place of the password of a user who came by a code or a link.
abbrev pub IsMark : Bytes → Type 0
IsMark password = (password ≡ codes "otp") ⊎ (password ≡ kind_magiclink)

-- An address holds an "@", or the row was made by a code or a link, which ask for none.
abbrev pub IsAddress : Bytes → Option Bytes → Type 0
IsAddress password none = Unit
IsAddress password (some e) = (has_byte b'@' e ≡ true) ⊎ IsMark password

abbrev pub IsAddressed : User → Type 0
IsAddressed u = IsAddress u.encrypted_password u.email

-- An update of other columns.
abbrev pub IsAside : (User → User) → Type 0
IsAside f =
    (u : User)
    → ((f u).email ≡ u.email)
      × ((f u).id ≡ u.id)
      × ((f u).encrypted_password ≡ u.encrypted_password)
      × ((f u).is_anonymous ≡ u.is_anonymous)

-- A predicate on the rows that every write of the handlers keeps, a removal of the ids that are in
-- `Removable`.
pub record Preserved (P : List User → Type 0) (Removable : Bytes → Type 0) : Type 0 where
  pub insert :
      (u : User) (us new : List User) → IsAddressed u → P us → insert_user u us ≡ some new → P new
  pub discard :
      (u : User) (us new : List User)
      → IsAddressed u
      → P us
      → insert_user u us ≡ some new
      → P (keep (λ v. not (is_user u.id v)) new)
  pub aside :
      (q : User → Bool) (f : User → User) (us : List User)
      → IsAside f
      → P us
      → P (update_users q f us)
  pub upgrades :
      (e uid hash : Bytes) (confirmed : Option ℕ) (us : List User)
      → is_anonymous_user (find_user (is_user uid) us) ≡ true
      → has_byte b'@' e ≡ true
      → taken e uid us ≡ false
      → P us
      → P (update_users (is_user uid) (upgraded e hash confirmed) us)
  pub removes :
      (id : Bytes) (us : List User) → Removable id → P us → P (keep (λ v. not (is_user id v)) us)

pub keyed : Preserved IsKeyed (λ id. Unit)
keyed = record {
  insert = λ u us new a k e. insert_user-IsKeyed u us new k e;
  discard = λ u us new a k e.
      keep-IsKeyed (λ v. not (is_user u.id v)) new (insert_user-IsKeyed u us new k e);
  aside = λ q f us s k. update_users-IsKeyed q f us (λ u. (s u).0) (λ u. (s u).1) k;
  upgrades = λ e uid hash confirmed us o at t k. upgraded-IsKeyed e uid hash confirmed us t k;
  removes = λ id us r k. keep-IsKeyed (λ v. not (is_user id v)) us k;
}

-- An insertion that succeeds puts the row behind the others, which have not its id.
insert_user-rows :
    (u : User) (us new : List User)
    → insert_user u us ≡ some new
    → (us ++ u ∷ [] ≡ new) × (any (is_user u.id) us ≡ false)
unfolding insert_user
insert_user-rows u us new h =
    elim (Bool-cases
      (any (is_user u.id) us || present u.email has_email us || present u.phone has_phone us)) [
        | inl e ↦ absurd (cc (rw e at h))
        | inr e ↦ ((let h1 = rw e at h in cc), ground (arith, e))
      ]

module _ (P : User → Type 0) where
  All-append : (us vs : List User) → All P us → All P vs → All P (us ++ vs)
  All-append [] vs a b = b
  All-append (u ∷ us) vs (a, rest) b = (a, All-append us vs rest b)

  All-keep : (q : User → Bool) (us : List User) → All P us → All P (keep q us)
  All-keep q [] a = tt
  All-keep q (u ∷ us) (a, rest) = elim (Bool-cases (q u)) [
    | inl e ↦ rw e (a, All-keep q us rest)
    | inr e ↦ rw e (All-keep q us rest)
  ]

  All-update_users :
      (q : User → Bool) (f : User → User) (us : List User)
      → ((u : User) → q u ≡ true → P u → P (f u))
      → All P us
      → All P (update_users q f us)
  unfolding update_users
  All-update_users q f [] h a = tt
  All-update_users q f (u ∷ us) h (a, rest) = elim (Bool-cases (q u)) [
    | inl e ↦ rw e (h u e a, All-update_users q f us h rest)
    | inr e ↦ rw e (a, All-update_users q f us h rest)
  ]

  insert_user-All :
      (u : User) (us new : List User) → P u → All P us → insert_user u us ≡ some new → All P new
  insert_user-All u us new p a e =
      subst (All P) (insert_user-rows u us new e).0 (All-append us (u ∷ []) a (p, tt))

aside-IsAddressed : (f : User → User) (u : User) → IsAside f → IsAddressed u → IsAddressed (f u)
aside-IsAddressed f u s a =
    let (e, i, w, n) = s u in
    subst (λ p. IsAddress p (f u).email) (sym w)
      (subst (λ o. IsAddress u.encrypted_password o) (sym e) a)

pub addressed : Preserved (All IsAddressed) (λ id. Unit)
addressed = record {
  insert = λ u us new a k e. insert_user-All IsAddressed u us new a k e;
  discard = λ u us new a k e.
      All-keep IsAddressed (λ v. not (is_user u.id v)) new
        (insert_user-All IsAddressed u us new a k e);
  aside = λ q f us s k. All-update_users IsAddressed q f us (λ u t a. aside-IsAddressed f u s a) k;
  upgrades = λ e uid hash confirmed us o at t k.
      All-update_users IsAddressed (is_user uid) (upgraded e hash confirmed) us (λ u m a. inl at) k;
  removes = λ id us r k. All-keep IsAddressed (λ v. not (is_user id v)) us k;
}

-- The user `i` is there, with this address and this password, and not anonymous.
module _ (i : Bytes) (e : Option Bytes) (h : Bytes) where
  abbrev IsSettledRow : User → Type 0
  IsSettledRow u =
      is_user i u ≡ true → (u.email ≡ e) × (u.encrypted_password ≡ h) × (u.is_anonymous ≡ false)

  abbrev pub IsSettled : List User → Type 0
  IsSettled us = (any (is_user i) us ≡ true) × All IsSettledRow us

  any-append : (us vs : List User) → any (is_user i) us ≡ true → any (is_user i) (us ++ vs) ≡ true
  any-append [] vs a = absurd cc
  any-append (u ∷ us) vs a = ground (arith, any-append us vs)

  any-keep :
      (id : Bytes) (us : List User)
      → id ≢ i
      → any (is_user i) us ≡ true
      → any (is_user i) (keep (λ v. not (is_user id v)) us) ≡ true
  any-keep id [] d a = absurd cc
  any-keep id (u ∷ us) d a = ground (arith, any-keep id us d, eqb_iff u.id id, eqb_iff u.id i)

  any-update_users :
      (q : User → Bool) (f : User → User) (us : List User)
      → ((u : User) → (f u).id ≡ u.id)
      → any (is_user i) (update_users q f us) ≡ any (is_user i) us
  unfolding update_users
  any-update_users q f [] s = refl
  any-update_users q f (u ∷ us) s =
      let same : is_user i (f u) ≡ is_user i u = ap (λ x. eqb x i) (s u) in
      ground (arith, any-update_users q f us s, same)

  keep-IsSettled :
      (id : Bytes) (us : List User)
      → id ≢ i
      → IsSettled us
      → IsSettled (keep (λ v. not (is_user id v)) us)
  keep-IsSettled id us d (a, k) =
      (any-keep id us d a, All-keep IsSettledRow (λ v. not (is_user id v)) us k)

  -- A row that is inserted has another id.
  other_id : (u : User) (us new : List User) → IsSettled us → insert_user u us ≡ some new → u.id ≢ i
  other_id u us new (a, k) ins same =
      let gone : any (is_user i) us ≡ false =
        subst (λ x. any (is_user x) us ≡ false) same (insert_user-rows u us new ins).1 in
      absurd (cc)

  insert_user-IsSettled :
      (u : User) (us new : List User) → IsSettled us → insert_user u us ≡ some new → IsSettled new
  insert_user-IsSettled u us new (a, k) ins =
      let d = other_id u us new (a, k) ins in
      (
        subst (λ vs. any (is_user i) vs ≡ true) (insert_user-rows u us new ins).0
            (any-append us (u ∷ []) a),
        insert_user-All IsSettledRow u us new (λ m. absurd (d ((eqb_iff u.id i).0 m))) k ins,
      )

  -- The user is not an anonymous one.
  settled_not_anonymous :
      (us : List User)
      → All IsSettledRow us
      → is_anonymous_user (find_user (is_user i) us) ≡ true
      → ⊥
  unfolding find_user
  settled_not_anonymous [] k o = absurd cc
  settled_not_anonymous (u ∷ us) (k, ks) o = elim (Bool-cases (is_user i u)) [
    | inl m ↦ let (a, b, c) = k m in absurd (ground (arith, c, rw m at o))
    | inr m ↦ settled_not_anonymous us ks (rw m at o)
  ]

  upgraded-IsSettled :
      (v uid hash : Bytes) (confirmed : Option ℕ) (us : List User)
      → is_anonymous_user (find_user (is_user uid) us) ≡ true
      → IsSettled us
      → IsSettled (update_users (is_user uid) (upgraded v hash confirmed) us)
  upgraded-IsSettled v uid hash confirmed us o (a, k) =
      let f = upgraded v hash confirmed in
      let d : uid ≢ i = λ same.
        settled_not_anonymous us k
          (subst (λ x. is_anonymous_user (find_user (is_user x) us) ≡ true) same o) in
      (
        any-update_users (is_user uid) f us (λ u. refl) ∙ a,
        All-update_users IsSettledRow (is_user uid) f us
            (λ u m r mine. absurd (d (sym ((eqb_iff u.id uid).0 m) ∙ (eqb_iff u.id i).0 mine))) k,
      )

  aside-IsSettled :
      (q : User → Bool) (f : User → User) (us : List User)
      → IsAside f
      → IsSettled us
      → IsSettled (update_users q f us)
  aside-IsSettled q f us s (a, k) = (
    any-update_users q f us (λ u. (s u).1) ∙ a,
    All-update_users IsSettledRow q f us
        (λ u t r m.
          let (x, y, z, w) = s u in
          let (b, c, n) = r (sym (ap (λ j. eqb j i) y) ∙ m) in (x ∙ b, z ∙ c, w ∙ n))
        k,
  )

  pub settled : Preserved IsSettled (λ id. id ≢ i)
  settled = record {
    insert = λ u us new a k ins. insert_user-IsSettled u us new k ins;
    discard = λ u us new a k ins.
        keep-IsSettled u.id new (other_id u us new k ins) (insert_user-IsSettled u us new k ins);
    aside = λ q f us s k. aside-IsSettled q f us s k;
    upgrades = λ v uid hash confirmed us o at t k. upgraded-IsSettled v uid hash confirmed us o k;
    removes = λ id us r k. keep-IsSettled id us r k;
  }
