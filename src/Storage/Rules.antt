-- ===== src/Storage/Rules.antt =====
-- The access class that applies to a path is that of the longest matching prefix.
use forgebase.Common.{ℕ, ◌≤◌, Bool, true, false, ◌≡◌, refl, some, List, [], ◌∷◌, inl, inr, arith}
use forgebase.Common.Tests.{Bool-cases}
use forgebase.Common.Lists.{length, keep, All}
use forgebase.Common.Text.{Bytes, eqb, has_prefix}
use forgebase.Storage.Bucket.{
  Rule, Project, before, insert_rule, order_rules, first_match, storage_rule_for,
}

-- A rule of the table.
pub data In (r : Rule) : List Rule → Type 0 where
  here : {s : Rule} {rs : List Rule} → r ≡ s → In r (s ∷ rs)
  there : {s : Rule} {rs : List Rule} → In r rs → In r (s ∷ rs)

-- Longer prefixes stand first.
abbrev IsOrdered : List Rule → Type 0
IsOrdered [] = Unit
IsOrdered (r ∷ rs) = All (λ s. length s.prefix ≤ length r.prefix) rs × IsOrdered rs

All-insert_rule :
    (P : Rule → Type 0) (r : Rule) (rs : List Rule) → P r → All P rs → All P (insert_rule r rs)
unfolding insert_rule
All-insert_rule P r [] p a = (p, tt)
All-insert_rule P r (s ∷ rs) p a = elim (Bool-cases (before r s)) [
  | inl e ↦ rw e (p, a)
  | inr e ↦ rw e (a.0, All-insert_rule P r rs p a.1)
]

All-le :
    (m n : ℕ) (rs : List Rule)
    → m ≤ n
    → All (λ s. length s.prefix ≤ m) rs
    → All (λ s. length s.prefix ≤ n) rs
All-le m n [] h a = tt
All-le m n (s ∷ rs) h a = (omega arith, All-le m n rs h a.1)

insert_rule-IsOrdered : (r : Rule) (rs : List Rule) → IsOrdered rs → IsOrdered (insert_rule r rs)
unfolding insert_rule
insert_rule-IsOrdered r [] o = (tt, tt)
insert_rule-IsOrdered r (s ∷ rs) o = elim (Bool-cases (before r s)) [
  | inl e ↦
      rw e ((ground arith, All-le (length s.prefix) (length r.prefix) rs (ground arith) o.0), o)
  | inr e ↦ rw e (All-insert_rule _ r rs (ground arith) o.0, insert_rule-IsOrdered r rs o.1)
]

order_rules-IsOrdered : (rs : List Rule) → IsOrdered (order_rules rs)
unfolding order_rules
order_rules-IsOrdered [] = tt
order_rules-IsOrdered (r ∷ rs) = insert_rule-IsOrdered r (order_rules rs) (order_rules-IsOrdered rs)

In-insert_rule : (x r : Rule) (rs : List Rule) → In x (r ∷ rs) → In x (insert_rule r rs)
unfolding insert_rule
In-insert_rule x r [] i = i
In-insert_rule x r (s ∷ rs) i = elim (Bool-cases (before r s)) [
  | inl e ↦ rw e i
  | inr e ↦ rw e (later i (In-insert_rule x r rs))
]
  where
    later :
        In x (r ∷ s ∷ rs) → (In x (r ∷ rs) → In x (insert_rule r rs)) → In x (s ∷ insert_rule r rs)
    later (here p) ih = there (ih (here p))
    later (there (here p)) ih = here p
    later (there (there t)) ih = there (ih (there t))

insert_rule-In : (x r : Rule) (rs : List Rule) → In x (insert_rule r rs) → In x (r ∷ rs)
unfolding insert_rule
insert_rule-In x r [] i = i
insert_rule-In x r (s ∷ rs) i = elim (Bool-cases (before r s)) [
  | inl e ↦ rw e at i
  | inr e ↦ back (rw e at i) (insert_rule-In x r rs)
]
  where
    swap : In x (r ∷ rs) → In x (r ∷ s ∷ rs)
    swap (here p) = here p
    swap (there t) = there (there t)

    back :
        In x (s ∷ insert_rule r rs) → (In x (insert_rule r rs) → In x (r ∷ rs)) → In x (r ∷ s ∷ rs)
    back (here p) ih = there (here p)
    back (there t) ih = swap (ih t)

order_rules-In : (x : Rule) (rs : List Rule) → In x (order_rules rs) → In x rs
unfolding order_rules
order_rules-In x [] i = i
order_rules-In x (r ∷ rs) i = step (insert_rule-In x r (order_rules rs) i) (order_rules-In x rs)
  where
    step : In x (r ∷ order_rules rs) → (In x (order_rules rs) → In x rs) → In x (r ∷ rs)
    step (here p) ih = here p
    step (there t) ih = there (ih t)

In-order_rules : (x : Rule) (rs : List Rule) → In x rs → In x (order_rules rs)
unfolding order_rules
In-order_rules x [] i = elim i [ ]
In-order_rules x (r ∷ rs) (here p) = In-insert_rule x r (order_rules rs) (here p)
In-order_rules x (r ∷ rs) (there t) =
    In-insert_rule x r (order_rules rs) (there (In-order_rules x rs t))

keep-In : (p : Rule → Bool) (x : Rule) (rs : List Rule) → In x (keep p rs) → In x rs × (p x ≡ true)
keep-In p x [] i = elim i [ ]
keep-In p x (r ∷ rs) i = elim (Bool-cases (p r)) [
  | inl e ↦ hit e (rw e at i) (keep-In p x rs)
  | inr e ↦ let (t, q) = keep-In p x rs (rw e at i) in (there t, q)
]
  where
    hit :
        p r ≡ true
        → In x (r ∷ keep p rs)
        → (In x (keep p rs) → In x rs × (p x ≡ true))
        → In x (r ∷ rs) × (p x ≡ true)
    hit e (here q) ih = (here q, rw q e)
    hit e (there t) ih = let (u, q) = ih t in (there u, q)

In-keep : (p : Rule → Bool) (x : Rule) (rs : List Rule) → p x ≡ true → In x rs → In x (keep p rs)
In-keep p x [] q i = elim i [ ]
In-keep p x (r ∷ rs) q (here e) = rw (rw e at q) (here e)
In-keep p x (r ∷ rs) q (there t) = elim (Bool-cases (p r)) [
  | inl e ↦ rw e (there (In-keep p x rs q t))
  | inr e ↦ rw e (In-keep p x rs q t)
]

All-In : (P : Rule → Type 0) (x : Rule) (rs : List Rule) → All P rs → In x rs → P x
All-In P x [] a i = elim i [ ]
All-In P x (r ∷ rs) a (here e) = rw e a.0
All-In P x (r ∷ rs) a (there t) = All-In P x rs a.1 t

first_match-In :
    (path : Bytes) (rs : List Rule) {r : Rule}
    → first_match path rs ≡ some r
    → In r rs × (has_prefix path r.prefix ≡ true)
unfolding first_match
first_match-In path [] e = cc
first_match-In path (s ∷ rs) {r} e = elim (Bool-cases (has_prefix path s.prefix)) [
  | inl h ↦ let q : s ≡ r = ground arith in (here (ground arith), ground arith)
  | inr h ↦ let (t, q) = first_match-In path rs (ground arith) in (there t, q)
]

first_match-longest :
    (path : Bytes) (rs : List Rule) (x : Rule)
    → IsOrdered rs
    → In x rs
    → has_prefix path x.prefix ≡ true
    → (r : Rule) × (first_match path rs ≡ some r) × (length x.prefix ≤ length r.prefix)
unfolding first_match
first_match-longest path [] x o i h = elim i [ ]
first_match-longest path (s ∷ rs) x o i h = elim (Bool-cases (has_prefix path s.prefix)) [
  | inl e ↦ (s, rw e refl, bound i)
  | inr e ↦ rw e (first_match-longest path rs x o.1 (tail i e) h)
]
  where
    bound : In x (s ∷ rs) → length x.prefix ≤ length s.prefix
    bound (here q) = rw q (omega arith)
    bound (there t) = All-In _ x rs o.0 t

    tail : In x (s ∷ rs) → has_prefix path s.prefix ≡ false → In x rs
    tail (here q) e = ground arith
    tail (there t) e = t

-- A rule that applies to a path belongs to the bucket and matches the path, and no matching rule
-- of the bucket has a longer prefix.
pub storage_rule_for-longest :
    (st : Project) (bucket path : Bytes) (x : Rule)
    → In x st.rules
    → eqb x.bucket bucket ≡ true
    → has_prefix path x.prefix ≡ true
    → (r : Rule) × (storage_rule_for st bucket path ≡ some r)
      × In r st.rules
      × (eqb r.bucket bucket ≡ true)
      × (has_prefix path r.prefix ≡ true)
      × (length x.prefix ≤ length r.prefix)
unfolding storage_rule_for
storage_rule_for-longest st bucket path x i b h =
    let mine = λ (r : Rule). eqb r.bucket bucket in
    let rs = order_rules (keep mine st.rules) in
    let (r, e, l) =
      first_match-longest path rs x (order_rules-IsOrdered (keep mine st.rules))
        (In-order_rules x (keep mine st.rules) (In-keep mine x st.rules b i)) h in
    let (j, q) = first_match-In path rs e in
    let (k, w) = keep-In mine r st.rules (order_rules-In r (keep mine st.rules) j) in
    (r, e, k, w, q, l)
