-- ===== src/Storage/Listed.antt =====
-- What a listing of pgforge/storage.go shows, by what the bucket holds.
use mathlib.Core.Path.{subst, sym}
use mathlib.Core.List.{append_assoc}
use forgebase.Common.{
  ℕ, zero, suc, ◌≤◌, true, false, ◌≡◌, ◌↔◌, refl, ap, ◌∙◌, ◌⊎◌, some, none, List, [], ◌∷◌, ◌++◌,
  inl, inr, arith,
}
use forgebase.Common.Tests.{Bool-cases}
use forgebase.Common.Lists.{length, take}
use forgebase.Common.Text.{
  Bytes, eqb, eqb_iff, has_prefix, strip, trim_prefix, trim_prefix-append, has_prefix-append,
  has_byte, to_lower,
}
use forgebase.Common.Map.{Map, lookup, Unique}
use forgebase.Storage.Path.{slash}
use forgebase.Storage.Bucket.{Object, Project, object_key}
use forgebase.Storage.Listing.{
  ListBody, object, like, rows_of, matching, contains, is_found, list_prefix, all_entries,
}
use forgebase.Storage.Levels.{IsPlain, like-has_prefix, HasEntry, HasRow, entries_lem}

-- The text occurs in another.
abbrev pub IsPart : Bytes → Bytes → Type 0
IsPart sub s = (pre : Bytes) × (post : Bytes) × (s ≡ pre ++ sub ++ post)

-- The search is empty, or occurs in the name, whatever the case of the letters.
abbrev pub IsHit : Bytes → Bytes → Type 0
IsHit search name = (search ≡ []) ⊎ IsPart (to_lower search) (to_lower name)

-- A text with a prefix is the prefix and what is stripped of it.
has_prefix-strip : (s p : Bytes) → has_prefix s p ≡ true → s ≡ p ++ strip s p
unfolding has_prefix strip
has_prefix-strip s [] h = refl
has_prefix-strip [] (p ∷ ps) h = absurd cc
has_prefix-strip (c ∷ s) (p ∷ ps) h =
    let same : c ≡ p = ground arith in
    let rest = has_prefix-strip s ps (ground arith) in rw same (ap (◌∷◌ p) rest)

has_prefix-trim : (s p : Bytes) → has_prefix s p ≡ true → s ≡ p ++ trim_prefix s p
unfolding trim_prefix
has_prefix-trim s p h = rw h (has_prefix-strip s p h)

contains-IsPart : (s sub : Bytes) → contains s sub ≡ true → IsPart sub s
unfolding contains
contains-IsPart [] sub h = ([], strip [] sub, has_prefix-strip [] sub h)
contains-IsPart (c ∷ s) sub h = elim (Bool-cases (has_prefix (c ∷ s) sub)) [
  | inl e ↦ ([], strip (c ∷ s) sub, has_prefix-strip (c ∷ s) sub e)
  | inr e ↦
      let (pre, post, same) = contains-IsPart s sub (ground (arith, e)) in
      (c ∷ pre, post, ap (◌∷◌ c) same)
]

part-contains : (pre sub post : Bytes) → contains (pre ++ sub ++ post) sub ≡ true
unfolding contains has_prefix
part-contains [] [] [] = refl
part-contains [] [] (c ∷ post) = refl
part-contains [] (c ∷ sub) post = ground (arith, has_prefix-append sub post)
part-contains (c ∷ pre) sub post = ground (arith, part-contains pre sub post)

is_found_lem : (search name : Bytes) → (is_found search name ≡ true) ↔ IsHit search name
unfolding is_found
is_found_lem search name = (
  (λ h. elim (Bool-cases (eqb search [])) [
    | inl e ↦ inl ((eqb_iff search []).0 e)
    | inr e ↦ inr (contains-IsPart (to_lower name) (to_lower search) (ground (arith, e)))
  ]),
  (λ h. elim h [
    | inl e ↦ let empty = (eqb_iff search []).1 e in rw empty refl
    | inr (pre, post, same) ↦
        let found : contains (to_lower name) (to_lower search) ≡ true =
          subst (λ x. contains x (to_lower search) ≡ true) (sym same)
            (part-contains pre (to_lower search) post) in
        ground (arith, found)
  ]),
)

-- The rows that match.
matching-HasRow :
    (pattern p : Bytes) (o : Object) (rows : List (Bytes × Object))
    → HasRow (p, o) (matching pattern rows)
    → HasRow (p, o) rows × (like false pattern p ≡ true)
unfolding matching
matching-HasRow pattern p o [] h = elim h [ ]
matching-HasRow pattern p o ((q, r) ∷ rows) h = elim (Bool-cases (like false pattern q)) [
  | inr e ↦ let (a, b) = matching-HasRow pattern p o rows (rw e at h) in (inr a, b)
  | inl e ↦ elim (rw e at h) [
    | inl same ↦
        let path : p ≡ q = cc in (inl same, subst (λ x. like false pattern x ≡ true) (sym path) e)
    | inr g ↦ let (a, b) = matching-HasRow pattern p o rows g in (inr a, b)
  ]
]

row-matching :
    (pattern p : Bytes) (o : Object) (rows : List (Bytes × Object))
    → HasRow (p, o) rows
    → like false pattern p ≡ true
    → HasRow (p, o) (matching pattern rows)
unfolding matching
row-matching pattern p o [] h l = elim h [ ]
row-matching pattern p o ((q, r) ∷ rows) (inl same) l =
    let path : p ≡ q = cc in
    let e : like false pattern q ≡ true = subst (λ x. like false pattern x ≡ true) path l in
    rw e (inl same)
row-matching pattern p o ((q, r) ∷ rows) (inr h) l = elim (Bool-cases (like false pattern q)) [
  | inl e ↦ rw e (inr (row-matching pattern p o rows h l))
  | inr e ↦ rw e (row-matching pattern p o rows h l)
]

-- The bucket's rows are the objects whose keys begin with its name and a slash.
rows_of-lookup :
    (bucket p : Bytes) (o : Object) (m : Map Object)
    → Unique m
    → HasRow (p, o) (rows_of bucket m)
    → lookup (object_key bucket p) m ≡ some o
unfolding rows_of lookup
rows_of-lookup bucket p o [] u h = elim h [ ]
rows_of-lookup bucket p o ((k, r) ∷ m) u h =
    let front = bucket ++ slash ∷ [] in
    let later : HasRow (p, o) (rows_of bucket m)
        → lookup (object_key bucket p) ((k, r) ∷ m) ≡ some o =
      λ g.
        let ih = rows_of-lookup bucket p o m u.1 g in
        elim (Bool-cases (eqb k (object_key bucket p))) [
          | inl e ↦
              let same : k ≡ object_key bucket p = (eqb_iff k (object_key bucket p)).0 e in
              let gone : lookup (object_key bucket p) m ≡ none =
                subst (λ x. lookup x m ≡ none) same u.0 in
              absurd (ground (arith, ih, gone))
          | inr e ↦ rw e ih
        ] in
    elim (Bool-cases (has_prefix k front)) [
      | inr e ↦ later (rw e at h)
      | inl e ↦ elim (rw e at h) [
        | inr g ↦ later g
        | inl same ↦
            let path : p ≡ trim_prefix k front = cc in
            let row : o ≡ r = cc in
            let key : k ≡ object_key bucket p =
              has_prefix-trim k front e
              ∙ ap (λ x. front ++ x) (sym path)
              ∙ append_assoc bucket (slash ∷ []) p in
            let here = (eqb_iff k (object_key bucket p)).1 key in rw here (ap some (sym row))
      ]
    ]

rows_of_here :
    (bucket k : Bytes) (r : Object) (m : Map Object)
    → has_prefix k (bucket ++ slash ∷ []) ≡ true
    → rows_of bucket ((k, r) ∷ m) ≡ (trim_prefix k (bucket ++ slash ∷ []), r) ∷ rows_of bucket m
unfolding rows_of
rows_of_here bucket k r m h = rw h refl

lookup-rows_of :
    (bucket p : Bytes) (o : Object) (m : Map Object)
    → lookup (object_key bucket p) m ≡ some o
    → HasRow (p, o) (rows_of bucket m)
unfolding rows_of lookup
lookup-rows_of bucket p o [] h = absurd cc
lookup-rows_of bucket p o ((k, r) ∷ m) h =
    let front = bucket ++ slash ∷ [] in
    elim (Bool-cases (eqb k (object_key bucket p))) [
      | inl e ↦
          let key : front ++ p ≡ k =
            append_assoc bucket (slash ∷ []) p ∙ sym ((eqb_iff k (object_key bucket p)).0 e) in
          let begins : has_prefix k front ≡ true =
            subst (λ x. has_prefix x front ≡ true) key (has_prefix-append front p) in
          let path : p ≡ trim_prefix k front =
            sym (trim_prefix-append front p) ∙ ap (λ x. trim_prefix x front) key in
          let row : o ≡ r = let h1 = rw e at h in cc in
          subst (HasRow (p, o)) (sym (rows_of_here bucket k r m begins))
            (inl (ap (λ x. (x, o)) path ∙ ap (λ x. (trim_prefix k front, x)) row))
      | inr e ↦
          let ih = lookup-rows_of bucket p o m (rw e at h) in
          elim (Bool-cases (has_prefix k front)) [ inl b ↦ rw b (inr ih) | inr b ↦ rw b ih ]
    ]

take_all : (n : ℕ) (xs : List (Bytes × Object)) → length xs ≤ n → take n xs ≡ xs
take_all zero [] h = refl
take_all zero (x ∷ xs) h = absurd (omega arith)
take_all (suc n) [] h = refl
take_all (suc n) (x ∷ xs) h = ap (◌∷◌ x) (take_all n xs (omega arith))

-- The database's ORDER BY keeps the rows.
module _ (order : List (Bytes × Object) → List (Bytes × Object))
    (same_rows : (x : Bytes × Object) (rows : List (Bytes × Object))
      → HasRow x (order rows) ↔ HasRow x rows)
    (same_length : (rows : List (Bytes × Object)) → length (order rows) ≡ length rows) where
  ordered-HasRow :
      (x : Bytes × Object) (rows : List (Bytes × Object))
      → length rows ≤ 5000
      → HasRow x (take 5000 (order rows)) ↔ HasRow x rows
  ordered-HasRow x rows h =
      let all = take_all 5000 (order rows) (omega (arith, same_length rows)) in
      (
        (λ g. (same_rows x rows).0 (subst (HasRow x) all g)),
        (λ g. subst (HasRow x) (sym all) ((same_rows x rows).1 g)),
      )

  -- The objects that a listing shows, before the page is cut, are those that the bucket holds
  -- directly under the prefix and whose names the search occurs in, letters' case aside, each by
  -- its name behind the prefix; where the prefix holds no wildcard and no more than 5000 rows match.
  pub all_entries_lem :
      (bucket : Bytes) (b : ListBody) (name id : Bytes) (o : Object) (st : Project)
      → Unique st.objects
      → IsPlain (list_prefix b.prefix)
      → length (matching (list_prefix b.prefix ++ b'%' ∷ []) (rows_of bucket st.objects)) ≤ 5000
      → HasEntry (object name id o) (all_entries order bucket b st) ↔ (
          (lookup (object_key bucket (list_prefix b.prefix ++ name)) st.objects ≡ some o)
          × (has_byte slash name ≡ false)
          × IsHit b.search name
          × (id ≡ object_key bucket (list_prefix b.prefix ++ name)))
  unfolding all_entries
  all_entries_lem bucket b name id o st u plain few =
      let pfx = list_prefix b.prefix in
      let rows = rows_of bucket st.objects in
      let pattern = pfx ++ b'%' ∷ [] in
      let shown =
        entries_lem bucket pfx b.search name id o (take 5000 (order (matching pattern rows))) in
      (
        (λ e.
            let (p, h, (t, flat, found), i) = shown.0 e in
            let m = (ordered-HasRow (p, o) (matching pattern rows) few).0 h in
            let (row, l) = matching-HasRow pattern p o rows m in
            let begins : has_prefix p pfx ≡ true = sym (like-has_prefix pfx p plain) ∙ l in
            let path : p ≡ pfx ++ name = has_prefix-trim p pfx begins ∙ ap (λ x. pfx ++ x) t in
            (
              subst (λ x. lookup (object_key bucket x) st.objects ≡ some o) path
                  (rows_of-lookup bucket p o st.objects u row),
              flat,
              (is_found_lem b.search name).0 found,
              i ∙ ap (object_key bucket) path,
            )),
        (λ (held, flat, hit, i).
            let p = pfx ++ name in
            let l : like false pattern p ≡ true =
              like-has_prefix pfx p plain ∙ has_prefix-append pfx name in
            let m = row-matching pattern p o rows (lookup-rows_of bucket p o st.objects held) l in
            shown.1 (
              p,
              (ordered-HasRow (p, o) (matching pattern rows) few).1 m,
              (trim_prefix-append pfx name, flat, (is_found_lem b.search name).1 hit),
              i,
            )),
      )
