-- ===== src/Storage/Removal.antt =====
-- What the deletion of a bucket and of many objects leaves.
use forgebase.Common.{
  ℕ, suc, ◌+◌, Bool, true, false, ◌||◌, ◌≡◌, ◌≢◌, refl, ap, ◌∙◌, Option, none, some, List, [], ◌∷◌,
  ◌++◌, inl, inr, arith,
}
use forgebase.Common.Tests.{◌==◌, Bool-cases, Option-cases}
use forgebase.Common.Lists.{length, all}
use forgebase.Common.Text.{Bytes, eqb, eqb_iff, eqb_refl, has_prefix, has_byte}
use forgebase.Common.Map.{
  Map, lookup, remove, Unique, lookup-retain, lookup-remove, filter_value, remove-Unique,
}
use forgebase.Storage.Path.{slash, safe_rel, is_lower_digit, bucket_re}
use forgebase.Storage.Bucket.{Project, object_key, bucket_exists}
use forgebase.Storage.Objects.{drop_file}
use forgebase.Storage.Panel.{
  drop_row, present, delete_all, bulk_delete_objects, is_outside, delete_bucket,
}
use forgebase.Storage.Agreement.{IsConsistent}

filter_value-false :
    {V : Type 0} (p : Bytes → V → Bool) (k : Bytes) (o : Option V)
    → ((v : V) → p k v ≡ false)
    → filter_value p k o ≡ none
filter_value-false p k none h = refl
filter_value-false p k (some v) h = rw (h v) refl

filter_value-true :
    {V : Type 0} (p : Bytes → V → Bool) (k : Bytes) (o : Option V)
    → ((v : V) → p k v ≡ true)
    → filter_value p k o ≡ o
filter_value-true p k none h = refl
filter_value-true p k (some v) h = rw (h v) refl

prefix_of-object_key :
    (bucket path : Bytes) → has_prefix (object_key bucket path) (bucket ++ slash ∷ []) ≡ true
unfolding has_prefix
prefix_of-object_key [] path = refl
prefix_of-object_key (c ∷ bucket) path = ground (arith, prefix_of-object_key bucket path)

-- A bucket's name holds no slash.
name_clean :
    (s : Bytes)
    → all (λ d. is_lower_digit d || d == b'_' || d == b'-') s ≡ true
    → has_byte slash s ≡ false
unfolding has_byte
name_clean [] h = refl
name_clean (c ∷ s) h = ground (arith, name_clean s)

bucket_re_clean : (b : Bytes) → bucket_re b ≡ true → has_byte slash b ≡ false
unfolding bucket_re has_byte
bucket_re_clean [] h = refl
bucket_re_clean (c ∷ s) h = ground (arith, name_clean s)

-- The key of an object begins with no bucket's name and slash but those of its own.
prefix-object_key :
    (bucket b path : Bytes)
    → has_byte slash bucket ≡ false
    → has_byte slash b ≡ false
    → has_prefix (object_key b path) (bucket ++ slash ∷ []) ≡ true
    → b ≡ bucket
unfolding has_byte has_prefix
prefix-object_key [] [] path c d h = refl
prefix-object_key [] (y ∷ b) path c d h = absurd (ground arith)
prefix-object_key (x ∷ bucket) [] path c d h = absurd (ground arith)
prefix-object_key (x ∷ bucket) (y ∷ b) path c d h =
    let same : y ≡ x = ground arith in
    let rest = prefix-object_key bucket b path (ground arith) (ground arith) (ground arith) in
    rw same (ap (◌∷◌ x) rest)

object_key-is_outside :
    (bucket b path : Bytes)
    → bucket_re bucket ≡ true
    → has_byte slash b ≡ false
    → b ≢ bucket
    → is_outside bucket (object_key b path) ≡ true
object_key-is_outside bucket b path ok clean other =
    elim (Bool-cases (has_prefix (object_key b path) (bucket ++ slash ∷ []))) [
      | inl h ↦ absurd (other (prefix-object_key bucket b path (bucket_re_clean bucket ok) clean h))
      | inr h ↦ rw h refl
    ]

-- After a bucket was deleted none of its objects has a row or a file, and it does not exist, while
-- every object of a bucket with another name, which holds no slash, and the rules are as before,
-- where rows and files agree.
pub delete_bucket_lem :
    (bucket b path' : Bytes) (st : Project)
    → IsConsistent st
    → bucket_re bucket ≡ true
    → has_byte slash b ≡ false
    → b ≢ bucket
    → let new = (delete_bucket bucket st).0 in
      ((path : Bytes)
        → (lookup (object_key bucket path) new.objects ≡ none)
          × (lookup (object_key bucket path) new.files ≡ none))
      × (bucket_exists new bucket ≡ false)
      × (lookup (object_key b path') new.objects ≡ lookup (object_key b path') st.objects)
      × (lookup (object_key b path') new.files ≡ lookup (object_key b path') st.files)
      × (new.rules ≡ st.rules)
unfolding delete_bucket bucket_exists
delete_bucket_lem bucket b path' st c ok clean other =
    let k = object_key b path' in
    let out = object_key-is_outside bucket b path' ok clean other in
    rw ok (
      λ path.
          let key = object_key bucket path in
          let inside = prefix_of-object_key bucket path in
          (
            lookup-retain (λ k _. is_outside bucket k) key st.objects c.rows
                ∙ filter_value-false (λ k _. is_outside bucket k) key (lookup key st.objects)
                    (λ v. ground arith),
            lookup-retain (λ k _. is_outside bucket k) key st.files c.disk
                ∙ filter_value-false (λ k _. is_outside bucket k) key (lookup key st.files)
                    (λ v. ground arith),
          ),
      ground (arith, lookup-remove bucket bucket st.buckets, eqb_refl bucket),
      lookup-retain (λ k _. is_outside bucket k) k st.objects c.rows
          ∙ filter_value-true (λ k _. is_outside bucket k) k (lookup k st.objects) (λ v. out),
      lookup-retain (λ k _. is_outside bucket k) k st.files c.disk
          ∙ filter_value-true (λ k _. is_outside bucket k) k (lookup k st.files) (λ v. out),
      refl,
    )

length-remove :
    {V : Type 0} (k : Bytes) (m : Map V)
    → Unique m
    → (lookup k m ≡ none → length (remove k m) ≡ length m)
      × ((v : V) → lookup k m ≡ some v → suc (length (remove k m)) ≡ length m)
unfolding lookup remove
length-remove k [] u = (λ _. refl, λ v e. absurd cc)
length-remove k ((j, w) ∷ m) u =
    let ih = length-remove k m u.1 in
    elim (Bool-cases (eqb j k)) [
      | inl e ↦
          let same : j ≡ k = (eqb_iff j k).0 e in
          let gone : lookup k m ≡ none = rw (← same) u.0 in
          (rw e (λ h. absurd cc), rw e (λ v h. ap suc (ih.0 gone)))
      | inr e ↦ (rw e (λ h. ap suc (ih.0 h)), rw e (λ v h. ap suc (ih.1 v h)))
    ]

delete_all-count :
    (bucket : Bytes) (ps : List Bytes) (n : ℕ) (st : Project)
    → Unique st.objects
    → (delete_all bucket ps n st).1 + length (delete_all bucket ps n st).0.objects
      ≡ n + length st.objects
unfolding delete_all
delete_all-count bucket [] n st u = refl
delete_all-count bucket (p ∷ ps) n st u =
    let key = object_key bucket (safe_rel p) in
    let counted = length-remove key st.objects u in
    elim (Bool-cases (eqb (safe_rel p) [])) [
      | inl e ↦ rw e (delete_all-count bucket ps n st u)
      | inr e ↦
          let ih =
            delete_all-count bucket ps (n + present (lookup key st.objects))
              (drop_row key (drop_file key st)) (remove-Unique key st.objects u) in
          rw e (elim (Option-cases (lookup key st.objects)) [
            | inl gone ↦
                let z : present (lookup key st.objects) ≡ 0 = rw gone refl in
                omega (arith, ih, z, counted.0 gone)
            | inr (o, there) ↦
                let z : present (lookup key st.objects) ≡ 1 = rw there refl in
                omega (arith, ih, z, counted.1 o there)
          ])
    ]

-- The count that a bulk deletion reports is by how many the project's rows are fewer.
pub bulk_delete_objects-count :
    (bucket : Bytes) (paths : List Bytes) (st : Project) (n : ℕ)
    → Unique st.objects
    → (bulk_delete_objects bucket (some paths) st).1 ≡ some n
    → n + length (bulk_delete_objects bucket (some paths) st).0.objects ≡ length st.objects
unfolding bulk_delete_objects
bulk_delete_objects-count bucket paths st n u h =
    ground (arith, delete_all-count bucket paths 0 st u)
