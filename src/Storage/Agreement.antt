-- ===== src/Storage/Agreement.antt =====
-- Every row has its file, of the size that the row says.
use mathlib.Core.Path.{subst, sym}
use forgebase.Common.{
  ℕ, ◌+◌, ◌||◌, ◌≡◌, ◌≢◌, refl, ◌⊎◌, Option, none, some, List, [], ◌∷◌, inl, inr, arith,
}
use forgebase.Common.Tests.{ltb, ◌==◌, Bool-cases, Option-cases}
use forgebase.Common.Lists.{length}
use forgebase.Common.Text.{Bytes, eqb, eqb_iff}
use forgebase.Common.Map.{
  lookup, retain, Unique, lookup-put, lookup-remove, lookup-retain, put-Unique, remove-Unique,
  retain-Unique,
}
use forgebase.Storage.Path.{safe_rel, bucket_re}
use forgebase.Storage.Bucket.{Object, Project, object_key, bucket_exists, bucket_limits}
use forgebase.Storage.Objects.{Request, put_file, drop_file, save_object, limited, mime_of}
use forgebase.Storage.Panel.{
  put_row, drop_row, delete_at, delete_object, delete_all, bulk_delete_objects, is_outside,
  delete_bucket, present,
}

abbrev pub IsBacked : Project → Type 0
IsBacked st =
    (k : Bytes) (o : Object)
    → lookup k st.objects ≡ some o
    → (body : Bytes) × (lookup k st.files ≡ some body) × (length body ≡ o.size)

-- One row and one file to a key, and every row backed.
pub record IsConsistent (st : Project) : Type 0 where
  pub rows : Unique st.objects
  pub disk : Unique st.files
  pub backed : IsBacked st

module _ (key : Bytes) (st : Project) (c : IsConsistent st) where
  pub put_both-IsConsistent :
      (o : Object) (content : Bytes)
      → length content ≡ o.size
      → IsConsistent (put_row key o (put_file key content st))
  put_both-IsConsistent o content size = record {
    rows = put-Unique key o st.objects c.rows;
    disk = put-Unique key content st.files c.disk;
    backed = λ k p e. elim (Bool-cases (eqb key k)) [
      | inl same ↦ (
        content,
        ground (arith, lookup-put key k content st.files),
        ground (arith, lookup-put key k o st.objects),
      )
      | inr other ↦
          let (body, f, n) = c.backed k p (ground (arith, lookup-put key k o st.objects)) in
          (body, ground (arith, lookup-put key k content st.files), n)
    ];
  }

  pub drop_both-IsConsistent : IsConsistent (drop_row key (drop_file key st))
  drop_both-IsConsistent = record {
    rows = remove-Unique key st.objects c.rows;
    disk = remove-Unique key st.files c.disk;
    backed = λ k p e. elim (Bool-cases (eqb key k)) [
      | inl same ↦ absurd (ground (arith, lookup-remove key k st.objects))
      | inr other ↦
          let (body, f, n) = c.backed k p (ground (arith, lookup-remove key k st.objects)) in
          (body, ground (arith, lookup-remove key k st.files), n)
    ];
  }

  drop_row-IsConsistent : IsConsistent (drop_row key st)
  drop_row-IsConsistent = record {
    rows = remove-Unique key st.objects c.rows;
    disk = c.disk;
    backed = λ k p e. elim (Bool-cases (eqb key k)) [
      | inl same ↦ absurd (ground (arith, lookup-remove key k st.objects))
      | inr other ↦ c.backed k p (ground (arith, lookup-remove key k st.objects))
    ];
  }

  -- The files of keys that have no row are free.
  pub put_file-IsConsistent :
      (content : Bytes) → lookup key st.objects ≡ none → IsConsistent (put_file key content st)
  put_file-IsConsistent content free = record {
    rows = c.rows;
    disk = put-Unique key content st.files c.disk;
    backed = λ k p e. elim (Bool-cases (eqb key k)) [
      | inl same ↦ absurd (ground (arith, eqb_iff key k))
      | inr other ↦
          let (body, f, n) = c.backed k p e in
          (body, ground (arith, lookup-put key k content st.files), n)
    ];
  }

  pub drop_file-IsConsistent : lookup key st.objects ≡ none → IsConsistent (drop_file key st)
  drop_file-IsConsistent free = record {
    rows = c.rows;
    disk = remove-Unique key st.files c.disk;
    backed = λ k p e. elim (Bool-cases (eqb key k)) [
      | inl same ↦ absurd (ground (arith, eqb_iff key k))
      | inr other ↦
          let (body, f, n) = c.backed k p e in
          (body, ground (arith, lookup-remove key k st.files), n)
    ];
  }

-- What an upload makes of the state.
save_object-cases :
    (r : Request) (bucket rel : Bytes) (st : Project)
    → let content = limited (bucket_limits st bucket).0 r.body in
      let key = object_key bucket rel in
      ((save_object r bucket rel st).0 ≡ st)
      ⊎ (((save_object r bucket rel st).1 ≢ 200)
          × ((save_object r bucket rel st).0 ≡ drop_file key st))
      ⊎ ((save_object r bucket rel st).0
          ≡ put_row key
              (record { size = length content; mime = mime_of r })
              (put_file key content st))
unfolding save_object
save_object-cases r bucket rel st = ground arith

pub save_object-IsConsistent :
    (r : Request) (bucket rel : Bytes) (st : Project)
    → IsConsistent st
    → ((save_object r bucket rel st).1 ≡ 200) ⊎ (lookup (object_key bucket rel) st.objects ≡ none)
    → IsConsistent (save_object r bucket rel st).0
save_object-IsConsistent r bucket rel st c h = elim (save_object-cases r bucket rel st) [
  | inl e ↦ subst IsConsistent (sym e) c
  | inr (inl (bad, e)) ↦ elim h [
    | inl good ↦ absurd (bad good)
    | inr free ↦
        subst IsConsistent (sym e) (drop_file-IsConsistent (object_key bucket rel) st c free)
  ]
  | inr (inr e) ↦
      subst IsConsistent (sym e) (put_both-IsConsistent (object_key bucket rel) st c _ _ refl)
]

delete_at-IsConsistent :
    (bucket rel : Bytes) (st : Project) → IsConsistent st → IsConsistent (delete_at bucket rel st)
unfolding delete_at
delete_at-IsConsistent bucket rel st c = elim (Bool-cases (eqb rel [])) [
  | inl e ↦ rw e (drop_row-IsConsistent (object_key bucket rel) st c)
  | inr e ↦ rw e (drop_both-IsConsistent (object_key bucket rel) st c)
]

pub delete_object-IsConsistent :
    (bucket path : Bytes) (st : Project)
    → IsConsistent st
    → IsConsistent (delete_object bucket path st).0
unfolding delete_object
delete_object-IsConsistent bucket path st c = elim (Bool-cases (bucket_exists st bucket)) [
  | inl e ↦ rw e (delete_at-IsConsistent bucket (safe_rel path) st c)
  | inr e ↦ rw e c
]

delete_all-IsConsistent :
    (bucket : Bytes) (ps : List Bytes) (n : ℕ) (st : Project)
    → IsConsistent st
    → IsConsistent (delete_all bucket ps n st).0
unfolding delete_all
delete_all-IsConsistent bucket [] n st c = c
delete_all-IsConsistent bucket (p ∷ ps) n st c =
    let key = object_key bucket (safe_rel p) in
    elim (Bool-cases (eqb (safe_rel p) [])) [
      | inl e ↦ rw e (delete_all-IsConsistent bucket ps n st c)
      | inr e ↦ rw e (
          delete_all-IsConsistent bucket ps (n + present (lookup key st.objects))
            (drop_row key (drop_file key st)) (drop_both-IsConsistent key st c))
    ]

pub bulk_delete_objects-IsConsistent :
    (bucket : Bytes) (paths : Option (List Bytes)) (st : Project)
    → IsConsistent st
    → IsConsistent (bulk_delete_objects bucket paths st).0
unfolding bulk_delete_objects
bulk_delete_objects-IsConsistent bucket none st c = c
bulk_delete_objects-IsConsistent bucket (some paths) st c =
    elim (Bool-cases (bucket_exists st bucket)) [
      | inl e ↦ elim (Bool-cases (length paths == 0 || ltb 500 (length paths))) [
        | inl f ↦ rw e (rw f c)
        | inr f ↦ rw e (rw f (delete_all-IsConsistent bucket paths 0 st c))
      ]
      | inr e ↦ rw e c
    ]

pub delete_bucket-IsConsistent :
    (bucket : Bytes) (st : Project) → IsConsistent st → IsConsistent (delete_bucket bucket st).0
unfolding delete_bucket
delete_bucket-IsConsistent bucket st c = elim (Bool-cases (bucket_re bucket)) [
  | inl e ↦ rw e (record {
    rows = retain-Unique (λ k _. is_outside bucket k) st.objects c.rows;
    disk = retain-Unique (λ k _. is_outside bucket k) st.files c.disk;
    backed = λ k p q. retained k p q;
  })
  | inr e ↦ rw e c
]
  where
    retained :
        (k : Bytes) (p : Object)
        → lookup k (retain (λ k _. is_outside bucket k) st.objects) ≡ some p
        → (body : Bytes) × (lookup k (retain (λ k _. is_outside bucket k) st.files) ≡ some body)
          × (length body ≡ p.size)
    retained k p q = elim (Option-cases (lookup k st.objects)) [
      | inl gone ↦
          absurd
            (ground (arith, gone, lookup-retain (λ k _. is_outside bucket k) k st.objects c.rows))
      | inr (o, there) ↦
          let (body, f, n) = c.backed k o there in
          (
            body,
            ground (
              arith,
              lookup-retain (λ k _. is_outside bucket k) k st.files c.disk,
              lookup-retain (λ k _. is_outside bucket k) k st.objects c.rows,
            ),
            ground (arith, lookup-retain (λ k _. is_outside bucket k) k st.objects c.rows),
          )
    ]
