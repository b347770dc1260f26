-- ===== src/Storage/Uploads.antt =====
-- What an upload leaves behind, whether it succeeds or fails.
use forgebase.Common.{
  ℕ, zero, suc, ap, ◌+◌, ◌≤◌, ◌<◌, true, false, ◌&&◌, ◌≡◌, ◌≢◌, refl, none, some, [], ◌∷◌, ◌⊎◌, inl,
  inr, arith,
}
use forgebase.Common.Tests.{ltb, Bool-cases, Option-cases}
use forgebase.Common.Lists.{length, take, length-take}
use forgebase.Common.Text.{Bytes, eqb, eqb_iff, eqb_refl}
use forgebase.Common.Map.{lookup, lookup-put, lookup-remove}
use forgebase.Storage.Path.{split_object_path, mime_allowed}
use forgebase.Storage.Bucket.{
  Object, Project, object_key, quota_exceeded, bucket_exists, bucket_limits,
}
use forgebase.Storage.Objects.{
  Verifier, Request, storage_auth, write_forbidden, mime_of, limited, save_object, can_write,
  upload_to, upload_as, storage_upload_api,
}

-- What a saved object looks like in the new state.
pub record Saved (r : Request) (bucket rel : Bytes) (st new : Project) : Type 0 where
  pub stored : lookup (object_key bucket rel) new.files ≡ some r.body
  pub row :
      lookup (object_key bucket rel) new.objects
      ≡ some (record { size = length r.body; mime = mime_of r })
  pub within : ((bucket_limits st bucket).0 ≡ 0) ⊎ (length r.body ≤ (bucket_limits st bucket).0)
  pub allowed : mime_allowed (mime_of r) (bucket_limits st bucket).1 ≡ true
  pub below_quota : quota_exceeded st ≡ false

-- A body within the limit is read whole.
take_all : (n : ℕ) (xs : Bytes) → length (take n xs) < n → take n xs ≡ xs
take_all zero xs h = elim h [ ]
take_all (suc n) [] h = refl
take_all (suc n) (x ∷ xs) h = ap (◌∷◌ x) (take_all n xs (omega arith))

limited_all :
    (max : ℕ) (body : Bytes)
    → (ltb 0 max && ltb max (length (limited max body))) ≡ false
    → (limited max body ≡ body) × ((max ≡ 0) ⊎ (length body ≤ max))
limited_all max body h = elim (Bool-cases (ltb 0 max)) [
  | inl on ↦
      let e = take_all (max + 1) body (ground arith) in (rw on e, inr (ground (arith, ap length e)))
  | inr off ↦ (rw off refl, inl (ground arith))
]

module _ (r : Request) (bucket rel : Bytes) (st : Project) where
  pub save_object-Saved :
      (save_object r bucket rel st).1 ≡ 200 → Saved r bucket rel st (save_object r bucket rel st).0
  unfolding save_object
  save_object-Saved h =
      let max = (bucket_limits st bucket).0 in
      let whole = limited_all max r.body in
      record {
        stored = ground (
          arith,
          whole,
          lookup-put (object_key bucket rel) (object_key bucket rel) (limited max r.body) st.files,
          eqb_refl (object_key bucket rel),
        );
        row = ground (
          arith,
          whole,
          lookup-put (object_key bucket rel) (object_key bucket rel)
              (record { size = length (limited max r.body); mime = mime_of r }) st.objects,
          eqb_refl (object_key bucket rel),
        );
        within = ground (arith, whole);
        allowed = ground arith;
        below_quota = ground arith;
      }

  -- Only the object's own file and row change.
  pub save_object_frame :
      (k : Bytes)
      → object_key bucket rel ≢ k
      → (lookup k (save_object r bucket rel st).0.files ≡ lookup k st.files)
        × (lookup k (save_object r bucket rel st).0.objects ≡ lookup k st.objects)
  unfolding save_object
  save_object_frame k ne =
      let key = object_key bucket rel in
      let body = limited (bucket_limits st bucket).0 r.body in
      let row : Object = record { size = length body; mime = mime_of r } in
      let other : eqb key k ≡ false = ground (arith, eqb_iff key k) in
      (
        ground (arith, other, lookup-put key k body st.files, lookup-remove key k st.files),
        ground (arith, other, lookup-put key k row st.objects),
      )

  -- A failure leaves the rows, and takes the file away or leaves it.
  pub save_object_failed :
      (save_object r bucket rel st).1 ≢ 200
      → ((save_object r bucket rel st).0.objects ≡ st.objects)
        × (((save_object r bucket rel st).0.files ≡ st.files)
            ⊎ (lookup (object_key bucket rel) (save_object r bucket rel st).0.files ≡ none))
  unfolding save_object
  save_object_failed h =
      let key = object_key bucket rel in
      (ground arith, ground (arith, lookup-remove key key st.files, eqb_refl key))

  -- A body past the bucket's limit takes the file that stood there with it, while its row stays.
  pub save_object_oversize :
      mime_allowed (mime_of r) (bucket_limits st bucket).1 ≡ true
      → quota_exceeded st ≡ false
      → r.creates ≡ true
      → r.copies ≡ true
      → 0 < (bucket_limits st bucket).0
      → (bucket_limits st bucket).0 < length r.body
      → ((save_object r bucket rel st).1 ≡ 413)
        × (lookup (object_key bucket rel) (save_object r bucket rel st).0.files ≡ none)
        × ((save_object r bucket rel st).0.objects ≡ st.objects)
  unfolding save_object
  save_object_oversize m q c d on long =
      let key = object_key bucket rel in
      let max = (bucket_limits st bucket).0 in
      let read = length-take (max + 1) r.body in
      (
        ground (arith, read),
        ground (arith, read, lookup-remove key key st.files, eqb_refl key),
        ground (arith, read),
      )

-- An upload by `role` to a path of a bucket that has passed every guard.
pub record Admitted (verify : Verifier) (r : Request) (p : Bytes) (st : Project)
    (bucket rel : Bytes) : Type 0 where
  pub role : Bytes
  pub path : split_object_path p ≡ some (bucket, rel)
  pub caller : storage_auth verify st r ≡ some role
  pub writer : can_write role ≡ true
  pub exists : bucket_exists st bucket ≡ true
  pub permitted : write_forbidden verify st r bucket rel role ≡ false

module _ (verify : Verifier) (r : Request) (p : Bytes) (st : Project) where
  -- An upload leaves the state as it is, or is admitted and saves the object.
  pub storage_upload_api_cases :
      ((storage_upload_api verify r p st).1 ≢ 200) × ((storage_upload_api verify r p st).0 ≡ st)
      ⊎ ((bucket : Bytes) × (rel : Bytes) × Admitted verify r p st bucket rel
          × (storage_upload_api verify r p st ≡ save_object r bucket rel st))
  unfolding storage_upload_api
  storage_upload_api_cases = elim (Option-cases (storage_auth verify st r)) [
    | inl e ↦ inl (rw e (ground arith))
    | inr (role, e) ↦ rw e (with_role role e)
  ]
    where
      with_path :
          (role : Bytes)
          → storage_auth verify st r ≡ some role
          → can_write role ≡ true
          → (bucket rel : Bytes) → split_object_path p ≡ some (bucket, rel)
          → ((upload_to verify r st role (some (bucket, rel))).1 ≢ 200)
              × ((upload_to verify r st role (some (bucket, rel))).0 ≡ st)
            ⊎ ((b : Bytes) × (l : Bytes) × Admitted verify r p st b l
                × (upload_to verify r st role (some (bucket, rel)) ≡ save_object r b l st))
      with_path role e w bucket rel q = elim (Bool-cases (bucket_exists st bucket)) [
        | inl here ↦ elim (Bool-cases (write_forbidden verify st r bucket rel role)) [
          | inl no_write ↦ inl (rw (here, no_write) (ground arith))
          | inr may ↦ inr (
            bucket,
            rel,
            record {
              role = role;
              path = q;
              caller = e;
              writer = w;
              exists = here;
              permitted = may;
            },
            rw (here, may),
          )
        ]
        | inr missing ↦ inl (rw missing (ground arith))
      ]

      with_role :
          (role : Bytes)
          → storage_auth verify st r ≡ some role
          → ((upload_as verify r st p (some role)).1 ≢ 200)
              × ((upload_as verify r st p (some role)).0 ≡ st)
            ⊎ ((b : Bytes) × (l : Bytes) × Admitted verify r p st b l
                × (upload_as verify r st p (some role) ≡ save_object r b l st))
      with_role role e = elim (Bool-cases (can_write role)) [
        | inl w ↦ elim (Option-cases (split_object_path p)) [
          | inl q ↦ inl (rw (w, q) (ground arith))
          | inr (bl, q) ↦ rw (w, q) (with_path role e w bl.0 bl.1 q)
        ]
        | inr w ↦ inl (rw w (ground arith))
      ]
