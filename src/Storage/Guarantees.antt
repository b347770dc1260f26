-- ===== src/Storage/Guarantees.antt =====
-- What the object API promises to its callers, from the guards down to the stored file.
use forgebase.Common.{false, ◌≡◌, ◌≢◌, refl, ap, none, some, List, [], ◌⊎◌, inl, inr, arith}
use forgebase.Common.Tests.{Bool-cases}
use forgebase.Common.Text.{Bytes, eqb, eqb_iff}
use forgebase.Common.Map.{lookup}
use forgebase.Storage.Path.{split_object_path, owner_segment}
use forgebase.Storage.Bucket.{
  Access, owner, private, Rule, Project, object_key, bucket_exists, storage_rule_for,
}
use forgebase.Storage.Objects.{
  Verifier, Request, storage_auth, storage_claims, sub_of, service_role, class_forbids,
  write_forbidden, save_object, storage_upload_api, storage_download_api, storage_delete_api,
}
use forgebase.Storage.Uploads.{
  Saved, Admitted, save_object-Saved, save_object_frame, save_object_failed,
  storage_upload_api_cases,
}

-- An upload through `storageUploadAPI` that answers 200 was sent with an `authenticated` or
-- `service_role` key to a bucket of the project and passed the access rules; the file now holds
-- exactly the body, the row its size and type, the type is one that the bucket allows, the size is
-- within the bucket's limit if there is one, and the quota was not used up before.
pub storage_upload_api-Saved :
    (verify : Verifier) (r : Request) (p : Bytes) (st : Project)
    → (storage_upload_api verify r p st).1 ≡ 200
    → (bucket : Bytes) × (rel : Bytes) × Admitted verify r p st bucket rel
      × Saved r bucket rel st (storage_upload_api verify r p st).0
storage_upload_api-Saved verify r p st h = elim (storage_upload_api_cases verify r p st) [
  | inl (bad, _) ↦ absurd (bad h)
  | inr (bucket, rel, a, e) ↦ (bucket, rel, a, rw e (save_object-Saved r bucket rel st (rw e at h)))
]

-- An upload that answers anything but 200 leaves every row of the project's objects as it was, and
-- of the files at most the one that the request names is gone.
pub storage_upload_api_failed :
    (verify : Verifier) (r : Request) (p : Bytes) (st : Project)
    → (storage_upload_api verify r p st).1 ≢ 200
    → ((storage_upload_api verify r p st).0.objects ≡ st.objects)
      × ((k : Bytes)
          → (lookup k (storage_upload_api verify r p st).0.files ≡ lookup k st.files)
            ⊎ ((lookup k (storage_upload_api verify r p st).0.files ≡ none)
                × ((bucket : Bytes) × (rel : Bytes) × (split_object_path p ≡ some (bucket, rel))
                    × (k ≡ object_key bucket rel))))
storage_upload_api_failed verify r p st h = elim (storage_upload_api_cases verify r p st) [
  | inl (_, same) ↦ rw same (refl, λ k. inl refl)
  | inr (bucket, rel, a, e) ↦ rw e (failed bucket rel a (rw e at h))
]
  where
    failed :
        (bucket rel : Bytes)
        → Admitted verify r p st bucket rel
        → (save_object r bucket rel st).1 ≢ 200
        → ((save_object r bucket rel st).0.objects ≡ st.objects)
          × ((k : Bytes)
              → (lookup k (save_object r bucket rel st).0.files ≡ lookup k st.files)
                ⊎ ((lookup k (save_object r bucket rel st).0.files ≡ none)
                    × ((b : Bytes) × (l : Bytes) × (split_object_path p ≡ some (b, l))
                        × (k ≡ object_key b l))))
    failed bucket rel a bad =
        let (rows, files) = save_object_failed r bucket rel st bad in
        (
          rows,
          λ k. elim (Bool-cases (eqb (object_key bucket rel) k)) [
            | inl e ↦
                let same = (eqb_iff (object_key bucket rel) k).0 e in
                elim files [
                  | inl kept ↦ inl (ap (lookup k) kept)
                  | inr gone ↦ inr (rw (← same) gone, (bucket, rel, a.path, rw same refl))
                ]
            | inr e ↦ inl (
                (save_object_frame r bucket rel st k
                  (λ q. ground (arith, eqb_iff (object_key bucket rel) k))).0)
          ],
        )

class_forbids_lem :
    (c : Access) (role sub path prefix : Bytes)
    → class_forbids c role sub path prefix ≡ false
    → (c ≡ private → role ≡ service_role)
      × (c ≡ owner → (role ≡ service_role) ⊎ ((owner_segment path prefix ≡ sub) × (sub ≢ [])))
unfolding class_forbids
class_forbids_lem c role sub path prefix h = (
  λ e. ground (arith, eqb_iff role service_role),
  λ e.
      ground
        (arith, eqb_iff role service_role, eqb_iff sub [], eqb_iff (owner_segment path prefix) sub),
)

not_forbidden :
    (verify : Verifier) (r : Request) (st : Project) (bucket rel role : Bytes) (rule : Rule)
    → storage_rule_for st bucket rel ≡ some rule
    → write_forbidden verify st r bucket rel role ≡ false
    → class_forbids rule.access role (sub_of (storage_claims verify st r)) rel rule.prefix ≡ false
unfolding write_forbidden
not_forbidden verify r st bucket rel role rule u h = rw u at h

-- The access rules bind `storageUploadAPI`: an upload through it that answers 200 to a path whose rule
-- is `private` came with the service key, and to one whose rule is `owner` with the service key or
-- from the user whose id is the path's segment behind the rule's prefix. A PUT to a signed URL is
-- another endpoint, of which nothing is said here.
pub storage_upload_api_guarded :
    (verify : Verifier) (r : Request) (p : Bytes) (st : Project) (bucket rel : Bytes) (rule : Rule)
    → (storage_upload_api verify r p st).1 ≡ 200
    → split_object_path p ≡ some (bucket, rel)
    → storage_rule_for st bucket rel ≡ some rule
    → (role : Bytes) × (storage_auth verify st r ≡ some role)
      × (rule.access ≡ private → role ≡ service_role)
      × (rule.access ≡ owner
          → (role ≡ service_role)
            ⊎ ((owner_segment rel rule.prefix ≡ sub_of (storage_claims verify st r))
                × (sub_of (storage_claims verify st r) ≢ [])))
storage_upload_api_guarded verify r p st bucket rel rule h q u =
    let (b, l, a, _) = storage_upload_api-Saved verify r p st h in
    guarded b l a (ground (arith, a.path)) (ground (arith, a.path))
  where
    guarded :
        (b l : Bytes)
        → (a : Admitted verify r p st b l) → b ≡ bucket
        → l ≡ rel
        → (role : Bytes) × (storage_auth verify st r ≡ some role)
          × (rule.access ≡ private → role ≡ service_role)
          × (rule.access ≡ owner
              → (role ≡ service_role)
                ⊎ ((owner_segment rel rule.prefix ≡ sub_of (storage_claims verify st r))
                    × (sub_of (storage_claims verify st r) ≢ [])))
    guarded b l a eb el =
        let (is_private, is_owner) =
          class_forbids_lem rule.access a.role (sub_of (storage_claims verify st r)) rel rule.prefix
            (not_forbidden verify r st bucket rel a.role rule u (rw (eb, el) at a.permitted)) in
        (a.role, a.caller, is_private, is_owner)

-- Downloads and deletes read no rule: whatever the project's rules are, any key that verifies
-- downloads the same, and a delete answers the same.
pub storage_rules_ignored :
    (verify : Verifier) (r : Request) (p : Bytes) (st : Project) (rules : List Rule)
    → (storage_download_api verify r p (record st { rules = rules })
        ≡ storage_download_api verify r p st)
      × ((storage_delete_api verify r p (record st { rules = rules })).1
          ≡ (storage_delete_api verify r p st).1)
unfolding storage_download_api storage_delete_api storage_auth storage_claims bucket_exists
storage_rules_ignored verify r p st rules = (ground arith, ground arith)
