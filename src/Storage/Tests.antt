-- ===== src/Storage/Tests.antt =====
-- The storage's theorems on concrete requests.
use forgebase.Common.{
  ℕ, zero, suc, ◌≡◌, ◌≢◌, refl, true, false, ◌⊎◌, some, List, [], ◌∷◌, ◌++◌, arith,
}
use forgebase.Common.Lists.{length}
use forgebase.Common.Text.{
  Bytes, codes, eqb, has_prefix, has_byte, until, behind, trim_prefix, strip, trim_space, trim_left,
}
use forgebase.Common.Split.{split, join}
use forgebase.Common.Map.{lookup}
use forgebase.Common.Decimal.{format}
use mathlib.Core.List.{reverse}
use forgebase.Storage.Path.{
  slash, safe_rel, trim_slashes, is_proper, split_object_path, bucket_re, mime_allowed,
  owner_segment,
}
use forgebase.Storage.PathSafety.{walk, walk-safe_rel}
use forgebase.Storage.Bucket.{
  owner, private, Rule, Project, quota_exceeded, bucket_exists, bucket_limits, storage_rule_for,
  order_rules, insert_rule, first_match, storage_quota_bytes, storage_usage_bytes, mime_list,
}
use forgebase.Storage.Objects.{
  Verifier, Request, file, storage_auth, storage_claims, sub_of, service_role, request_key, mime_of,
  save_object, storage_upload_api, write_forbidden, class_forbids,
}
use forgebase.Storage.Uploads.{Saved, Admitted}
use forgebase.Storage.Guarantees.{storage_upload_api-Saved, storage_upload_api_guarded}
use forgebase.Storage.Signed.{read_message, sign_read, read_signed}
use forgebase.Storage.Tokens.{read_signed-sign_read}
use forgebase.Storage.Binding.{Collides, sign_read_bound}

abbrev mac : Bytes → Bytes
mac s = s

-- A token is its own subject, with the role `authenticated`.
abbrev verify : Verifier
verify secret token = some (record { role = codes "authenticated"; sub = token })

abbrev folder : Rule
folder = record { id = 1; bucket = codes "docs"; prefix = codes "u/"; access = owner }

abbrev vault : Rule
vault = record { id = 2; bucket = codes "docs"; prefix = []; access = private }

abbrev project : Project
project = record {
  slug = codes "shop";
  secret = codes "key";
  quota_mb = 1;
  buckets = (codes "docs", record { public = false; max_size_mb = 0; allowed_mime = [] }) ∷ [];
  rules = vault ∷ folder ∷ [];
  objects = [];
  files = (codes "docs/u/ann/a", codes "kept") ∷ [];
}

abbrev request : Bytes → Request
request body = record {
  apikey = codes "ann";
  authorization = [];
  content_type = codes "text/plain";
  body = body;
  creates = true;
  copies = true;
  pushes = true;
}

abbrev target : Bytes
target = codes "docs/u/ann/a"

walk-safe_rel_example :
    (ss : List Bytes) × (walk (codes "root" ∷ []) (split slash (safe_rel (codes "a/../../b")))
      ≡ ss ++ codes "root" ∷ [])
    × ((ss ≡ []) ⊎ (join slash (reverse ss) ≡ safe_rel (codes "a/../../b")))
walk-safe_rel_example = walk-safe_rel (codes "a/../../b") (codes "root" ∷ [])

in_docs : eqb folder.bucket (codes "docs") ≡ true
unfolding eqb
in_docs = refl

in_folder : has_prefix (codes "u/ann/a") folder.prefix ≡ true
unfolding has_prefix
in_folder = refl

-- One megabyte is the least limit.
abbrev small : Project
small = record project {
  buckets = (codes "docs", record { public = false; max_size_mb = 1; allowed_mime = [] }) ∷ [];
}

unfoldable ones : ℕ → Bytes
ones zero = []
ones (suc n) = 1 ∷ ones n

length-ones : (n : ℕ) → length (ones n) ≡ n
unfolding ones
length-ones zero = refl
length-ones (suc n) = omega (arith, length-ones n)

small_limits : bucket_limits small (codes "docs") ≡ (1048576, [])
unfolding bucket_limits lookup eqb mime_list split trim_space trim_left
small_limits = refl

any_type :
    mime_allowed (mime_of (request (ones 1048577))) (bucket_limits small (codes "docs")).1 ≡ true
unfolding mime_allowed
any_type = rw small_limits refl

below_quota : quota_exceeded small ≡ false
unfolding quota_exceeded storage_quota_bytes storage_usage_bytes
below_quota = refl

saved : (storage_upload_api verify (request (codes "new")) target project).1 ≡ 200
unfolding storage_upload_api storage_auth storage_claims request_key eqb split_object_path safe_rel
    trim_slashes is_proper split join has_byte until behind bucket_exists bucket_re lookup
    write_forbidden class_forbids storage_rule_for order_rules insert_rule first_match has_prefix
    owner_segment trim_prefix strip save_object bucket_limits mime_list trim_space trim_left mime_of
    mime_allowed quota_exceeded storage_quota_bytes storage_usage_bytes
saved = refl

target_path : split_object_path target ≡ some (codes "docs", codes "u/ann/a")
unfolding split_object_path safe_rel trim_slashes is_proper split join has_byte until behind eqb
target_path = refl

target_rule : storage_rule_for project (codes "docs") (codes "u/ann/a") ≡ some folder
unfolding storage_rule_for order_rules insert_rule first_match has_prefix eqb
target_rule = refl

storage_upload_api-Saved_example :
    (bucket : Bytes) × (rel : Bytes) × Admitted verify
      (request (codes "new"))
      target
      project
      bucket
      rel
    × Saved
        (request (codes "new"))
        bucket
        rel
        project
        (storage_upload_api verify (request (codes "new")) target project).0
storage_upload_api-Saved_example =
    storage_upload_api-Saved verify (request (codes "new")) target project saved

-- The push to remote storage fails.
abbrev unreachable : Request
unreachable = record (request (codes "new")) { pushes = false }

unsaved : (storage_upload_api verify unreachable target project).1 ≡ 502
unfolding storage_upload_api storage_auth storage_claims request_key eqb split_object_path safe_rel
    trim_slashes is_proper split join has_byte until behind bucket_exists bucket_re lookup
    write_forbidden class_forbids storage_rule_for order_rules insert_rule first_match has_prefix
    owner_segment trim_prefix strip save_object bucket_limits mime_list trim_space trim_left mime_of
    mime_allowed quota_exceeded storage_quota_bytes storage_usage_bytes
unsaved = refl

not_saved : (storage_upload_api verify unreachable target project).1 ≢ 200
not_saved e = omega (arith, unsaved, e)

storage_upload_api_guarded_example :
    (role : Bytes) × (storage_auth verify project (request (codes "new")) ≡ some role)
    × (folder.access ≡ private → role ≡ service_role)
    × (folder.access ≡ owner
        → (role ≡ service_role)
          ⊎ ((owner_segment (codes "u/ann/a") folder.prefix
                ≡ sub_of (storage_claims verify project (request (codes "new"))))
              × (sub_of (storage_claims verify project (request (codes "new"))) ≢ [])))
storage_upload_api_guarded_example =
    storage_upload_api_guarded verify (request (codes "new")) target project (codes "docs")
      (codes "u/ann/a") folder saved target_path target_rule

docs_exist : bucket_exists project (codes "docs") ≡ true
unfolding bucket_exists bucket_re lookup eqb
docs_exist = refl

read_signed-sign_read_example :
    read_signed mac (sign_read mac project (codes "docs") (codes "u/ann/a") 90) target 80 project
    ≡ file (codes "docs") (codes "u/ann/a")
read_signed-sign_read_example =
    read_signed-sign_read mac project target (codes "docs") (codes "u/ann/a") 90 80 target_path
      (omega arith)

no_slash : has_byte slash (codes "docs") ≡ false
unfolding has_byte
no_slash = refl

shop_no_slash : has_byte slash project.slug ≡ false
unfolding has_byte
shop_no_slash = refl

opened :
    read_signed mac (sign_read mac project (codes "docs") (codes "u/ann/a") 90) target 80 project
    ≡ file (codes "docs") (codes "u/ann/a")
opened =
    read_signed-sign_read mac project target (codes "docs") (codes "u/ann/a") 90 80 target_path
      (omega arith)

sign_read_bound_example :
    ((codes "docs" ≡ codes "docs") × (codes "u/ann/a" ≡ codes "u/ann/a"))
    ⊎ Collides mac
        (read_message project.slug (codes "docs") (codes "u/ann/a") (format 90))
        (read_message project.slug (codes "docs") (codes "u/ann/a") (format 90))
sign_read_bound_example =
    sign_read_bound mac project (codes "docs") (codes "u/ann/a") target (codes "docs")
      (codes "u/ann/a") 90 80 no_slash opened
