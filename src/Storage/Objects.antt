-- ===== src/Storage/Objects.antt =====
-- The client-facing object API of pgforge/storage.go: `storageAuth`, `storageUploadAPI`,
-- `storageDownloadAPI`, `storageDeleteAPI`, `serveStorageRead`, and `storageRuleAllows` of
-- pgforge/storagerules.go. A handler takes the request and returns the new state and its answer.
use forgebase.Common.{ℕ, ◌+◌, Bool, true, false, not, ◌&&◌, ◌||◌, Option, none, some, []}
use forgebase.Common.Tests.{ltb, if◌then◌else◌}
use forgebase.Common.Lists.{length, take}
use forgebase.Common.Text.{Bytes, codes, eqb, trim_prefix}
use forgebase.Common.Map.{lookup, put, remove}
use forgebase.Storage.Path.{split_object_path, owner_segment, mime_allowed}
use forgebase.Storage.Bucket.{
  Access, public, authenticated, owner, private, Rule, Bucket, Project, object_key, quota_exceeded,
  bucket_exists, bucket_limits, storage_rule_for,
}

-- The two claims that the storage reads; "" where a claim is missing or no string.
pub record Claims : Type 0 where
  pub role : Bytes
  pub sub : Bytes

-- The checker of tokens, `verifyUserJWT(secret, token)`.
abbrev pub Verifier : Type 0
Verifier = Bytes → Bytes → Option Claims

-- A request, with what its environment answers: whether the file can be created, whether the body
-- is read and the file closed with no error, and whether the push to remote storage succeeds.
pub record Request : Type 0 where
  pub apikey : Bytes
  pub authorization : Bytes
  pub content_type : Bytes
  pub body : Bytes
  pub creates : Bool
  pub copies : Bool
  pub pushes : Bool

abbrev pub service_role : Bytes
service_role = codes "service_role"

abbrev pub authenticated_role : Bytes
authenticated_role = codes "authenticated"

unfoldable pub request_key : Request → Bytes
request_key r = if eqb r.apikey [] then trim_prefix r.authorization (codes "Bearer ") else r.apikey

-- `storageClaims`.
unfoldable pub storage_claims : Verifier → Project → Request → Option Claims
storage_claims verify st r = if eqb st.secret [] then none else verify st.secret (request_key r)

abbrev pub role_of : Option Claims → Option Bytes
role_of none = none
role_of (some c) = some c.role

-- The caller's role; `none` where `ok` is false.
unfoldable pub storage_auth : Verifier → Project → Request → Option Bytes
storage_auth verify st r = role_of (storage_claims verify st r)

abbrev pub sub_of : Option Claims → Bytes
sub_of none = []
sub_of (some c) = c.sub

-- Allowed, under an access class other than `public`, for a caller with these claims.
unfoldable pub class_allows : Access → Bytes → Bytes → Claims → Bool
class_allows public path prefix c = true
class_allows authenticated path prefix c = eqb c.role authenticated_role
class_allows owner path prefix c =
    eqb c.role authenticated_role && not (eqb c.sub []) && eqb (owner_segment path prefix) c.sub
class_allows private path prefix c = false

abbrev claims_allow : Access → Bytes → Bytes → Option Claims → Bool
claims_allow public path prefix claims = true
claims_allow a path prefix none = false
claims_allow a path prefix (some c) =
    if eqb c.role service_role then true else class_allows a path prefix c

-- `some allowed`, or `none` where no rule applies.
abbrev rule_allows : Option Rule → Bytes → Option Claims → Option Bool
rule_allows none path claims = none
rule_allows (some r) path claims = some (claims_allow r.access path r.prefix claims)

unfoldable pub storage_rule_allows : Verifier → Project → Request → Bytes → Bytes → Option Bool
storage_rule_allows verify st r bucket path =
    rule_allows (storage_rule_for st bucket path) path (storage_claims verify st r)

-- The guard on writes: whether a rule of this class forbids this caller to write the path.
unfoldable pub class_forbids : Access → Bytes → Bytes → Bytes → Bytes → Bool
class_forbids private role sub path prefix = not (eqb role service_role)
class_forbids owner role sub path prefix =
    not (eqb role service_role) && (eqb sub [] || not (eqb (owner_segment path prefix) sub))
class_forbids public role sub path prefix = false
class_forbids authenticated role sub path prefix = false

abbrev pub rule_forbids : Option Rule → Bytes → Bytes → Bytes → Bool
rule_forbids none role sub path = false
rule_forbids (some r) role sub path = class_forbids r.access role sub path r.prefix

unfoldable pub write_forbidden : Verifier → Project → Request → Bytes → Bytes → Bytes → Bool
write_forbidden verify st r bucket rel role =
    rule_forbids (storage_rule_for st bucket rel) role (sub_of (storage_claims verify st r)) rel

abbrev pub put_file : Bytes → Bytes → Project → Project
put_file key content st = record st { files = put key content st.files }

abbrev pub drop_file : Bytes → Project → Project
drop_file key st = record st { files = remove key st.files }

-- `Content-Type`, or the default.
unfoldable pub mime_of : Request → Bytes
mime_of r = if eqb r.content_type [] then codes "application/octet-stream" else r.content_type

-- What is read of the body: one byte past the limit at most.
abbrev pub limited : ℕ → Bytes → Bytes
limited max body = if ltb 0 max then take (max + 1) body else body

-- The part that `storageUploadAPI` and `storageSignedUploadPut` have in common, from the check of
-- the type on. `os.Create` empties the file that stood there, and each failure removes it.
unfoldable pub save_object : Request → Bytes → Bytes → Project → Project × ℕ
save_object r bucket rel st =
    let (max, allowed) = bucket_limits st bucket in
    let mime = mime_of r in
    let key = object_key bucket rel in
    let content = limited max r.body in
    let n = length content in
    if not (mime_allowed mime allowed)
    then (st, 415)
    else if quota_exceeded st
    then (st, 507)
    else if not r.creates
    then (st, 500)
    else if not r.copies
    then (drop_file key st, 500)
    else if ltb 0 max && ltb max n
    then (drop_file key st, 413)
    else if not r.pushes
    then (drop_file key st, 502)
    else (
      record (put_file key content st) {
        objects = put key (record { size = n; mime = mime }) st.objects;
      },
      200,
    )

abbrev pub can_write : Bytes → Bool
can_write role = eqb role authenticated_role || eqb role service_role

abbrev pub upload_to : Verifier → Request → Project → Bytes → Option (Bytes × Bytes) → Project × ℕ
upload_to verify r st role none = (st, 400)
upload_to verify r st role (some (bucket, rel)) =
    if not (bucket_exists st bucket)
    then (st, 400)
    else if write_forbidden verify st r bucket rel role
    then (st, 403)
    else save_object r bucket rel st

abbrev pub upload_as : Verifier → Request → Project → Bytes → Option Bytes → Project × ℕ
upload_as verify r st p none = (st, 401)
upload_as verify r st p (some role) =
    if can_write role then upload_to verify r st role (split_object_path p) else (st, 401)

-- The new state and the status.
unfoldable pub storage_upload_api : Verifier → Request → Bytes → Project → Project × ℕ
storage_upload_api verify r p st = upload_as verify r st p (storage_auth verify st r)

-- A status, or the file of this bucket and path (`serveStorageFile`).
pub data Reply : Type 0 where
  status : ℕ → Reply
  file : Bytes → Bytes → Reply

abbrev download_from : Project → Option (Bytes × Bytes) → Reply
download_from st none = status 404
download_from st (some (bucket, rel)) =
    if bucket_exists st bucket then file bucket rel else status 404

abbrev download_as : Project → Bytes → Option Bytes → Reply
download_as st p none = status 401
download_as st p (some role) = download_from st (split_object_path p)

unfoldable pub storage_download_api : Verifier → Request → Bytes → Project → Reply
storage_download_api verify r p st = download_as st p (storage_auth verify st r)

abbrev delete_from : Project → Option (Bytes × Bytes) → Project × ℕ
delete_from st none = (st, 400)
delete_from st (some (bucket, rel)) =
    let key = object_key bucket rel in
    if bucket_exists st bucket
    then (record (drop_file key st) { objects = remove key st.objects }, 200)
    else (st, 400)

abbrev delete_as : Project → Bytes → Option Bytes → Project × ℕ
delete_as st p none = (st, 401)
delete_as st p (some role) =
    if can_write role then delete_from st (split_object_path p) else (st, 401)

unfoldable pub storage_delete_api : Verifier → Request → Bytes → Project → Project × ℕ
storage_delete_api verify r p st = delete_as st p (storage_auth verify st r)

abbrev is_public : Option Bucket → Bool
is_public none = false
is_public (some b) = b.public

abbrev read_rule : Project → Bytes → Bytes → Option Bool → Reply
read_rule st bucket path (some true) = file bucket path
read_rule st bucket path (some false) = status 404
read_rule st bucket path none =
    if is_public (lookup bucket st.buckets) then file bucket path else status 404

-- `serveStorageRead` in its public mode, behind "public/".
abbrev read_public_at : Verifier → Request → Project → Option (Bytes × Bytes) → Reply
read_public_at verify r st none = status 404
read_public_at verify r st (some (bucket, path)) =
    read_rule st bucket path (storage_rule_allows verify st r bucket path)

unfoldable pub read_public : Verifier → Request → Bytes → Project → Reply
read_public verify r p st = read_public_at verify r st (split_object_path p)
