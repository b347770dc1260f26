-- ===== src/Storage/Panel.antt =====
-- The panel's handlers of pgforge/storage.go and pgforge/storagerules.go: buckets, uploads,
-- deletions, copies and moves, the quota and the rules. A handler returns the new state and whether
-- it redirects with its success message.
use forgebase.Common.{
  ℕ, ◌+◌, ◌*◌, Bool, true, false, not, ◌||◌, Option, none, some, List, [], ◌∷◌, ◌++◌,
}
use mathlib.Core.List.{reverse}
use forgebase.Common.Tests.{ltb, ◌==◌, if◌then◌else◌}
use forgebase.Common.Lists.{length, keep}
use forgebase.Common.Text.{Bytes, codes, eqb, has_prefix, trim_space, to_lower}
use forgebase.Common.Map.{lookup, put, remove, retain}
use forgebase.Common.Decimal.{ℤ, pos, negsuc, parse_int}
use forgebase.Storage.Path.{slash, dots, trim_slashes, safe_rel, bucket_re}
use forgebase.Storage.Bucket.{
  Access, public, authenticated, owner, private, Rule, Bucket, Object, Project, object_key,
  bucket_exists,
}
use forgebase.Storage.Objects.{Request, put_file, drop_file, save_object}
use forgebase.Storage.Signed.{int_value}

-- `max_size_mb` is an `int` column.
abbrev pub int32_max : ℕ
int32_max = 2147483647

abbrev at_least_zero : ℤ → ℕ
at_least_zero (pos n) = n
at_least_zero (negsuc n) = 0

abbrev pub put_row : Bytes → Object → Project → Project
put_row key o st = record st { objects = put key o st.objects }

abbrev pub drop_row : Bytes → Project → Project
drop_row key st = record st { objects = remove key st.objects }

-- ON CONFLICT DO NOTHING.
abbrev add_bucket : Bytes → Bucket → Option Bucket → Project → Project
add_bucket name b none st = record st { buckets = put name b st.buckets }
add_bucket name b (some old) st = st

unfoldable pub create_bucket : Bytes → Bool → Bytes → Bytes → Project → Project × Bool
unfolding to_lower trim_space int_value bucket_re
create_bucket form_name is_public form_max form_mime st =
    let name = to_lower (trim_space form_name) in
    let max = at_least_zero (int_value (trim_space form_max)) in
    let row : Bucket = record {
      public = is_public;
      max_size_mb = max;
      allowed_mime = trim_space form_mime;
    } in
    if not (bucket_re name)
    then (st, false)
    else if ltb int32_max max
    then (st, false)
    else (add_bucket name row (lookup name st.buckets) st, true)

-- `r` carries the part's type and content, and what the disk and the remote answer.
unfoldable pub upload_object : Request → Bytes → Bytes → Project → Project × Bool
unfolding bucket_exists safe_rel eqb save_object
upload_object r bucket filename st =
    let rel = safe_rel filename in
    let (after, code) = save_object r bucket rel st in
    if not (bucket_exists st bucket)
    then (st, false)
    else if eqb rel []
    then (st, false)
    else (after, code == 200)

-- One object's file and row; the bare bucket is no file.
unfoldable pub delete_at : Bytes → Bytes → Project → Project
unfolding eqb
delete_at bucket rel st =
    let key = object_key bucket rel in
    if eqb rel [] then drop_row key st else drop_row key (drop_file key st)

unfoldable pub delete_object : Bytes → Bytes → Project → Project × Bool
unfolding bucket_exists safe_rel delete_at
delete_object bucket path st =
    if not (bucket_exists st bucket)
    then (st, false)
    else (delete_at bucket (safe_rel path) st, true)

-- What the environment answers a transfer: the remote's copy of a file that is not on disk, and
-- whether the copy is opened, created, written, closed and pushed.
pub record Transfer : Type 0 where
  pub remote : Option Bytes
  pub opens : Bool
  pub creates : Bool
  pub copies : Bool
  pub closes : Bool
  pub pushes : Bool

abbrev restored : Bytes → Option Bytes → Option Bytes → Project → Option (Bytes × Project)
restored key (some content) remote st = some (content, st)
restored key none (some content) st = some (content, put_file key content st)
restored key none none st = none

-- `ensureLocal`, with the content that stands there then.
unfoldable pub ensure_local : Bytes → Option Bytes → Project → Option (Bytes × Project)
ensure_local key remote st = restored key (lookup key st.files) remote st

-- `copyFile`, with whether it returned no error. A failed write takes the copy away, a failed close
-- does not.
unfoldable pub copy_file : Transfer → Bytes → Bytes → Project → Project × Bool
copy_file t content dst st =
    if not t.opens
    then (st, false)
    else if not t.creates
    then (st, false)
    else if not t.copies
    then (drop_file dst st, false)
    else (put_file dst content st, t.closes)

-- From the copy on: the rows follow the files.
unfoldable pub transfer_to :
    Bool → Transfer → Bytes → Bytes → Object → Bytes → Project → Project × Bool
unfolding copy_file
transfer_to move t src dst o content st =
    let (copied, ok) = copy_file t content dst st in
    let saved = put_row dst o copied in
    if not ok
    then (copied, false)
    else if not t.pushes
    then (drop_file dst copied, false)
    else if move
    then (drop_row src (drop_file src saved), true)
    else (saved, true)

abbrev pub transfer_local :
    Bool → Transfer → Bytes → Bytes → Object → Option (Bytes × Project) → Project → Project × Bool
transfer_local move t src dst o none st = (st, false)
transfer_local move t src dst o (some (content, local)) st =
    transfer_to move t src dst o content local

-- By the rows at the source and at the destination.
abbrev pub transfer_rows :
    Bool → Transfer → Bytes → Bytes → Option Object → Option Object → Project → Project × Bool
transfer_rows move t src dst none at_dst st = (st, false)
transfer_rows move t src dst (some o) (some p) st = (st, false)
transfer_rows move t src dst (some o) none st =
    transfer_local move t src dst o (ensure_local src t.remote st) st

unfoldable pub transfer_object : Bool → Transfer → Bytes → Bytes → Bytes → Project → Project × Bool
unfolding bucket_exists safe_rel eqb ensure_local transfer_to
transfer_object move t bucket from to st =
    let source = safe_rel from in
    let target = safe_rel to in
    let src = object_key bucket source in
    let dst = object_key bucket target in
    if not (bucket_exists st bucket)
    then (st, false)
    else if eqb source [] || eqb target [] || eqb source target
    then (st, false)
    else transfer_rows move t src dst (lookup src st.objects) (lookup dst st.objects) st

abbrev pub present : Option Object → ℕ
present none = 0
present (some o) = 1

-- The loop; `n` counts the rows deleted.
unfoldable pub delete_all : Bytes → List Bytes → ℕ → Project → Project × ℕ
unfolding safe_rel eqb
delete_all bucket [] n st = (st, n)
delete_all bucket (p ∷ ps) n st =
    let rel = safe_rel p in
    let key = object_key bucket rel in
    let skipped = delete_all bucket ps n st in
    let deleted =
      delete_all bucket ps (n + present (lookup key st.objects))
        (drop_row key (drop_file key st)) in
    if eqb rel [] then skipped else deleted

-- `paths` is `none` where the JSON does not decode; the count is that of the message.
unfoldable pub bulk_delete_objects : Bytes → Option (List Bytes) → Project → Project × Option ℕ
unfolding bucket_exists delete_all
bulk_delete_objects bucket none st = (st, none)
bulk_delete_objects bucket (some paths) st =
    let (after, n) = delete_all bucket paths 0 st in
    if not (bucket_exists st bucket)
    then (st, none)
    else if length paths == 0 || ltb 500 (length paths)
    then (st, none)
    else (after, some n)

-- Whether a key is outside the bucket's directory.
abbrev pub is_outside : Bytes → Bytes → Bool
is_outside bucket key = not (has_prefix key (bucket ++ slash ∷ []))

-- The rules of the bucket stay.
unfoldable pub delete_bucket : Bytes → Project → Project × Bool
unfolding bucket_re retain has_prefix remove
delete_bucket bucket st = if not (bucket_re bucket) then (st, false) else (
  record st {
    files = retain (λ k _. is_outside bucket k) st.files;
    objects = retain (λ k _. is_outside bucket k) st.objects;
    buckets = remove bucket st.buckets;
  },
  true,
)

abbrev quota_of : Option ℤ → Option ℕ
quota_of none = none
quota_of (some (negsuc n)) = none
quota_of (some (pos n)) = if ltb (1024 * 1024) n then none else some n

abbrev with_quota : Option ℕ → Project → Project × Bool
with_quota none st = (st, false)
with_quota (some n) st = (record st { quota_mb = n }, true)

unfoldable pub set_storage_quota : Bytes → Project → Project × Bool
unfolding parse_int
set_storage_quota form_quota st = with_quota (quota_of (parse_int form_quota)) st

unfoldable pub access_of : Bytes → Option Access
unfolding eqb
access_of s =
    if eqb s (codes "public")
    then some public
    else if eqb s (codes "authenticated")
    then some authenticated
    else if eqb s (codes "owner")
    then some owner
    else if eqb s (codes "private")
    then some private
    else none

-- `strings.Contains(s, "..")`.
unfoldable pub has_dots : Bytes → Bool
unfolding has_prefix
has_dots [] = false
has_dots (c ∷ s) = has_prefix (c ∷ s) dots || has_dots s

-- `strings.Trim(s, "/")`.
unfoldable pub trim_both_slashes : Bytes → Bytes
unfolding trim_slashes
trim_both_slashes s = reverse (trim_slashes (reverse (trim_slashes s)))

abbrev add_rule : Rule → Project → Project
add_rule r st = record st { rules = st.rules ++ r ∷ [] }

abbrev rule_add_as : ℕ → Bytes → Bytes → Option Access → Project → Project × Bool
rule_add_as id bucket prefix none st = (st, false)
rule_add_as id bucket prefix (some access) st =
    let rule : Rule = record { id = id; bucket = bucket; prefix = prefix; access = access } in
    if not (bucket_exists st bucket)
    then (st, false)
    else if has_dots prefix
    then (st, false)
    else (add_rule rule st, true)

-- `id` is the one that the table draws.
unfoldable pub storage_rule_add : ℕ → Bytes → Bytes → Bytes → Project → Project × Bool
unfolding access_of bucket_exists has_dots trim_both_slashes trim_space
storage_rule_add id form_bucket form_prefix form_access st =
    rule_add_as id (trim_space form_bucket) (trim_both_slashes (trim_space form_prefix))
      (access_of form_access) st

unfoldable pub storage_rule_delete : ℕ → Project → Project
storage_rule_delete id st = record st { rules = keep (λ r. not (r.id == id)) st.rules }
