-- ===== src/Storage/Bucket.antt =====
-- What the storage keeps for one project: its rows of `storage_buckets`, `storage_rules` and
-- `storage_objects`, its quota, its API secret, and its files on disk. The tables' `slug` column
-- holds `slug` throughout, so the rows leave it out.
use forgebase.Common.{
  ℕ, ◌+◌, ◌*◌, ◌^◌, Bool, true, false, not, ◌&&◌, Option, none, some, List, [], ◌∷◌, ◌++◌,
}
use forgebase.Common.Tests.{leb, ltb, ◌==◌, if◌then◌else◌}
use forgebase.Common.Lists.{length, keep}
use forgebase.Common.Text.{Bytes, eqb, has_prefix, trim_space}
use forgebase.Common.Split.{split}
use forgebase.Common.Map.{Map, lookup}
use forgebase.Storage.Path.{slash, bucket_re}

pub record Bucket : Type 0 where
  pub public : Bool
  pub max_size_mb : ℕ
  pub allowed_mime : Bytes

-- The classes that `storageRuleAdd` admits.
pub data Access : Type 0 where
  public authenticated owner private : Access

pub record Rule : Type 0 where
  pub id : ℕ
  pub bucket : Bytes
  pub prefix : Bytes
  pub access : Access

pub record Object : Type 0 where
  pub size : ℕ
  pub mime : Bytes

pub record Project : Type 0 where
  pub slug : Bytes
  pub secret : Bytes
  pub quota_mb : ℕ
  pub buckets : Map Bucket
  pub rules : List Rule
  pub objects : Map Object
  pub files : Map Bytes

-- `<bucket>/<path>`, the row and the file of an object.
abbrev pub object_key : Bytes → Bytes → Bytes
object_key bucket path = bucket ++ slash ∷ path

-- `coalesce(storage_quota_mb,1024) << 20`, 0 for none.
unfoldable pub storage_quota_bytes : Project → ℕ
storage_quota_bytes st = st.quota_mb * 2 ^ 20

abbrev pub sum_sizes : Map Object → ℕ
sum_sizes [] = 0
sum_sizes ((_, o) ∷ m) = o.size + sum_sizes m

unfoldable pub storage_usage_bytes : Project → ℕ
storage_usage_bytes st = sum_sizes st.objects

unfoldable pub quota_exceeded : Project → Bool
unfolding storage_quota_bytes storage_usage_bytes
quota_exceeded st = let q = storage_quota_bytes st in ltb 0 q && leb q (storage_usage_bytes st)

abbrev found : Option Bucket → Bool
found none = false
found (some b) = true

unfoldable pub bucket_exists : Project → Bytes → Bool
unfolding bucket_re lookup
bucket_exists st bucket = if not (bucket_re bucket) then false else found (lookup bucket st.buckets)

-- The parts of a comma list, trimmed, less the empty ones.
unfoldable pub mime_list : List Bytes → List Bytes
unfolding trim_space eqb
mime_list [] = []
mime_list (m ∷ ms) =
    let rest = mime_list ms in let t = trim_space m in if not (eqb t []) then t ∷ rest else rest

abbrev limits_of : Option Bucket → ℕ × List Bytes
limits_of none = (0, [])
limits_of (some b) = (b.max_size_mb * 2 ^ 20, mime_list (split b',' b.allowed_mime))

-- The size limit in bytes, 0 for none, and the allowed types.
unfoldable pub bucket_limits : Project → Bytes → ℕ × List Bytes
unfolding lookup mime_list split
bucket_limits st bucket = limits_of (lookup bucket st.buckets)

-- `ORDER BY length(prefix) DESC, id`.
abbrev pub before : Rule → Rule → Bool
before r s =
    if ltb (length s.prefix) (length r.prefix)
    then true
    else length r.prefix == length s.prefix && leb r.id s.id

unfoldable pub insert_rule : Rule → List Rule → List Rule
insert_rule r [] = r ∷ []
insert_rule r (s ∷ ss) = let rest = insert_rule r ss in if before r s then r ∷ s ∷ ss else s ∷ rest

unfoldable pub order_rules : List Rule → List Rule
unfolding insert_rule
order_rules [] = []
order_rules (r ∷ rs) = insert_rule r (order_rules rs)

unfoldable pub first_match : Bytes → List Rule → Option Rule
unfolding has_prefix
first_match path [] = none
first_match path (r ∷ rs) =
    let rest = first_match path rs in if has_prefix path r.prefix then some r else rest

-- The rule whose access class and prefix `storageRuleFor` returns.
unfoldable pub storage_rule_for : Project → Bytes → Bytes → Option Rule
unfolding order_rules first_match
storage_rule_for st bucket path =
    first_match path (order_rules (keep (λ r. eqb r.bucket bucket) st.rules))
