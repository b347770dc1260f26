-- ===== src/Storage/Listing.antt =====
-- `storageListAPI` of pgforge/storage.go: one level of a bucket, page by page.
use forgebase.Common.{
  ℕ, Bool, true, false, not, ◌&&◌, ◌||◌, Option, none, some, List, [], ◌∷◌, ◌++◌,
}
use forgebase.Common.Tests.{ltb, ◌==◌, if◌then◌else◌}
use forgebase.Common.Lists.{take, drop, any}
use forgebase.Common.Text.{Bytes, eqb, has_prefix, trim_prefix, has_byte, until, to_lower}
use forgebase.Common.Map.{Map, lookup}
use forgebase.Common.Decimal.{ℤ, pos, negsuc}
use forgebase.Storage.Path.{slash, safe_rel}
use forgebase.Storage.Bucket.{Bucket, Object, Project, bucket_exists}
use forgebase.Storage.Objects.{Verifier, Request, storage_auth, can_write}

-- The decoded body.
pub record ListBody : Type 0 where
  pub prefix : Bytes
  pub limit : ℤ
  pub offset : ℤ
  pub search : Bytes

pub data Entry : Type 0 where
  folder : Bytes → Entry
  object : Bytes → Bytes → Object → Entry

-- Some end of the text passes.
unfoldable pub any_end : (Bytes → Bool) → Bytes → Bool
any_end f [] = f []
any_end f (c ∷ s) = f (c ∷ s) || any_end f s

abbrev pub one_byte : (Bytes → Bool) → Bytes → Bool
one_byte f [] = false
one_byte f (c ∷ s) = f s

abbrev pub this_byte : ℕ → (Bytes → Bool) → Bytes → Bool
this_byte p f [] = false
this_byte p f (c ∷ s) = c == p && f s

-- SQL's LIKE; the flag says that a backslash stands before.
unfoldable pub like : Bool → Bytes → Bytes → Bool
unfolding any_end
like quoted [] [] = true
like quoted [] (c ∷ s) = false
like true (p ∷ ps) s = this_byte p (like false ps) s
like false (p ∷ ps) s =
    let here = this_byte p (like false ps) s in
    let rest = any_end (like false ps) s in
    let one = one_byte (like false ps) s in
    let quoted = like true ps s in
    if p == b'%' then rest else if p == b'_' then one else if p == b'\\' then quoted else here

-- The rows of a bucket, by their paths.
unfoldable pub rows_of : Bytes → Map Object → List (Bytes × Object)
unfolding has_prefix trim_prefix
rows_of bucket [] = []
rows_of bucket ((k, o) ∷ m) =
    let rest = rows_of bucket m in
    if has_prefix k (bucket ++ slash ∷ [])
    then (trim_prefix k (bucket ++ slash ∷ []), o) ∷ rest
    else rest

-- Those whose path matches.
unfoldable pub matching : Bytes → List (Bytes × Object) → List (Bytes × Object)
unfolding like
matching pattern [] = []
matching pattern ((p, o) ∷ rows) =
    let rest = matching pattern rows in if like false pattern p then (p, o) ∷ rest else rest

-- `strings.Contains`.
unfoldable pub contains : Bytes → Bytes → Bool
unfolding has_prefix
contains [] sub = has_prefix [] sub
contains (c ∷ s) sub = has_prefix (c ∷ s) sub || contains s sub

unfoldable pub is_found : Bytes → Bytes → Bool
unfolding contains to_lower eqb
is_found search rel = eqb search [] || contains (to_lower rel) (to_lower search)

-- The loop over the rows; `seen` is `seenDir`.
unfoldable pub entries : Bytes → Bytes → Bytes → List Bytes → List (Bytes × Object) → List Entry
unfolding trim_prefix has_byte until eqb is_found
entries bucket pfx search seen [] = []
entries bucket pfx search seen ((p, o) ∷ rows) =
    let rel = trim_prefix p pfx in
    let d = until slash rel in
    let rest = entries bucket pfx search seen rows in
    let rest_after = entries bucket pfx search (d ∷ seen) rows in
    if has_byte slash rel
    then (if any (eqb d) seen then rest else folder d ∷ rest_after)
    else if is_found search rel
    then object rel (bucket ++ slash ∷ p) o ∷ rest
    else rest

abbrev limit_of : ℤ → ℕ
limit_of (negsuc n) = 100
limit_of (pos n) = if n == 0 || ltb 1000 n then 100 else n

abbrev offset_of : ℤ → ℕ
offset_of (negsuc n) = 0
offset_of (pos n) = n

-- The offset, then the limit.
abbrev pub page {ℓ} : {A : Type ℓ} → ℕ → ℕ → List A → List A
page offset limit xs = take limit (drop offset xs)

unfoldable pub list_prefix : Bytes → Bytes
unfolding safe_rel eqb
list_prefix form = let p = safe_rel form in if eqb p [] then [] else p ++ slash ∷ []

-- All entries, before the page is cut; `order` is the database's ORDER BY path.
unfoldable pub all_entries :
    (List (Bytes × Object) → List (Bytes × Object)) → Bytes → ListBody → Project → List Entry
unfolding list_prefix rows_of matching entries
all_entries order bucket b st =
    let pfx = list_prefix b.prefix in
    entries bucket pfx b.search []
      (take 5000 (order (matching (pfx ++ b'%' ∷ []) (rows_of bucket st.objects))))

pub data ListReply : Type 0 where
  refused : ℕ → ListReply
  listed : List Entry → ListReply

abbrev is_public_bucket : Option Bucket → Bool
is_public_bucket none = false
is_public_bucket (some b) = b.public

abbrev list_as :
    (List (Bytes × Object) → List (Bytes × Object))
    → Bytes
    → ListBody
    → Project
    → Option Bytes
    → ListReply
list_as order bucket b st none = refused 401
list_as order bucket b st (some role) =
    if not (bucket_exists st bucket)
    then refused 404
    else if not (is_public_bucket (lookup bucket st.buckets)) && not (can_write role)
    then refused 403
    else listed (page (offset_of b.offset) (limit_of b.limit) (all_entries order bucket b st))

unfoldable pub storage_list_api :
    (List (Bytes × Object) → List (Bytes × Object))
    → Verifier
    → Request
    → Bytes
    → ListBody
    → Project
    → ListReply
unfolding storage_auth bucket_exists all_entries
storage_list_api order verify r bucket b st = list_as order bucket b st (storage_auth verify st r)
