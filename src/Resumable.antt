-- ===== src/Resumable.antt =====
-- Resumable uploads (pgforge/tus.go): `tusMetadata`, `serveTUS` and `pruneStaleTUS`. An upload is
-- staged as a file of bytes beside a file that describes it, and lands in the project's objects when
-- it is whole. Paths and types are valid UTF-8, which the JSON of the description keeps.
pub mod Outcome
pub mod Landing
pub mod Chunks
mod Tests
use forgebase.Common.{
  ℕ, zero, suc, ◌+◌, ◌-◌, Bool, true, false, not, ◌&&◌, ◌||◌, Option, none, some, List, [], ◌∷◌,
  ◌++◌,
}
use forgebase.Common.Tests.{leb, ltb, ◌==◌, if◌then◌else◌}
use forgebase.Common.Lists.{length, take, any}
use forgebase.Common.Text.{Bytes, codes, eqb, has_byte, until, behind, is_space, trim_space}
use forgebase.Common.Split.{split}
use forgebase.Common.Map.{Map, lookup, put, remove, retain}
use forgebase.Common.Decimal.{ℤ, pos, negsuc, parse_int}
use forgebase.Storage.Path.{slash, safe_rel, mime_allowed}
use forgebase.Storage.Bucket.{Project, object_key, quota_exceeded, bucket_exists, bucket_limits}
use forgebase.Storage.Objects.{
  Verifier, Request, storage_auth, can_write, write_forbidden, put_file, drop_file,
}

-- `tusMeta`; creation admits positive lengths only.
pub record Meta : Type 0 where
  pub bucket : Bytes
  pub path : Bytes
  pub mime : Bytes
  pub size : ℕ

-- The project, and the two files of each upload by its id.
pub record Staging : Type 0 where
  pub project : Project
  pub metas : Map Meta
  pub stages : Map Bytes

pub data Method : Type 0 where
  options post head patch delete other : Method

-- A request, `rest` behind "/storage/v1/tus/". `http` holds the keys and the type, and as `body`
-- the bytes that reach the stage; `copies` is whether no error ends them. The environment answers
-- whether the stage is created, the description written, the stage opened and renamed.
pub record TusRequest : Type 0 where
  pub method : Method
  pub http : Request
  pub rest : Bytes
  pub upload_length : Bytes
  pub upload_offset : Bytes
  pub metadata : Bytes
  pub fresh_id : Bytes
  pub describes : Bool
  pub opens : Bool
  pub renames : Bool

-- A status, alone or with the headers that a client reads.
pub data TusReply : Type 0 where
  status : ℕ → TusReply
  created : Bytes → TusReply
  at_offset : ℕ → ℕ → TusReply
  progress : ℕ → ℕ → TusReply

-- `strings.Fields`, with what was read of the first field.
unfoldable pub fields : Bytes → Bytes → List Bytes
unfolding is_space eqb
fields word [] = if eqb word [] then [] else word ∷ []
fields word (c ∷ s) =
    let rest = fields [] s in
    let more = fields (word ++ c ∷ []) s in
    if is_space c then if eqb word [] then rest else word ∷ rest else more

abbrev decoded : Option Bytes → Bytes
decoded none = []
decoded (some v) = v

module _ (base64 : Bytes → Option Bytes) where
  -- One pair of the header, put into the map.
  abbrev pub add_pair : List Bytes → Map Bytes → Map Bytes
  add_pair [] m = m
  add_pair (k ∷ []) m = put k [] m
  add_pair (k ∷ v ∷ _) m = put k (decoded (base64 v)) m

  unfoldable pub add_pairs : List Bytes → Map Bytes → Map Bytes
  unfolding fields trim_space
  add_pairs [] m = m
  add_pairs (p ∷ ps) m = add_pairs ps (add_pair (fields [] (trim_space p)) m)

  -- `tusMetadata`.
  unfoldable pub tus_metadata : Bytes → Map Bytes
  unfolding add_pairs split
  tus_metadata h = add_pairs (split b',' h) []

-- `meta[k]`.
abbrev value_or : Option Bytes → Bytes
value_or none = []
value_or (some v) = v

unfoldable pub value : Map Bytes → Bytes → Bytes
unfolding lookup
value m k = value_or (lookup k m)

-- The path that the header names.
unfoldable pub file_name : Map Bytes → Bytes
unfolding safe_rel eqb value
file_name m =
    let rel = safe_rel (value m (codes "filename")) in
    if eqb rel [] then safe_rel (value m (codes "name")) else rel

unfoldable pub file_type : Map Bytes → Bytes
unfolding eqb value
file_type m =
    let mime = value m (codes "filetype") in
    if eqb mime [] then codes "application/octet-stream" else mime

-- The file that describes an upload.
abbrev pub describe : Bool → Bytes → Meta → Map Meta → Map Meta
describe true id m metas = put id m metas
describe false id m metas = metas

-- The creation, from the check of the length on.
abbrev pub create_sized :
    Verifier → TusRequest → Bytes → Bytes → Map Bytes → ℕ → Staging → Staging × TusReply
create_sized verify r role bucket meta n st =
    let rel = file_name meta in
    let mime = file_type meta in
    let (max, allowed) = bucket_limits st.project bucket in
    if eqb rel []
    then (st, status 400)
    else if ltb 0 max && ltb max n
    then (st, status 413)
    else if quota_exceeded st.project
    then (st, status 507)
    else if write_forbidden verify st.project r.http bucket rel role
    then (st, status 403)
    else if not (mime_allowed mime allowed)
    then (st, status 415)
    else if not r.http.creates
    then (st, status 500)
    else (
      record st {
        stages = put r.fresh_id [] st.stages;
        metas =
            describe r.describes r.fresh_id
              (record { bucket = bucket; path = rel; mime = mime; size = n }) st.metas;
      },
      created r.fresh_id,
    )

abbrev pub create :
    Verifier → TusRequest → Bytes → Bytes → Map Bytes → Option ℤ → Staging → Staging × TusReply
create verify r role bucket meta (some (pos (suc n))) st =
    create_sized verify r role bucket meta (suc n) st
create verify r role bucket meta _ st = (st, status 400)

-- A whole upload lands: the stage becomes the object's file, then is pushed and recorded.
unfoldable pub land : TusRequest → Bytes → Meta → Bytes → Staging → Staging × TusReply
land r id m content st =
    let key = object_key m.bucket m.path in
    let moved = put_file key content st.project in
    let metas = remove id st.metas in
    let stages = remove id st.stages in
    if not r.renames
    then (record st { stages = put id content st.stages }, at_offset 500 (length content))
    else if not r.http.pushes
    then (
      record { project = drop_file key moved; metas = metas; stages = stages },
      at_offset 502 (length content),
    )
    else (
      record {
        project = record moved {
          objects = put key (record { size = m.size; mime = m.mime }) moved.objects;
        };
        metas = metas;
        stages = stages;
      },
      at_offset 204 (length content),
    )

-- The offset that the client names is the stage's size.
abbrev pub is_offset : Option ℤ → ℕ → Bool
is_offset (some (pos n)) size = n == size
is_offset _ size = false

-- The branch of `PATCH`.
unfoldable pub patch_stage : TusRequest → Bytes → Meta → Bytes → Staging → Staging × TusReply
patch_stage r id m staged st =
    let content = staged ++ take (m.size - length staged) r.http.body in
    if not (eqb r.http.content_type (codes "application/offset+octet-stream"))
    then (st, status 415)
    else if not (is_offset (parse_int r.upload_offset) (length staged))
    then (st, status 409)
    else if not r.opens
    then (st, status 500)
    else if not r.http.copies
    then (record st { stages = put id content st.stages }, at_offset 204 (length content))
    else if leb m.size (length content)
    then land r id m content st
    else (record st { stages = put id content st.stages }, at_offset 204 (length content))

abbrev pub on_stage : TusRequest → Method → Bytes → Meta → Bytes → Staging → Staging × TusReply
on_stage r head id m staged st = (st, progress (length staged) m.size)
on_stage r patch id m staged st = patch_stage r id m staged st
on_stage r delete id m staged st =
    (record st { metas = remove id st.metas; stages = remove id st.stages }, status 204)
on_stage r _ id m staged st = (st, status 405)

abbrev pub with_stage : TusRequest → Bytes → Meta → Option Bytes → Staging → Staging × TusReply
with_stage r id m none st = (st, status 404)
with_stage r id m (some staged) st = on_stage r r.method id m staged st

abbrev pub with_meta : TusRequest → Bytes → Bytes → Option Meta → Staging → Staging × TusReply
with_meta r bucket id none st = (st, status 404)
with_meta r bucket id (some m) st =
    if eqb m.bucket bucket then with_stage r id m (lookup id st.stages) st else (st, status 404)

-- `strings.ContainsAny(id, "/\\.")`.
abbrev pub is_foreign : Bytes → Bool
is_foreign id = any (λ c. c == b'/' || c == 92 || c == b'.') id

abbrev pub with_id : TusRequest → Bytes → Bytes → Staging → Staging × TusReply
with_id r bucket id st =
    if eqb id [] || is_foreign id
    then (st, status 404)
    else with_meta r bucket id (lookup id st.metas) st

abbrev pub is_post : Method → Bool
is_post post = true
is_post _ = false

module _ (base64 : Bytes → Option Bytes) where
  abbrev pub in_bucket : Verifier → TusRequest → Bytes → Bytes → Staging → Staging × TusReply
  in_bucket verify r role bucket st =
      if not (bucket_exists st.project bucket)
      then (st, status 404)
      else if has_byte slash r.rest
      then with_id r bucket (behind slash r.rest) st
      else if is_post r.method
      then create verify r role bucket (tus_metadata base64 r.metadata) (parse_int r.upload_length)
          st
      else (st, status 404)

  abbrev pub as_role : Verifier → TusRequest → Option Bytes → Staging → Staging × TusReply
  as_role verify r none st = (st, status 401)
  as_role verify r (some role) st =
      if can_write role then in_bucket verify r role (until slash r.rest) st else (st, status 401)

  abbrev pub past_options : Verifier → TusRequest → Method → Staging → Staging × TusReply
  past_options verify r options st = (st, status 204)
  past_options verify r _ st = as_role verify r (storage_auth verify st.project r.http) st

  unfoldable pub serve_tus : Verifier → TusRequest → Staging → Staging × TusReply
  serve_tus verify r st = past_options verify r r.method st

-- One pass of `pruneStaleTUS` over the project's directory: `is_old_stage` and `is_old_meta` say of
-- which uploads' files nobody has written for a day.
unfoldable pub prune_stale : (Bytes → Bool) → (Bytes → Bool) → Staging → Staging
prune_stale is_old_stage is_old_meta st = record st {
  stages = retain (λ id _. not (is_old_stage id)) st.stages;
  metas = retain (λ id _. not (is_old_meta id)) st.metas;
}
