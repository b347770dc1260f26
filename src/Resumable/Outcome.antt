-- ===== src/Resumable/Outcome.antt =====
-- What `serveTUS` does to the state, whichever way its branches go.
use forgebase.Common.{
  ℕ, zero, suc, ◌-◌, ◌≤◌, Bool, not, ◌&&◌, ◌||◌, ◌≡◌, refl, Option, none, some, [], ◌++◌, inl, inr,
}
use forgebase.Common.Tests.{leb, ltb, Bool-cases, leb→le}
use forgebase.Common.Lists.{length, take}
use forgebase.Common.Text.{Bytes, codes, has_byte, until, behind, eqb}
use forgebase.Common.Map.{Map, lookup, put, remove}
use forgebase.Common.Decimal.{ℤ, pos, negsuc, parse_int}
use forgebase.Storage.Path.{slash, mime_allowed}
use forgebase.Storage.Bucket.{object_key, bucket_exists, bucket_limits, quota_exceeded}
use forgebase.Storage.Objects.{
  Verifier, put_file, drop_file, storage_auth, can_write, write_forbidden,
}
use forgebase.Resumable.{
  Meta, Staging, Method, options, post, head, patch, delete, other, TusRequest, describe, is_post,
  is_foreign, is_offset, file_name, file_type, tus_metadata, create_sized, create, land,
  patch_stage, on_stage, with_stage, with_meta, with_id, in_bucket, as_role, past_options,
  serve_tus,
}

-- The stage after a chunk.
abbrev pub grow : Meta → Bytes → Bytes → Bytes
grow m staged body = staged ++ take (m.size - length staged) body

-- What one request does to the staged uploads and the project.
pub data Outcome (st : Staging) : Staging → Type 0 where
  same : Outcome st st
  opened :
      (id : Bytes) (m : Meta) (described : Bool)
      → Outcome st
          (record st { stages = put id [] st.stages; metas = describe described id m st.metas })
  grown :
      (id : Bytes) (m : Meta) (staged body : Bytes)
      → lookup id st.metas ≡ some m
      → lookup id st.stages ≡ some staged
      → Outcome st (record st { stages = put id (grow m staged body) st.stages })
  dropped :
      (id : Bytes)
      → Outcome st (record st { metas = remove id st.metas; stages = remove id st.stages })
  lost :
      (id key content : Bytes)
      → Outcome st (record {
        project = drop_file key (put_file key content st.project);
        metas = remove id st.metas;
        stages = remove id st.stages;
      })
  landed :
      (id : Bytes) (m : Meta) (staged body : Bytes)
      → lookup id st.metas ≡ some m
      → lookup id st.stages ≡ some staged
      → m.size ≤ length (grow m staged body)
      → Outcome st (record {
        project = record (put_file (object_key m.bucket m.path) (grow m staged body) st.project) {
          objects =
              put
                (object_key m.bucket m.path)
                (record { size = m.size; mime = m.mime })
                st.project.objects;
        };
        metas = remove id st.metas;
        stages = remove id st.stages;
      })

patch_stage-Outcome :
    (r : TusRequest) (id : Bytes) (m : Meta) (staged : Bytes) (st : Staging)
    → lookup id st.metas ≡ some m
    → lookup id st.stages ≡ some staged
    → Outcome st (patch_stage r id m staged st).0
unfolding patch_stage land
patch_stage-Outcome r id m staged st e f =
    let chunk : Outcome st (record st { stages = put id (grow m staged r.http.body) st.stages }) =
      grown id m staged r.http.body e f in
    elim (Bool-cases (not (eqb r.http.content_type (codes "application/offset+octet-stream")))) [
      | inl a ↦ rw a same
      | inr a ↦ elim (Bool-cases (not (is_offset (parse_int r.upload_offset) (length staged)))) [
        | inl b ↦ rw (a, b) same
        | inr b ↦ elim (Bool-cases r.opens) [
          | inr c ↦ rw (a, b, c) same
          | inl c ↦ elim (Bool-cases r.http.copies) [
            | inr d ↦ rw (a, b, c, d) chunk
            | inl d ↦ elim (Bool-cases (leb m.size (length (grow m staged r.http.body)))) [
              | inr l ↦ rw (a, b, c, d, l) chunk
              | inl l ↦ elim (Bool-cases r.renames) [
                | inr g ↦ rw (a, b, c, d, l, g) chunk
                | inl g ↦ elim (Bool-cases r.http.pushes) [
                  | inr h ↦
                      rw (a, b, c, d, l, g, h)
                        (lost id (object_key m.bucket m.path) (grow m staged r.http.body))
                  | inl h ↦
                      rw (a, b, c, d, l, g, h) (landed id m staged r.http.body e f (leb→le _ _ l))
                ]
              ]
            ]
          ]
        ]
      ]
    ]

on_stage-Outcome :
    (r : TusRequest) (x : Method) (id : Bytes) (m : Meta) (staged : Bytes) (st : Staging)
    → lookup id st.metas ≡ some m
    → lookup id st.stages ≡ some staged
    → Outcome st (on_stage r x id m staged st).0
on_stage-Outcome r patch id m staged st e f = patch_stage-Outcome r id m staged st e f
on_stage-Outcome r delete id m staged st e f = dropped id
on_stage-Outcome r head id m staged st e f = same
on_stage-Outcome r options id m staged st e f = same
on_stage-Outcome r post id m staged st e f = same
on_stage-Outcome r other id m staged st e f = same

with_id-Outcome :
    (r : TusRequest) (bucket id : Bytes) (st : Staging) → Outcome st (with_id r bucket id st).0
with_id-Outcome r bucket id st = elim (Bool-cases (eqb id [] || is_foreign id)) [
  | inl a ↦ rw a same
  | inr a ↦ rw a (described (lookup id st.metas) refl)
]
  where
    staged :
        (m : Meta)
        → lookup id st.metas ≡ some m
        → (o : Option Bytes) → lookup id st.stages ≡ o
        → Outcome st (with_stage r id m o st).0
    staged m e none f = same
    staged m e (some bytes) f = on_stage-Outcome r r.method id m bytes st e f

    described :
        (o : Option Meta) → lookup id st.metas ≡ o → Outcome st (with_meta r bucket id o st).0
    described none e = same
    described (some m) e = elim (Bool-cases (eqb m.bucket bucket)) [
      | inl b ↦ rw b (staged m e (lookup id st.stages) refl)
      | inr b ↦ rw b same
    ]

create_sized-Outcome :
    (verify : Verifier) (r : TusRequest) (role bucket : Bytes) (meta : Map Bytes) (n : ℕ)
    (st : Staging)
    → Outcome st (create_sized verify r role bucket meta n st).0
create_sized-Outcome verify r role bucket meta n st =
    let max = (bucket_limits st.project bucket).0 in
    let allowed = (bucket_limits st.project bucket).1 in
    elim (Bool-cases (eqb (file_name meta) [])) [
      | inl a ↦ rw a same
      | inr a ↦ elim (Bool-cases (ltb 0 max && ltb max n)) [
        | inl b ↦ rw (a, b) same
        | inr b ↦ elim (Bool-cases (quota_exceeded st.project)) [
          | inl c ↦ rw (a, b, c) same
          | inr c ↦
              elim (Bool-cases
                (write_forbidden verify st.project r.http bucket (file_name meta) role)) [
                  | inl d ↦ rw (a, b, c, d) same
                  | inr d ↦ elim (Bool-cases (mime_allowed (file_type meta) allowed)) [
                    | inr f ↦ rw (a, b, c, d, f) same
                    | inl f ↦ elim (Bool-cases r.http.creates) [
                      | inr g ↦ rw (a, b, c, d, f, g) same
                      | inl g ↦ rw (a, b, c, d, f, g) (opened r.fresh_id _ r.describes)
                    ]
                  ]
                ]
        ]
      ]
    ]

create-Outcome :
    (verify : Verifier) (r : TusRequest) (role bucket : Bytes) (meta : Map Bytes) (n : Option ℤ)
    (st : Staging)
    → Outcome st (create verify r role bucket meta n st).0
create-Outcome verify r role bucket meta none st = same
create-Outcome verify r role bucket meta (some (negsuc n)) st = same
create-Outcome verify r role bucket meta (some (pos zero)) st = same
create-Outcome verify r role bucket meta (some (pos (suc n))) st =
    create_sized-Outcome verify r role bucket meta (suc n) st

module _ (base64 : Bytes → Option Bytes) (verify : Verifier) (r : TusRequest) (st : Staging) where
  in_bucket-Outcome :
      (role bucket : Bytes) → Outcome st (in_bucket base64 verify r role bucket st).0
  in_bucket-Outcome role bucket = elim (Bool-cases (bucket_exists st.project bucket)) [
    | inr a ↦ rw a same
    | inl a ↦ elim (Bool-cases (has_byte slash r.rest)) [
      | inl b ↦ rw (a, b) (with_id-Outcome r bucket (behind slash r.rest) st)
      | inr b ↦ elim (Bool-cases (is_post r.method)) [
        | inl c ↦
            rw (a, b, c)
              (create-Outcome verify r role bucket (tus_metadata base64 r.metadata)
                (parse_int r.upload_length) st)
        | inr c ↦ rw (a, b, c) same
      ]
    ]
  ]

  as_role-Outcome : (o : Option Bytes) → Outcome st (as_role base64 verify r o st).0
  as_role-Outcome none = same
  as_role-Outcome (some role) = elim (Bool-cases (can_write role)) [
    | inl a ↦ rw a (in_bucket-Outcome role (until slash r.rest))
    | inr a ↦ rw a same
  ]

  past_options-Outcome : (x : Method) → Outcome st (past_options base64 verify r x st).0
  past_options-Outcome options = same
  past_options-Outcome post = as_role-Outcome (storage_auth verify st.project r.http)
  past_options-Outcome head = as_role-Outcome (storage_auth verify st.project r.http)
  past_options-Outcome patch = as_role-Outcome (storage_auth verify st.project r.http)
  past_options-Outcome delete = as_role-Outcome (storage_auth verify st.project r.http)
  past_options-Outcome other = as_role-Outcome (storage_auth verify st.project r.http)

  pub serve_tus-Outcome : Outcome st (serve_tus base64 verify r st).0
  unfolding serve_tus
  serve_tus-Outcome = past_options-Outcome r.method
