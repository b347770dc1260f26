-- ===== src/Resumable/Tests.antt =====
-- Resumable uploads on concrete requests.
use forgebase.Common.{◌≡◌, refl, true, false, ◌⊎◌, Option, some, [], ◌∷◌, ◌++◌, arith}
use forgebase.Common.Lists.{length}
use forgebase.Common.Text.{Bytes, codes, eqb, has_byte, until, behind}
use forgebase.Common.Map.{lookup}
use forgebase.Storage.Path.{bucket_re}
use forgebase.Storage.Bucket.{Project, object_key, bucket_exists}
use forgebase.Storage.Objects.{Verifier, Request, storage_auth, storage_claims, request_key}
use forgebase.Resumable.{Meta, Staging, post, patch, TusRequest, serve_tus}
use forgebase.Resumable.Landing.{start, request, serve_tus-whole}
use forgebase.Resumable.Chunks.{chunk, id_of, Carries, Ready, send, send-concat}

abbrev base64 : Bytes → Option Bytes
base64 s = some s

abbrev verify : Verifier
verify secret token = some (record { role = codes "service_role"; sub = [] })

abbrev project : Project
project = record {
  slug = codes "shop";
  secret = codes "key";
  quota_mb = 1;
  buckets = (codes "docs", record { public = false; max_size_mb = 0; allowed_mime = [] }) ∷ [];
  rules = [];
  objects = [];
  files = [];
}

abbrev carrier : Request
carrier = record {
  apikey = codes "svc";
  authorization = [];
  content_type = codes "application/offset+octet-stream";
  body = codes "hello";
  creates = true;
  copies = true;
  pushes = true;
}

abbrev creation : TusRequest
creation = record {
  method = post;
  http = carrier;
  rest = codes "docs";
  upload_length = codes "5";
  upload_offset = [];
  metadata = codes "filename a.txt";
  fresh_id = codes "f00";
  describes = true;
  opens = true;
  renames = true;
}

abbrev first_patch : TusRequest
first_patch = record creation { method = patch; rest = codes "docs/f00"; upload_offset = codes "0" }

abbrev opened : Staging
opened =
    (serve_tus base64 verify creation (record { project = project; metas = []; stages = [] })).0

serve_tus-whole_example :
    ((serve_tus base64 verify first_patch opened).0.project.objects ≡ opened.project.objects)
    ⊎ ((id : Bytes) × (m : Meta) × (staged : Bytes) × (rest : Bytes) × (lookup id opened.metas
          ≡ some m)
        × (lookup id opened.stages ≡ some staged)
        × (length (staged ++ rest) ≡ m.size)
        × (lookup
              (object_key m.bucket m.path)
              (serve_tus base64 verify first_patch opened).0.project.files
            ≡ some (staged ++ rest))
        × (lookup
              (object_key m.bucket m.path)
              (serve_tus base64 verify first_patch opened).0.project.objects
            ≡ some (record { size = length (staged ++ rest); mime = m.mime })))
serve_tus-whole_example =
    serve_tus-whole base64 verify opened first_patch
      (request (record { project = project; metas = []; stages = [] }) creation (start project))

abbrev upload : Meta
upload = record { bucket = codes "docs"; path = codes "a.txt"; mime = codes "text/plain"; size = 5 }

abbrev waiting : Staging
waiting = record {
  project = project;
  metas = (codes "f00", upload) ∷ [];
  stages = (codes "f00", []) ∷ [];
}

carries : Carries first_patch
unfolding eqb has_byte behind
carries = record {
  patches = refl;
  named = refl;
  clean = refl;
  type = refl;
  opens = refl;
  copies = refl;
}

may_write : Ready verify first_patch upload waiting
unfolding eqb storage_auth storage_claims request_key bucket_exists bucket_re lookup until behind
may_write = record {
  role = codes "service_role";
  caller = refl;
  writes = refl;
  there = refl;
  described = refl;
  belongs = refl;
}

nothing_staged : lookup (id_of first_patch) waiting.stages ≡ some []
unfolding lookup eqb behind
nothing_staged = refl

send-concat_example :
    send base64 verify first_patch carries upload
      (codes "he" ∷ codes "l" ∷ codes "lo" ∷ [])
      0
      waiting
    ≡ (serve_tus base64 verify (chunk first_patch (codes "hello") 0) waiting).0
send-concat_example =
    send-concat base64 verify first_patch carries upload (codes "he") (codes "l" ∷ codes "lo" ∷ [])
      [] waiting may_write nothing_staged (omega arith) (omega arith)
      (omega arith, (omega arith, tt))
