-- ===== src/Resumable/Chunks.antt =====
-- However an upload is cut into chunks, the same file lands.
use forgebase.Common.{
  ℕ, zero, suc, ◌+◌, ◌-◌, ◌≤◌, ◌<◌, true, false, ◌||◌, ◌≡◌, Option, some, refl, sym, ap, ◌∙◌, List,
  [], ◌∷◌, ◌++◌, arith,
}
use mathlib.Core.Path.{subst}
use mathlib.Core.List.{append_assoc, append-nil}
use forgebase.Common.Tests.{leb, if◌then◌else◌}
use forgebase.Common.Lists.{length, take, length-append}
use forgebase.Common.Text.{Bytes, codes, eqb, eqb_refl, has_byte, until, behind}
use forgebase.Common.Map.{Map, lookup, put, remove, lookup-put}
use forgebase.Common.Decimal.{format, parse_int-format, int64_max}
use forgebase.Resumable.Outcome.{grow}
use forgebase.Resumable.{
  Meta, Staging, patch, TusRequest, land, patch_stage, on_stage, with_stage, with_meta, is_foreign,
  with_id, in_bucket, as_role, past_options, serve_tus,
}
use forgebase.Storage.Path.{slash}
use forgebase.Storage.Bucket.{bucket_exists}
use forgebase.Storage.Objects.{Verifier, storage_claims, request_key, storage_auth, can_write}

-- The chunks in a row.
abbrev pub concat : List Bytes → Bytes
concat [] = []
concat (b ∷ bs) = b ++ concat bs

put-put : {V : Type 0} (k : Bytes) (v w : V) (m : Map V) → put k w (put k v m) ≡ put k w m
unfolding put
put-put k v w [] = ground (arith, eqb_refl k)
put-put k v w ((j, u) ∷ m) = ground (arith, eqb_refl k, put-put k v w m)

remove-put : {V : Type 0} (k : Bytes) (v : V) (m : Map V) → remove k (put k v m) ≡ remove k m
unfolding put remove
remove-put k v [] = ground (arith, eqb_refl k)
remove-put k v ((j, u) ∷ m) = ground (arith, eqb_refl k, remove-put k v m)

take-append :
    (n : ℕ) (xs ys : Bytes) → length xs ≤ n → take n (xs ++ ys) ≡ xs ++ take (n - length xs) ys
take-append zero [] ys h = refl
take-append zero (x ∷ xs) ys h = absurd (omega arith)
take-append (suc n) [] ys h = let e : suc n - 0 ≡ suc n = omega arith in rw e refl
take-append (suc n) (x ∷ xs) ys h =
    let e : suc n - suc (length xs) ≡ n - length xs = omega arith in
    rw e (ap (◌∷◌ x) (take-append n xs ys (omega arith)))

take_short : (n : ℕ) (xs : Bytes) → length xs ≤ n → take n xs ≡ xs
take_short zero [] h = refl
take_short zero (x ∷ xs) h = absurd (omega arith)
take_short (suc n) [] h = refl
take_short (suc n) (x ∷ xs) h = ap (◌∷◌ x) (take_short n xs (omega arith))

-- A stage grows by a chunk and another as by both in one.
grow-append :
    (m : Meta) (staged b c : Bytes)
    → length staged + length b ≤ m.size
    → grow m (staged ++ b) c ≡ grow m staged (b ++ c)
grow-append m staged b c h =
    let left : m.size - length (staged ++ b) ≡ m.size - length staged - length b =
      omega (arith, length-append staged b) in
    rw (left, take-append (m.size - length staged) b c (omega arith))
      (append_assoc staged b (take (m.size - length staged - length b) c))

grow_short :
    (m : Meta) (staged b : Bytes)
    → length staged + length b ≤ m.size
    → grow m staged b ≡ staged ++ b
grow_short m staged b h = ap (◌++◌ staged) (take_short (m.size - length staged) b (omega arith))

-- The request with another body and offset.
abbrev pub chunk : TusRequest → Bytes → ℕ → TusRequest
chunk r body offset = record r {
  http = record r.http { body = body };
  upload_offset = format offset;
}

-- The state after a chunk that arrives whole, at the right offset.
abbrev after : TusRequest → Bytes → Meta → Bytes → Staging → Staging
after r id m content st =
    if leb m.size (length content)
    then (land r id m content st).0
    else record st { stages = put id content st.stages }

-- The upload that a request names.
abbrev pub id_of : TusRequest → Bytes
id_of r = behind slash r.rest

-- A request that can carry a chunk: it is a `PATCH` of an upload, its type is right, the stage opens
-- and no error ends the body.
pub record Carries (r : TusRequest) : Type 0 where
  pub patches : r.method ≡ patch
  pub named : has_byte slash r.rest ≡ true
  pub clean : (eqb (id_of r) [] || is_foreign (id_of r)) ≡ false
  pub type : eqb r.http.content_type (codes "application/offset+octet-stream") ≡ true
  pub opens : r.opens ≡ true
  pub copies : r.http.copies ≡ true

-- The project lets the request write to the upload, which `m` describes.
pub record Ready (verify : Verifier) (r : TusRequest) (m : Meta) (st : Staging) : Type 0 where
  pub role : Bytes
  pub caller : storage_auth verify st.project r.http ≡ some role
  pub writes : can_write role ≡ true
  pub there : bucket_exists st.project (until slash r.rest) ≡ true
  pub described : lookup (id_of r) st.metas ≡ some m
  pub belongs : eqb m.bucket (until slash r.rest) ≡ true

module _ (r : TusRequest) (c : Carries r) (id : Bytes) (m : Meta) where
  arrived :
      (staged body : Bytes) (st : Staging)
      → length staged ≤ int64_max
      → (patch_stage (chunk r body (length staged)) id m staged st).0
        ≡ after r id m (grow m staged body) st
  unfolding patch_stage land
  arrived staged body st h =
      rw (c.type, parse_int-format (length staged) h, c.opens, c.copies) (ground arith)

  after-put :
      (old content : Bytes) (st : Staging)
      → after r id m content (record st { stages = put id old st.stages }) ≡ after r id m content st
  unfolding land
  after-put old content st = rw (put-put id old content st.stages, remove-put id old st.stages) refl

  staged_chunk :
      (staged b : Bytes) (st : Staging)
      → m.size ≤ int64_max
      → length staged + length b < m.size
      → (patch_stage (chunk r b (length staged)) id m staged st).0
        ≡ record st { stages = put id (staged ++ b) st.stages }
  staged_chunk staged b st max h =
      let partial : leb m.size (length (staged ++ b)) ≡ false =
        ground (arith, length-append staged b) in
      arrived staged b st (omega arith) ∙ rw (grow_short m staged b (omega arith), partial) refl

  two_chunks :
      (staged b d : Bytes) (st : Staging)
      → m.size ≤ int64_max
      → length staged + length b < m.size
      → (patch_stage
          (chunk r d (length (staged ++ b)))
          id
          m
          (staged ++ b)
          (patch_stage (chunk r b (length staged)) id m staged st).0).0
        ≡ (patch_stage (chunk r (b ++ d) (length staged)) id m staged st).0
  two_chunks staged b d st max h =
      let joined = staged ++ b in
      let long = length-append staged b in
      rw (staged_chunk staged b st max h) (
        arrived joined d (record st { stages = put id joined st.stages }) (omega (arith, long))
        ∙ after-put joined (grow m joined d) st
        ∙ ap (λ content. after r id m content st) (grow-append m staged b d (omega arith))
        ∙ sym (arrived staged (b ++ d) st (omega arith)))

module _ (base64 : Bytes → Option Bytes) (verify : Verifier) (r : TusRequest) (c : Carries r)
    (m : Meta) where
  -- A request with a chunk comes to its stage.
  serve_tus-patch_stage :
      (body staged : Bytes) (offset : ℕ) (st : Staging)
      → Ready verify r m st
      → lookup (id_of r) st.stages ≡ some staged
      → serve_tus base64 verify (chunk r body offset) st
        ≡ patch_stage (chunk r body offset) (id_of r) m staged st
  unfolding serve_tus storage_auth storage_claims request_key
  serve_tus-patch_stage body staged offset st w h =
      let sent = chunk r body offset in
      let method : serve_tus base64 verify sent st
          ≡ as_role base64 verify sent (storage_auth verify st.project r.http) st =
        ap (λ x. past_options base64 verify sent x st) c.patches in
      let role = ap (λ o. as_role base64 verify sent o st) w.caller in
      let writer : as_role base64 verify sent (some w.role) st
          ≡ in_bucket base64 verify sent w.role (until slash r.rest) st =
        rw w.writes refl in
      let bucket : in_bucket base64 verify sent w.role (until slash r.rest) st
          ≡ with_id sent (until slash r.rest) (id_of r) st =
        rw (w.there, c.named) refl in
      let id : with_id sent (until slash r.rest) (id_of r) st
          ≡ with_meta sent (until slash r.rest) (id_of r) (lookup (id_of r) st.metas) st =
        rw c.clean refl in
      let meta = ap (λ o. with_meta sent (until slash r.rest) (id_of r) o st) w.described in
      let same : with_meta sent (until slash r.rest) (id_of r) (some m) st
          ≡ with_stage sent (id_of r) m (lookup (id_of r) st.stages) st =
        rw w.belongs refl in
      method
      ∙ role
      ∙ writer
      ∙ bucket
      ∙ id
      ∙ meta
      ∙ same
      ∙ ap (λ o. with_stage sent (id_of r) m o st) h
      ∙ ap (λ x. on_stage sent x (id_of r) m staged st) c.patches

  -- The chunks one after the other, each at the offset where the one before it ended; what is
  -- staged is read from the state.
  abbrev pub send : List Bytes → ℕ → Staging → Staging
  send [] offset st = st
  send (b ∷ bs) offset st =
      send bs (offset + length b) (serve_tus base64 verify (chunk r b offset) st).0

  -- Only the last chunk completes the upload.
  abbrev pub Cut : List Bytes → ℕ → Type 0
  Cut [] offset = Unit
  Cut (b ∷ []) offset = Unit
  Cut (b ∷ d ∷ bs) offset = (offset + length b < m.size) × Cut (d ∷ bs) (offset + length b)

  -- The state after a chunk that does not complete the upload.
  partial :
      (b staged : Bytes) (st : Staging)
      → Ready verify r m st
      → lookup (id_of r) st.stages ≡ some staged
      → m.size ≤ int64_max
      → length staged + length b < m.size
      → (serve_tus base64 verify (chunk r b (length staged)) st).0
        ≡ record st { stages = put (id_of r) (staged ++ b) st.stages }
  partial b staged st w h max less =
      ap (λ q. q.0) (serve_tus-patch_stage b staged (length staged) st w h)
      ∙ staged_chunk r c (id_of r) m staged b st max less

  -- Chunks sent one after the other, each at the offset where the one before it ended and none but
  -- the last completing the upload, leave the project and the staged uploads as their
  -- concatenation sent at once does, where the key may write to the upload and its size fits 64
  -- bits.
  pub send-concat :
      (b : Bytes) (bs : List Bytes) (staged : Bytes) (st : Staging)
      → Ready verify r m st
      → lookup (id_of r) st.stages ≡ some staged
      → m.size ≤ int64_max
      → length staged ≤ m.size
      → Cut (b ∷ bs) (length staged)
      → send (b ∷ bs) (length staged) st
        ≡ (serve_tus base64 verify (chunk r (b ++ concat bs) (length staged)) st).0
  send-concat b [] staged st w h max le cut = rw append-nil refl
  send-concat b (d ∷ bs) staged st w h max le cut =
      let id = id_of r in
      let joined = staged ++ b in
      let st' : Staging = record st { stages = put id joined st.stages } in
      let w' : Ready verify r m st' = record {
        role = w.role;
        caller = w.caller;
        writes = w.writes;
        there = w.there;
        described = w.described;
        belongs = w.belongs;
      } in
      let h' : lookup id st'.stages ≡ some joined =
        rw (lookup-put id id joined st.stages, eqb_refl id) refl in
      let long : length staged + length b ≡ length joined = sym (length-append staged b) in
      let rest = d ++ concat bs in
      let cut' : Cut (d ∷ bs) (length joined) = subst (λ n. Cut (d ∷ bs) n) long cut.1 in
      ap (λ q. send (d ∷ bs) (length staged + length b) q) (partial b staged st w h max cut.0)
      ∙ ap (λ n. send (d ∷ bs) n st') long
      ∙ send-concat d bs joined st' w' h' max (omega (arith, long, cut.0)) cut'
      ∙ ap (λ q. q.0) (serve_tus-patch_stage rest joined (length joined) st' w' h')
      ∙ ap (λ q. (patch_stage (chunk r rest (length joined)) id m joined q).0)
          (sym (staged_chunk r c id m staged b st max cut.0))
      ∙ two_chunks r c id m staged b rest st max cut.0
      ∙ ap (λ q. q.0) (sym (serve_tus-patch_stage (b ++ rest) staged (length staged) st w h))
