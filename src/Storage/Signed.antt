-- ===== src/Storage/Signed.antt =====
-- The time-limited tokens of pgforge/storage.go: `signedURL` and the signed mode of
-- `serveStorageRead`, `storageSignUpload` and `storageSignedUploadPut`. `mac` is the first half of
-- the hexadecimal HMAC-SHA256 under the server's secret. Times are Unix seconds.
use forgebase.Common.{
  ℕ, zero, suc, ◌+◌, ◌*◌, ◌-◌, Bool, true, false, not, ◌&&◌, ◌||◌, Option, none, some, List, [],
  ◌∷◌, ◌++◌,
}
use forgebase.Common.Tests.{ltb, ◌==◌, if◌then◌else◌}
use forgebase.Common.Text.{Bytes, codes, eqb}
use forgebase.Common.Split.{split_n}
use forgebase.Common.Decimal.{ℤ, pos, negsuc, format, parse_int, is_digit, int64_max}
use forgebase.Storage.Path.{slash, split_object_path}
use forgebase.Storage.Bucket.{Project, bucket_exists}
use forgebase.Storage.Objects.{
  Verifier, Request, Reply, status, file, storage_auth, can_write, save_object,
}

abbrev pub full_stop : ℕ
full_stop = b'.'

abbrev pub bar : ℕ
bar = b'|'

-- `slug + "/" + bucket + "/" + path + "|" + exp`
abbrev pub read_message : Bytes → Bytes → Bytes → Bytes → Bytes
read_message slug bucket path exp = slug ++ slash ∷ (bucket ++ slash ∷ (path ++ bar ∷ exp))

-- `"upload|" + slug + "/" + bucket + "/" + rel + "|" + exp`
abbrev pub upload_message : Bytes → Bytes → Bytes → Bytes → Bytes
upload_message slug bucket rel exp = codes "upload|" ++ read_message slug bucket rel exp

-- The digits of a number up to the first other byte, which makes it 0; past 2^64 the rest is not
-- read.
unfoldable pub read_value : ℕ → Bytes → ℕ
read_value v [] = v
read_value v (c ∷ s) =
    let more = v * 10 + (c - 48) in
    let rest = read_value more s in
    if not (is_digit c)
    then 0
    else if ltb 18446744073709551615 more
    then 18446744073709551615
    else rest

abbrev capped : ℕ → ℕ → ℕ
capped most n = if ltb most n then most else n

abbrev below_zero : ℕ → ℤ
below_zero zero = pos 0
below_zero (suc n) = negsuc n

-- The value of `strconv.ParseInt` where its error is dropped.
unfoldable pub int_value : Bytes → ℤ
unfolding read_value
int_value [] = pos 0
int_value (c ∷ s) =
    if c == b'-'
    then below_zero (capped (int64_max + 1) (read_value 0 s))
    else if c == b'+'
    then pos (capped int64_max (read_value 0 s))
    else pos (capped int64_max (read_value 0 (c ∷ s)))

-- `now > exp`.
abbrev pub is_past : ℕ → ℤ → Bool
is_past now (pos e) = ltb e now
is_past now (negsuc e) = true

abbrev pub is_live : ℕ → Option ℤ → Bool
is_live now none = false
is_live now (some e) = not (is_past now e)

module _ (mac : Bytes → Bytes) where
  -- The token in the URL of `signedURL`.
  unfoldable pub sign_read : Project → Bytes → Bytes → ℕ → Bytes
  sign_read st bucket path exp =
      let text = format exp in text ++ full_stop ∷ mac (read_message st.slug bucket path text)

  abbrev sign_at : Project → ℕ → Option (Bytes × Bytes) → Option (Bytes × Bytes × Bytes) × ℕ
  sign_at st exp none = (none, 404)
  sign_at st exp (some (bucket, rel)) =
      if bucket_exists st bucket
      then (some (bucket, rel, sign_read st bucket rel exp), 200)
      else (none, 404)

  abbrev sign_as : Project → ℕ → Bytes → Option Bytes → Option (Bytes × Bytes × Bytes) × ℕ
  sign_as st exp p none = (none, 401)
  sign_as st exp p (some role) = sign_at st exp (split_object_path p)

  -- `storageCreateSignedURL`: the bucket, the path and the token of the URL, for `expires_in`
  -- seconds, or 3600 where that is not positive.
  unfoldable pub create_signed_url :
      Verifier → Request → Bytes → ℕ → ℕ → Project → Option (Bytes × Bytes × Bytes) × ℕ
  create_signed_url verify r p expires_in now st =
      sign_as st (now + (if ltb 0 expires_in then expires_in else 3600)) p
        (storage_auth verify st r)

  -- `serveStorageRead` in its signed mode, on the parts of the token.
  abbrev open_parts : Project → ℕ → Bytes → Bytes → List Bytes → Reply
  open_parts st now bucket path (exp ∷ sig ∷ []) =
      if is_past now (int_value exp) || not (eqb (mac (read_message st.slug bucket path exp)) sig)
      then status 403
      else file bucket path
  open_parts st now bucket path _ = status 403

  abbrev open_at : Project → ℕ → Bytes → Option (Bytes × Bytes) → Reply
  open_at st now token none = status 404
  open_at st now token (some (bucket, path)) =
      open_parts st now bucket path (split_n 1 full_stop token)

  -- `p` stands behind "sign/".
  unfoldable pub read_signed : Bytes → Bytes → ℕ → Project → Reply
  read_signed token p now st = open_at st now token (split_object_path p)

  unfoldable pub sign_upload : Project → Bytes → Bytes → ℕ → Bytes
  sign_upload st bucket rel exp =
      let text = format exp in text ++ full_stop ∷ mac (upload_message st.slug bucket rel text)

  abbrev sign_upload_at : Project → ℕ → Option (Bytes × Bytes) → Option Bytes × ℕ
  sign_upload_at st exp none = (none, 404)
  sign_upload_at st exp (some (bucket, rel)) =
      if bucket_exists st bucket then (some (sign_upload st bucket rel exp), 200) else (none, 404)

  abbrev sign_upload_as : Project → ℕ → Bytes → Option Bytes → Option Bytes × ℕ
  sign_upload_as st exp p none = (none, 401)
  sign_upload_as st exp p (some role) =
      if can_write role then sign_upload_at st exp (split_object_path p) else (none, 401)

  -- `storageSignUpload`: a token for two hours.
  unfoldable pub storage_sign_upload : Verifier → Request → Bytes → ℕ → Project → Option Bytes × ℕ
  storage_sign_upload verify r p now st =
      sign_upload_as st (now + 7200) p (storage_auth verify st r)

  -- Whether the parts of an upload token are valid.
  abbrev pub upload_valid : Project → ℕ → Bytes → Bytes → List Bytes → Bool
  upload_valid st now bucket rel (exp ∷ sig ∷ []) =
      is_live now (parse_int exp) && eqb (mac (upload_message st.slug bucket rel exp)) sig
  upload_valid st now bucket rel _ = false

  abbrev put_at : Request → Bytes → ℕ → Project → Option (Bytes × Bytes) → Project × ℕ
  put_at r token now st none = (st, 404)
  put_at r token now st (some (bucket, rel)) =
      if not (bucket_exists st bucket)
      then (st, 404)
      else if upload_valid st now bucket rel (split_n 1 full_stop token)
      then save_object r bucket rel st
      else (st, 403)

  -- `storageSignedUploadPut`.
  unfoldable pub storage_signed_upload_put : Request → Bytes → Bytes → ℕ → Project → Project × ℕ
  storage_signed_upload_put r token p now st = put_at r token now st (split_object_path p)
