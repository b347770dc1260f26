-- ===== src/Storage/Tokens.antt =====
-- What a signed token opens.
use forgebase.Common.{ℕ, suc, ◌+◌, ◌*◌, ◌-◌, ◌≤◌, true, ◌≡◌, refl, ◌∙◌, some, [], ◌∷◌, ◌++◌, arith}
use forgebase.Common.Tests.{ltb, if◌then◌else◌}
use forgebase.Common.Text.{Bytes, eqb_refl}
use forgebase.Common.Split.{split_n, split_n-append}
use forgebase.Common.Decimal.{
  pos, format, parse_int-format, has_byte-format, int64_max, read_digits, read_digits-format_onto,
  format_onto, format_onto-head, is_digit,
}
use forgebase.Storage.Path.{split_object_path}
use forgebase.Storage.Bucket.{Project, bucket_exists}
use forgebase.Storage.Objects.{Request, status, file, save_object}
use forgebase.Storage.Signed.{
  full_stop, read_message, upload_message, int_value, read_value, sign_read, read_signed,
  sign_upload, storage_signed_upload_put,
}

-- A token splits into its time and its signature.
pub split_n-token :
    (n : ℕ) (sig : Bytes) → split_n 1 full_stop (format n ++ full_stop ∷ sig) ≡ format n ∷ sig ∷ []
split_n-token n sig =
    split_n-append 0 full_stop (format n) sig (has_byte-format full_stop n refl)
    ∙ unfold split_n in refl

-- Reading on never makes a number smaller.
read_digits_grows : (v w : ℕ) (s : Bytes) → read_digits v s ≡ some w → v ≤ w
unfolding read_digits
read_digits_grows v w [] e = ground arith
read_digits_grows v w (c ∷ s) e = ground (arith, read_digits_grows (v * 10 + (c - 48)) w s)

read_value-read_digits :
    (v w : ℕ) (s : Bytes) → read_digits v s ≡ some w → w ≤ int64_max + 1 → read_value v s ≡ w
unfolding read_digits read_value
read_value-read_digits v w [] e h = ground arith
read_value-read_digits v w (c ∷ s) e h = ground (
  arith,
  read_value-read_digits (v * 10 + (c - 48)) w s,
  read_digits_grows (v * 10 + (c - 48)) w s,
)

-- The two readings of a text agree where the strict one succeeds.
pub int_value-format : (n : ℕ) → n ≤ int64_max → int_value (format n) ≡ pos n
unfolding read_digits
int_value-format n h = let (c, s, e, d) = format_onto-head (suc n) n [] (omega arith) in go c s e d
  where
    go :
        (c : ℕ) (s : Bytes)
        → format_onto (suc n) n [] ≡ c ∷ s
        → is_digit c ≡ true
        → int_value (format n) ≡ pos n
    go c s e d =
        unfold format int_value in
        rw e (
          ground (
            arith,
            read_value-read_digits 0 n (c ∷ s)
                (rw e at (read_digits-format_onto (suc n) n [] (omega arith))),
          ))

module _ (mac : Bytes → Bytes) where
  -- A token minted for an object of the project opens that object, through any spelling of its
  -- path, up to and at its time and not after it.
  pub read_signed-sign_read :
      (st : Project) (p bucket path : Bytes) (exp now : ℕ)
      → split_object_path p ≡ some (bucket, path)
      → exp ≤ int64_max
      → read_signed mac (sign_read mac st bucket path exp) p now st
        ≡ (if ltb exp now then status 403 else file bucket path)
  unfolding read_signed sign_read
  read_signed-sign_read st p bucket path exp now q h =
      rw
        (
          q,
          split_n-token exp (mac (read_message st.slug bucket path (format exp))),
          int_value-format exp h,
        )
        (ground (arith, eqb_refl (mac (read_message st.slug bucket path (format exp)))))

  -- An upload token minted for an object of the project lets the request that holds it write that
  -- object, with no other key, up to and at its time and not after it.
  pub storage_signed_upload_put-sign_upload :
      (r : Request) (st : Project) (p bucket rel : Bytes) (exp now : ℕ)
      → split_object_path p ≡ some (bucket, rel)
      → bucket_exists st bucket ≡ true
      → exp ≤ int64_max
      → storage_signed_upload_put mac r (sign_upload mac st bucket rel exp) p now st
        ≡ (if ltb exp now then (st, 403) else save_object r bucket rel st)
  unfolding storage_signed_upload_put sign_upload
  storage_signed_upload_put-sign_upload r st p bucket rel exp now q b h =
      rw
        (
          q,
          b,
          split_n-token exp (mac (upload_message st.slug bucket rel (format exp))),
          parse_int-format exp h,
        )
        (ground (arith, eqb_refl (mac (upload_message st.slug bucket rel (format exp)))))
