-- ===== src/Storage/Binding.antt =====
-- What object, and what use, a signed token of pgforge/storage.go is bound to. The checks compare
-- digests, so a token opens what is not its own only where two different messages have one digest,
-- and the theorems name the two.
use forgebase.Common.{
  ℕ, true, false, not, ◌||◌, ◌≡◌, ◌≢◌, refl, ap, sym, ◌∙◌, ◌⊎◌, some, [], ◌∷◌, ◌++◌, inl, inr,
  arith,
}
use mathlib.Core.List.{append_cancel_left, append_cancel_right}
use forgebase.Common.Tests.{if◌then◌else◌, Bool-cases, Option-cases}
use forgebase.Common.Lists.{length}
use forgebase.Common.Text.{
  Bytes, codes, eqb, eqb_iff, eqb-false, has_byte, until, until-append, behind, behind-append,
}
use forgebase.Common.Decimal.{format}
use forgebase.Storage.Path.{slash, split_object_path}
use forgebase.Storage.Bucket.{Project}
use forgebase.Storage.Objects.{status, file}
use forgebase.Storage.Signed.{
  bar, read_message, upload_message, int_value, is_past, sign_read, read_signed, sign_upload,
}
use forgebase.Storage.Tokens.{split_n-token}

until_clean : (b : ℕ) (s : Bytes) → has_byte b (until b s) ≡ false
unfolding has_byte until
until_clean b [] = refl
until_clean b (c ∷ s) = ground (arith, until_clean b s)

-- A bucket's name, as it is read from a path, holds no slash.
bucket_clean :
    (p bucket rel : Bytes)
    → split_object_path p ≡ some (bucket, rel)
    → has_byte slash bucket ≡ false
unfolding split_object_path
bucket_clean p bucket rel e =
    let same : until slash p ≡ bucket = ground arith in rw (← same) (until_clean slash p)

-- The message names its object.
read_message_inj :
    (slug bucket path bucket' path' exp : Bytes)
    → has_byte slash bucket ≡ false
    → has_byte slash bucket' ≡ false
    → read_message slug bucket path exp ≡ read_message slug bucket' path' exp
    → (bucket ≡ bucket') × (path ≡ path')
read_message_inj slug bucket path bucket' path' exp c c' e =
    let tails : bucket ++ slash ∷ (path ++ bar ∷ exp) ≡ bucket' ++ slash ∷ (path' ++ bar ∷ exp) =
      ap (strip_one) (append_cancel_left slug _ _ e) in
    (
      sym (until-append slash bucket _ c)
          ∙ ap (until slash) tails
          ∙ until-append slash bucket' _ c',
      append_cancel_right path path' (bar ∷ exp) (
          sym (behind-append slash bucket _ c)
          ∙ ap (behind slash) tails
          ∙ behind-append slash bucket' _ c'),
    )
  where
    strip_one : Bytes → Bytes
    strip_one [] = []
    strip_one (x ∷ xs) = xs

-- A read message begins with the project's name, and an upload message does not.
upload_message_ne :
    (slug bucket path bucket' path' exp : Bytes)
    → has_byte slash slug ≡ false
    → upload_message slug bucket path exp ≢ read_message slug bucket' path' exp
upload_message_ne slug bucket path bucket' path' exp c e =
    let front = codes "upload|" ++ slug in
    let clean : has_byte slash front ≡ false = unfold has_byte in c in
    let whole : front ≡ slug =
      sym (until-append slash front (bucket ++ slash ∷ (path ++ bar ∷ exp)) clean)
      ∙ ap (until slash) e
      ∙ until-append slash slug (bucket' ++ slash ∷ (path' ++ bar ∷ exp)) c in
    absurd (omega (arith, ap length whole))

-- Two different messages with one digest.
abbrev pub Collides : (Bytes → Bytes) → Bytes → Bytes → Type 0
Collides mac m m' = (m ≢ m') × (mac m ≡ mac m')

message_cases : (mac : Bytes → Bytes) (m m' : Bytes) → mac m ≡ mac m' → (m ≡ m') ⊎ Collides mac m m'
message_cases mac m m' d = elim (Bool-cases (eqb m m')) [
  | inl e ↦ inl ((eqb_iff m m').0 e)
  | inr e ↦ inr (eqb-false m m' e, d)
]

module _ (mac : Bytes → Bytes) where
  -- What a token for a message opens is what its path names, and the digest of the message is that
  -- of the object's.
  opens :
      (st : Project) (message : Bytes → Bytes) (p bucket path : Bytes) (exp now : ℕ)
      → read_signed mac (format exp ++ b'.' ∷ mac (message (format exp))) p now st
        ≡ file bucket path
      → (split_object_path p ≡ some (bucket, path))
        × (mac (message (format exp)) ≡ mac (read_message st.slug bucket path (format exp)))
  unfolding read_signed
  opens st message p bucket path exp now e = elim (Option-cases (split_object_path p)) [
    | inl q ↦ absurd (cc (rw q at e))
    | inr (bl, q) ↦ go bl.0 bl.1 q (rw (q, split_n-token exp (mac (message (format exp)))) at e)
  ]
    where
      go :
          (b l : Bytes)
          → split_object_path p ≡ some (b, l)
          → (if is_past now (int_value (format exp))
                || not
                    (eqb (mac (read_message st.slug b l (format exp))) (mac (message (format exp))))
              then status 403
              else file b l)
            ≡ file bucket path
          → (split_object_path p ≡ some (bucket, path))
            × (mac (message (format exp)) ≡ mac (read_message st.slug bucket path (format exp)))
      go b l q f =
          let bs : b ≡ bucket = ground arith in
          let ls : l ≡ path = ground arith in
          let same : eqb (mac (read_message st.slug b l (format exp))) (mac (message (format exp)))
              ≡ true =
            ground arith in
          (rw (← bs, ← ls) q, rw (← bs, ← ls) (sym ((eqb_iff _ _).0 same)))

  -- A read token opens, through whatever path it is presented, the object that it was minted for,
  -- unless the different messages of the two objects have one digest.
  pub sign_read_bound :
      (st : Project) (bucket path p bucket' path' : Bytes) (exp now : ℕ)
      → has_byte slash bucket ≡ false
      → read_signed mac (sign_read mac st bucket path exp) p now st ≡ file bucket' path'
      → ((bucket' ≡ bucket) × (path' ≡ path))
        ⊎ Collides mac
            (read_message st.slug bucket path (format exp))
            (read_message st.slug bucket' path' (format exp))
  unfolding sign_read
  sign_read_bound st bucket path p bucket' path' exp now c e =
      let minted = read_message st.slug bucket path in
      let (q, m) = opens st minted p bucket' path' exp now e in
      elim (message_cases mac (minted (format exp))
        (read_message st.slug bucket' path' (format exp)) m) [
          | inl same ↦
              let (b, l) =
                read_message_inj st.slug bucket path bucket' path' (format exp) c
                  (bucket_clean p bucket' path' q) same in
              inl (sym b, sym l)
          | inr two ↦ inr two
        ]

  -- An upload token reads nothing, in a project whose name holds no "/", unless its message and that
  -- of the object have one digest.
  pub sign_upload_bound :
      (st : Project) (bucket rel p bucket' path' : Bytes) (exp now : ℕ)
      → has_byte slash st.slug ≡ false
      → read_signed mac (sign_upload mac st bucket rel exp) p now st ≡ file bucket' path'
      → Collides mac
          (upload_message st.slug bucket rel (format exp))
          (read_message st.slug bucket' path' (format exp))
  unfolding sign_upload
  sign_upload_bound st bucket rel p bucket' path' exp now c e =
      let (q, m) = opens st (upload_message st.slug bucket rel) p bucket' path' exp now e in
      (upload_message_ne st.slug bucket rel bucket' path' (format exp) c, m)
