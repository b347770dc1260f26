-- ===== src/Panel/Sessions.antt =====
-- What a session cookie opens.
use forgebase.Common.{
  ℕ, suc, ◌+◌, ◌≤◌, Bool, false, ◌≡◌, refl, ap, ◌∙◌, none, some, [], ◌∷◌, ◌++◌, arith,
}
use forgebase.Common.Tests.{ltb, if◌then◌else◌}
use forgebase.Common.Text.{Bytes, eqb_refl, has_byte, has_byte-append}
use forgebase.Common.Split.{split_n, split_n-append}
use forgebase.Common.Map.{Map, lookup}
use forgebase.Common.Decimal.{format, parse_int-format, has_byte-format, int64_max}
use forgebase.Storage.Signed.{full_stop}
use forgebase.Panel.{
  colon, session_message, is_current, lifetime, cookie, set_session, session_name,
}

split_n-clean : (n b : ℕ) (s : Bytes) → has_byte b s ≡ false → split_n (suc n) b s ≡ s ∷ []
unfolding split_n has_byte
split_n-clean n b [] h = refl
split_n-clean n b (c ∷ s) h = ground (arith, split_n-clean n b s)

-- The cookie with its row's id moved into the name: three parts, like those of the older cookies.
abbrev pub older : (Bytes → Bytes) → (Bytes → Bytes) → Bytes → ℕ → Bytes → Bytes
older mac encode name exp sid =
    (encode name ++ colon ∷ sid)
    ++ full_stop ∷ (format exp ++ full_stop ∷ mac (session_message (format exp) (encode name) sid))

module _ (mac encode decode : Bytes → Bytes) (name sid : Bytes)
    (name_clean : has_byte full_stop (encode name) ≡ false)
    (sid_clean : has_byte full_stop sid ≡ false) where
  -- The cookie of `setSession` names its user up to and at its time while its row is there and
  -- current, and nobody after that or once the row is gone, whatever the other rows are.
  pub session_name-set_session :
      (now later : ℕ) (remember : Bool) (rows rows' : Map ℕ)
      → decode (encode name) ≡ name
      → now + lifetime remember ≤ int64_max
      → session_name mac decode later rows' (set_session mac encode now name remember sid rows).1
        ≡ (if ltb (now + lifetime remember) later
            then none
            else if is_current later (lookup sid rows')
            then some name
            else none)
  unfolding session_name set_session
  session_name-set_session now later remember rows rows' back small =
      let exp = format (now + lifetime remember) in
      let sig = mac (session_message exp (encode name) sid) in
      let parts : split_n 3 full_stop (cookie mac encode name exp sid)
          ≡ encode name ∷ exp ∷ sid ∷ sig ∷ [] =
        split_n-append 2 full_stop (encode name) _ name_clean
        ∙ ap (λ ps. encode name ∷ ps)
            (split_n-append 1 full_stop exp _ (has_byte-format full_stop _ refl)
              ∙ ap (λ ps. exp ∷ ps)
                  (split_n-append 0 full_stop sid sig sid_clean ∙ unfold split_n in refl)) in
      rw (parts, parse_int-format (now + lifetime remember) small, eqb_refl sig, back)
        (ground arith)

  -- The same cookie, cut into the three parts of the older cookies with the row's id moved into the
  -- name, names its user up to and at its time with no row at all: both kinds of cookie sign the
  -- same text. It takes the decoding, which stops at the ":", to give the whole name.
  pub session_name_revived :
      (exp later : ℕ) (rows : Map ℕ)
      → decode (encode name ++ colon ∷ sid) ≡ name
      → has_byte full_stop (mac (session_message (format exp) (encode name) sid)) ≡ false
      → exp ≤ int64_max
      → session_name mac decode later rows (older mac encode name exp sid)
        ≡ (if ltb exp later then none else some name)
  unfolding session_name
  session_name_revived exp later rows back sig_clean small =
      let sig = mac (session_message (format exp) (encode name) sid) in
      let front = encode name ++ colon ∷ sid in
      let front_clean : has_byte full_stop front ≡ false =
        has_byte-append full_stop (encode name) (colon ∷ sid)
        ∙ rw (name_clean) (unfold has_byte in sid_clean) in
      let parts : split_n 3 full_stop (older mac encode name exp sid)
          ≡ front ∷ format exp ∷ sig ∷ [] =
        split_n-append 2 full_stop front _ front_clean
        ∙ ap (λ ps. front ∷ ps)
            (split_n-append 1 full_stop (format exp) _ (has_byte-format full_stop _ refl)
              ∙ ap (λ ps. format exp ∷ ps) (split_n-clean 0 full_stop sig sig_clean)) in
      rw (parts, parse_int-format exp small, eqb_refl sig, back) (ground arith)
