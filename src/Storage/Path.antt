-- ===== src/Storage/Path.antt =====
-- `safeRel`, `splitObjectPath`, `ownerSegment`, `bucketRe`, `mimeAllowed` and `inlineSafeMime` of
-- pgforge/storage.go and pgforge/storagerules.go.
use forgebase.Common.{ℕ, Bool, true, false, not, ◌&&◌, ◌||◌, Option, none, some, List, [], ◌∷◌}
use forgebase.Common.Tests.{leb, ◌==◌, if◌then◌else◌}
use forgebase.Common.Lists.{length, keep, all, any}
use forgebase.Common.Text.{
  Bytes, codes, eqb, has_prefix, trim_prefix, has_byte, until, behind, trim_space, to_lower,
}
use forgebase.Common.Split.{split, join}

abbrev pub slash : ℕ
slash = b'/'

-- `strings.TrimLeft(p, "/")`; `filepath.ToSlash` changes nothing on Linux.
unfoldable pub trim_slashes : Bytes → Bytes
trim_slashes [] = []
trim_slashes (c ∷ s) = let rest = trim_slashes s in if c == slash then rest else c ∷ s

abbrev pub dot : Bytes
dot = b'.' ∷ []

abbrev pub dots : Bytes
dots = b'.' ∷ b'.' ∷ []

-- A segment that `safeRel` keeps.
unfoldable pub is_proper : Bytes → Bool
unfolding eqb
is_proper seg = not (eqb seg [] || eqb seg dot || eqb seg dots)

unfoldable pub safe_rel : Bytes → Bytes
unfolding trim_slashes is_proper split join
safe_rel p = join slash (keep is_proper (split slash (trim_slashes p)))

-- The bucket and the cleaned path; `none` where `ok` is false.
unfoldable pub split_object_path : Bytes → Option (Bytes × Bytes)
unfolding safe_rel has_byte until behind eqb
split_object_path p =
    let rel = safe_rel (behind slash p) in
    if not (has_byte slash p) || eqb rel [] then none else some (until slash p, rel)

unfoldable pub owner_segment : Bytes → Bytes → Bytes
unfolding trim_prefix until
owner_segment path prefix = until slash (trim_prefix (trim_prefix path prefix) (slash ∷ []))

abbrev pub is_lower_digit : ℕ → Bool
is_lower_digit c = leb b'a' c && leb c b'z' || leb b'0' c && leb c b'9'

-- `^[a-z0-9][a-z0-9_-]{1,40}$`
unfoldable pub bucket_re : Bytes → Bool
bucket_re [] = false
bucket_re (c ∷ s) =
    is_lower_digit c
    && all (λ d. is_lower_digit d || d == b'_' || d == b'-') s
    && leb 1 (length s)
    && leb (length s) 40

-- An empty list allows every type.
unfoldable pub mime_allowed : Bytes → List Bytes → Bool
unfolding has_prefix
mime_allowed mime [] = true
mime_allowed mime (p ∷ ps) = any (has_prefix mime) (p ∷ ps)

-- The type before its parameters, as `inlineSafeMime` reads it.
unfoldable pub media_type : Bytes → Bytes
unfolding trim_space to_lower has_byte until
media_type m =
    let t = to_lower (trim_space m) in if has_byte b';' t then trim_space (until b';' t) else t

unfoldable pub inline_safe_mime : Bytes → Bool
unfolding media_type has_prefix eqb
inline_safe_mime m =
    let t = media_type m in
    if has_prefix t (codes "image/") && not (eqb t (codes "image/svg+xml"))
    then true
    else if has_prefix t (codes "video/") || has_prefix t (codes "audio/")
    then true
    else eqb t (codes "application/pdf")
      || eqb t (codes "text/plain")
      || eqb t (codes "application/json")
