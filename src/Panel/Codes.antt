-- ===== src/Panel/Codes.antt =====
-- The second step of a login: the token that leads to it and the code that ends it.
use forgebase.Common.{
  ℕ, suc, ◌+◌, ◌-◌, ◌/◌, ◌%◌, ◌≤◌, Bool, true, false, not, ◌≡◌, refl, sym, ap, ◌∙◌, Option, none,
  some, List, [], ◌∷◌, ◌++◌, inl, inr, arith,
}
use forgebase.Common.Tests.{ltb, ◌==◌, if◌then◌else◌, Bool-cases}
use forgebase.Common.Lists.{length}
use forgebase.Common.Text.{
  Bytes, codes, eqb, eqb_refl, eqb_iff, has_byte, is_space, trim_left, trim_space,
}
use forgebase.Common.Split.{split, join, split-join, cons_head}
use forgebase.Common.Decimal.{format, parse_int-format, has_byte-format, int64_max}
use forgebase.Storage.Signed.{bar}
use forgebase.Panel.{
  flag, preauth_message, preauth_token, preauth_of_parts, parse_preauth, six_digits, digits_onto,
  plain_secret, truncated, big_endian, code_of, matches, totp_at, totp_verify,
}

flag-clean : (b : Bool) → has_byte bar (flag b) ≡ false
unfolding has_byte
flag-clean true = refl
flag-clean false = refl

length-cons_head : (c : ℕ) (ps : List Bytes) → length ps ≤ length (cons_head c ps)
length-cons_head c [] = omega arith
length-cons_head c (p ∷ ps) = omega arith

-- A text cut at a byte has one part more than it holds that byte, at least.
split_pieces : (b : ℕ) (s : Bytes) → 1 ≤ length (split b s)
unfolding split
split_pieces b [] = omega arith
split_pieces b (c ∷ s) = ground (arith, split_pieces b s, length-cons_head c (split b s))

split_more : (b : ℕ) (s t : Bytes) → suc (length (split b t)) ≤ length (split b (s ++ b ∷ t))
unfolding split
split_more b [] t = ground arith
split_more b (c ∷ s) t = ground (arith, split_more b s t, length-cons_head c (split b (s ++ b ∷ t)))

split_marked :
    (b : ℕ) (s t : Bytes)
    → has_byte b s ≡ true
    → suc (suc (length (split b t))) ≤ length (split b (s ++ b ∷ t))
unfolding split has_byte
split_marked b [] t h = cc
split_marked b (c ∷ s) t h =
    ground (arith, split_marked b s t, split_more b s t, length-cons_head c (split b (s ++ b ∷ t)))

module _ (mac : Bytes → Bytes) where
  five_parts : (now : ℕ) (ps : List Bytes) → 5 ≤ length ps → preauth_of_parts mac now ps ≡ none
  five_parts now [] h = refl
  five_parts now (a ∷ []) h = refl
  five_parts now (a ∷ b ∷ []) h = refl
  five_parts now (a ∷ b ∷ c ∷ []) h = refl
  five_parts now (a ∷ b ∷ c ∷ d ∷ []) h = absurd (omega arith)
  five_parts now (a ∷ b ∷ c ∷ d ∷ e ∷ ps) h = refl

  -- The token of the first step leads to the second, with its name and its choice, for five minutes
  -- and not longer, where the name and the digest hold no "|".
  pub parse_preauth-preauth_token :
      (name : Bytes) (remember : Bool) (now later : ℕ)
      → has_byte bar name ≡ false
      → has_byte bar (mac (preauth_message name (format (now + 300)) (flag remember))) ≡ false
      → now + 300 ≤ int64_max
      → parse_preauth mac later (preauth_token mac now name remember)
        ≡ (if ltb (now + 300) later then none else some (name, remember))
  unfolding parse_preauth preauth_token eqb
  parse_preauth-preauth_token name remember now later clean sig_clean small =
      let exp = format (now + 300) in
      let rem = flag remember in
      let sig = mac (preauth_message name exp rem) in
      let parts : split bar (name ++ bar ∷ (exp ++ bar ∷ (rem ++ bar ∷ sig)))
          ≡ name ∷ exp ∷ rem ∷ sig ∷ [] =
        unfold join in
        split-join bar name (exp ∷ rem ∷ sig ∷ [])
          (clean, (has_byte-format bar (now + 300) refl, (flag-clean remember, (sig_clean, tt)))) in
      rw (parts, eqb_refl sig, parse_int-format (now + 300) small) (flagged remember)
    where
      flagged :
          (b : Bool)
          → ◌≡◌ {A = Option (Bytes × Bool)}
              (if not (not (ltb (now + 300) later))
                then none
                else some (name, eqb (flag b) (codes "1")))
              (if ltb (now + 300) later then none else some (name, b))
      flagged true = ground arith
      flagged false = ground arith

  -- An account whose name holds a "|" never gets past the second step: its own token is refused.
  pub preauth_token_barred :
      (name : Bytes) (remember : Bool) (now later : ℕ)
      → has_byte bar name ≡ true
      → parse_preauth mac later (preauth_token mac now name remember) ≡ none
  unfolding parse_preauth preauth_token
  preauth_token_barred name remember now later h =
      let exp = format (now + 300) in
      let rem = flag remember in
      let sig = mac (preauth_message name exp rem) in
      five_parts later _ (
        omega (
          arith,
          split_marked bar name (exp ++ bar ∷ (rem ++ bar ∷ sig)) h,
          split_more bar exp (rem ++ bar ∷ sig),
          split_more bar rem sig,
          split_pieces bar sig,
        ))

digit_kept : (n : ℕ) (s : Bytes) → trim_left ((48 + n % 10) ∷ s) ≡ (48 + n % 10) ∷ s
unfolding trim_left is_space
digit_kept n s = ground arith

six_digits_lem : (n : ℕ) → (length (six_digits n) ≡ 6) × (trim_space (six_digits n) ≡ six_digits n)
unfolding six_digits digits_onto trim_space
six_digits_lem n = (refl, rw (digit_kept (n / 10 / 10 / 10 / 10 / 10), digit_kept n) refl)

module _ (base32 : Bytes → Option Bytes) (hmac : Bytes → Bytes → Bytes) where
  -- A code depends on its step of thirty seconds alone.
  totp_at-step :
      (secret : Bytes) (s t : ℕ)
      → s / 30 ≡ t / 30
      → totp_at base32 hmac secret s ≡ totp_at base32 hmac secret t
  unfolding totp_at
  totp_at-step secret s t e = by_key (base32 (plain_secret (trim_space secret)))
    where
      by_key : (key : Option Bytes) → code_of base32 hmac key s ≡ code_of base32 hmac key t
      by_key none = refl
      by_key (some []) = refl
      by_key (some (k ∷ key)) = rw e refl

  totp_at_shape :
      (secret code : Bytes) (s : ℕ)
      → totp_at base32 hmac secret s ≡ some code
      → (length code ≡ 6) × (trim_space code ≡ code)
  unfolding totp_at
  totp_at_shape secret code s = shaped (base32 (plain_secret (trim_space secret)))
    where
      shaped :
          (key : Option Bytes)
          → code_of base32 hmac key s ≡ some code
          → (length code ≡ 6) × (trim_space code ≡ code)
      shaped none e = absurd (cc)
      shaped (some []) e = absurd (cc)
      shaped (some (k ∷ key)) e =
          let n = truncated (hmac (k ∷ key) (big_endian 8 (s / 30) [])) % 1000000 in
          let same : six_digits n ≡ code = ground (arith, e) in rw (← same) (six_digits_lem n)

  -- The code that an authenticator shows in some step is accepted in that step, in the one before it
  -- and in the one after it, with or without white space around it.
  pub totp_verify_window :
      (secret code typed : Bytes) (s t : ℕ)
      → totp_at base32 hmac secret s ≡ some code
      → trim_space typed ≡ code
      → 30 ≤ t
      → s / 30 ≤ t / 30 + 1
      → t / 30 ≤ s / 30 + 1
      → totp_verify base32 hmac secret typed t ≡ true
  unfolding totp_verify
  totp_verify_window secret code typed s t e w early lo hi = elim (Bool-cases (s / 30 == t / 30)) [
    | inl q ↦
        let at_t = sym (totp_at-step secret s t (ground arith)) ∙ e in
        rw (w, shape.0, at_t) (ground (arith, eqb_refl code))
    | inr q ↦ elim (Bool-cases (ltb (s / 30) (t / 30))) [
      | inl l ↦
          let before = sym (totp_at-step secret s (t - 30) (ground arith)) ∙ e in
          rw (w, shape.0, before) (ground (arith, eqb_refl code))
      | inr l ↦
          let behind = sym (totp_at-step secret s (t + 30) (ground arith)) ∙ e in
          rw (w, shape.0, behind) (ground (arith, eqb_refl code))
    ]
  ]
    where
      shape : (length code ≡ 6) × (trim_space code ≡ code)
      shape = totp_at_shape secret code s e

  -- What is accepted is the code of one of those three steps.
  pub totp_verify_only :
      (secret typed : Bytes) (t : ℕ)
      → totp_verify base32 hmac secret typed t ≡ true
      → (s : ℕ) × (totp_at base32 hmac secret s ≡ some (trim_space typed))
        × (t ≤ s + 30)
        × (s ≤ t + 30)
  unfolding totp_verify
  totp_verify_only secret typed t h =
      elim (Bool-cases
        (matches base32 hmac (totp_at base32 hmac secret (t + 30)) (trim_space typed))) [
          | inl a ↦ (t + 30, matched _ a, omega arith, omega arith)
          | inr a ↦
              elim (Bool-cases
                (matches base32 hmac (totp_at base32 hmac secret (t - 30)) (trim_space typed))) [
                  | inl b ↦ (t - 30, matched _ b, omega arith, omega arith)
                  | inr b ↦ (t, matched _ (ground arith), omega arith, omega arith)
                ]
        ]
    where
      matched :
          (o : Option Bytes)
          → matches base32 hmac o (trim_space typed) ≡ true
          → o ≡ some (trim_space typed)
      matched none m = absurd (cc)
      matched (some c) m = ap some ((eqb_iff c (trim_space typed)).0 m)
