-- ===== src/Refresh.antt =====
-- The refresh tokens of a project's end users (pgforge/authusers.go): `issueTokensAAL`,
-- `handleRefresh`, and the revocations of the log-out endpoint. The rows of
-- `auth.refresh_tokens` are a list, a new row at its end. The access token is not modelled.

pub mod Rotation
pub mod Family
mod Tests
use forgebase.Common.{
  ℕ, ◌+◌, ◌*◌, Bool, true, false, not, ◌&&◌, Option, none, some, List, [], ◌∷◌, ◌++◌,
}
use forgebase.Common.Tests.{leb, if◌then◌else◌}
use forgebase.Common.Text.{Bytes, eqb}
use forgebase.Common.Map.{Map, lookup}

-- Times are Unix seconds; `hash` is the hexadecimal SHA-256 of the token.
pub record Token : Type 0 where
  pub user : Bytes
  pub hash : Bytes
  pub family : Bytes
  pub revoked : Bool
  pub expires_at : ℕ

-- The users are their ids with their addresses.
pub record Sessions : Type 0 where
  pub tokens : List Token
  pub users : Map Bytes
  pub single_session : Bool

-- What the environment answers a mint: the random token's hash, the default of `family_id`, and
-- whether the insertion succeeds.
pub record Mint : Type 0 where
  pub hash : Bytes
  pub new_family : Bytes
  pub inserts : Bool

abbrev pub thirty_days : ℕ
thirty_days = 2592000

-- `SET revoked=true WHERE test`.
unfoldable pub revoke : (Token → Bool) → List Token → List Token
revoke p [] = []
revoke p (t ∷ ts) = (if p t then record t { revoked = true } else t) ∷ revoke p ts

-- The row with this hash.
unfoldable pub find_token : Bytes → List Token → Option Token
find_token h [] = none
find_token h (t ∷ ts) = let rest = find_token h ts in if eqb t.hash h then some t else rest

-- The row of a new token; an empty family takes the column's default.
abbrev pub minted : Mint → ℕ → Bytes → Bytes → Token
minted m now user family = record {
  user = user;
  hash = m.hash;
  family = if eqb family [] then m.new_family else family;
  revoked = false;
  expires_at = now + thirty_days;
}

-- Single-session mode revokes the user's other tokens first.
unfoldable pub sweep : Bool → Bytes → List Token → List Token
sweep single user ts = if single then revoke (λ t. eqb t.user user && not t.revoked) ts else ts

unfoldable pub insert : Mint → Token → List Token → List Token
insert m row ts = if m.inserts then ts ++ row ∷ [] else ts

-- `issueTokensAAL`; `false` is an error of the insertion.
unfoldable pub issue_tokens : Mint → ℕ → Bytes → Bytes → Sessions → Sessions × Bool
issue_tokens m now user family s = (
  record s { tokens = insert m (minted m now user family) (sweep s.single_session user s.tokens) },
  m.inserts,
)

pub data Reply : Type 0 where
  required invalid reused expired failed : Reply
  issued : Bytes → Bytes → Reply

abbrev pub rotated : Token → Sessions × Bool → Sessions × Reply
rotated t (s, true) = (s, issued t.user t.family)
rotated t (s, false) = (s, failed)

-- `handleRefresh` on the row that the join of the tokens and the users gives.
abbrev pub refresh_row : Mint → ℕ → Bytes → Sessions → Token → Sessions × Reply
refresh_row m now h s t =
    if t.revoked
    then (record s { tokens = revoke (λ u. eqb u.family t.family) s.tokens }, reused)
    else if leb t.expires_at now
    then (s, expired)
    else rotated t (
        issue_tokens m now t.user t.family
          (record s { tokens = revoke (λ u. eqb u.hash h) s.tokens }))

abbrev pub refresh_user : Mint → ℕ → Bytes → Sessions → Token → Option Bytes → Sessions × Reply
refresh_user m now h s t none = (s, invalid)
refresh_user m now h s t (some email) = refresh_row m now h s t

abbrev pub refresh_found : Mint → ℕ → Bytes → Sessions → Option Token → Sessions × Reply
refresh_found m now h s none = (s, invalid)
refresh_found m now h s (some t) = refresh_user m now h s t (lookup t.user s.users)

module _ (sha : Bytes → Bytes) where
  -- The token is the body's `refresh_token`. `issued` names the user and the family.
  unfoldable pub handle_refresh : Mint → ℕ → Bytes → Sessions → Sessions × Reply
  handle_refresh m now token s =
      if eqb token []
      then (s, required)
      else refresh_found m now (sha token) s (find_token (sha token) s.tokens)

abbrev pub revoke_user_of : Option Token → List Token → List Token
revoke_user_of none ts = ts
revoke_user_of (some t) ts = revoke (λ u. eqb u.user t.user) ts

module _ (sha : Bytes → Bytes) where
  -- The log-out endpoint; `global` is `scope=global`.
  unfoldable pub logout : Bool → Bytes → Sessions → Sessions
  logout global token s =
      if eqb token []
      then s
      else if global
      then record s { tokens = revoke_user_of (find_token (sha token) s.tokens) s.tokens }
      else record s { tokens = revoke (λ u. eqb u.hash (sha token)) s.tokens }

-- What can happen to the rows: a refresh, a sign-in, a log-out.
pub data Op : Type 0 where
  refresh : Mint → ℕ → Bytes → Op
  sign_in : Mint → ℕ → Bytes → Op
  sign_out : Bool → Bytes → Op

module _ (sha : Bytes → Bytes) where
  unfoldable pub step : Op → Sessions → Sessions
  step (refresh m now token) s = (handle_refresh sha m now token s).0
  step (sign_in m now user) s = (issue_tokens m now user [] s).0
  step (sign_out global token) s = logout sha global token s

  unfoldable pub run : List Op → Sessions → Sessions
  run [] s = s
  run (op ∷ ops) s = run ops (step op s)
