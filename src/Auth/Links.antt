-- ===== src/Auth/Links.antt =====
-- The signed tokens of emailed links: `signState` and `verifyState` of pgforge/oauth.go,
-- `signAuthToken` and `parseAuthToken` of pgforge/email.go.
use forgebase.Common.{ℕ, ◌+◌, not, ◌||◌, Option, none, some, List, [], ◌∷◌, ◌++◌}
use forgebase.Common.Tests.{if◌then◌else◌}
use forgebase.Common.Text.{Bytes, eqb}
use forgebase.Common.Split.{split, split_n, join}
use forgebase.Common.Decimal.{format}
use forgebase.Storage.Signed.{bar, int_value, is_past}
use forgebase.Auth.Accounts.{Crypto}

abbrev pub full_stop : ℕ
full_stop = b'.'

unfoldable pub sign_state : Crypto → Bytes → Bytes
sign_state cr payload = cr.encode payload ++ full_stop ∷ cr.mac (cr.encode payload)

abbrev pub state_of_parts : Crypto → List Bytes → Option Bytes
state_of_parts cr (b ∷ sig ∷ []) = if eqb (cr.mac b) sig then some (cr.decode b) else none
state_of_parts cr _ = none

unfoldable pub verify_state : Crypto → Bytes → Option Bytes
unfolding split_n eqb
verify_state cr state = state_of_parts cr (split_n 1 full_stop state)

unfoldable pub sign_auth_token : Crypto → ℕ → ℕ → Bytes → Bytes → Bytes → Bytes
unfolding sign_state join format
sign_auth_token cr now ttl kind slug email =
    sign_state cr (join bar (kind ∷ slug ∷ email ∷ format (now + ttl) ∷ []))

abbrev pub email_of_parts : ℕ → Bytes → Bytes → List Bytes → Option Bytes
email_of_parts now kind slug (k ∷ s ∷ email ∷ exp ∷ []) =
    if not (eqb k kind) || not (eqb s slug)
    then none
    else if is_past now (int_value exp)
    then none
    else some email
email_of_parts now kind slug _ = none

abbrev pub email_of_payload : ℕ → Bytes → Bytes → Option Bytes → Option Bytes
email_of_payload now kind slug none = none
email_of_payload now kind slug (some payload) = email_of_parts now kind slug (split bar payload)

unfoldable pub parse_auth_token : Crypto → ℕ → Bytes → Bytes → Bytes → Option Bytes
unfolding verify_state split int_value
parse_auth_token cr now token kind slug = email_of_payload now kind slug (verify_state cr token)
