-- ===== src/Refresh/Tests.antt =====
-- The rotation's theorems on concrete sessions. The digest is the identity.
use forgebase.Common.{◌≡◌, ◌≢◌, refl, true, false, some, List, [], ◌∷◌}
use forgebase.Common.Text.{Bytes, codes, eqb, eqb-false}
use forgebase.Common.Map.{lookup}
use forgebase.Refresh.{
  Token, Sessions, Mint, find_token, issue_tokens, reused, issued, handle_refresh, Op, sign_in,
  sign_out, run,
}
use forgebase.Refresh.Rotation.{handle_refresh_once}
use forgebase.Refresh.Family.{handle_refresh_reused}

abbrev digest : Bytes → Bytes
digest s = s

abbrev mint : Bytes → Mint
mint h = record { hash = h; new_family = codes "other"; inserts = true }

-- Ann has one live session and one that was rotated before.
abbrev signed_in : Sessions
signed_in = record {
  tokens =
      record {
        user = codes "ann";
        hash = codes "old";
        family = codes "fam";
        revoked = true;
        expires_at = 900;
      }
      ∷ record {
        user = codes "ann";
        hash = codes "live";
        family = codes "fam";
        revoked = false;
        expires_at = 900;
      }
      ∷ [];
  users = (codes "ann", codes "ann@example.com") ∷ [];
  single_session = false;
}

abbrev between : List Op
between = sign_in (mint (codes "next")) 101 (codes "ann") ∷ sign_out false (codes "other") ∷ []

exchanged :
    (handle_refresh digest (mint (codes "new")) 100 (codes "live") signed_in).1
    ≡ issued (codes "ann") (codes "fam")
unfolding handle_refresh find_token lookup eqb issue_tokens
exchanged = refl

handle_refresh_once_example :
    (handle_refresh digest (mint (codes "again")) 102 (codes "live") (
      run digest between
        (handle_refresh digest (mint (codes "new")) 100 (codes "live") signed_in).0)).1
    ≢ issued (codes "ann") (codes "fam")
handle_refresh_once_example =
    handle_refresh_once digest (mint (codes "new")) (mint (codes "again")) 100 102 (codes "live")
      signed_in between (codes "ann") (codes "fam") (codes "ann") (codes "fam") exchanged

abbrev replayed : Token
replayed = record {
  user = codes "ann";
  hash = codes "old";
  family = codes "fam";
  revoked = true;
  expires_at = 900;
}

found : find_token (digest (codes "old")) signed_in.tokens ≡ some replayed
unfolding find_token eqb
found = refl

detected : (handle_refresh digest (mint (codes "new")) 100 (codes "old") signed_in).1 ≡ reused
unfolding handle_refresh find_token lookup eqb
detected = refl

-- The live token of the family is of no use after the replay.
handle_refresh_reused_example :
    (handle_refresh digest (mint (codes "again")) 102 (codes "live") (
      run digest between
        (handle_refresh digest (mint (codes "new")) 100 (codes "old") signed_in).0)).1
    ≢ issued (codes "ann") (codes "fam")
handle_refresh_reused_example =
    handle_refresh_reused digest (mint (codes "new")) (mint (codes "again")) 100 102 (codes "old")
      (codes "live") signed_in replayed between (codes "ann") found detected
      (eqb-false _ _ (unfold eqb in refl), (tt, tt))
