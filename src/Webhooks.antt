-- ===== src/Webhooks.antt =====
-- Webhooks: pgforge/webhooks.go. The rows of `webhooks` and the log of deliveries of one project,
-- newest first.
pub mod Retries
mod Tests
use forgebase.Common.{
  ℕ, zero, suc, ◌+◌, ◌*◌, ◌-◌, Bool, true, false, not, ◌&&◌, ◌||◌, Option, none, some, List, [],
  ◌∷◌, ◌++◌,
}
use forgebase.Common.Tests.{ltb, leb, ◌==◌, if◌then◌else◌}
use forgebase.Common.Lists.{length, take, keep}
use forgebase.Common.Text.{Bytes, codes, eqb, has_prefix, has_byte, until, behind, trim_space}
use forgebase.Common.Split.{split, join}
use forgebase.Storage.Listing.{contains}
use forgebase.Realtime.{to_upper}

pub record Webhook : Type 0 where
  pub id : Bytes
  pub url : Bytes
  pub table_name : Bytes
  pub events : Bytes
  pub secret : Bytes
  pub method : Bytes
  pub headers : Bytes

pub record Delivery : Type 0 where
  pub id : ℕ
  pub webhook_id : Bytes
  pub status_code : ℕ
  pub ok : Bool
  pub attempt : ℕ
  pub payload : Option Bytes

-- The log and the next id.
pub record Log : Type 0 where
  pub rows : List Delivery
  pub next_id : ℕ

-- The event that a payload decodes to.
pub record Event : Type 0 where
  pub type : Bytes
  pub table : Bytes

abbrev pub is_wanted : Event → Webhook → Bool
is_wanted ev h = (eqb h.table_name [] || eqb h.table_name ev.table) && contains h.events ev.type

-- The webhooks that a change is delivered to; `none` for a payload that is no object.
unfoldable pub fire_webhooks : Option Event → List Webhook → List Webhook
unfolding contains eqb
fire_webhooks none hs = []
fire_webhooks (some ev) hs = keep (is_wanted ev) hs

-- What comes of an attempt: no request can be made, no answer comes, or a status.
pub data Response : Type 0 where
  unbuildable unanswered : Response
  status : ℕ → Response

abbrev pub is_ok : Response → Bool
is_ok unbuildable = false
is_ok unanswered = false
is_ok (status code) = leb 200 code && ltb code 300

abbrev pub code_of : Response → ℕ
code_of unbuildable = 0
code_of unanswered = 0
code_of (status code) = code

abbrev pub kept_rows : ℕ
kept_rows = 500

-- The payload goes with the first attempt only, and up to 64 KiB.
abbrev pub stored : ℕ → Bytes → Option Bytes
stored attempt payload =
    if not (attempt == 1) || ltb (64 * 1024) (length payload) then none else some payload

-- One row more, and the 500 newest.
unfoldable pub log_delivery : Bytes → ℕ → Response → Bytes → Log → Log
log_delivery hook attempt r payload log =
    let row : Delivery = record {
      id = log.next_id;
      webhook_id = hook;
      status_code = code_of r;
      ok = is_ok r;
      attempt = attempt;
      payload = stored attempt payload;
    } in
    record { rows = take kept_rows (row ∷ log.rows); next_id = log.next_id + 1 }

abbrev pub goes_on : Response → Bool
goes_on unbuildable = false
goes_on unanswered = true
goes_on (status code) = not (is_ok (status code))

-- The loop from an attempt on, with that many left; `answers` is what comes of each.
unfoldable pub attempts_from : ℕ → ℕ → (ℕ → Response) → Bytes → Bytes → Log → Log
unfolding log_delivery
attempts_from zero attempt answers hook payload log = log
attempts_from (suc left) attempt answers hook payload log =
    let logged = log_delivery hook attempt (answers attempt) payload log in
    let rest = attempts_from left (attempt + 1) answers hook payload logged in
    if goes_on (answers attempt) then rest else logged

-- The pauses before the attempts, in seconds.
abbrev pub backoff : List ℕ
backoff = 0 ∷ 5 ∷ 30 ∷ 120 ∷ 300 ∷ []

unfoldable pub deliver_webhook : (ℕ → Response) → Bytes → Bytes → Log → Log
unfolding attempts_from
deliver_webhook answers hook payload log = attempts_from (length backoff) 1 answers hook payload log

abbrev pub method_of : Webhook → Bytes
method_of h = if eqb h.method [] then codes "POST" else h.method

-- The signature header; "" for none. `mac` is HMAC-SHA256 in hexadecimal.
unfoldable pub signature : (Bytes → Bytes → Bytes) → Webhook → Bytes → Bytes
unfolding eqb
signature mac h payload = if eqb h.secret [] then [] else codes "sha256=" ++ mac h.secret payload

-- The header of one line: a key before the first colon, which is not at its start.
abbrev header_line : Bytes → Option (Bytes × Bytes)
header_line line =
    let key = until b':' line in
    if has_byte b':' line && ltb 0 (length key)
    then some (trim_space key, trim_space (behind b':' line))
    else none

unfoldable pub header_lines : List Bytes → List (Bytes × Bytes)
unfolding until behind has_byte trim_space
header_lines [] = []
header_lines (l ∷ ls) =
    let rest = header_lines ls in elim (header_line l) [ none ↦ rest | some h ↦ h ∷ rest ]

unfoldable pub custom_headers : Webhook → List (Bytes × Bytes)
unfolding split header_lines
custom_headers h = header_lines (split b'\n' h.headers)

unfoldable pub find_delivery : ℕ → List Delivery → Option Delivery
find_delivery i [] = none
find_delivery i (d ∷ ds) = let rest = find_delivery i ds in if d.id == i then some d else rest

unfoldable pub find_webhook : Bytes → List Webhook → Option Webhook
unfolding eqb
find_webhook i [] = none
find_webhook i (h ∷ hs) = let rest = find_webhook i hs in if eqb h.id i then some h else rest

abbrev with_hook : Bytes → Option Webhook → Option (Webhook × Bytes)
with_hook payload none = none
with_hook payload (some h) = some (h, payload)

abbrev with_payload : List Webhook → Bytes → Option Bytes → Option (Webhook × Bytes)
with_payload hs hook none = none
with_payload hs hook (some payload) = with_hook payload (find_webhook hook hs)

abbrev of_delivery : List Webhook → Option Delivery → Option (Webhook × Bytes)
of_delivery hs none = none
of_delivery hs (some d) = with_payload hs d.webhook_id d.payload

-- What `replayDelivery` sends again: the webhook and the payload.
unfoldable pub replay_delivery : ℕ → List Webhook → Log → Option (Webhook × Bytes)
unfolding find_delivery find_webhook
replay_delivery i hs log = of_delivery hs (find_delivery i log.rows)

-- The form of `createWebhook`.
pub record Form : Type 0 where
  pub name : Bytes
  pub url : Bytes
  pub table : Bytes
  pub on_insert : Bool
  pub on_update : Bool
  pub on_delete : Bool
  pub method : Bytes
  pub headers : Bytes

abbrev pub event_names : Form → List Bytes
event_names f =
    (if f.on_insert then codes "INSERT" ∷ [] else [])
    ++ (if f.on_update then codes "UPDATE" ∷ [] else [])
    ++ (if f.on_delete then codes "DELETE" ∷ [] else [])

unfoldable pub form_method : Bytes → Bytes
unfolding to_upper trim_space eqb
form_method m =
    let u = to_upper (trim_space m) in
    if eqb u (codes "PUT") || eqb u (codes "PATCH") then u else codes "POST"

-- `id` and `secret` are drawn; `triggers` says whether the change triggers are set up. The name is
-- kept for the panel only.
unfoldable pub create_webhook : Bool → Bytes → Bytes → Form → List Webhook → List Webhook × Bool
unfolding trim_space has_prefix join form_method eqb
create_webhook triggers id secret f hs =
    let events = event_names f in
    let row : Webhook = record {
      id = id;
      url = trim_space f.url;
      table_name = trim_space f.table;
      events = join b',' events;
      secret = secret;
      method = form_method f.method;
      headers = trim_space f.headers;
    } in
    if eqb (trim_space f.name) []
      || not (has_prefix (trim_space f.url) (codes "http"))
      || length events == 0
    then (hs, false)
    else if not triggers
    then (hs, false)
    else (hs ++ row ∷ [], true)
