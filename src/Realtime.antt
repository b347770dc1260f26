-- ===== src/Realtime.antt =====
-- The realtime hub of a project (pgforge/realtime.go): who may join (`serveRealtime`), which clients
-- an event reaches (`broadcast`), and when a hub is closed (`reapHubIfUnused`,
-- `reapRealtimeHubs`). Clients are the numbers of their connections.
pub mod Gate
pub mod Delivery
pub mod Hubs
mod Tests
use forgebase.Common.{
  ℕ, zero, suc, ◌+◌, ◌-◌, Bool, true, false, not, ◌&&◌, ◌||◌, Option, none, some, List, [], ◌∷◌,
  ◌++◌,
}
use forgebase.Common.Tests.{ltb, leb, ◌==◌, if◌then◌else◌}
use forgebase.Common.Lists.{keep, drop}
use forgebase.Common.Text.{Bytes, codes, eqb, has_prefix, trim_prefix}
use forgebase.Common.Map.{Map, lookup, put}

-- `rtSub`; `claims` is the JSON of all claims.
pub record Sub : Type 0 where
  pub table : Bytes
  pub event : Bytes
  pub column : Bytes
  pub value : Bytes
  pub role : Bytes
  pub claims : Bytes
  pub channel : Bytes
  pub presence_key : Bytes

abbrev pub Clients : Type 0
Clients = List (ℕ × Sub)

-- `rtHub`: `empty_since` is `none` for the zero time.
pub record Hub : Type 0 where
  pub clients : Clients
  pub empty_since : Option ℕ
  pub closed : Bool

-- The decoded message; the values of the row are as `%v` prints them.
pub record Event : Type 0 where
  pub type : Bytes
  pub table : Bytes
  pub channel : Bytes
  pub row : Option (Map Bytes)

unfoldable pub is_change : Event → Bool
is_change ev = not (eqb ev.type (codes "broadcast")) && not (eqb ev.type (codes "presence"))

abbrev same_value : Option Bytes → Bytes → Bool
same_value none v = false
same_value (some w) v = eqb w v

abbrev column_is : Option (Map Bytes) → Bytes → Bytes → Bool
column_is none c v = false
column_is (some row) c v = same_value (lookup c row) v

-- Whether the first phase of `broadcast` picks a subscriber.
unfoldable pub is_target : Event → Sub → Bool
is_target ev sub =
    if not (is_change ev)
    then not (eqb sub.channel []) && eqb sub.channel ev.channel
    else if not (eqb sub.channel []) && eqb sub.table []
    then false
    else if not (eqb sub.table []) && not (eqb sub.table ev.table)
    then false
    else if not (eqb sub.event []) && not (eqb sub.event ev.type)
    then false
    else if not (eqb sub.column [])
    then column_is ev.row sub.column sub.value
    else true

unfoldable pub targets : Event → Clients → Clients
targets ev clients = keep (λ t. is_target ev t.1) clients

abbrev no_row : Option (Map Bytes) → Bool
no_row none = true
no_row (some row) = false

-- A subscriber whose events no policy holds back.
unfoldable pub is_exempt : Event → Sub → Bool
is_exempt ev sub =
    eqb sub.role (codes "service_role") || eqb ev.type (codes "DELETE") || no_row ev.row

-- `rtRowVisible` on the event's row, by claims and role, is the database's answer.
module _ (sees : Bytes → Bytes → Bool) where
  abbrev pub answer : Sub → Option Bool → Bool
  answer sub none = sees sub.claims sub.role
  answer sub (some vis) = vis

  abbrev pub remember : Sub → Option Bool → Map Bool → Map Bool
  remember sub none memo = put sub.claims (sees sub.claims sub.role) memo
  remember sub (some vis) memo = memo

  -- The second phase: one answer to each set of claims.
  unfoldable pub gate : Event → Map Bool → Clients → Clients
  gate ev memo [] = []
  gate ev memo (t ∷ ts) =
      let sub = t.1 in
      let known = lookup sub.claims memo in
      let rest = gate ev memo ts in
      let others = gate ev (remember sub known memo) ts in
      if is_exempt ev sub then t ∷ rest else if answer sub known then t ∷ others else others

abbrev pub is_client : ℕ → Clients → Bool
is_client c [] = false
is_client c ((d, _) ∷ cs) = d == c || is_client c cs

abbrev pub drop_client : ℕ → Clients → Clients
drop_client c cs = keep (λ t. not (t.0 == c)) cs

abbrev pub without : ℕ → Clients → Hub → Hub
without now [] h = record h { clients = []; empty_since = some now }
without now (t ∷ ts) h = record h { clients = t ∷ ts }

-- A hub without this client; `now` marks it if that was the last one.
unfoldable pub leave : ℕ → ℕ → Hub → Hub
leave now c h = without now (drop_client c h.clients) h

-- The third phase, with the connections that were written to; `writes` says whose write succeeds.
unfoldable pub deliver : ℕ → (ℕ → Bool) → Clients → Hub → Hub × List ℕ
unfolding leave
deliver now writes [] h = (h, [])
deliver now writes ((c, _) ∷ ts) h =
    let kept = deliver now writes ts h in
    let dropped = deliver now writes ts (leave now c h) in
    if not (is_client c h.clients) then kept else if writes c then (kept.0, c ∷ kept.1) else dropped

-- `broadcast`: the hub is `h` when the first phase reads it and `h'` when the third one writes;
-- `rls` is whether the project filters its change events.
unfoldable pub broadcast :
    (Bytes → Bytes → Bool) → Event → Bool → ℕ → (ℕ → Bool) → Hub → Hub → Hub × List ℕ
broadcast sees ev rls now writes h h' =
    let ts = targets ev h.clients in
    deliver now writes (if is_change ev && rls then gate sees ev [] ts else ts) h'

-- What a subscriber's request holds, its query split into parameters. `role` is the claim.
pub record Join : Type 0 where
  pub apikey : Bytes
  pub authorization : Bytes
  pub table : Bytes
  pub event : Bytes
  pub channel : Bytes
  pub presence_key : Bytes
  pub filter : Bytes

abbrev upper_byte : ℕ → ℕ
upper_byte c = if leb b'a' c && leb c b'z' then c - 32 else c

unfoldable pub to_upper : Bytes → Bytes
to_upper [] = []
to_upper (c ∷ s) = upper_byte c ∷ to_upper s

-- The column and the value around the first "=eq.", behind a column that is not empty.
unfoldable pub column_filter : Bytes → Bytes → Bytes × Bytes
column_filter column [] = ([], [])
column_filter column (c ∷ s) =
    let rest = column_filter (column ++ c ∷ []) s in
    let none_found : Bytes × Bytes = ([], []) in
    if has_prefix (c ∷ s) (codes "=eq.")
    then if eqb column [] then none_found else (column, drop 3 s)
    else rest

pub data Entry : Type 0 where
  refused : ℕ → Entry
  joins : Sub → Entry

abbrev pub anon : Bytes
anon = codes "anon"

abbrev pub join_claims : Bool → Join → Option (Bytes × Bytes) → Entry
join_claims require_auth q none = refused 401
join_claims require_auth q (some (role, claims)) =
    if eqb role anon && require_auth
    then refused 403
    else if has_prefix q.channel (codes "private-") && eqb role anon
    then refused 403
    else joins (record {
      table = q.table;
      event = to_upper q.event;
      column = (column_filter [] q.filter).0;
      value = (column_filter [] q.filter).1;
      role = role;
      claims = claims;
      channel = q.channel;
      presence_key = q.presence_key;
    })

-- The guards of `serveRealtime`. `verify` gives the role and the JSON of the claims of a token.
unfoldable pub serve_realtime :
    (Bytes → Bytes → Option (Bytes × Bytes)) → Bool → Bool → Bytes → Join → Entry
serve_realtime verify enabled require_auth secret q =
    let key = if eqb q.apikey [] then trim_prefix q.authorization (codes "Bearer ") else q.apikey in
    if not enabled
    then refused 503
    else if eqb secret []
    then refused 503
    else join_claims require_auth q (verify secret key)

-- A client enters a hub that is not closed.
unfoldable pub enter : ℕ → Sub → Hub → Hub
enter c sub h =
    if h.closed
    then h
    else record h { clients = (c, sub) ∷ drop_client c h.clients; empty_since = none }

abbrev pub close_empty : Clients → Hub → Hub
close_empty [] h = record h { closed = true }
close_empty (t ∷ ts) h = h

-- `reapHubIfUnused`.
unfoldable pub reap_if_unused : Bool → Hub → Hub
reap_if_unused has_webhooks h = if has_webhooks then h else close_empty h.clients h

abbrev pub empty_long : ℕ → ℕ → Clients → Option ℕ → Bool
empty_long idle now [] (some since) = ltb (since + idle) now
empty_long idle now _ _ = false

-- One round of `reapRealtimeHubs`, its two looks at the hub with `h'` at the second.
unfoldable pub reap_hub : ℕ → ℕ → Bool → Bool → Hub → Hub → Hub
reap_hub idle now pinned has_webhooks h h' =
    if pinned
    then h'
    else if empty_long idle now h.clients h.empty_since && not has_webhooks
    then close_empty h'.clients h'
    else h'
