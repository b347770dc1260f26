-- ===== src/Realtime/Tests.antt =====
-- The hub on concrete subscribers.
use forgebase.Common.{Bool, true, false, ◌≡◌, refl, none, some, [], ◌∷◌}
use forgebase.Common.Tests.{◌==◌}
use forgebase.Common.Lists.{any}
use forgebase.Common.Text.{Bytes, codes, eqb, has_prefix}
use forgebase.Realtime.{
  is_change, is_target, is_exempt, broadcast, Sub, Clients, Hub, Event, Join, joins, gate,
  is_exempt, anon, serve_realtime, enter, leave, reap_if_unused, to_upper, column_filter,
}
use forgebase.Realtime.Gate.{gate-keep}
use forgebase.Realtime.Delivery.{broadcast_lem}
use forgebase.Realtime.Hubs.{created, next, enters, leaves, unused, closed_empty}

abbrev sub : Bytes → Sub
sub claims = record {
  table = codes "t";
  event = [];
  column = [];
  value = [];
  role = codes "user";
  claims = claims;
  channel = [];
  presence_key = [];
}

abbrev tabs : Clients
tabs = (1, sub (codes "a")) ∷ (2, sub (codes "b")) ∷ (3, sub (codes "a")) ∷ []

abbrev insertion : Event
insertion = record { type = codes "INSERT"; table = codes "t"; channel = []; row = some [] }

abbrev sees : Bytes → Bytes → Bool
sees claims role = eqb claims (codes "a")

gate-keep_example : gate sees insertion [] tabs ≡ (1, sub (codes "a")) ∷ (3, sub (codes "a")) ∷ []
unfolding eqb is_exempt
gate-keep_example = gate-keep sees (λ c. codes "user") insertion tabs (refl, (refl, (refl, tt)))

abbrev query : Join
query = record {
  apikey = codes "k";
  authorization = [];
  table = codes "t";
  event = [];
  channel = codes "room";
  presence_key = [];
  filter = [];
}

abbrev joined : Sub
joined = record (sub (codes "c")) { role = anon; channel = codes "room" }

admitted :
    serve_realtime (λ secret key. some (anon, codes "c")) true false (codes "s") query
    ≡ joins joined
unfolding serve_realtime eqb has_prefix to_upper column_filter
admitted = refl

abbrev hub : Hub
hub = record { clients = tabs; empty_since = none; closed = false }

abbrev start : Hub
start = record { clients = []; empty_since = some 1; closed = false }

shut : (reap_if_unused false (leave 5 1 (enter 1 (sub []) start))).closed ≡ true
unfolding reap_if_unused leave enter
shut = refl

closed_empty_example : (reap_if_unused false (leave 5 1 (enter 1 (sub []) start))).clients ≡ []
closed_empty_example =
    closed_empty (reap_if_unused false (leave 5 1 (enter 1 (sub []) start)))
      (next
        (next (next (created 1) (enters start 1 (sub []))) (leaves (enter 1 (sub []) start) 5 1))
        (unused (leave 5 1 (enter 1 (sub []) start)) false))
      shut

-- Of the three tabs the first and the third see the row; the third has left since.
abbrev two_left : Hub
two_left = record {
  clients = (1, sub (codes "a")) ∷ (2, sub (codes "b")) ∷ [];
  empty_since = none;
  closed = false;
}

broadcast_lem_example :
    any (λ d. d == 3) (broadcast sees insertion true 9 (λ c. true) hub two_left).1 ≡ false
unfolding is_change is_target is_exempt eqb
broadcast_lem_example =
    broadcast_lem sees (λ c. codes "user") insertion true 9 (λ c. true) hub two_left 3
      (refl, (refl, (refl, tt)))
