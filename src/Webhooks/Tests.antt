-- ===== src/Webhooks/Tests.antt =====
-- The deliveries' theorems on a target that is down for two attempts.
use forgebase.Common.{ℕ, ◌≡◌, refl, [], arith}
use forgebase.Common.Tests.{ltb, if◌then◌else◌}
use forgebase.Common.Text.{codes}
use forgebase.Webhooks.{Log, Response, unanswered, status, deliver_webhook}
use forgebase.Webhooks.Retries.{IsDelivered, deliver_webhook-IsDelivered}

abbrev recovering : ℕ → Response
recovering n = if ltb n 2 then unanswered else if ltb n 3 then status 503 else status 204

abbrev empty : Log
empty = record { rows = []; next_id = 1 }

deliver_webhook-IsDelivered_example :
    IsDelivered 3 (deliver_webhook recovering (codes "hook") (codes "{}") empty)
    × ((deliver_webhook recovering (codes "hook") (codes "{}") empty).next_id ≡ 4)
deliver_webhook-IsDelivered_example =
    deliver_webhook-IsDelivered 2 recovering (codes "hook") (codes "{}") empty (omega arith)
      (refl, (refl, tt)) refl
