-- ===== src/Queues/Panel.antt =====
-- The panel's handlers `queueCreate`, `queuePurge`, `queueDelete` and `queueSendTest`, the helper
-- `queueExists`, the counts of `listQueues`, and `sanitizeIdent` of pgforge/editor.go.
use mathlib.Core.List.{reverse}
use forgebase.Common.{
  ℕ, Bool, true, false, not, ◌&&◌, ◌||◌, Option, none, some, List, [], ◌∷◌, ◌++◌,
}
use forgebase.Common.Tests.{ltb, leb, ◌==◌, if◌then◌else◌}
use forgebase.Common.Lists.{length, take, keep, any, count}
use forgebase.Common.Text.{Bytes, codes, eqb, trim_space, to_lower}
use forgebase.Common.Map.{lookup, remove}
use forgebase.Queues.Tables.{
  Message, Kind, mailbox, archive, Table, Database, table_name, archive_name, put_table, with_rows,
  is_visible, queue_send,
}

-- What a handler redirects with.
pub data Outcome : Type 0 where
  invalid_name unknown_queue failed done : Outcome

-- `[a-z0-9_]`.
abbrev is_ident_byte : ℕ → Bool
is_ident_byte c = leb b'a' c && leb c b'z' || leb b'0' c && leb c b'9' || c == b'_'

-- `identBad.ReplaceAllString(s, "_")`; the flag says that the byte before was replaced.
unfoldable pub replace_bad : Bool → Bytes → Bytes
replace_bad run [] = []
replace_bad run (c ∷ s) =
    let kept = replace_bad false s in
    let dropped = replace_bad true s in
    if is_ident_byte c then c ∷ kept else if run then dropped else b'_' ∷ dropped

unfoldable pub trim_underscores : Bytes → Bytes
trim_underscores [] = []
trim_underscores (c ∷ s) = let rest = trim_underscores s in if c == b'_' then rest else c ∷ s

abbrev starts_with_digit : Bytes → Bool
starts_with_digit [] = false
starts_with_digit (c ∷ s) = leb b'0' c && leb c b'9'

unfoldable pub sanitize_ident : Bytes → Bytes
unfolding replace_bad trim_underscores trim_space to_lower
sanitize_ident s =
    let t = reverse (
      trim_underscores
        (reverse (trim_underscores (replace_bad false (to_lower (trim_space s)))))) in
    let named = if starts_with_digit t then codes "t_" ++ t else t in take 48 named

abbrev is_mailbox : Kind → Bool
is_mailbox mailbox = true
is_mailbox archive = false

-- CREATE TABLE IF NOT EXISTS.
unfoldable pub create_table : Kind → Bytes → Database → Database
create_table kind name db = elim (lookup name db.tables) [
  | none ↦ put_table name (record { kind = kind; next_id = 1; rows = [] }) db
  | some t ↦ db
]

-- CREATE INDEX … (vt, msg_id) needs the column `vt`. The index itself is left out.
unfoldable pub create_index : Bytes → Database → Bool
create_index name db = elim (lookup name db.tables) [ none ↦ false | some t ↦ is_mailbox t.kind ]

abbrev drop_table : Bytes → Database → Database
drop_table name db = record db { tables = remove name db.tables }

unfoldable pub queue_exists : Bytes → Database → Bool
unfolding eqb
queue_exists name db = any (λ q. eqb q name) db.queues

-- ON CONFLICT DO NOTHING.
unfoldable pub register : Bytes → Database → Database
unfolding queue_exists
register name db =
    if queue_exists name db then db else record db { queues = db.queues ++ name ∷ [] }

-- The statements of `queueCreate`; each of the first two and the last two commits by itself.
unfoldable pub create_queue : Bytes → Database → Database × Outcome
unfolding create_table create_index register
create_queue name db =
    let made = create_table mailbox (table_name name) db in
    if create_index (table_name name) made
    then (register name (create_table archive (archive_name name) made), done)
    else (made, failed)

-- `installed` says whether `ensureQueueFns` succeeds.
unfoldable pub queue_create : Bool → Bytes → Database → Database × Outcome
unfolding sanitize_ident eqb create_queue
queue_create installed form_name db =
    let name = sanitize_ident form_name in
    if eqb name [] || ltb 40 (length name)
    then (db, invalid_name)
    else if not installed
    then (db, failed)
    else create_queue name db

-- TRUNCATE keeps the serial.
unfoldable pub queue_purge : Bytes → Database → Database × Outcome
unfolding queue_exists
queue_purge name db =
    if not (queue_exists name db)
    then (db, unknown_queue)
    else elim (lookup (table_name name) db.tables) [
      | none ↦ (db, failed)
      | some t ↦ (put_table (table_name name) (with_rows t []) db, done)
    ]

unfoldable pub queue_delete : Bytes → Database → Database × Outcome
unfolding queue_exists remove eqb
queue_delete name db = if not (queue_exists name db) then (db, unknown_queue) else (
  record (drop_table (archive_name name) (drop_table (table_name name) db)) {
    queues = keep (λ q. not (eqb q name)) db.queues;
  },
  done,
)

abbrev send_outcome : Option ℕ → Outcome
send_outcome none = failed
send_outcome (some i) = done

unfoldable pub queue_send_test : ℕ → Bytes → Database → Database × Outcome
unfolding queue_exists queue_send
queue_send_test now name db =
    if not (queue_exists name db)
    then (db, unknown_queue)
    else let (after, id) = queue_send now name (codes "{\"test\": true, \"from\": \"panel\"}") db in
      (after, send_outcome id)

-- Depth, messages under a lock, and archived ones, of one queue; zeros where the query fails.
pub record Counts : Type 0 where
  pub depth : ℕ
  pub in_vt : ℕ
  pub archived : ℕ

abbrev table_rows : Option Table → List Message
table_rows none = []
table_rows (some t) = t.rows

abbrev mailbox_rows : Option Table → List Message
mailbox_rows none = []
mailbox_rows (some t) = if is_mailbox t.kind then t.rows else []

unfoldable pub list_counts : ℕ → Bytes → Database → Counts
list_counts now name db =
    let waiting = mailbox_rows (lookup (table_name name) db.tables) in
    record {
      depth = length waiting;
      in_vt = count (λ m. not (is_visible now m)) waiting;
      archived = length (table_rows (lookup (archive_name name) db.tables));
    }
