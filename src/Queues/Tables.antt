-- ===== src/Queues/Tables.antt =====
-- A queue's two tables, and the functions `queue_send`, `queue_read`, `queue_delete_msg` and
-- `queue_archive` of `queueFns` on the tables of the schema `forgebase`.
use forgebase.Common.{ℕ, ◌+◌, Bool, not, Option, none, some, List, [], ◌∷◌, ◌++◌}
use forgebase.Common.Tests.{ltb, leb, ◌==◌, if◌then◌else◌}
use forgebase.Common.Lists.{take, keep, any}
use forgebase.Common.Text.{Bytes, codes}
use forgebase.Common.Map.{Map, lookup, put}

-- A row of either table; `stamp` is `vt` in a queue's table and `archived_at` in an archive.
pub record Message : Type 0 where
  pub msg_id : ℕ
  pub read_ct : ℕ
  pub stamp : ℕ
  pub enqueued_at : ℕ
  pub message : Bytes

-- A queue's own table has the serial column and `vt`; its archive has neither.
pub data Kind : Type 0 where
  mailbox archive : Kind

pub record Table : Type 0 where
  pub kind : Kind
  pub next_id : ℕ
  pub rows : List Message

-- The tables by name, and the names in `forgebase.queues`.
pub record Database : Type 0 where
  pub tables : Map Table
  pub queues : List Bytes

abbrev pub table_name : Bytes → Bytes
table_name qname = codes "q_" ++ qname

abbrev pub archive_name : Bytes → Bytes
archive_name qname = codes "q_" ++ qname ++ codes "_archive"

abbrev pub has_id : ℕ → Message → Bool
has_id i m = m.msg_id == i

-- INSERT under the primary key; `none` for a duplicate.
unfoldable pub insert_row : Message → List Message → Option (List Message)
insert_row m [] = some (m ∷ [])
insert_row m (r ∷ rs) =
    let rest = insert_row m rs in
    if ltb m.msg_id r.msg_id
    then some (m ∷ r ∷ rs)
    else if m.msg_id == r.msg_id
    then none
    else elim rest [ none ↦ none | some ms ↦ some (r ∷ ms) ]

-- `now + make_interval(secs => vt_seconds)` and one more read.
abbrev pub leased : ℕ → ℕ → Message → Message
leased now vt_seconds m = record m { stamp = now + vt_seconds; read_ct = m.read_ct + 1 }

abbrev pub ids_of : List Message → List ℕ
ids_of [] = []
ids_of (m ∷ ms) = m.msg_id ∷ ids_of ms

abbrev pub is_visible : ℕ → Message → Bool
is_visible now m = leb m.stamp now

-- The subquery: WHERE vt <= now() ORDER BY msg_id LIMIT qty.
unfoldable pub picked : ℕ → ℕ → List Message → List ℕ
picked now qty rows = take qty (ids_of (keep (is_visible now) rows))

abbrev pub is_in : List ℕ → Message → Bool
is_in ids m = any (λ i. m.msg_id == i) ids

-- UPDATE … WHERE msg_id IN (…).
unfoldable pub update_rows : ℕ → ℕ → List ℕ → List Message → List Message
update_rows now vt_seconds ids [] = []
update_rows now vt_seconds ids (m ∷ ms) =
    let rest = update_rows now vt_seconds ids ms in
    if is_in ids m then leased now vt_seconds m ∷ rest else m ∷ rest

-- The rows after a read, and the rows that it returns.
unfoldable pub read_rows : ℕ → ℕ → ℕ → List Message → List Message × List Message
unfolding picked update_rows
read_rows now vt_seconds qty rows =
    let ids = picked now qty rows in
    let after = update_rows now vt_seconds ids rows in (after, keep (is_in ids) after)

abbrev pub with_rows : Table → List Message → Table
with_rows t rows = record t { rows = rows }

abbrev pub put_table : Bytes → Table → Database → Database
put_table name t db = record db { tables = put name t db.tables }

-- The row that `queue_send` inserts.
abbrev pub sent : ℕ → Bytes → ℕ → Message
sent now msg i = record { msg_id = i; read_ct = 0; stamp = now; enqueued_at = now; message = msg }

-- The serial is drawn whether or not the row goes in; an archive's `msg_id` has no default.
unfoldable pub send_to : ℕ → Bytes → Table → Table × Option ℕ
unfolding insert_row
send_to now msg t = elim t.kind [
  | archive ↦ (t, none)
  | mailbox ↦
      let drawn : Table = record t { next_id = t.next_id + 1 } in
      elim (insert_row (sent now msg t.next_id) t.rows) [
        | none ↦ (drawn, none)
        | some rows ↦ (with_rows drawn rows, some t.next_id)
      ]
]

-- `none` for an error: no such table, or the statement fails.
unfoldable pub queue_send : ℕ → Bytes → Bytes → Database → Database × Option ℕ
unfolding send_to
queue_send now qname msg db = elim (lookup (table_name qname) db.tables) [
  | none ↦ (db, none)
  | some t ↦ (put_table (table_name qname) (send_to now msg t).0 db, (send_to now msg t).1)
]

-- An archive has no column `vt`.
unfoldable pub read_from : ℕ → ℕ → ℕ → Table → Table × Option (List Message)
unfolding read_rows
read_from now vt_seconds qty t = elim t.kind [
  | archive ↦ (t, none)
  | mailbox ↦
      let (after, returned) = read_rows now vt_seconds qty t.rows in
      (with_rows t after, some returned)
]

unfoldable pub queue_read : ℕ → Bytes → ℕ → ℕ → Database → Database × Option (List Message)
unfolding read_from
queue_read now qname vt_seconds qty db = elim (lookup (table_name qname) db.tables) [
  | none ↦ (db, none)
  | some t ↦ (
    put_table (table_name qname) (read_from now vt_seconds qty t).0 db,
    (read_from now vt_seconds qty t).1,
  )
]

-- Whether any row was deleted.
unfoldable pub delete_from : ℕ → Table → Table × Bool
delete_from mid t = (with_rows t (keep (λ m. not (has_id mid m)) t.rows), any (has_id mid) t.rows)

unfoldable pub queue_delete_msg : Bytes → ℕ → Database → Database × Option Bool
unfolding delete_from
queue_delete_msg qname mid db = elim (lookup (table_name qname) db.tables) [
  | none ↦ (db, none)
  | some t ↦ (put_table (table_name qname) (delete_from mid t).0 db, some (delete_from mid t).1)
]

-- INSERT … SELECT; one duplicate fails them all.
unfoldable pub insert_rows : ℕ → List Message → List Message → Option (List Message)
unfolding insert_row
insert_rows now [] rows = some rows
insert_rows now (m ∷ ms) rows = elim (insert_row (record m { stamp = now }) rows) [
  | none ↦ none
  | some more ↦ insert_rows now ms more
]

-- The target as it stands after the deletion.
unfoldable pub archive_into :
    ℕ → Bytes → List Message → Bool → Database → Database → Database × Option Bool
unfolding insert_rows
archive_into now target moved any_moved before db = elim (lookup target db.tables) [
  | none ↦ (before, none)
  | some t ↦ elim (insert_rows now moved t.rows) [
    | none ↦ (before, none)
    | some rows ↦ (put_table target (with_rows t rows) db, some any_moved)
  ]
]

-- A failed insertion takes the deletion back.
unfoldable pub queue_archive : ℕ → Bytes → ℕ → Database → Database × Option Bool
unfolding archive_into delete_from
queue_archive now qname mid db = elim (lookup (table_name qname) db.tables) [
  | none ↦ (db, none)
  | some t ↦
      archive_into now (archive_name qname) (keep (has_id mid) t.rows) (delete_from mid t).1 db
        (put_table (table_name qname) (delete_from mid t).0 db)
]
