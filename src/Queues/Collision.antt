-- ===== src/Queues/Collision.antt =====
-- Which tables a call touches: those of its queue and of the queue's archive. A queue's archive has
-- the name of the mailbox of another queue.
use forgebase.Common.{
  ℕ, Bool, true, not, ◌≡◌, ◌≢◌, refl, sym, ap, ◌∙◌, none, List, [], ◌∷◌, ◌++◌, inl, inr, arith,
}
use forgebase.Common.Tests.{Bool-cases, Option-cases}
use forgebase.Common.Lists.{keep, any}
use forgebase.Common.Text.{Bytes, codes, eqb, eqb_iff, eqb_refl}
use forgebase.Common.Map.{lookup, remove, lookup-put, lookup-remove}
use forgebase.Queues.Tables.{
  Message, Kind, mailbox, archive, Table, Database, table_name, archive_name, put_table, with_rows,
  has_id, insert_rows, send_to, read_from, delete_from, archive_into, queue_send, queue_read,
  queue_delete_msg, queue_archive,
}
use forgebase.Queues.Panel.{
  create_table, create_index, register, create_queue, queue_exists, queue_purge, queue_delete,
  queue_send_test,
}

-- The calls of clients and of the panel.
pub data Call : Type 0 where
  send : ℕ → Bytes → Call
  read : ℕ → ℕ → ℕ → Call
  delete_msg : ℕ → Call
  archive_msg : ℕ → ℕ → Call
  create : Call
  purge : Call
  delete : Call
  send_test : ℕ → Call

-- A call on the queue of this name.
abbrev pub apply : Bytes → Call → Database → Database
apply q (send now msg) db = (queue_send now q msg db).0
apply q (read now vt qty) db = (queue_read now q vt qty db).0
apply q (delete_msg mid) db = (queue_delete_msg q mid db).0
apply q (archive_msg now mid) db = (queue_archive now q mid db).0
apply q create db = (create_queue q db).0
apply q purge db = (queue_purge q db).0
apply q delete db = (queue_delete q db).0
apply q (send_test now) db = (queue_send_test now q db).0

module _ (q k : Bytes) (own : table_name q ≢ k) (kept : archive_name q ≢ k) where
  put-other :
      (n : Bytes) (t : Table) (d : Database)
      → n ≢ k
      → lookup k (put_table n t d).tables ≡ lookup k d.tables
  put-other n t d ne = ground (arith, lookup-put n k t d.tables, eqb_iff n k)

  remove-other :
      (n : Bytes) (d : Database) → n ≢ k → lookup k (remove n d.tables) ≡ lookup k d.tables
  remove-other n d ne = ground (arith, lookup-remove n k d.tables, eqb_iff n k)

  queue_send-other :
      (now : ℕ) (msg : Bytes) (db : Database)
      → lookup k (queue_send now q msg db).0.tables ≡ lookup k db.tables
  unfolding queue_send
  queue_send-other now msg db = elim (Option-cases (lookup (table_name q) db.tables)) [
    | inl e ↦ ground arith
    | inr (t, e) ↦ ground (arith, put-other (table_name q) (send_to now msg t).0 db own)
  ]

  queue_read-other :
      (now vt qty : ℕ) (db : Database)
      → lookup k (queue_read now q vt qty db).0.tables ≡ lookup k db.tables
  unfolding queue_read
  queue_read-other now vt qty db = elim (Option-cases (lookup (table_name q) db.tables)) [
    | inl e ↦ ground arith
    | inr (t, e) ↦ ground (arith, put-other (table_name q) (read_from now vt qty t).0 db own)
  ]

  queue_delete_msg-other :
      (mid : ℕ) (db : Database) → lookup k (queue_delete_msg q mid db).0.tables ≡ lookup k db.tables
  unfolding queue_delete_msg
  queue_delete_msg-other mid db = elim (Option-cases (lookup (table_name q) db.tables)) [
    | inl e ↦ ground arith
    | inr (t, e) ↦ ground (arith, put-other (table_name q) (delete_from mid t).0 db own)
  ]

  archive_into-other :
      (now : ℕ) (moved : List Message) (b : Bool) (before db : Database)
      → lookup k before.tables ≡ lookup k db.tables
      → lookup k (archive_into now (archive_name q) moved b before db).0.tables
        ≡ lookup k before.tables
  unfolding archive_into
  archive_into-other now moved b before db same =
      elim (Option-cases (lookup (archive_name q) db.tables)) [
        | inl e ↦ ground arith
        | inr (t, e) ↦ elim (Option-cases (insert_rows now moved t.rows)) [
          | inl f ↦ ground arith
          | inr (rows, f) ↦
              ground (arith, put-other (archive_name q) (with_rows t rows) db kept ∙ sym same)
        ]
      ]

  queue_archive-other :
      (now mid : ℕ) (db : Database)
      → lookup k (queue_archive now q mid db).0.tables ≡ lookup k db.tables
  unfolding queue_archive
  queue_archive-other now mid db = elim (Option-cases (lookup (table_name q) db.tables)) [
    | inl e ↦ ground arith
    | inr (t, e) ↦ ground (
      arith,
      archive_into-other now (keep (has_id mid) t.rows) (delete_from mid t).1 db
          (put_table (table_name q) (delete_from mid t).0 db)
          (sym (put-other (table_name q) (delete_from mid t).0 db own)),
    )
  ]

  create_table-other :
      (kind : Kind) (n : Bytes) (db : Database)
      → n ≢ k
      → lookup k (create_table kind n db).tables ≡ lookup k db.tables
  unfolding create_table
  create_table-other kind n db ne = elim (Option-cases (lookup n db.tables)) [
    | inl e ↦ ground (arith, put-other n (record { kind = kind; next_id = 1; rows = [] }) db ne)
    | inr (t, e) ↦ ground arith
  ]

  register-tables : (db : Database) → (register q db).tables ≡ db.tables
  unfolding register
  register-tables db = elim (Bool-cases (queue_exists q db)) [
    | inl e ↦ rw e refl
    | inr e ↦ rw e refl
  ]

  create_queue-other : (db : Database) → lookup k (create_queue q db).0.tables ≡ lookup k db.tables
  unfolding create_queue
  create_queue-other db =
      let made = create_table mailbox (table_name q) db in
      let first = create_table-other mailbox (table_name q) db own in
      elim (Bool-cases (create_index (table_name q) made)) [
        | inl e ↦ rw e (
            ap (lookup k) (register-tables (create_table archive (archive_name q) made))
            ∙ create_table-other archive (archive_name q) made kept
            ∙ first)
        | inr e ↦ rw e first
      ]

  queue_purge-other : (db : Database) → lookup k (queue_purge q db).0.tables ≡ lookup k db.tables
  unfolding queue_purge
  queue_purge-other db = elim (Bool-cases (queue_exists q db)) [
    | inl e ↦ elim (Option-cases (lookup (table_name q) db.tables)) [
      | inl f ↦ rw e (rw f refl)
      | inr (t, f) ↦ rw e (rw f (put-other (table_name q) (with_rows t []) db own))
    ]
    | inr e ↦ rw e refl
  ]

  queue_delete-other : (db : Database) → lookup k (queue_delete q db).0.tables ≡ lookup k db.tables
  unfolding queue_delete
  queue_delete-other db = elim (Bool-cases (queue_exists q db)) [
    | inl e ↦ rw e (
        remove-other (archive_name q) (record db { tables = remove (table_name q) db.tables }) kept
        ∙ remove-other (table_name q) db own)
    | inr e ↦ rw e refl
  ]

  queue_send_test-other :
      (now : ℕ) (db : Database) → lookup k (queue_send_test now q db).0.tables ≡ lookup k db.tables
  unfolding queue_send_test
  queue_send_test-other now db = elim (Bool-cases (queue_exists q db)) [
    | inl e ↦ rw e (queue_send-other now _ db)
    | inr e ↦ rw e refl
  ]

  -- No call on a queue touches a table but the queue's own and its archive's.
  pub apply-other : (c : Call) (db : Database) → lookup k (apply q c db).tables ≡ lookup k db.tables
  apply-other (send now msg) db = queue_send-other now msg db
  apply-other (read now vt qty) db = queue_read-other now vt qty db
  apply-other (delete_msg mid) db = queue_delete_msg-other mid db
  apply-other (archive_msg now mid) db = queue_archive-other now mid db
  apply-other create db = create_queue-other db
  apply-other purge db = queue_purge-other db
  apply-other delete db = queue_delete-other db
  apply-other (send_test now) db = queue_send_test-other now db

-- Deleting a queue drops the mailbox of the queue whose name is its own with "_archive" behind it,
-- which stays registered.
pub queue_delete-archive_of :
    (q : Bytes) (db : Database)
    → queue_exists q db ≡ true
    → queue_exists (q ++ codes "_archive") db ≡ true
    → q ≢ q ++ codes "_archive"
    → (lookup (table_name (q ++ codes "_archive")) (queue_delete q db).0.tables ≡ none)
      × (queue_exists (q ++ codes "_archive") (queue_delete q db).0 ≡ true)
unfolding queue_delete queue_exists
queue_delete-archive_of q db here there ne = rw here (
  ground (
    arith,
    lookup-remove (archive_name q) (archive_name q) (remove (table_name q) db.tables),
    eqb_refl (archive_name q),
  ),
  still db.queues there,
)
  where
    still :
        (names : List Bytes)
        → any (λ n. eqb n (q ++ codes "_archive")) names ≡ true
        → any (λ n. eqb n (q ++ codes "_archive")) (keep (λ n. not (eqb n q)) names) ≡ true
    still [] h = ground arith
    still (n ∷ ns) h = ground (arith, still ns, eqb_iff n q, eqb_iff n (q ++ codes "_archive"))
