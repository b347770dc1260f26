-- ===== src/Queues/Tests.antt =====
-- The queues' theorems on concrete tables.
use mathlib.Core.Logic.{inl}
use forgebase.Common.{ℕ, true, ◌≡◌, ◌≢◌, refl, none, List, [], ◌∷◌, ◌++◌, arith}
use forgebase.Common.Tests.{ltb}
use forgebase.Common.Lists.{count}
use forgebase.Common.Text.{codes, eqb, eqb-false}
use forgebase.Common.Map.{lookup, put}
use forgebase.Queues.Tables.{
  Message, mailbox, Table, Database, table_name, archive_name, insert_row, picked, update_rows,
  read_rows, send_to, read_from, delete_from,
}
use forgebase.Queues.Panel.{
  sanitize_ident, replace_bad, trim_underscores, create_table, create_index, register, queue_exists,
  create_queue, queue_create, queue_delete,
}
use forgebase.Queues.Mailbox.{IsSound, Op, send, read, remove, step, run}
use forgebase.Queues.Leases.{IsReturned}
use forgebase.Queues.Delivery.{read_from-exclusive}
use forgebase.Queues.Redelivery.{HasMessage, read_from-redelivers}
use forgebase.Queues.Abstract.{AllowsRun, abstract_of, answers, run-AllowsRun}
use forgebase.Queues.Collision.{apply, delete, apply-other, queue_delete-archive_of}

abbrev job : ℕ → ℕ → Message
job i at = record { msg_id = i; read_ct = 0; stamp = at; enqueued_at = at; message = codes "mail" }

abbrev two_jobs : Table
two_jobs = record { kind = mailbox; next_id = 3; rows = job 1 5 ∷ job 2 6 ∷ [] }

two_jobs-IsSound : IsSound two_jobs
two_jobs-IsSound = (refl, (ground arith, (ground arith, ground arith)))

abbrev busy : List Op
busy = send 12 (codes "more") ∷ read 15 30 1 ∷ remove 2 ∷ []

first_read : IsReturned 1 (read_rows 10 30 1 two_jobs.rows)
unfolding read_rows picked update_rows
first_read = refl

read_from-exclusive_example :
    ¬ IsReturned 1 (read_rows 39 30 5 (run busy (step (read 10 30 1) two_jobs)).rows)
read_from-exclusive_example =
    read_from-exclusive two_jobs 10 30 1 1 busy 39 30 5 two_jobs-IsSound (ground arith) first_read
      (ground arith) (ground arith, tt)

after_busy : (count (λ m. ltb m.msg_id 1) (run busy two_jobs).rows) ≡ 0
unfolding send_to read_from delete_from read_rows picked update_rows insert_row
after_busy = refl

read_from-redelivers_example :
    HasMessage 1 (codes "mail") (read_rows 45 30 1 (run busy two_jobs).rows).1
read_from-redelivers_example =
    read_from-redelivers two_jobs 1 (codes "mail") busy 45 30 1 two_jobs-IsSound (inl (refl, refl))
      (ground arith, tt) (ground arith, (ground arith, tt)) (ground arith, (ground arith, tt))
      (ground (arith, after_busy))

run-AllowsRun_example :
    AllowsRun busy (abstract_of two_jobs) (answers busy two_jobs) (abstract_of (run busy two_jobs))
run-AllowsRun_example = run-AllowsRun busy two_jobs two_jobs-IsSound

abbrev empty : Database
empty = record { tables = []; queues = [] }

-- "jobs_archive" is made first, "jobs" after it.
abbrev both : Database
both = (queue_create true (codes "Jobs") (queue_create true (codes " jobs archive ") empty).0).0

both_exist :
    (queue_exists (codes "jobs") both ≡ true)
    × (queue_exists (codes "jobs" ++ codes "_archive") both ≡ true)
unfolding queue_create sanitize_ident replace_bad trim_underscores create_queue create_table
    create_index register queue_exists eqb lookup put
both_exist = (refl, refl)

distinct : codes "jobs" ≢ codes "jobs" ++ codes "_archive"
unfolding eqb
distinct = eqb-false (codes "jobs") (codes "jobs" ++ codes "_archive") refl

queue_delete-archive_of_example :
    (lookup
        (table_name (codes "jobs" ++ codes "_archive"))
        (queue_delete (codes "jobs") both).0.tables
      ≡ none)
    × (queue_exists (codes "jobs" ++ codes "_archive") (queue_delete (codes "jobs") both).0 ≡ true)
queue_delete-archive_of_example =
    queue_delete-archive_of (codes "jobs") both both_exist.0 both_exist.1 distinct

other_table : table_name (codes "jobs") ≢ table_name (codes "mail")
unfolding eqb
other_table = eqb-false (table_name (codes "jobs")) (table_name (codes "mail")) refl

other_archive : archive_name (codes "jobs") ≢ table_name (codes "mail")
unfolding eqb
other_archive = eqb-false (archive_name (codes "jobs")) (table_name (codes "mail")) refl

apply-other_example :
    lookup (table_name (codes "mail")) (apply (codes "jobs") delete both).tables
    ≡ lookup (table_name (codes "mail")) both.tables
apply-other_example =
    apply-other (codes "jobs") (table_name (codes "mail")) other_table other_archive delete both
