-- ===== src/Queues.antt =====
-- The message queues of pgforge/queues.go: the SQL functions that clients call, and the panel's
-- create, purge, delete and test send. Each runs as one transaction; `now` is its `now()`, in
-- seconds. A table's rows stand in the order of their primary key.
pub mod Tables
pub mod Panel
mod Leases
mod Delivery
mod Redelivery
mod Mailbox
mod Abstract
mod Collision
mod Tests
