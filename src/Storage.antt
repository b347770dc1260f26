-- ===== src/Storage.antt =====
-- Object storage: pgforge/storage.go and pgforge/storagerules.go. `Path` is about object paths,
-- `Rules` about the access rules of a bucket, `Bucket` holds the state of one project, and
-- `Objects` the client-facing object API, `Panel` the handlers of the panel and `Listing` the listing;
-- the other modules prove what these promise.
pub mod Path
pub mod PathSafety
pub mod Bucket
pub mod Rules
pub mod Objects
pub mod Panel
pub mod Uploads
pub mod Agreement
pub mod Transfers
pub mod Listing
mod Levels
mod Listed
mod Removal
mod Runs
mod PanelTests
pub mod Guarantees
pub mod Signed
pub mod Tokens
pub mod Binding
mod Tests
