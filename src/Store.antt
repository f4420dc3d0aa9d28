-- ===== src/Store.antt =====
-- internal/storage/postgres/postgres.go with the tables of schema.sql: the mailbox store. Each
-- operation is its SQL on lists of rows, in the order of insertion. `now` is the database's NOW().
pub mod Rows
pub mod Sort
pub mod Messages
pub mod Mailboxes
pub mod Access
pub mod Invariant
pub mod Retrieval
pub mod Claims
pub mod Ownership
pub mod Capacity
mod Tests
pub use Rows.{MailboxRow, MessageRow, AclRow, CursorRow, Db, empty}
