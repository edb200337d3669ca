-- ===== src/Ledger.antt =====
-- engine/ledger.py: the append-only ledger. Its SQLite tables are lists of rows in the order of
-- insertion; a CHECK on a text column is the column's type, a UNIQUE is tested by the insert.
mod Rows
mod Writes
mod Reads
pub mod History
pub mod Discipline
pub mod Unique
pub mod Validity
pub mod Sound
pub mod Admin
pub mod Runs
pub mod Entries
pub mod Accounting
unfoldable pub use Rows.*
unfoldable pub use Writes.*
unfoldable pub use Reads.*
