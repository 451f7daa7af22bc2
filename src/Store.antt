-- ===== src/Store.antt =====
-- internal/schema/ddl.sql, as far as the verbs run into it: the rows of its tables, their constraints and
-- their triggers; with the refusals of internal/verb.
mod Types
mod Stories
mod Epics
mod Tasks
unfoldable pub use Types.*
unfoldable pub use Stories.*
unfoldable pub use Epics.*
unfoldable pub use Tasks.*
