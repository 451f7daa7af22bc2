-- ===== src/Markdown.antt =====
-- internal/verb/import_mdtable.go: the corpus that an import reads from tables in Markdown.
pub mod Tables
pub mod Rows
pub mod Corpus
pub mod Kinds
pub mod Counts
pub mod Losses
mod Tests
