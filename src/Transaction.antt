-- ===== src/Transaction.antt =====
-- Transactions of dove, dove/src/cmd/ct.rs, with what they stand on: the types of
-- resource-viewer/src/tte.rs and the metadata of scripts of lang/src/meta_extractor.rs.
pub mod Outcome
pub mod TypeTags
pub mod Lexer
pub mod Call
pub mod Arguments
pub mod ScriptMeta
pub mod Lookup
pub mod Builder
mod Tests
