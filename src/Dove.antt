-- ===== src/Dove.antt =====
-- The index of dove/src: which modules a source file declares and imports.
pub mod Ast
pub mod Meta
pub mod Index
mod Tests
