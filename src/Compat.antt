-- ===== src/Compat.antt =====
-- The bytecode adapter of lang/compat/src.
pub mod Mutator
pub mod Adapt
mod Tests
