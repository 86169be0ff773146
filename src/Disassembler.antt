-- ===== src/Disassembler.antt =====
-- The disassembler of lang/disassembler/src: from the bytecode of a function to expressions.
pub mod SourceText
pub mod Words
pub mod Bytecode
pub mod Outcome
pub mod Unit
pub mod Imports
pub mod Types
pub mod Exp
pub mod Translator
pub mod Text
pub mod Source
mod Tests
