-- ===== src/Compiler.antt =====
-- The compiler front end of lang/src/compiler: source maps, line endings and the sender placeholder.
pub mod Parser
pub mod SourceMap
pub mod Addresses
pub mod LineEndings
pub mod Sender
pub mod Location
pub mod Flow
mod Tests
