-- ===== src/Server.antt =====
-- The language server of language_server/src: its files and configuration, and its main loop.
pub mod Config
pub mod Database
pub mod Loop
pub mod Diagnostics
mod Tests
