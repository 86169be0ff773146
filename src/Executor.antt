-- ===== src/Executor.antt =====
-- The script executor of executor/src: its store, the run of a script and of a session.
pub mod Tags
pub mod Cache
pub mod Script
pub mod Session
pub mod DocComments
mod Tests
