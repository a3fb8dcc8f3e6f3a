-- ===== src/Jobs.antt =====
-- Long-running commands (stormpulse/commands/jobs.py): what a handler returns, the attempts of one job
-- within its retry window, and the manager of all jobs of a connection.
pub mod Outcome
pub mod Attempts
pub mod Manager
mod Tests
