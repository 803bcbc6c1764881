-- ===== src/Config.antt =====
-- src/main.c: the options, and the capture threads that they ask for.
pub mod Text
pub mod Defs
pub mod Options
pub mod Plan
pub mod Threads
pub mod Started
pub mod Servers
pub mod Run
mod Samples
mod Tests
mod RunTests
