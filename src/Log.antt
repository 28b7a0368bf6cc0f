-- ===== src/Log.antt =====
-- src/log: the logger. Sources under the directory log.
pub mod Stream
pub mod Async
pub mod File
pub mod Logger
pub mod Output
mod Tests
