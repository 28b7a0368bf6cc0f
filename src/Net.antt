-- ===== src/Net.antt =====
-- src/net: the reactor. Sources under the directory net.
pub mod Buffer
pub mod EventBase
pub mod Connection
pub mod ThreadPool
pub mod TimerQueue
pub mod LooperThread
pub mod Looper
pub mod Epoller
pub mod Server
mod Tests
mod LoopTests
