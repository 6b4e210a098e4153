-- ===== src/Event.antt =====
-- event: the reactor. A loop that waits for its channels, the channels, and the poller.
pub mod EventLoop
pub mod Poller
pub mod Channel
pub mod TimerQueue
pub mod LoopChannels
pub mod LoopThread
pub mod LoopThreadPool
mod Tests
