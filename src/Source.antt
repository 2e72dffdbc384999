-- ===== src/Source.antt =====
-- internal/source: the scheduler and the dispatcher of source plugins.
pub mod Scheduler
pub mod Dispatcher
mod Tests
