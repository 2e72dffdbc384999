-- ===== src/Execute.antt =====
-- pkg/execute: the commands of the bot.
pub mod Alias
pub mod Mapping
pub mod Executor
pub mod SourceBinding
pub mod Switches
pub mod Listing
mod Tests
