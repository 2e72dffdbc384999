-- ===== src/Plugin.antt =====
-- pkg/plugin: plugin health, supervision, the plugin index and repositories, and the manager.
pub mod Index
pub mod Store
pub mod Health
pub mod Monitor
pub mod Tests
pub mod Collector
pub mod Manager
pub mod Bindings
pub mod Catalog
pub mod ManagerTests
