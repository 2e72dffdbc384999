-- ===== src/Kube.antt =====
-- internal/source/kubernetes: the source plugin that turns cluster changes into notifications.
pub mod Config
pub mod Allowed
pub mod Event
pub mod Match
pub mod Qualify
pub mod Recommend
pub mod Router
pub mod Filter
pub mod Checks
pub mod Ingress
pub mod Runner
pub mod Handle
pub mod Register
pub mod Tests
pub mod RouterTests
pub mod Scenarios
