-- ===== src/Source/Scheduler/Complete.antt =====
-- That `schedule` of internal/source/scheduler.go opens what the configurations ask for.
use botkube.Source.Scheduler.{Scheduler}
