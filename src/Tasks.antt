-- ===== src/Tasks.antt =====
-- internal/tasks: the cleanup jobs that cmd/cache-server/main.go schedules.
pub mod Pages
pub mod Jobs
pub mod Pressure
pub mod Ends
pub mod Sweeps
pub mod Bounds
pub mod Integrity
mod Tests
