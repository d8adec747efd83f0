-- ===== src/S3/Manager.antt =====
-- internal/modules/s3/manager.go. `Base` has the state, the outside world and the HTTP calls; the
-- other modules have the operations by the thing that they change.
pub mod AtomicWrite
pub mod Base
pub mod Buckets
pub mod Iam
pub mod Blocked
pub mod Reconcile
pub mod Trace
