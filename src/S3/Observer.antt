-- ===== src/S3/Observer.antt =====
-- internal/modules/s3/observer.go
pub mod Uri
pub mod Tail
pub mod Traffic
pub mod Audit
pub mod Retain
pub mod Change
pub mod Poll
pub mod Health
pub mod Stats
