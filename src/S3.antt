-- ===== src/S3.antt =====
-- internal/modules/s3: the storage module, the manager that changes the gateway and its files, and
-- the observer that polls the cluster and tails the logs of Nginx.
pub mod Types
pub mod Signer
pub mod Manager
pub mod Observer
