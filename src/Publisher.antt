-- ===== src/Publisher.antt =====
-- internal/publisher/publisher.go: the capabilities, the telemetry interval,
-- what is sent and the loops that send it.
pub mod Interval
pub mod Catalog
pub mod Capabilities
pub mod Send
pub mod Message
pub mod Loops
