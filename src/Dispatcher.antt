-- ===== src/Dispatcher.antt =====
-- internal/dispatcher/dispatcher.go: from a command envelope to the operation and its result.
pub mod Types
pub mod Distro
pub mod Commands
pub mod Run
pub mod Stored
pub mod Dispatch
pub mod Desired
pub mod Laws
pub mod Scope
pub mod Permitted
pub mod Machine
