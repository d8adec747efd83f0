-- ===== src/Tests.antt =====
-- Runs of the models at concrete inputs.
mod Fixtures
mod Machine
mod Ctl
mod Daemon
mod Manager
mod Agent
mod Blocked
mod Observer
mod Dispatcher
mod Protocol
mod Publisher
mod Loops
mod Modules
mod Reconcile
mod Iso
