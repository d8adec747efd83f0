-- ===== src/Lib.antt =====
-- The PlusClouds S3 storage agent: a model of its Go packages and what holds of it.
--
-- The agent runs beside a SeaweedFS store. Over NATS it receives command envelopes, which the
-- dispatcher (internal/dispatcher) routes to the S3 manager and the S3 observer
-- (internal/modules/s3), the executor (internal/executor), the publisher (internal/publisher) and
-- the modules system and services (internal/modules). The manager keeps buckets by signed HTTP
-- requests, identities in s3.json and blocked keys in an nginx file; the observer polls the services
-- and tails two nginx logs; the publisher advertises what the agent can do and sends heartbeats,
-- telemetry, health events and audit batches. s3dctl (cmd/ctl) uses the manager without NATS.
--
-- Which file models what:
--   Prelude, Strings      shared names, Boolean tests, 64-bit integers; Go's strings and strconv over
--                         lists of bytes
--   Config                internal/config/config.go: the sections, the defaults, `Load`
--   Protocol              internal/protocol/envelope.go: `New` is new_envelope, Uuid is `newUUID`
--   Touch                 what the parts beside the manager ask of the machine
--   Executor              internal/executor/executor.go: `Execute` is execute
--   S3/Types              internal/modules/s3/types.go
--   S3/Signer             internal/modules/s3/signer.go: `signAWSv4` is sign
--   S3/Manager/...        internal/modules/s3/manager.go: AtomicWrite, Base (the state, s3.json, the
--                         commands), Buckets, Iam, Blocked and Reconcile, each operation under the
--                         name of its method; Trace is about the commands that they run
--   S3/Observer/...       internal/modules/s3/observer.go: Uri, Tail, Traffic and Audit (the logs),
--                         Poll, Stats and Change (the cluster), Health (with Services in place),
--                         Retain (`queryRetainUntil`)
--   Publisher/...         internal/publisher/publisher.go: Interval (`SetTelemetryInterval` and its
--                         race with the telemetry loop), Catalog, Capabilities, Send (what is sent)
--                         and Loops (the loops as sequences of wakes)
--   Services/...          internal/modules/services: linux.go and windows.go
--   System/...            internal/modules/system/system.go: Disk, Network and Metrics
--   Nats                  internal/nats/client.go
--   Dispatcher/...        internal/dispatcher/dispatcher.go: Types (params, state, peers), Distro,
--                         Commands, Stored, Run (`run`), Dispatch (`Dispatch`); Desired, Laws, Scope and
--                         Permitted are about them; Machine puts Services and System in place
--   Iso/...               pkg/isoconfig/reader.go: Metadata (the accessors) and Reader (`Read`, and the
--                         identity that cmd/agent/main.go resolves)
--   Agent/...             cmd/agent/main.go: the handler of the messages, one after the other
--   Daemon/...            cmd/agent/main.go and `Start` of internal/publisher: the running agent, where
--                         commands and the wakes of the loops come in any order over one state;
--                         Launch is `run` with its errors and `buildLogger`; Commands, Desired, Sent
--                         and Ticking are about the sequences, Traffic about the offset of the access
--                         log, which commands and a loop share, Shade about states that loops changed
--   Ctl/...               cmd/ctl/main.go: the checks, the commands that use the manager, Bytes
--                         (`formatBytes`), Tables (with pkg/cmdutil/output.go) and Program (all of it)
--   Tests/...             runs at concrete inputs
--
-- The manager is a state monad with errors over a world: a clock, the trace of the requests and
-- commands, and two directories. What the observer, the logger and the checks ask of the machine is
-- recorded beside it, as a list of Touch. What the world answers at a tick of the clock (HTTP, processes,
-- failing system calls, the time) is a record of functions, Env; so are the answers of a poll (Net),
-- the operations of float64 (Float) and the dispatcher's peers (Peers), with encoding/json and
-- encoding/xml. An error is a value that keeps its context; its text is not modelled.
--
-- Bounds: int64 and uint64 sums and products wrap around as in Go; numbers that only count elements
-- of a list in memory are unbounded. The channel of audit events has its 512 places, the scanner of
-- the blocked keys its 64 KiB. The loops go over lists, but for the one of `formatBytes`, which has
-- the rounds that a uint64 needs, and the digits of a number, which have the number itself. The
-- channel of the telemetry interval, where a command and a loop meet within a call, is a step
-- relation; what comes in an order of its own (messages, wakes of the loops, polls of a log) is a
-- sequence over which a theorem holds, and the running agent is any such sequence, where a command or
-- a round of a loop is one step. The first round of a loop may come at any time, as its goroutine may.
--
-- Parameters, beside those: the D-Bus connection with the state of systemd behind it (Bus), gopsutil
-- (Host) with the arithmetic of float64 that the rates need (Float64), nats.go (Wire), viper, and the
-- files that the checks of s3dctl open (Files), and what the start asks of them (Platform). The
-- dispatcher's peers give what the modules system and services return, the first one over the disk
-- counters in the state; Dispatcher/Machine makes them from Services and System/Metrics.
--
-- Not modelled: logging; text/tabwriter and cobra; the flags and the signals of the agent; a job
-- of systemd that never reports; messages that NATS hands over at the same time. The order in which Go
-- ranges over a map is a parameter or the order of first use.
pub mod Prelude
pub mod Strings
pub mod Config
pub mod Executor
pub mod S3
pub mod Protocol
pub mod Publisher
pub mod Dispatcher
pub mod Iso
pub mod Nats
pub mod Services
pub mod System
pub mod Ctl
pub mod Agent
pub mod Daemon
mod Tests
pub mod Touch
