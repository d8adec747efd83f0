-- ===== src/System.antt =====
-- internal/modules/system: what the agent reports of the machine. gopsutil is a parameter: what its
-- calls return at a time, a number of nanoseconds. `F` is float64, a uint64 is a number below 2 ^ 64.
pub mod Disk
pub mod Network
pub mod Metrics
use s3_agent.Prelude.{ℕ, Bool, Option, none, List, Text, Result}
use s3_agent.Prelude.Int.{ℤ}

-- The arithmetic of float64.
pub record Float64 : Type 1 where
  pub F : Type 0
  pub zero : F
  pub hundred : F
  pub thousand : F
  pub of_uint64 : ℕ → F
  pub mul : F → F → F
  pub div : F → F → F
  -- `x > y`
  pub gt : F → F → Bool
  -- `now.Sub(prev).Seconds()`
  pub seconds_since : (now prev : ℕ) → F

pub record SystemInfo : Type 0 where
  pub hostname : Text
  pub os : Text
  pub kernel_version : Text
  pub architecture : Text
  pub uptime : ℤ
  pub boot_time : ℤ
  pub vm_id : Text
  pub tenant_id : Text

pub record CoreStat (F : Type 0) : Type 0 where
  pub id : ℕ
  pub usage_pct : F

pub record CpuStats (F : Type 0) : Type 0 where
  pub usage_pct : F
  pub core_count : ℤ
  pub load_avg : F × F × F
  pub cores : List (CoreStat F)

pub record MemoryStats (F : Type 0) : Type 0 where
  pub total_bytes : ℕ
  pub used_bytes : ℕ
  pub usage_pct : F

pub record DiskIo (F : Type 0) : Type 0 where
  pub read_bytes_per_s : F
  pub write_bytes_per_s : F
  pub read_iops : F
  pub write_iops : F
  pub util_pct : F

pub record DiskEntry (F : Type 0) : Type 0 where
  pub device : Text
  pub mountpoint : Text
  pub total_bytes : ℕ
  pub used_bytes : ℕ
  pub usage_pct : F
  pub io : Option (DiskIo F)

pub record NetworkEntry : Type 0 where
  pub interface : Text
  pub bytes_sent : ℕ
  pub bytes_recv : ℕ
  pub is_up : Bool

pub record SystemMetrics (F : Type 0) : Type 0 where
  pub cpu : CpuStats F
  pub memory : MemoryStats F
  pub disks : List (DiskEntry F)
  pub network : List NetworkEntry

-- What gopsutil returns: `host.InfoStat`, `disk.PartitionStat`, `disk.UsageStat` and of a device
-- `disk.IOCountersStat`, of an interface `net.IOCountersStat` and `net.InterfaceStat`.
pub record HostInfo : Type 0 where
  pub hostname : Text
  pub platform : Text
  pub platform_version : Text
  pub kernel_version : Text
  pub kernel_arch : Text
  pub uptime : ℕ
  pub boot_time : ℕ

pub record Partition : Type 0 where
  pub device : Text
  pub mountpoint : Text
  pub fstype : Text

pub record Usage (F : Type 0) : Type 0 where
  pub total : ℕ
  pub used : ℕ
  pub used_percent : F

pub record IoCounters : Type 0 where
  pub read_bytes : ℕ
  pub write_bytes : ℕ
  pub read_count : ℕ
  pub write_count : ℕ
  pub io_time : ℕ

pub record InterfaceCounters : Type 0 where
  pub name : Text
  pub bytes_sent : ℕ
  pub bytes_recv : ℕ

pub record Interface : Type 0 where
  pub name : Text
  pub flags : List Text

-- A map from the names of devices; `none` is the nil map.
abbrev pub IoMap : Type 0
IoMap = Option (List (Text × IoCounters))

-- The calls of gopsutil. The map of counters comes whether or not there is an error.
pub record Host (F : Type 0) : Type 0 where
  pub info : ℕ → Result Text HostInfo
  pub cpu_overall : ℕ → Result Text (List F)
  pub cpu_counts : ℕ → Result Text ℤ
  pub cpu_per_core : ℕ → Result Text (List F)
  pub load : ℕ → Result Text (F × F × F)
  pub memory : ℕ → Result Text (Usage F)
  pub partitions : ℕ → Result Text (List Partition)
  pub io_counters : ℕ → IoMap
  pub usage : ℕ → (mountpoint : Text) → Result Text (Usage F)
  pub net_counters : ℕ → Result Text (List InterfaceCounters)
  pub interfaces : ℕ → Result Text (List Interface)

-- The counters of the call before, and its time; `none` is the zero time.
pub record Baseline : Type 0 where
  pub prev_io : IoMap
  pub prev_at : Option ℕ

-- `New`
abbrev pub no_baseline : Baseline
no_baseline = record { prev_io = none; prev_at = none }

-- The errors: which call failed, and its text.
pub data SystemError : Type 0 where
  host_info cpu_percent cpu_count virtual_memory disk_partitions : Text → SystemError
  net_io_counters net_interfaces : Text → SystemError
  collecting_cpu collecting_memory collecting_disk collecting_network : SystemError → SystemError
