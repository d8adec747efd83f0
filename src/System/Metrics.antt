-- ===== src/System/Metrics.antt =====
-- `GetInfo`, `GetCPU`, `GetMemory` and `GetMetrics` of internal/modules/system/system.go, and the
-- cases `system.*` of the dispatcher.
pub mod Laws
use s3_agent.Prelude.{
  ℕ, suc, ◌≡◌, refl, Option, none, some, List, [], ◌∷◌, ◌++◌, Text, codes, Result, ok, err,
  wrap_err,
}
use s3_agent.Prelude.Int.{ℤ, signed64}
use s3_agent.Iso.Metadata.{IsoMetadata, vm_id}
use s3_agent.Dispatcher.Types.{
  SystemOp, get_info, get_metrics, get_cpu, get_memory, get_disk, get_network,
}
use s3_agent.System.{
  Float64, SystemInfo, CoreStat, CpuStats, MemoryStats, DiskEntry, NetworkEntry, SystemMetrics,
  HostInfo, Usage, Host, Baseline, SystemError, host_info, cpu_percent, cpu_count, virtual_memory,
  collecting_cpu, collecting_memory, collecting_disk, collecting_network,
}
use s3_agent.System.Disk
use s3_agent.System.Network

-- The id of the machine is that of the ISO, if there is one; `TenantID` is always empty.
abbrev pub vm_id_of : Option IsoMetadata → Text
vm_id_of none = []
vm_id_of (some iso) = vm_id iso

unfoldable pub system_info_of : Option IsoMetadata → HostInfo → SystemInfo
unfolding signed64 vm_id
system_info_of iso i = record {
  hostname = i.hostname;
  os = i.platform ++ (codes " " ++ i.platform_version);
  kernel_version = i.kernel_version;
  architecture = i.kernel_arch;
  uptime = signed64 i.uptime;
  boot_time = signed64 i.boot_time;
  vm_id = vm_id_of iso;
  tenant_id = [];
}

-- `GetInfo`
unfoldable pub system_info :
    {F : Type 0} → Option IsoMetadata → Host F → ℕ → Result SystemError SystemInfo
unfolding system_info_of
system_info iso host now = elim (host.info now) [
  | err e ↦ err (host_info e)
  | ok i ↦ ok (system_info_of iso i)
]

-- The cores are numbered from `n` on.
unfoldable pub number_cores : {F : Type 0} → ℕ → List F → List (CoreStat F)
number_cores n [] = []
number_cores n (x ∷ xs) = record { id = n; usage_pct = x } ∷ number_cores (suc n) xs

module _ (fl : Float64) where
  abbrev pub overall_of : List fl.F → fl.F
  overall_of [] = fl.zero
  overall_of (x ∷ xs) = x

  -- `GetCPU`: the cores and the load may be missing.
  unfoldable pub cpu_stats : Host fl.F → ℕ → Result SystemError (CpuStats fl.F)
  unfolding number_cores
  cpu_stats host now = elim (host.cpu_overall now) [
    | err e ↦ err (cpu_percent e)
    | ok overall ↦ elim (host.cpu_counts now) [
      | err e ↦ err (cpu_count e)
      | ok n ↦ ok (record {
        usage_pct = overall_of overall;
        core_count = n;
        load_avg = elim (host.load now) [ ok avg ↦ avg | err e ↦ (fl.zero, fl.zero, fl.zero) ];
        cores = elim (host.cpu_per_core now) [ ok xs ↦ number_cores 0 xs | err e ↦ [] ];
      })
    ]
  ]

  -- `GetMemory`
  unfoldable pub memory_stats : Host fl.F → ℕ → Result SystemError (MemoryStats fl.F)
  memory_stats host now = elim (host.memory now) [
    | err e ↦ err (virtual_memory e)
    | ok u ↦ ok (record { total_bytes = u.total; used_bytes = u.used; usage_pct = u.used_percent })
  ]

  -- `GetMetrics`: the first error ends it.
  unfoldable pub system_metrics :
      Host fl.F → ℕ → Baseline → Result SystemError (SystemMetrics fl.F) × Baseline
  unfolding cpu_stats memory_stats Disk.get_disk Network.get_network
  system_metrics host now b = elim (cpu_stats host now) [
    | err e ↦ (err (collecting_cpu e), b)
    | ok cpu ↦ elim (memory_stats host now) [
      | err e ↦ (err (collecting_memory e), b)
      | ok memory ↦
          let (r, b') = Disk.get_disk fl host now b in
          elim r [
            | err e ↦ (err (collecting_disk e), b')
            | ok disks ↦ elim (Network.get_network host now) [
              | err e ↦ (err (collecting_network e), b')
              | ok network ↦
                  (ok (record { cpu = cpu; memory = memory; disks = disks; network = network }), b')
            ]
          ]
    ]
  ]

-- What the dispatcher gets.
pub data SystemOutput (F : Type 0) : Type 0 where
  info : SystemInfo → SystemOutput F
  metrics : SystemMetrics F → SystemOutput F
  cpu : CpuStats F → SystemOutput F
  memory : MemoryStats F → SystemOutput F
  disks : List (DiskEntry F) → SystemOutput F
  network : List NetworkEntry → SystemOutput F

abbrev pub system_output_of : {A B : Type 0} → (A → B) → Result SystemError A → Result SystemError B
system_output_of f (ok a) = ok (f a)
system_output_of f (err e) = err e

-- The cases `system.*` of the dispatcher's `run`.
module _ (fl : Float64) (iso : Option IsoMetadata) (host : Host fl.F) (now : ℕ) where
  unfoldable pub system_call :
      SystemOp → Baseline → Result SystemError (SystemOutput fl.F) × Baseline
  unfolding system_info system_metrics cpu_stats memory_stats Disk.get_disk Network.get_network
  system_call get_info b = (system_output_of info (system_info iso host now), b)
  system_call get_metrics b =
      let (r, b') = system_metrics fl host now b in (system_output_of metrics r, b')
  system_call get_cpu b = (system_output_of cpu (cpu_stats fl host now), b)
  system_call get_memory b = (system_output_of memory (memory_stats fl host now), b)
  system_call get_disk b =
      let (r, b') = Disk.get_disk fl host now b in (system_output_of disks r, b')
  system_call get_network b = (system_output_of network (Network.get_network host now), b)
