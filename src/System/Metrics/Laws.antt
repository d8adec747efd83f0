-- ===== src/System/Metrics/Laws.antt =====
-- The metrics are made of what the single operations report.
use s3_agent.Prelude.{ℕ, ◌≡◌, ◌↔◌, ok, arith}
use s3_agent.System.{Float64, SystemMetrics, Host, Baseline}
use s3_agent.System.Disk.{get_disk}
use s3_agent.System.Network.{get_network}
use s3_agent.System.Metrics.{cpu_stats, memory_stats, system_metrics}

module _ (fl : Float64) where
  -- `GetMetrics` returns metrics exactly if `GetCPU`, `GetMemory`, `GetDisk` and `GetNetwork` return
  -- their parts.
  pub system_metrics_iff :
      (host : Host fl.F) (now : ℕ) (b : Baseline) (m : SystemMetrics fl.F)
      → ((system_metrics fl host now b).0 ≡ ok m) ↔ (
          (cpu_stats fl host now ≡ ok m.cpu)
          × (memory_stats fl host now ≡ ok m.memory)
          × ((get_disk fl host now b).0 ≡ ok m.disks)
          × (get_network host now ≡ ok m.network))
  unfolding system_metrics
  system_metrics_iff host now b m = ground arith
