-- ===== src/Tests/Loops.antt =====
-- The theorems about the loops of the publisher at the fixtures.
use s3_agent.Prelude.{◌≡◌, ℕ, ◌≤◌, refl, ◌⊎◌, Option, none, some, List, [], ◌∷◌, Text, codes, arith}
use s3_agent.Prelude.Int.{ℤ, pos}
use s3_agent.S3.Observer.Tail.Laws.{intact}
use s3_agent.Publisher.Interval.{
  Shared, Run, stay, go, Step, send_at_once, selecting, returned, set_telemetry_interval_returns,
}
use s3_agent.Publisher.Loops.{AuditAct, polled, woken, AuditState}
use s3_agent.Publisher.Loops.Laws.{Batch, IsSent, audit_run_batches}
use s3_agent.Tests.Machine.{post}

abbrev set_at_once :
    Run
      (record { caller = selecting (pos 9); channel = none })
      1
      (record { caller = returned; channel = some (pos 9) })
set_at_once = go stay (send_at_once (pos 9) refl refl)

set_telemetry_interval_returns_example :
    let t : Shared = record { caller = returned; channel = some (pos 9) } in
    (1 ≤ 2)
    × ((◌≡◌ {A = ℕ} 1 0) ⊎ (t.caller ≡ returned))
    × (((u : Shared) × Step t u) ⊎ (t ≡ record { caller = returned; channel = none }))
set_telemetry_interval_returns_example =
    set_telemetry_interval_returns (pos 9) 1 (record { caller = returned; channel = some (pos 9) })
      set_at_once

abbrev at : Text → ℤ
at t = pos 0

abbrev retain : Text → Text → Option ℕ
retain b k = none

abbrev audit_acts : List AuditAct
audit_acts =
    polled (some (intact (codes "1.0 DELETE /b/k 204 5 ip \"AWS4-HMAC Credential=AK/d, Sig\"")))
    ∷ woken 4
    ∷ woken 5
    ∷ []

abbrev idle : AuditState
idle = record { queue = []; offset = 0; outbox = [] }

audit_run_batches_example : (bs : List Batch) × IsSent post at retain audit_acts idle bs
audit_run_batches_example = audit_run_batches post at retain audit_acts idle (omega arith)
