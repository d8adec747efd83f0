-- ===== src/Tests/Publisher.antt =====
-- The publisher's theorems at concrete configurations.
use s3_agent.Prelude.{
  ℕ, ◌≡◌, refl, ◌⊎◌, inl, inr, ◌↔◌, Bool, true, false, Option, none, some, List, [], ◌∷◌, Text,
  codes, is_nil, member,
}
use s3_agent.Prelude.Int.{pos}
use s3_agent.Config.{AgentConfig}
use s3_agent.Protocol.{OperationSchema}
use s3_agent.Publisher.Interval.{
  Shared, Reach, Step, selecting, draining, set_telemetry_interval_stuck,
}
use s3_agent.Publisher.Catalog.{operation_catalog, schema_for}
use s3_agent.Publisher.Capabilities.{capabilities_payload, Has, capabilities_payload-allowed}
use s3_agent.Tests.Fixtures.{agent}

set_telemetry_interval_stuck_example :
    let stuck : Shared = record { caller = draining (pos 9); channel = none } in
    Reach (record { caller = selecting (pos 9); channel = some (pos 5) }) stuck
    × ((t : Shared) → ¬ Step stuck t)
set_telemetry_interval_stuck_example = set_telemetry_interval_stuck (pos 9) (pos 5)

abbrev reboot : OperationSchema
reboot = record {
  operation = codes "vm.reboot";
  description = codes "Reboot the machine immediately.";
  params = [];
}

abbrev reboot_agent : AgentConfig
reboot_agent = record agent { allowed_operations = codes "vm.reboot" ∷ [] }

abbrev empty_agent : AgentConfig
empty_agent = record agent { allowed_operations = [] }

abbrev keys : List Text
keys = codes "vm.reboot" ∷ codes "exec" ∷ []

capabilities_payload-allowed_example :
    (Has reboot (capabilities_payload keys reboot_agent).operations ↔ (
      (member reboot.operation reboot_agent.allowed_operations ≡ true)
      × (schema_for reboot.operation operation_catalog ≡ some reboot)))
    × ((member (codes "exec") reboot_agent.allowed_operations ≡ true)
        ⊎ ((capabilities_payload keys reboot_agent).exec_commands ≡ []))
capabilities_payload-allowed_example = capabilities_payload-allowed keys reboot_agent reboot refl

keys-reboot : member (codes "vm.reboot") keys ≡ true
unfolding member s3_agent.Prelude.text_dec
keys-reboot = refl

catalog-reboot : schema_for (codes "vm.reboot") operation_catalog ≡ some reboot
unfolding schema_for operation_catalog s3_agent.Prelude.text_dec
catalog-reboot = refl
