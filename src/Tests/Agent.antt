-- ===== src/Tests/Agent.antt =====
-- The theorems about the agent as a whole at the fixtures.
use s3_agent.Prelude.{true, ◌≡◌, refl, List, [], ◌∷◌, ◌++◌, Text, codes, All}
use s3_agent.Agent.{Agent, serve, start}
use s3_agent.Agent.Laws.{is_unlisted, serve_unlisted}
use s3_agent.Tests.Fixtures.{cfg, agent, quiet, peers, world, whole}
use s3_agent.Tests.Machine.{client, wire}

abbrev ready : Agent
ready = start {fl = whole} cfg agent quiet peers wire client world

abbrev reboots : List Text
reboots = codes "vm.reboot" ∷ codes "vm.reboot" ∷ []

reboot_unlisted :
    is_unlisted {fl = whole} cfg agent quiet peers wire client (codes "vm.reboot") ≡ true
unfolding is_unlisted s3_agent.Nats.accept s3_agent.Prelude.member s3_agent.Prelude.text_dec
reboot_unlisted = refl

serve_unlisted_example :
    (serve {fl = whole} cfg agent quiet peers wire client reboots ready).state ≡ ready.state
serve_unlisted_example =
    serve_unlisted {fl = whole} cfg agent quiet peers wire client reboots ready
      (reboot_unlisted, (reboot_unlisted, tt))
