-- ===== src/Tests/Modules.antt =====
-- The theorems about the modules system and services at the fixtures.
use s3_agent.Prelude.{
  ℕ, ◌≡◌, refl, ◌↔◌, Bool, true, false, not, ◌&&◌, Option, none, some, List, [], ◌∷◌, ◌++◌, map,
  Text, codes, Result, ok, err, member, All,
}
use s3_agent.System.{DiskEntry, NetworkEntry, no_baseline}
use s3_agent.System.Disk.{get_disk}
use s3_agent.System.Disk.Laws.{IsBounded, get_disk-IsBounded}
use s3_agent.System.Network.{is_virtual_interface, get_network, network_entries}
use s3_agent.System.Network.Laws.{names, counter_names, IsVirtual, get_network-names}
use s3_agent.S3.Observer.Poll.{service_health}
use s3_agent.S3.Observer.Health.{with_services, HasActiveUnit, service_health-active}
use s3_agent.Services.{UnitStatus, Bus, Job, ActionResult, acted, infos, ensure_service_suffix}
use s3_agent.Services.Laws.{Did, is_action}
use s3_agent.Prelude.Int.{pos}
use s3_agent.Config.{AgentConfig}
use s3_agent.Dispatcher.Types.{start, Peers, no_params, module_output}
use s3_agent.Dispatcher.Dispatch.{respond, completed, params_of}
use s3_agent.Dispatcher.Machine.{
  ModuleOutput, of_services, Machine, with_modules, service_name, respond_service_action,
}
use s3_agent.Tests.Fixtures.{no_net, whole, cfg, quiet, agent, peers_of, envelope, state}
use s3_agent.Tests.Machine.{floats, host, eth0}

abbrev busy_entries : List (DiskEntry ℕ)
busy_entries =
    record {
      device = codes "/dev/xvda2";
      mountpoint = codes "/";
      total_bytes = 10;
      used_bytes = 1;
      usage_pct = 10;
      io = some (record {
        read_bytes_per_s = 1;
        write_bytes_per_s = 0;
        read_iops = 1;
        write_iops = 0;
        util_pct = 100;
      });
    }
    ∷ []

-- The second call, three seconds after the first one.
busy : (get_disk floats host 5 (get_disk floats host 2 no_baseline).1).0 ≡ ok busy_entries
unfolding get_disk member s3_agent.Prelude.text_dec
busy = refl

get_disk-IsBounded_example : All (IsBounded floats) busy_entries
get_disk-IsBounded_example =
    get_disk-IsBounded floats refl refl host 5 (get_disk floats host 2 no_baseline).1 busy

abbrev network : List NetworkEntry
network = record { interface = codes "eth0"; bytes_sent = 5; bytes_recv = 6; is_up = false } ∷ []

network_read : get_network host 0 ≡ ok network
unfolding get_network is_virtual_interface s3_agent.Prelude.text_dec
    s3_agent.System.Network.interface_of
network_read = refl

get_network-names_example :
    (member (codes "eth0") (names network) ≡ true)
    ↔ ((member (codes "eth0") (counter_names (eth0 ∷ [])) ≡ true) × ¬ IsVirtual (codes "eth0"))
get_network-names_example = get_network-names host 0 (codes "eth0") refl network_read

abbrev job : Job (List Text)
job unit mode s = (ok (codes "done"), s ++ unit ∷ [])

abbrev nginx_unit : UnitStatus
nginx_unit = record {
  name = codes "nginx.service";
  description = [];
  active_state = codes "active";
  sub_state = codes "running";
}

-- Every job is done; the state is the list of the units of the jobs.
abbrev bus : Bus (List Text)
bus = record {
  list_units = λ s. (ok [], s);
  list_units_by_names = λ ns s. (ok (nginx_unit ∷ []), s);
  start_unit = job;
  stop_unit = job;
  restart_unit = job;
  reload_unit = job;
  enable_unit_files = λ us runtime force s. (none, s);
  disable_unit_files = λ us runtime s. (none, s);
  daemon_reload = λ s. (none, s);
}

service_health-active_example :
    ((service_health (with_services (some bus) [] no_net) (codes "nginx")).active ≡ true)
    ↔ HasActiveUnit bus (codes "nginx") []
service_health-active_example = service_health-active no_net [] bus (codes "nginx")

start-is_action : is_action start ≡ true
unfolding is_action
start-is_action = refl

abbrev machine : Machine (List Text) floats
machine = record {
  bus = some bus;
  systemd = λ t. [];
  host = host;
  iso = none;
  service_text = λ e. [];
  system_text = λ e. [];
}

-- Every command names the service nginx.
abbrev base : Peers (ModuleOutput ℕ) whole
base = record (peers_of (of_services (infos []))) {
  decode_command = λ x. ok (record { operation = x; params = codes "p"; timeout_s = pos 0 });
  decode_params = λ x. ok (record no_params { name = codes "nginx" });
}

abbrev service_agent : AgentConfig
service_agent = record agent { allowed_operations = codes "services.start" ∷ [] }

start_listed : member (codes "services.start") service_agent.allowed_operations ≡ true
unfolding member s3_agent.Prelude.text_dec
start_listed = refl

start_named : codes "services.start" ≡ service_name start
unfolding service_name
start_named = refl

params_read :
    params_of {fl = whole} cfg service_agent quiet (with_modules machine base) [] (codes "p")
    ≡ ok (record no_params { name = codes "nginx" })
unfolding params_of with_modules s3_agent.Dispatcher.Distro.empty_params s3_agent.Prelude.text_dec
params_read = refl

respond_service_action_example :
    (r : ActionResult) × ((respond {fl = whole} cfg service_agent quiet
        (with_modules machine base)
        []
        (envelope (codes "services.start"))
        state).0
      ≡ completed {fl = whole} cfg service_agent quiet
          (with_modules machine base)
          []
          (codes "c1")
          (module_output (of_services (acted r))))
    × ((r.success ≡ true) ↔ Did bus start (ensure_service_suffix (codes "nginx")) [])
respond_service_action_example =
    respond_service_action {ns = floats} {fl = whole} cfg service_agent quiet machine base [] bus
      (envelope (codes "services.start")) state
      (record { operation = codes "services.start"; params = codes "p"; timeout_s = pos 0 }) start
      (record no_params { name = codes "nginx" }) refl refl start_listed start_named params_read
      start-is_action
