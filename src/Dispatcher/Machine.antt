-- ===== src/Dispatcher/Machine.antt =====
-- The dispatcher over the modules system and services of internal/modules: the peers that the two
-- modules make, and what becomes of an action on a service.
use s3_agent.Prelude.{
  ℕ, ◌≡◌, refl, ◌↔◌, Bool, true, false, not, ◌&&◌, Option, none, some, List, [], ◌∷◌, ◌++◌, Text,
  codes, Result, ok, err, is_nil, wrap_err, if◌then◌else◌, ◌≟◌, member, arith,
}
use s3_agent.Config.{AgentConfig, S3Config}
use s3_agent.Protocol.{Envelope, CommandPayload}
use s3_agent.Iso.Metadata.{IsoMetadata}
use s3_agent.S3.Manager.Base.{Env}
use s3_agent.S3.Observer.Change.{Float}
use s3_agent.System.{Float64, Host, SystemError}
use s3_agent.System.Metrics
use s3_agent.System.Metrics.{SystemOutput}
use s3_agent.Services
use s3_agent.Services.{Bus, ServiceError, ServiceOutput, ActionResult, acted, ensure_service_suffix}
use s3_agent.Services.Laws.{is_action, Did, service_call_action}
use s3_agent.Dispatcher.Types.{
  ServiceOp, list, get, start, stop, restart, reload, enable, disable, services, op_table, op_in,
  Params, State, Peers, module_output,
}
use s3_agent.Dispatcher.Run.{run, run_op}
use s3_agent.Dispatcher.Dispatch.{respond, perform, params_of, completed}

-- What the two modules return.
pub data ModuleOutput (G : Type 0) : Type 0 where
  of_services : ServiceOutput → ModuleOutput G
  of_system : SystemOutput G → ModuleOutput G

-- The machine at the ticks of the clock: systemd, and what gopsutil reads. The texts are those of the
-- errors.
pub record Machine (S : Type 0) (ns : Float64) : Type 0 where
  pub bus : Option (Bus S)
  pub systemd : ℕ → S
  pub host : Host ns.F
  pub iso : Option IsoMetadata
  pub service_text : ServiceError → Text
  pub system_text : SystemError → Text

abbrev pub told : {E A B : Type 0} → (E → Text) → (A → B) → Result E A → Result Text B
told text f (ok a) = ok (f a)
told text f (err e) = err (text e)

-- The peers with the two modules in place.
unfoldable pub with_modules :
    {S : Type 0} {ns : Float64} {fl : Float}
    → Machine S ns
    → Peers (ModuleOutput ns.F) fl
    → Peers (ModuleOutput ns.F) fl
with_modules {S} {ns} m p = record p {
  system_call = λ t op b.
      let (r, b') = Metrics.system_call ns m.iso m.host t op b in
      (told m.system_text of_system r, b');
  service_call = λ t op name.
      told m.service_text of_services (Services.service_call m.bus op name (m.systemd t)).0;
}

-- The names of the operations on services.
unfoldable pub service_name : ServiceOp → Text
service_name list = codes "services.list"
service_name get = codes "services.get"
service_name start = codes "services.start"
service_name stop = codes "services.stop"
service_name restart = codes "services.restart"
service_name reload = codes "services.reload"
service_name enable = codes "services.enable"
service_name disable = codes "services.disable"

service_name-op_in : (op : ServiceOp) → op_in (service_name op) op_table ≡ some (services op)
unfolding service_name op_in s3_agent.Prelude.text_dec
service_name-op_in list = refl
service_name-op_in get = refl
service_name-op_in start = refl
service_name-op_in stop = refl
service_name-op_in restart = refl
service_name-op_in reload = refl
service_name-op_in enable = refl
service_name-op_in disable = refl

service_name_other : (op : ServiceOp) → (service_name op ≟ codes "full_sync") ≡ false
unfolding service_name s3_agent.Prelude.text_dec
service_name_other list = refl
service_name_other get = refl
service_name_other start = refl
service_name_other stop = refl
service_name_other restart = refl
service_name_other reload = refl
service_name_other enable = refl
service_name_other disable = refl

module _ {S : Type 0} {ns : Float64} {fl : Float} (cfg : S3Config fl.F) (agent : AgentConfig)
    (env : Env) (machine : Machine S ns) (base : Peers (ModuleOutput ns.F) fl)
    (agent_uuid : Text) where
  abbrev peers : Peers (ModuleOutput ns.F) fl
  peers = with_modules machine base

  service_answer :
      (e : Envelope Text) (s : State) (cmd : CommandPayload) (op : ServiceOp) (p : Params)
      {o : ServiceOutput}
      → base.decode_command e.payload ≡ ok cmd
      → member cmd.operation agent.allowed_operations ≡ true
      → cmd.operation ≡ service_name op
      → params_of cfg agent env peers agent_uuid cmd.params ≡ ok p
      → (Services.service_call machine.bus op p.name (machine.systemd s.world.clock)).0 ≡ ok o
      → (respond cfg agent env peers agent_uuid e s).0
        ≡ completed cfg agent env peers agent_uuid e.id (module_output (of_services o))
  unfolding respond perform run run_op with_modules
  service_answer e s cmd op p d m n q r =
      ground (arith, d, m, n, q, r, service_name-op_in op, service_name_other op)

  -- An allowed command that acts on a service, with systemd reachable, is answered as completed
  -- whether or not systemd did what was asked for: what happened is told by `Success` in the output
  -- alone, which is true exactly if systemd took the call for the unit with its suffix and, for a
  -- job, reported "done".
  pub respond_service_action :
      (bus : Bus S) (e : Envelope Text) (s : State) (cmd : CommandPayload) (op : ServiceOp)
      (p : Params)
      → machine.bus ≡ some bus
      → base.decode_command e.payload ≡ ok cmd
      → member cmd.operation agent.allowed_operations ≡ true
      → cmd.operation ≡ service_name op
      → params_of cfg agent env peers agent_uuid cmd.params ≡ ok p
      → is_action op ≡ true
      → (r : ActionResult) × ((respond cfg agent env peers agent_uuid e s).0
          ≡ completed cfg agent env peers agent_uuid e.id (module_output (of_services (acted r))))
        × ((r.success ≡ true)
            ↔ Did bus op (ensure_service_suffix p.name) (machine.systemd s.world.clock))
  respond_service_action bus e s cmd op p b d m n q a =
      let (r, h, k) = service_call_action bus op p.name (machine.systemd s.world.clock) a in
      (r, service_answer e s cmd op p d m n q (ground (arith, b, h)), k)
