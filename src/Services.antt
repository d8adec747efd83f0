-- ===== src/Services.antt =====
-- internal/modules/services: the services of systemd (linux.go), and the stub for Windows
-- (windows.go).
mod Types
pub mod Laws
pub use Types.*
use s3_agent.Prelude.{
  true, false, not, Option, none, some, List, [], ◌∷◌, ◌++◌, Text, codes, Result, ok, err,
  if◌then◌else◌, ◌≟◌,
}
use s3_agent.Strings.{contains, has_suffix}
use s3_agent.Dispatcher.Types.{ServiceOp, list, get, start, stop, restart, reload, enable, disable}

-- `ensureServiceSuffix`
unfoldable pub ensure_service_suffix : Text → Text
unfolding contains
ensure_service_suffix name =
    if not (contains name (codes ".")) then name ++ codes ".service" else name

-- `unitToServiceInfo`
abbrev pub state_of : Text → ServiceState
state_of s =
    if s ≟ codes "active"
    then state_active
    else if s ≟ codes "inactive"
    then state_inactive
    else if s ≟ codes "failed"
    then state_failed
    else state_unknown

unfoldable pub unit_to_service_info : UnitStatus → ServiceInfo
unit_to_service_info u = record {
  name = u.name;
  description = u.description;
  state = state_of u.active_state;
  sub_state = u.sub_state;
}

-- `failResult`
abbrev pub fail_result : Text → ServiceAction → ActionMessage → ActionResult
fail_result name action e = record { service = name; action = action; success = false; message = e }

abbrev pub success_result : Text → ServiceAction → Text → ActionResult
success_result name action done = record {
  service = name;
  action = action;
  success = true;
  message = action_succeeded name done;
}

-- The loop of `List`.
unfoldable pub services_of : List UnitStatus → List ServiceInfo
unfolding has_suffix unit_to_service_info
services_of [] = []
services_of (u ∷ us) =
    let rest = services_of us in
    if not (has_suffix u.name (codes ".service")) then rest else unit_to_service_info u ∷ rest

-- `Get`: of the units that have the name, the first one.
unfoldable pub first_unit : Text → Result Text (List UnitStatus) → Result ServiceError ServiceInfo
unfolding unit_to_service_info
first_unit name (err e) = err (querying_unit name e)
first_unit name (ok []) = err (unit_not_found name)
first_unit name (ok (u ∷ us)) = ok (unit_to_service_info u)

-- The answer of a job, as `Start`, `Stop`, `Restart` and `Reload` treat it.
unfoldable pub job_outcome :
    Text → ServiceAction → (verb done : Text) → Result Text Text → ActionResult
job_outcome unit action verb done (err e) = fail_result unit action (call_failed verb e)
job_outcome unit action verb done (ok result) =
    if not (result ≟ codes "done")
    then fail_result unit action (job_result result)
    else success_result unit action done

module _ {S : Type 0} where
  -- `List`
  unfoldable pub list_services : Option (Bus S) → S → Result ServiceError (List ServiceInfo) × S
  unfolding services_of
  list_services none s = (err no_bus, s)
  list_services (some bus) s =
      let (r, s') = bus.list_units s in
      (elim r [ err e ↦ err (listing_units e) | ok units ↦ ok (services_of units) ], s')

  -- `Get`
  unfoldable pub get_service : Option (Bus S) → Text → S → Result ServiceError ServiceInfo × S
  unfolding first_unit ensure_service_suffix
  get_service none name s = (err no_bus, s)
  get_service (some bus) name s =
      let unit = ensure_service_suffix name in
      let (r, s') = bus.list_units_by_names (unit ∷ []) s in (first_unit unit r, s')

  -- `Start`, `Stop`, `Restart` and `Reload`; `job` is the call of the bus.
  unfoldable pub run_job :
      (Bus S → Job S)
      → ServiceAction
      → (verb done : Text) → Option (Bus S)
      → Text
      → S
      → ActionResult × S
  unfolding job_outcome ensure_service_suffix
  run_job job action verb done none name s = (fail_result name action bus_unavailable, s)
  run_job job action verb done (some bus) name s =
      let unit = ensure_service_suffix name in
      let (r, s') = job bus unit (codes "replace") s in (job_outcome unit action verb done r, s')

  unfoldable pub start_service : Option (Bus S) → Text → S → ActionResult × S
  unfolding run_job
  start_service = run_job (λ bus. bus.start_unit) action_start (codes "start") (codes "started")

  unfoldable pub stop_service : Option (Bus S) → Text → S → ActionResult × S
  unfolding run_job
  stop_service = run_job (λ bus. bus.stop_unit) action_stop (codes "stop") (codes "stopped")

  unfoldable pub restart_service : Option (Bus S) → Text → S → ActionResult × S
  unfolding run_job
  restart_service =
      run_job (λ bus. bus.restart_unit) action_restart (codes "restart") (codes "restarted")

  unfoldable pub reload_service : Option (Bus S) → Text → S → ActionResult × S
  unfolding run_job
  reload_service =
      run_job (λ bus. bus.reload_unit) action_reload (codes "reload") (codes "reloaded")

  -- What follows on the change of the unit files: systemd is reloaded, whose error is only logged.
  unfoldable pub file_outcome :
      Bus S → Text → ServiceAction → (verb done : Text) → Option Text → S → ActionResult × S
  file_outcome bus unit action verb done (some e) s =
      (fail_result unit action (call_failed verb e), s)
  file_outcome bus unit action verb done none s =
      (success_result unit action done, (bus.daemon_reload s).1)

  unfoldable pub enable_service : Option (Bus S) → Text → S → ActionResult × S
  unfolding file_outcome ensure_service_suffix
  enable_service none name s = (fail_result name action_enable bus_unavailable, s)
  enable_service (some bus) name s =
      let unit = ensure_service_suffix name in
      let (e, s') = bus.enable_unit_files (unit ∷ []) false true s in
      file_outcome bus unit action_enable (codes "enable") (codes "enabled") e s'

  unfoldable pub disable_service : Option (Bus S) → Text → S → ActionResult × S
  unfolding file_outcome ensure_service_suffix
  disable_service none name s = (fail_result name action_disable bus_unavailable, s)
  disable_service (some bus) name s =
      let unit = ensure_service_suffix name in
      let (e, s') = bus.disable_unit_files (unit ∷ []) false s in
      file_outcome bus unit action_disable (codes "disable") (codes "disabled") e s'

-- What the dispatcher gets.
pub data ServiceOutput : Type 0 where
  infos : List ServiceInfo → ServiceOutput
  info : ServiceInfo → ServiceOutput
  acted : ActionResult → ServiceOutput

abbrev pub service_output_of :
    {S A : Type 0}
    → (A → ServiceOutput)
    → Result ServiceError A × S
    → Result ServiceError ServiceOutput × S
service_output_of f (ok a, s) = (ok (f a), s)
service_output_of f (err e, s) = (err e, s)

abbrev pub acted_of : {S : Type 0} → ActionResult × S → Result ServiceError ServiceOutput × S
acted_of (r, s) = (ok (acted r), s)

-- The cases `services.*` of the dispatcher's `run`.
unfoldable pub service_call :
    {S : Type 0} → Option (Bus S) → ServiceOp → Text → S → Result ServiceError ServiceOutput × S
unfolding list_services get_service start_service stop_service restart_service reload_service
    enable_service disable_service
service_call bus list name s = service_output_of infos (list_services bus s)
service_call bus get name s = service_output_of info (get_service bus name s)
service_call bus start name s = acted_of (start_service bus name s)
service_call bus stop name s = acted_of (stop_service bus name s)
service_call bus restart name s = acted_of (restart_service bus name s)
service_call bus reload name s = acted_of (reload_service bus name s)
service_call bus enable name s = acted_of (enable_service bus name s)
service_call bus disable name s = acted_of (disable_service bus name s)

-- The manager for Windows, which does nothing.
unfoldable pub windows_service_call : ServiceOp → Text → Result ServiceError ServiceOutput
windows_service_call list name = err unsupported
windows_service_call get name = err unsupported
windows_service_call start name = ok (acted (fail_result name action_start not_supported))
windows_service_call stop name = ok (acted (fail_result name action_stop not_supported))
windows_service_call restart name = ok (acted (fail_result name action_restart not_supported))
windows_service_call reload name = ok (acted (fail_result name action_reload not_supported))
windows_service_call enable name = ok (acted (fail_result name action_enable not_supported))
windows_service_call disable name = ok (acted (fail_result name action_disable not_supported))
