-- ===== src/S3/Observer/Health.antt =====
-- `serviceHealth` of observer.go over the manager of internal/modules/services.
use s3_agent.Prelude.{
  ◌≡◌, refl, ◌↔◌, Bool, true, false, Option, none, some, List, [], ◌∷◌, Text, codes, Result, ok,
  err, arith,
}
use s3_agent.S3.Observer.Poll.{Net, UnitState, service_health}
use s3_agent.Services.{
  Bus, UnitStatus, ServiceState, state_active, state_inactive, state_failed, state_unknown,
  ServiceInfo, ServiceError, get_service, first_unit, ensure_service_suffix, unit_to_service_info,
  state_of,
}

-- `info.State == services.StateActive`
abbrev pub is_state_active : ServiceState → Bool
is_state_active state_active = true
is_state_active state_inactive = false
is_state_active state_failed = false
is_state_active state_unknown = false

-- What `serviceHealth` takes of the answer of `Get`.
abbrev pub unit_state : Result ServiceError ServiceInfo → Option UnitState
unit_state (err e) = none
unit_state (ok i) = some (record { is_active = is_state_active i.state; sub_state = i.sub_state })

-- The answers of a poll, with the units that systemd knows.
unfoldable pub with_services : {S : Type 0} → Option (Bus S) → S → Net → Net
unfolding get_service
with_services bus s net = record net { unit = λ name. unit_state (get_service bus name s).0 }

-- Systemd knows a unit of the name, with `.service` where the name has no dot, and the first such
-- unit is active.
abbrev pub HasActiveUnit : {S : Type 0} → Bus S → Text → S → Type 0
HasActiveUnit bus name s =
    (u : UnitStatus) × (us : List UnitStatus) × ((bus.list_units_by_names
        (ensure_service_suffix name ∷ []) s).0
      ≡ ok (u ∷ us))
    × (u.active_state ≡ codes "active")

state_of-active : (t : Text) → (is_state_active (state_of t) ≡ true) ↔ (t ≡ codes "active")
state_of-active t = ground arith

module _ {S : Type 0} (net : Net) (s : S) where
  first_unit-active :
      (name unit : Text) (r : Result Text (List UnitStatus))
      → ((service_health (record net { unit = λ n. unit_state (first_unit unit r) }) name).active
          ≡ true)
        ↔ ((u : UnitStatus) × (us : List UnitStatus) × (r ≡ ok (u ∷ us))
            × (u.active_state ≡ codes "active"))
  unfolding service_health first_unit unit_to_service_info
  first_unit-active name unit (err e) = ground arith
  first_unit-active name unit (ok []) = ground arith
  first_unit-active name unit (ok (u ∷ us)) = (
    λ h. (u, us, refl, (state_of-active u.active_state).0 h),
    λ (x, xs, p, q). ground (arith, p, q, state_of-active u.active_state),
  )

  -- With a connection to systemd, a service is reported as active exactly if systemd lists a unit for
  -- its name, with ".service" where it has no dot, and the first one that it lists is active.
  pub service_health-active :
      (bus : Bus S) (name : Text)
      → ((service_health (with_services (some bus) s net) name).active ≡ true)
        ↔ HasActiveUnit bus name s
  unfolding with_services get_service service_health
  service_health-active bus name =
      let unit = ensure_service_suffix name in
      first_unit-active name unit (bus.list_units_by_names (unit ∷ []) s).0
