-- ===== src/Services/Laws.antt =====
-- What the operations on services promise, whatever systemd answers.
use s3_agent.Prelude.{
  ◌≡◌, refl, ◌↔◌, Bool, true, false, Option, none, some, [], ◌∷◌, Text, codes, Result, ok, err,
  arith,
}
use s3_agent.Strings.{contains}
use s3_agent.Strings.Search.{contains_middle}
use s3_agent.Dispatcher.Types.{ServiceOp, list, get, start, stop, restart, reload, enable, disable}
use s3_agent.Services.{
  Bus, acted, ActionResult, ensure_service_suffix, service_call, ServiceAction, job_outcome,
  file_outcome, run_job,
}

ensure_service_suffix-contains :
    (name : Text) → contains (ensure_service_suffix name) (codes ".") ≡ true
unfolding ensure_service_suffix
ensure_service_suffix-contains name =
    ground (arith, contains_middle name (codes ".") (codes "service"))

-- A name with its suffix is left alone.
ensure_service_suffix_idem :
    (name : Text) → ensure_service_suffix (ensure_service_suffix name) ≡ ensure_service_suffix name
ensure_service_suffix_idem name =
    fixed (ensure_service_suffix name) (ensure_service_suffix-contains name)
  where
    fixed : (n : Text) → contains n (codes ".") ≡ true → ensure_service_suffix n ≡ n
    fixed n h = unfold ensure_service_suffix in ground (arith, h)

module _ {S : Type 0} (bus : Bus S) where
  -- A service can be named without `.service`: every operation gives the same answer, and does the
  -- same, for the name and for the name with the suffix.
  pub service_call_suffix :
      (op : ServiceOp) (name : Text) (s : S)
      → service_call (some bus) op (ensure_service_suffix name) s
        ≡ service_call (some bus) op name s
  unfolding service_call
  service_call_suffix list name s = refl
  service_call_suffix get name s = ground (arith, ensure_service_suffix_idem name)
  service_call_suffix start name s = ground (arith, ensure_service_suffix_idem name)
  service_call_suffix stop name s = ground (arith, ensure_service_suffix_idem name)
  service_call_suffix restart name s = ground (arith, ensure_service_suffix_idem name)
  service_call_suffix reload name s = ground (arith, ensure_service_suffix_idem name)
  service_call_suffix enable name s = ground (arith, ensure_service_suffix_idem name)
  service_call_suffix disable name s = ground (arith, ensure_service_suffix_idem name)

-- The operations that act on a service.
unfoldable pub is_action : ServiceOp → Bool
is_action list = false
is_action get = false
is_action start = true
is_action stop = true
is_action restart = true
is_action reload = true
is_action enable = true
is_action disable = true

-- Did systemd do what the operation asks for?
unfoldable pub Did : {S : Type 0} → Bus S → ServiceOp → (unit : Text) → S → Type 0
Did bus list unit s = Unit
Did bus get unit s = Unit
Did bus start unit s = (bus.start_unit unit (codes "replace") s).0 ≡ ok (codes "done")
Did bus stop unit s = (bus.stop_unit unit (codes "replace") s).0 ≡ ok (codes "done")
Did bus restart unit s = (bus.restart_unit unit (codes "replace") s).0 ≡ ok (codes "done")
Did bus reload unit s = (bus.reload_unit unit (codes "replace") s).0 ≡ ok (codes "done")
Did bus enable unit s = (bus.enable_unit_files (unit ∷ []) false true s).0 ≡ none
Did bus disable unit s = (bus.disable_unit_files (unit ∷ []) false s).0 ≡ none

module _ {S : Type 0} (bus : Bus S) where
  job_outcome-success :
      (unit : Text) (a : ServiceAction) (verb done : Text) (r : Result Text Text)
      → ((job_outcome unit a verb done r).success ≡ true) ↔ (r ≡ ok (codes "done"))
  unfolding job_outcome
  job_outcome-success unit a verb done (err e) = ground arith
  job_outcome-success unit a verb done (ok x) = ground arith

  file_outcome-success :
      (unit : Text) (a : ServiceAction) (verb done : Text) (e : Option Text) (s : S)
      → ((file_outcome bus unit a verb done e s).0.success ≡ true) ↔ (e ≡ none)
  unfolding file_outcome
  file_outcome-success unit a verb done none s = ground arith
  file_outcome-success unit a verb done (some e) s = ground arith

  -- An action is never answered with an error: it is answered with a result, whose `Success` is true
  -- exactly if systemd took the call for the unit with its suffix and, for a job, reported "done".
  pub service_call_action :
      (op : ServiceOp) (name : Text) (s : S)
      → is_action op ≡ true
      → (r : ActionResult) × ((service_call (some bus) op name s).0 ≡ ok (acted r))
        × ((r.success ≡ true) ↔ Did bus op (ensure_service_suffix name) s)
  unfolding service_call is_action Did run_job
  service_call_action list name s h = cc
  service_call_action get name s h = cc
  service_call_action start name s h = (_, refl, job_outcome-success _ _ _ _ _)
  service_call_action stop name s h = (_, refl, job_outcome-success _ _ _ _ _)
  service_call_action restart name s h = (_, refl, job_outcome-success _ _ _ _ _)
  service_call_action reload name s h = (_, refl, job_outcome-success _ _ _ _ _)
  service_call_action enable name s h = (_, refl, file_outcome-success _ _ _ _ _ _)
  service_call_action disable name s h = (_, refl, file_outcome-success _ _ _ _ _ _)
