-- ===== src/S3/Observer/Change.antt =====
-- `detectChange` and the loop of `Watch` of observer.go.
pub mod Laws
use s3_agent.Prelude.{
  ℕ, ◌≡◌, Bool, true, false, not, ◌&&◌, Option, none, some, List, [], ◌∷◌, Text, if◌then◌else◌, ltb,
  ◌==◌,
}
use s3_agent.S3.Types.{
  ServiceHealth, MasterComponent, VolumeComponent, FilerComponent, S3GatewayComponent,
  NginxComponent, ClusterComponents,
}

-- The operations of float64 that the observer uses.
pub record Float : Type 1 where
  pub F : Type 0
  pub zero : F
  -- `float64(used) / float64(total) * 100`
  pub percent : ℕ → ℕ → F
  -- `x >= y` and `x < y`
  pub ge : F → F → Bool
  pub lt : F → F → Bool

-- The reason strings; the arguments are those of `fmt.Sprintf`.
pub data Reason (F : Type 0) : Type 0 where
  master_recovered master_unreachable master_started master_stopped : Reason F
  volume_recovered volume_unreachable volume_started volume_stopped : Reason F
  volumes_degraded : ℕ → Reason F
  volumes_recovered : Reason F
  capacity_critical capacity_warn : F → Reason F
  filer_recovered filer_unreachable filer_started filer_stopped : Reason F
  s3_recovered s3_unreachable s3_started s3_stopped : Reason F
  nginx_started nginx_stopped : Reason F

-- `if prev != cur { if cur { return up }; return down }`, else what follows.
abbrev pub flip : {A : Type 0} → Bool → Bool → A → A → Option A → Option A
flip true true up down rest = rest
flip true false up down rest = some down
flip false true up down rest = some up
flip false false up down rest = rest

-- `if test { return a }`, else what follows.
abbrev pub when : {A : Type 0} → Bool → A → Option A → Option A
when true a rest = some a
when false a rest = rest

module _ (fl : Float) (warn critical : fl.F) where
  abbrev R : Type 0
  R = Reason fl.F

  unfoldable pub nginx_change : NginxComponent → NginxComponent → Option R
  nginx_change p c = flip p.service.active c.service.active nginx_started nginx_stopped none

  unfoldable pub s3_change : S3GatewayComponent → S3GatewayComponent → Option R → Option R
  s3_change p c rest =
      flip p.reachable c.reachable s3_recovered s3_unreachable
        (flip p.service.active c.service.active s3_started s3_stopped rest)

  unfoldable pub filer_change : FilerComponent → FilerComponent → Option R → Option R
  filer_change p c rest =
      flip p.reachable c.reachable filer_recovered filer_unreachable
        (flip p.service.active c.service.active filer_started filer_stopped rest)

  -- A threshold is crossed upwards.
  abbrev crossed : fl.F → fl.F → fl.F → Bool
  crossed threshold p c = fl.ge c threshold && fl.lt p threshold

  unfoldable pub capacity_change : VolumeComponent fl.F → VolumeComponent fl.F → Option R → Option R
  capacity_change p c rest =
      when (p.degraded_volumes == 0 && ltb 0 c.degraded_volumes)
        (volumes_degraded c.degraded_volumes)
        (when (ltb 0 p.degraded_volumes && c.degraded_volumes == 0) volumes_recovered (
          when (crossed critical p.capacity_pct c.capacity_pct) (capacity_critical c.capacity_pct) (
            when (crossed warn p.capacity_pct c.capacity_pct) (capacity_warn c.capacity_pct) rest)))

  unfoldable pub volume_change : VolumeComponent fl.F → VolumeComponent fl.F → Option R → Option R
  unfolding capacity_change
  volume_change p c rest = flip p.reachable c.reachable volume_recovered volume_unreachable (
      flip p.service.active c.service.active volume_started volume_stopped
        (capacity_change p c rest))

  unfoldable pub master_change : MasterComponent → MasterComponent → Option R → Option R
  master_change p c rest =
      flip p.reachable c.reachable master_recovered master_unreachable
        (flip p.service.active c.service.active master_started master_stopped rest)

  -- `detectChange`; `none` is the empty string.
  unfoldable pub detect_change : Option (ClusterComponents fl.F) → ClusterComponents fl.F → Option R
  unfolding nginx_change s3_change filer_change volume_change master_change
  detect_change none cur = none
  detect_change (some prev) cur = master_change prev.master cur.master (
      volume_change prev.volume cur.volume (
        filer_change prev.filer cur.filer
          (s3_change prev.s3 cur.s3 (nginx_change prev.nginx cur.nginx))))

  -- `Watch`: the calls of `onChangeFn` over a sequence of polls.
  unfoldable pub watch :
      Option (ClusterComponents fl.F)
      → List (ClusterComponents fl.F)
      → List (ClusterComponents fl.F × R)
  unfolding detect_change
  watch prev [] = []
  watch prev (cur ∷ polls) =
      let rest = watch (some cur) polls in
      elim (detect_change prev cur) [ none ↦ rest | some reason ↦ (cur, reason) ∷ rest ]
