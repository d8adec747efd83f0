-- ===== src/S3/Observer/Change/Laws.antt =====
-- When a change is reported.
use s3_agent.Prelude.{◌≡◌, refl, Bool, true, false, ◌&&◌, Option, none, some, arith, ◌==◌}
use s3_agent.S3.Types.{ClusterComponents, VolumeComponent}
use s3_agent.S3.Observer.Change.{
  Float, Reason, detect_change, master_change, volume_change, capacity_change, filer_change,
  s3_change, nginx_change, flip,
}

flip-none :
    {A : Type 0} (p c : Bool) (up down : A) (rest : Option A)
    → flip p c up down rest ≡ none
    → (p ≡ c) × (rest ≡ none)
flip-none true true up down rest h = (refl, h)
flip-none true false up down rest h = cc
flip-none false true up down rest h = cc
flip-none false false up down rest h = (refl, h)

flip_same : {A : Type 0} (p : Bool) (up down : A) (rest : Option A) → flip p p up down rest ≡ rest
flip_same true up down rest = refl
flip_same false up down rest = refl

-- What the two polls agree on: which components are reachable, which services are active, and
-- whether there are degraded volumes.
pub record AreAlike {F : Type 0} (p c : ClusterComponents F) : Type 0 where
  pub master_reachable : p.master.reachable ≡ c.master.reachable
  pub master_active : p.master.service.active ≡ c.master.service.active
  pub volume_reachable : p.volume.reachable ≡ c.volume.reachable
  pub volume_active : p.volume.service.active ≡ c.volume.service.active
  pub degraded : (p.volume.degraded_volumes == 0) ≡ (c.volume.degraded_volumes == 0)
  pub filer_reachable : p.filer.reachable ≡ c.filer.reachable
  pub filer_active : p.filer.service.active ≡ c.filer.service.active
  pub s3_reachable : p.s3.reachable ≡ c.s3.reachable
  pub s3_active : p.s3.service.active ≡ c.s3.service.active
  pub nginx_active : p.nginx.service.active ≡ c.nginx.service.active

module _ (fl : Float) (warn critical : fl.F) where
  capacity_none :
      (p c : VolumeComponent fl.F) (rest : Option (Reason fl.F))
      → capacity_change fl warn critical p c rest ≡ none
      → ((p.degraded_volumes == 0) ≡ (c.degraded_volumes == 0)) × (rest ≡ none)
  unfolding capacity_change
  capacity_none p c rest h = ground arith

  -- Between two polls with no change reported, the master, the volume server, the filer and the S3
  -- gateway are reachable or not as before, their services and that of nginx are active or not as
  -- before, and so is whether there are degraded volumes. Nothing is said of the other values, such as
  -- which master leads.
  pub detect_change-AreAlike :
      (p c : ClusterComponents fl.F)
      → detect_change fl warn critical (some p) c ≡ none
      → AreAlike p c
  unfolding detect_change master_change volume_change filer_change s3_change nginx_change
  detect_change-AreAlike p c h =
      let (m1, h1) = flip-none p.master.reachable c.master.reachable _ _ _ h in
      let (m2, h2) = flip-none p.master.service.active c.master.service.active _ _ _ h1 in
      let (v1, h3) = flip-none p.volume.reachable c.volume.reachable _ _ _ h2 in
      let (v2, h4) = flip-none p.volume.service.active c.volume.service.active _ _ _ h3 in
      let (d, h5) = capacity_none p.volume c.volume _ h4 in
      let (f1, h6) = flip-none p.filer.reachable c.filer.reachable _ _ _ h5 in
      let (f2, h7) = flip-none p.filer.service.active c.filer.service.active _ _ _ h6 in
      let (s1, h8) = flip-none p.s3.reachable c.s3.reachable _ _ _ h7 in
      let (s2, h9) = flip-none p.s3.service.active c.s3.service.active _ _ _ h8 in
      let (n, _) = flip-none p.nginx.service.active c.nginx.service.active _ _ _ h9 in
      record {
        master_reachable = m1;
        master_active = m2;
        volume_reachable = v1;
        volume_active = v2;
        degraded = d;
        filer_reachable = f1;
        filer_active = f2;
        s3_reachable = s1;
        s3_active = s2;
        nginx_active = n;
      }

  -- A poll that finds what the last one found reports nothing, if no float is both at least and
  -- less than another.
  pub detect_change_same :
      ((x y : fl.F) → (fl.ge x y && fl.lt x y) ≡ false)
      → (p : ClusterComponents fl.F) → detect_change fl warn critical (some p) p ≡ none
  unfolding detect_change master_change volume_change capacity_change filer_change s3_change
      nginx_change
  detect_change_same law p =
      simp (flip_same, law p.volume.capacity_pct critical, law p.volume.capacity_pct warn)
        (ground arith)
