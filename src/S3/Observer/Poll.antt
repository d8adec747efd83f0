-- ===== src/S3/Observer/Poll.antt =====
-- `PollCluster` of observer.go and its helpers.
-- The HTTP client, encoding/json and the service manager are parameters.
pub mod Laws
use s3_agent.Prelude.{
  ℕ, ◌+◌, ◌%◌, ◌^◌, ◌≡◌, Bool, true, false, not, ◌&&◌, ◌||◌, Option, none, some, List, [], ◌∷◌,
  ◌++◌, Text, codes, if◌then◌else◌, ltb, leb, length, drop, ◌≟◌, Result, ok, err, is_ok,
}
use s3_agent.Prelude.Int.{ℤ, pos, ltb_ℤ}
use s3_agent.Touch.{Touch}
use s3_agent.Config.{S3Config}
use s3_agent.S3.Types.{
  ServiceHealth, MasterComponent, VolumeComponent, FilerComponent, S3GatewayComponent,
  NginxComponent, ClusterComponents, BucketStat,
}
use s3_agent.S3.Observer.Change.{Float}

-- What `services.Manager.Get` tells: is the state active, and the sub-state.
pub record UnitState : Type 0 where
  pub is_active : Bool
  pub sub_state : Text

pub record HttpResponse : Type 0 where
  pub status : ℕ
  pub body : Text

pub record MasterStatus : Type 0 where
  pub is_leader : Bool
  pub peers : List Text

pub record VolumeEntry : Type 0 where
  pub read_only : Bool
  pub replica_count : ℤ

pub record DiskStatus : Type 0 where
  pub total : ℕ
  pub used : ℕ

pub record VolumeStatus : Type 0 where
  pub volumes : List VolumeEntry
  pub disk_statuses : List DiskStatus

pub record VolumeInfo : Type 0 where
  pub collection : Text
  pub size : ℤ
  pub file_count : ℤ
  pub delete_count : ℤ
  pub read_only : Bool

-- The answers of one poll.
pub record Net : Type 0 where
  -- GET and HEAD; an error of the client, or a response.
  pub get : Text → Result Text HttpResponse
  pub head : Text → Result Text HttpResponse
  -- encoding/json, at the four answers that are read.
  pub master_status : Text → Option MasterStatus
  pub volume_status : Text → Option VolumeStatus
  pub filer_entries : Text → Option (List Text)
  -- Data centers, racks and nodes in the order of Go's maps; `none` where the value of a data
  -- center or of a rack cannot be decoded.
  pub topology : Text → Option (List (Option (List (Option (List (List VolumeInfo))))))
  -- `o.svc.Get`; `none` where there is no manager or it returns an error.
  pub unit : Text → Option UnitState

module _ (net : Net) where
  -- `serviceHealth`
  unfoldable pub service_health : Text → ServiceHealth
  service_health name = elim (net.unit name) [
    | none ↦ record { name = name; active = false; sub_state = [] }
    | some u ↦ record { name = name; active = u.is_active; sub_state = u.sub_state }
  ]

  -- `getJSON` and `getBody`, without the text of the error.
  unfoldable pub get_body : Text → Option Text
  get_body url = elim (net.get url) [
    | err e ↦ none
    | ok r ↦ if leb 400 r.status then none else some r.body
  ]

  -- `head`
  unfoldable pub head_ok : Text → Bool
  head_ok url = elim (net.head url) [ err e ↦ false | ok r ↦ ltb r.status 400 ]

abbrev pub decode : {A : Type 0} → Option Text → (Text → Option A) → Option A
decode none f = none
decode (some body) f = f body

pub record Counts : Type 0 where
  pub writable : ℕ
  pub degraded : ℕ
  pub readonly : ℕ

-- The loop over the volumes.
unfoldable pub count_volumes : List VolumeEntry → Counts → Counts
count_volumes [] n = n
count_volumes (v ∷ vs) n = count_volumes vs (
    if v.read_only
    then record n { readonly = n.readonly + 1 }
    else if ltb_ℤ v.replica_count (pos 2)
    then record n { degraded = n.degraded + 1 }
    else record n { writable = n.writable + 1 })

-- The sums of uint64.
unfoldable pub sum_disks : List DiskStatus → ℕ → ℕ → ℕ × ℕ
sum_disks [] total used = (total, used)
sum_disks (d ∷ ds) total used = sum_disks ds ((total + d.total) % 2 ^ 64) ((used + d.used) % 2 ^ 64)

module _ (fl : Float) (cfg : S3Config fl.F) (net : Net) (now : ℕ) where
  unfoldable pub poll_master : MasterComponent
  unfolding service_health get_body
  poll_master =
      let health = service_health net (codes "weed-master") in
      let body = get_body net (cfg.master_url ++ codes "/cluster/status") in
      elim (decode body net.master_status) [
        | none ↦ record {
          reachable = false;
          is_leader = false;
          peers = 0;
          checked_at = now;
          service = health;
        }
        | some m ↦ record {
          reachable = true;
          is_leader = m.is_leader;
          peers = length m.peers;
          checked_at = now;
          service = health;
        }
      ]

  -- The component that an answer of the volume server makes.
  unfoldable pub volume_component : ServiceHealth → Option VolumeStatus → VolumeComponent fl.F
  unfolding count_volumes sum_disks
  volume_component health none = record {
    reachable = false;
    total_volumes = 0;
    writable_volumes = 0;
    degraded_volumes = 0;
    read_only_volumes = 0;
    capacity_bytes_total = 0;
    capacity_bytes_used = 0;
    capacity_pct = fl.zero;
    checked_at = now;
    service = health;
  }
  volume_component health (some v) =
      let n = count_volumes v.volumes (record { writable = 0; degraded = 0; readonly = 0 }) in
      let (total, used) = sum_disks v.disk_statuses 0 0 in
      record {
        reachable = true;
        total_volumes = length v.volumes;
        writable_volumes = n.writable;
        degraded_volumes = n.degraded;
        read_only_volumes = n.readonly;
        capacity_bytes_total = total;
        capacity_bytes_used = used;
        capacity_pct = if ltb 0 total then fl.percent used total else fl.zero;
        checked_at = now;
        service = health;
      }

  unfoldable pub poll_volume : VolumeComponent fl.F
  unfolding service_health get_body volume_component
  poll_volume =
      volume_component (service_health net (codes "weed-volume"))
        (decode (get_body net (cfg.volume_url ++ codes "/status")) net.volume_status)

  unfoldable pub poll_filer : FilerComponent
  unfolding service_health head_ok
  poll_filer = record {
    reachable = head_ok net (cfg.filer_url ++ codes "/");
    checked_at = now;
    service = service_health net (codes "weed-filer");
  }

  -- Any response means that the gateway is up.
  unfoldable pub poll_s3_gateway : S3GatewayComponent
  unfolding service_health
  poll_s3_gateway = record {
    reachable = is_ok (net.head (cfg.s3_url ++ codes "/"));
    bucket_count = 0;
    checked_at = now;
    service = service_health net (codes "weed-s3");
  }

  unfoldable pub poll_nginx : NginxComponent
  unfolding service_health
  poll_nginx = record { service = service_health net (codes "nginx"); checked_at = now }

  -- `PollCluster`, which returns no error.
  unfoldable pub poll_cluster : ClusterComponents fl.F
  unfolding poll_master poll_volume poll_filer poll_s3_gateway poll_nginx
  poll_cluster = record {
    master = poll_master;
    volume = poll_volume;
    filer = poll_filer;
    s3 = poll_s3_gateway;
    nginx = poll_nginx;
  }

-- The requests of `PollCluster`, in order.
unfoldable pub poll_requests : {F : Type 0} → S3Config F → List Touch
poll_requests cfg =
    Touch.get (cfg.master_url ++ codes "/cluster/status")
    ∷ Touch.get (cfg.volume_url ++ codes "/status")
    ∷ Touch.head (cfg.filer_url ++ codes "/")
    ∷ Touch.head (cfg.s3_url ++ codes "/")
    ∷ []
