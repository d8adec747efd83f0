-- ===== src/Tests/Iso.antt =====
-- The theorems on the ISO at a concrete machine.
use s3_agent.Prelude.{◌≡◌, ◌⊎◌, false, none, some, List, [], ◌∷◌, codes, ok, err, is_nil}
use s3_agent.Prelude.Int.{pos}
use s3_agent.Config.{NatsConfig}
use s3_agent.Iso.Metadata.{VirtualMachineMetadata, VirtualNetworkCard, Network, IpEntry}
use s3_agent.Iso.Reader.{content, missing, Decoders, read, resolve_identity, resolve_identity_lem}

abbrev network : Network
network = record {
  ip_addr = [];
  ip_range_start = [];
  ip_range_end = [];
  gateway = none;
  subnet = [];
  netmask = [];
  network_address = [];
  dhcp_server = [];
  dns_nameservers = [];
  mtu = pos 0;
}

abbrev entry : IpEntry
entry = record { id = []; ip_addr = codes "10.0.0.1/32"; version = none; is_reachable = none }

abbrev card : List IpEntry → VirtualNetworkCard
card es = record { device_number = pos 0; mac_addr = []; network = network; ip_list = es }

abbrev machine : VirtualMachineMetadata
machine = record {
  hostname = codes "h";
  username = [];
  password = [];
  agent_api_key = codes "key";
  virtual_machine_id = codes "vm";
  virtual_disks = [];
  virtual_network_cards = card [] ∷ card (entry ∷ []) ∷ [];
  service_roles = [];
  ssh_public_keys = [];
}

abbrev decoders : Decoders
decoders = record { yaml = λ t. ok machine; json = λ t. err [] }

abbrev config : NatsConfig
config = record {
  connection_type = codes "nats";
  url = [];
  websocket_url = [];
  agent_uuid = codes "u";
  api_key = codes "k";
  subject_type = [];
  max_reconnects = pos 0;
  reconnect_wait = pos 0;
}

resolve_identity_lem_example :
    (resolve_identity decoders config (content []) missing ≡ (config.agent_uuid, config.api_key))
    ⊎ ((m : VirtualMachineMetadata) × (read decoders (content []) missing ≡ ok (some m))
        × (is_nil m.virtual_machine_id ≡ false)
        × (resolve_identity decoders config (content []) missing
            ≡ (m.virtual_machine_id, m.agent_api_key)))
resolve_identity_lem_example = resolve_identity_lem decoders config (content []) missing
