-- ===== src/Iso/Metadata.antt =====
-- pkg/isoconfig/reader.go: the metadata of the config drive and its accessors. Metadata that is
-- absent is `none`; a wrapper `data` is its content.
use s3_agent.Prelude.{
  ◌≡◌, refl, Bool, Option, none, some, List, [], ◌∷◌, ◌++◌, Text, is_nil, arith, if◌then◌else◌,
}
use s3_agent.Prelude.Int.{ℤ}

pub record VirtualDisk : Type 0 where
  pub disk_type : Text
  pub device_number : ℤ
  pub total_disk : ℤ

pub record Network : Type 0 where
  pub ip_addr : Text
  pub ip_range_start : Text
  pub ip_range_end : Text
  pub gateway : Option Text
  pub subnet : Text
  pub netmask : Text
  pub network_address : Text
  pub dhcp_server : Text
  pub dns_nameservers : List Text
  pub mtu : ℤ

pub record IpEntry : Type 0 where
  pub id : Text
  pub ip_addr : Text
  pub version : Option Text
  pub is_reachable : Option Bool

pub record VirtualNetworkCard : Type 0 where
  pub device_number : ℤ
  pub mac_addr : Text
  pub network : Network
  pub ip_list : List IpEntry

pub record ServiceRole : Type 0 where
  pub name : Text
  pub config : Text

pub record VirtualMachineMetadata : Type 0 where
  pub hostname : Text
  pub username : Text
  pub password : Text
  pub agent_api_key : Text
  pub virtual_machine_id : Text
  pub virtual_disks : List VirtualDisk
  pub virtual_network_cards : List VirtualNetworkCard
  pub service_roles : List ServiceRole
  pub ssh_public_keys : List Text

-- `ISOMetadata`
abbrev pub IsoMetadata : Type 0
IsoMetadata = Option VirtualMachineMetadata

-- `VMID`
unfoldable pub vm_id : IsoMetadata → Text
vm_id none = []
vm_id (some m) = m.virtual_machine_id

-- `AgentAPIKey`
unfoldable pub agent_api_key : IsoMetadata → Text
agent_api_key none = []
agent_api_key (some m) = m.agent_api_key

-- The accessors of a field, and those that are empty in the current schema.
unfoldable pub hostname : IsoMetadata → Text
hostname none = []
hostname (some m) = m.hostname

unfoldable pub username : IsoMetadata → Text
username none = []
username (some m) = m.username

unfoldable pub password : IsoMetadata → Text
password none = []
password (some m) = m.password

unfoldable pub api_key : IsoMetadata → Text
unfolding password
api_key = password

unfoldable pub agent_token : IsoMetadata → Text
unfolding agent_api_key
agent_token = agent_api_key

unfoldable pub tenant_id : IsoMetadata → Text
tenant_id iso = []

unfoldable pub control_plane_url : IsoMetadata → Text
control_plane_url iso = []

unfoldable pub tags : IsoMetadata → List (Text × Text)
tags iso = []

first_address : List VirtualNetworkCard → Text
first_address [] = []
first_address (nic ∷ nics) =
    let rest = first_address nics in elim nic.ip_list [ [] ↦ rest | e ∷ _ ↦ e.ip_addr ]

first_gateway : List VirtualNetworkCard → Text
first_gateway [] = []
first_gateway (nic ∷ nics) =
    let rest = first_gateway nics in elim nic.network.gateway [ none ↦ rest | some g ↦ g ]

first_nameservers : List VirtualNetworkCard → List Text
first_nameservers [] = []
first_nameservers (nic ∷ nics) =
    let rest = first_nameservers nics in
    if is_nil nic.network.dns_nameservers then rest else nic.network.dns_nameservers

-- `PrimaryIP`
unfoldable pub primary_ip : IsoMetadata → Text
unfolding first_address
primary_ip none = []
primary_ip (some m) = first_address m.virtual_network_cards

-- `Gateway`
unfoldable pub gateway : IsoMetadata → Text
unfolding first_gateway
gateway none = []
gateway (some m) = first_gateway m.virtual_network_cards

-- `DNSNameservers`
unfoldable pub dns_nameservers : IsoMetadata → List Text
unfolding first_nameservers
dns_nameservers none = []
dns_nameservers (some m) = first_nameservers m.virtual_network_cards

-- All entries of all cards, in order, and the address of the first.
abbrev pub entries : List VirtualNetworkCard → List IpEntry
entries [] = []
entries (nic ∷ nics) = nic.ip_list ++ entries nics

abbrev pub head_address : List IpEntry → Text
head_address [] = []
head_address (e ∷ es) = e.ip_addr

first_address_lem :
    (nics : List VirtualNetworkCard) → first_address nics ≡ head_address (entries nics)
unfolding first_address
first_address_lem [] = refl
first_address_lem (nic ∷ nics) = ground (arith, first_address_lem nics)

-- The primary address is the first entry of all cards taken together, whichever card has it.
pub primary_ip_lem :
    (m : VirtualMachineMetadata)
    → primary_ip (some m) ≡ head_address (entries m.virtual_network_cards)
unfolding primary_ip
primary_ip_lem m = first_address_lem m.virtual_network_cards
