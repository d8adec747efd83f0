-- ===== src/System/Network.antt =====
-- `GetNetwork` of internal/modules/system/system.go: the counters of the interfaces that are not
-- virtual.
pub mod Laws
use s3_agent.Prelude.{
  ℕ, ◌≡◌, refl, Bool, true, false, ◌||◌, Option, none, some, List, [], ◌∷◌, Text, codes, Result, ok,
  err, if◌then◌else◌, ◌≟◌, member,
}
use s3_agent.Strings.{has_prefix}
use s3_agent.System.{
  NetworkEntry, InterfaceCounters, Interface, Host, SystemError, net_io_counters, net_interfaces,
}

-- `isVirtualInterface`
unfoldable pub is_virtual_interface : Text → Bool
unfolding has_prefix
is_virtual_interface name =
    name ≟ codes "lo"
    || has_prefix name (codes "docker")
    || has_prefix name (codes "veth")
    || has_prefix name (codes "br-")
    || has_prefix name (codes "virbr")
    || has_prefix name (codes "vlan")

-- `ifaceMap`: of two interfaces of one name, the later one stays.
unfoldable pub interface_of : Text → List Interface → Option Interface
interface_of name [] = none
interface_of name (i ∷ is) = elim (interface_of name is) [
  | some j ↦ some j
  | none ↦ (if i.name ≟ name then some i else none)
]

-- The loop over the flags.
abbrev pub is_up_of : Option Interface → Bool
is_up_of none = false
is_up_of (some i) = member (codes "up") i.flags

unfoldable pub network_entries : List Interface → List InterfaceCounters → List NetworkEntry
network_entries is [] = []
network_entries is (c ∷ cs) =
    let rest = network_entries is cs in
    if is_virtual_interface c.name
    then rest
    else record {
      interface = c.name;
      bytes_sent = c.bytes_sent;
      bytes_recv = c.bytes_recv;
      is_up = is_up_of (interface_of c.name is);
    }
      ∷ rest

-- `GetNetwork`
unfoldable pub get_network : {F : Type 0} → Host F → ℕ → Result SystemError (List NetworkEntry)
unfolding network_entries
get_network host now = elim (host.net_counters now) [
  | err e ↦ err (net_io_counters e)
  | ok cs ↦ elim (host.interfaces now) [
    | err e ↦ err (net_interfaces e)
    | ok is ↦ ok (network_entries is cs)
  ]
]
