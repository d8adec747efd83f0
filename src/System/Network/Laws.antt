-- ===== src/System/Network/Laws.antt =====
-- Which interfaces are reported.
use s3_agent.Prelude.{
  ℕ, ◌≡◌, refl, ◌↔◌, inl, inr, not, true, Bool-cases, ◌++◌, codes, ◌≟◌, ◌&&◌, List, [], ◌∷◌, map,
  Text, member, arith, ok, Result-cases,
}
use s3_agent.Strings.{has_prefix}
use s3_agent.Strings.Search.{has_prefix-append}
use s3_agent.System.{InterfaceCounters, Interface, NetworkEntry, Host}
use s3_agent.System.Network.{is_virtual_interface, network_entries, get_network}

abbrev pub names : List NetworkEntry → List Text
names = map (λ e. e.interface)

abbrev pub counter_names : List InterfaceCounters → List Text
counter_names = map (λ c. c.name)

network_entries-member :
    (n : Text) (is : List Interface) (cs : List InterfaceCounters)
    → member n (names (network_entries is cs))
      ≡ (not (is_virtual_interface n) && member n (counter_names cs))
unfolding network_entries member
network_entries-member n is [] = ground arith
network_entries-member n is (c ∷ cs) = ground (arith, network_entries-member n is cs)

-- The name of a virtual interface: "lo", or what begins with one of five prefixes.
pub data IsVirtual (name : Text) : Type 0 where
  loopback : name ≡ codes "lo" → IsVirtual name
  docker : (rest : Text) → name ≡ codes "docker" ++ rest → IsVirtual name
  veth : (rest : Text) → name ≡ codes "veth" ++ rest → IsVirtual name
  bridge : (rest : Text) → name ≡ codes "br-" ++ rest → IsVirtual name
  virbr : (rest : Text) → name ≡ codes "virbr" ++ rest → IsVirtual name
  vlan : (rest : Text) → name ≡ codes "vlan" ++ rest → IsVirtual name

has_prefix-split : (s p : Text) → has_prefix s p ≡ true → (r : Text) × (s ≡ p ++ r)
unfolding has_prefix
has_prefix-split s [] h = (s, refl)
has_prefix-split [] (c ∷ p) h = cc
has_prefix-split (d ∷ s) (c ∷ p) h =
    let (r, e) = has_prefix-split s p (ground arith) in (r, ground (arith, e))

is_virtual_interface_sound : (n : Text) → is_virtual_interface n ≡ true → IsVirtual n
unfolding is_virtual_interface
is_virtual_interface_sound n h = elim (Bool-cases (n ≟ codes "lo")) [
  | inl p ↦ loopback (ground (arith, p))
  | inr p ↦ elim (Bool-cases (has_prefix n (codes "docker"))) [
    | inl q ↦ let (r, e) = has_prefix-split n (codes "docker") q in docker r e
    | inr a ↦ elim (Bool-cases (has_prefix n (codes "veth"))) [
      | inl q ↦ let (r, e) = has_prefix-split n (codes "veth") q in veth r e
      | inr b ↦ elim (Bool-cases (has_prefix n (codes "br-"))) [
        | inl q ↦ let (r, e) = has_prefix-split n (codes "br-") q in bridge r e
        | inr c ↦ elim (Bool-cases (has_prefix n (codes "virbr"))) [
          | inl q ↦ let (r, e) = has_prefix-split n (codes "virbr") q in virbr r e
          | inr d ↦
              let (r, e) = has_prefix-split n (codes "vlan") (ground (arith, h, p, a, b, c, d)) in
              vlan r e
        ]
      ]
    ]
  ]
]

is_virtual_interface_complete : (n : Text) → IsVirtual n → is_virtual_interface n ≡ true
unfolding is_virtual_interface
is_virtual_interface_complete n (loopback e) = ground (arith, e)
is_virtual_interface_complete n (docker r e) =
    ground (arith, e, has_prefix-append (codes "docker") r)
is_virtual_interface_complete n (veth r e) = ground (arith, e, has_prefix-append (codes "veth") r)
is_virtual_interface_complete n (bridge r e) = ground (arith, e, has_prefix-append (codes "br-") r)
is_virtual_interface_complete n (virbr r e) = ground (arith, e, has_prefix-append (codes "virbr") r)
is_virtual_interface_complete n (vlan r e) = ground (arith, e, has_prefix-append (codes "vlan") r)

network_entries-names :
    (n : Text) (is : List Interface) (cs : List InterfaceCounters)
    → (member n (names (network_entries is cs)) ≡ true)
      ↔ ((member n (counter_names cs) ≡ true) × ¬ IsVirtual n)
network_entries-names n is cs =
    rw (network_entries-member n is cs) (elim (Bool-cases (is_virtual_interface n)) [
      | inl v ↦
          let w = is_virtual_interface_sound n v in
          (λ h. ground (arith, v, h), λ h. elim (h.1 w) [ ])
      | inr v ↦ (
        λ h. (ground (arith, v, h), λ w. ground (arith, v, is_virtual_interface_complete n w)),
        λ h. rw v h.0,
      )
    ])

-- Where `GetNetwork` returns its entries, an interface is among them exactly if it has counters and
-- its name is not that of a virtual one, which is "lo" or begins with one of five prefixes.
pub get_network-names :
    {F : Type 0} (host : Host F) (now : ℕ) (n : Text) {cs : List InterfaceCounters}
    {es : List NetworkEntry}
    → host.net_counters now ≡ ok cs
    → get_network host now ≡ ok es
    → (member n (names es) ≡ true) ↔ ((member n (counter_names cs) ≡ true) × ¬ IsVirtual n)
unfolding get_network
get_network-names host now n {cs} {es} h k = elim (Result-cases (host.interfaces now)) [
  | inl (is, p) ↦
      let same : es ≡ network_entries is cs = ground (arith, h, k, p) in
      rw same (network_entries-names n is cs)
  | inr (x, p) ↦ ground (arith, h, k, p)
]
