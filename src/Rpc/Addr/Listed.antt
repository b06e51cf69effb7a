-- ===== src/Rpc/Addr/Listed.antt =====
-- What `Addr` of net/crpc/server.go lists.
use juren_cluster.Prelude.{
  ℕ, ◌≡◌, ◌≢◌, refl, ap, ◌∙◌, arith, Bool, true, false, not, ◌&&◌, Option, none, some, List, [],
  ◌∷◌, ◌++◌, Bytes, length-empty, ◌==◌, length, if◌then◌else◌, All, All-append, inl, inr, ◌⊎◌,
  Bool-cases,
}
use juren_cluster.Outcome.{Result, ok, err, panic, stuck}
use juren_cluster.Rpc.Addr.{
  Address, tcp, udp, network, tcp_networks, udp_networks, InterfaceAddress, Interface, Net,
  is_unspecified, ip_of, accepts, ip_addresses, of_interface, interface_addresses, addr_str, exists,
  unique_addresses, specific, wildcard, endpoint, of_endpoint, addr,
}
use juren_cluster.Rpc.Addr.Accepts.{offers, IsWildcard}
use juren_cluster.Rpc.Addr.Counts.{
  count, on_interface, count-unique_addresses, has_text-interface_addresses,
}

abbrev pub IsTcpAt : ℕ → Address → Type 0
IsTcpAt port a = (ip : Bytes) × (a ≡ tcp ip port)

All-if :
    (P : Address → Type 0) (x : Bool) (a : Address) (rest : List Address)
    → P a
    → All P rest
    → All P (if x then a ∷ rest else rest)
All-if P true a rest here h = (here, h)
All-if P false a rest here h = h

All-unless :
    (P : Address → Type 0) (up : Bool) (addresses rest : List Address)
    → All P addresses
    → All P rest
    → All P (if not up then rest else addresses ++ rest)
All-unless P true addresses rest here h = All-append P addresses rest here h
All-unless P false addresses rest here h = h

ip_addresses-IsTcpAt :
    (listen_ip : Bytes) (port : ℕ) (ifaddrs : List InterfaceAddress)
    → All (IsTcpAt port) (ip_addresses listen_ip port ifaddrs)
unfolding ip_addresses
ip_addresses-IsTcpAt listen_ip port [] = tt
ip_addresses-IsTcpAt listen_ip port (a ∷ ifaddrs) =
    All-if (IsTcpAt port) (accepts listen_ip (ip_of a)) (tcp (ip_of a) port)
      (ip_addresses listen_ip port ifaddrs) (ip_of a, refl)
      (ip_addresses-IsTcpAt listen_ip port ifaddrs)

of_interface-IsTcpAt :
    (listen_ip : Bytes) (port : ℕ) (addrs : Result (List InterfaceAddress))
    → All (IsTcpAt port) (of_interface listen_ip port addrs)
unfolding of_interface
of_interface-IsTcpAt listen_ip port (ok ifaddrs) = ip_addresses-IsTcpAt listen_ip port ifaddrs
of_interface-IsTcpAt listen_ip port (err e) = tt
of_interface-IsTcpAt listen_ip port (panic p) = tt
of_interface-IsTcpAt listen_ip port stuck = tt

interface_addresses-IsTcpAt :
    (listen_ip : Bytes) (port : ℕ) (interfaces : List Interface)
    → All (IsTcpAt port) (interface_addresses listen_ip port interfaces)
unfolding interface_addresses
interface_addresses-IsTcpAt listen_ip port [] = tt
interface_addresses-IsTcpAt listen_ip port (iface ∷ interfaces) =
    All-unless (IsTcpAt port) iface.up (of_interface listen_ip port iface.addrs)
      (interface_addresses listen_ip port interfaces)
      (of_interface-IsTcpAt listen_ip port iface.addrs)
      (interface_addresses-IsTcpAt listen_ip port interfaces)

unique_addresses-IsTcpAt :
    (port : ℕ) (seen : List Bytes) (addresses : List Address)
    → All (IsTcpAt port) addresses
    → All (IsTcpAt port) (unique_addresses seen addresses)
unfolding unique_addresses
unique_addresses-IsTcpAt port seen [] h = tt
unique_addresses-IsTcpAt port seen (a ∷ addresses) (this, h) =
    elim (Bool-cases (exists (addr_str a) seen)) [
      | inl there ↦ rw there (unique_addresses-IsTcpAt port seen addresses h)
      | inr new ↦ rw new (this, unique_addresses-IsTcpAt port (addr_str a ∷ seen) addresses h)
    ]

-- The addresses of a wildcard listener, before the case that there is none.
abbrev offered : Bytes → ℕ → List Interface → List Address
offered listen_ip port interfaces =
    unique_addresses [] (interface_addresses listen_ip port interfaces)

count-offered :
    (listen_ip ip : Bytes) (port : ℕ) (interfaces : List Interface)
    → IsWildcard listen_ip
    → count (port ∷ ip) (offered listen_ip port interfaces)
      ≡ (if offers listen_ip ip && on_interface ip interfaces then 1 else 0)
unfolding exists
count-offered listen_ip ip port interfaces w =
    count-unique_addresses (port ∷ ip) [] (interface_addresses listen_ip port interfaces)
    ∙ rw (has_text-interface_addresses listen_ip ip port interfaces w)

nothing_offered :
    (listen_ip ip : Bytes) (port : ℕ) (interfaces : List Interface)
    → IsWildcard listen_ip
    → offered listen_ip port interfaces ≡ []
    → (offers listen_ip ip && on_interface ip interfaces) ≡ false
nothing_offered listen_ip ip port interfaces w e =
    let none_counted : count (port ∷ ip) (offered listen_ip port interfaces) ≡ 0 =
      ap (count (port ∷ ip)) e in
    ground (arith, none_counted, count-offered listen_ip ip port interfaces w)

if-nonempty :
    (x : Bool) (a : Address) (rest : List Address) → rest ≢ [] → (if x then a ∷ [] else rest) ≢ []
if-nonempty true a rest h e = cc e
if-nonempty false a rest h e = h e

specific-nonempty : (listener : Address) (ip : Bytes) (port : ℕ) → specific listener ip port ≢ []
unfolding specific
specific-nonempty listener ip port =
    if-nonempty (exists (network listener) tcp_networks) (tcp ip port) _ (
      if-nonempty (exists (network listener) udp_networks) (udp ip port) (listener ∷ [])
        (λ e. cc e))

wildcard-nonempty :
    (listener : Address) (ip : Bytes) (port : ℕ) (interfaces : Result (List Interface))
    → wildcard listener ip port interfaces ≢ []
unfolding wildcard
wildcard-nonempty listener ip port (ok interfaces) =
    elim (Bool-cases (length (offered ip port interfaces) == 0)) [
      | inl empty ↦ rw empty (λ e. cc e)
      | inr some_address ↦ rw some_address (λ e. absurd (ground (arith, some_address, ap length e)))
    ]
wildcard-nonempty listener ip port (err e) = λ h. cc h
wildcard-nonempty listener ip port (panic p) = λ h. cc h
wildcard-nonempty listener ip port stuck = λ h. cc h

of_endpoint-nonempty :
    (net : Net) (listener : Address) (o : Option (Bytes × ℕ)) → of_endpoint net listener o ≢ []
unfolding of_endpoint
of_endpoint-nonempty net listener none = λ e. cc e
of_endpoint-nonempty net listener (some (ip, port)) =
    if-nonempty (port == 0) listener _
      (elim (Bool-cases (not (length ip == 0) && not (is_unspecified ip))) [
        | inl one_ip ↦ rw one_ip (specific-nonempty listener ip port)
        | inr w ↦ rw w (wildcard-nonempty listener ip port net.interfaces)
      ])

module _ (net : Net) (listener : Address) where
  -- For a listener at a wildcard IP and a port that is not 0, on a host whose interfaces can be
  -- listed: either no interface that is up has an IP to offer, and `Addr` lists the listener
  -- itself; or `Addr` lists TCP addresses at the port, in which each IP that an interface that
  -- is up has and that is to offer occurs once, in whatever form the interfaces list it, and no
  -- other IP occurs. An IP is to offer if it is not the wildcard and is of the family of the
  -- listener, or the listener has none.
  pub addr-lists :
      (listen_ip : Bytes) (port : ℕ) (interfaces : List Interface)
      → endpoint net listener ≡ some (listen_ip, port)
      → port ≢ 0
      → IsWildcard listen_ip
      → net.interfaces ≡ ok interfaces
      → (((ip : Bytes) → (offers listen_ip ip && on_interface ip interfaces) ≡ false)
          × (addr net (some (some listener)) ≡ listener ∷ []))
        ⊎ (All (IsTcpAt port) (addr net (some (some listener)))
            × ((ip : Bytes)
                → count (port ∷ ip) (addr net (some (some listener)))
                  ≡ (if offers listen_ip ip && on_interface ip interfaces then 1 else 0)))
  unfolding addr of_endpoint wildcard
  addr-lists listen_ip port interfaces e nonzero w up =
      let has_port : (port == 0) ≡ false = ground (arith, nonzero) in
      elim (Bool-cases (length (offered listen_ip port interfaces) == 0)) [
        | inl empty ↦
            let nil = length-empty (offered listen_ip port interfaces) empty in
            inl (
              λ ip. nothing_offered listen_ip ip port interfaces w nil,
              rw (e, has_port, w, up, empty),
            )
        | inr some_address ↦
            rw (e, has_port, w, up, some_address)
              (inr (
                unique_addresses-IsTcpAt port [] _
                    (interface_addresses-IsTcpAt listen_ip port interfaces),
                λ ip. count-offered listen_ip ip port interfaces w,
              ))
      ]

  pub addr-nonempty : addr net (some (some listener)) ≢ []
  unfolding addr
  addr-nonempty = of_endpoint-nonempty net listener (endpoint net listener)
