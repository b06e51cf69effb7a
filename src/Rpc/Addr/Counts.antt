-- ===== src/Rpc/Addr/Counts.antt =====
-- net/crpc/server.go: what `Addr` finds on the interfaces, and its last loop, which drops what is there twice.
use juren_cluster.Prelude.{
  ℕ, suc, ◌≡◌, refl, ap, ◌∙◌, arith, Bool, true, false, not, ◌&&◌, ◌||◌, List, [], ◌∷◌, ◌++◌, Bytes,
  bytes_eq, bytes_eq_iff, ◌==◌, if◌then◌else◌,
}
use juren_cluster.Outcome.{Result, ok, err, panic, stuck}
use juren_cluster.Rpc.Addr.{
  Address, tcp, InterfaceAddress, Interface, canonical, ip_of, accepts, ip_addresses, of_interface,
  interface_addresses, addr_str, exists, unique_addresses,
}
use juren_cluster.Rpc.Addr.Accepts.{offers, IsWildcard, accepts_lem}

-- How many of the addresses have a text, and whether one has it.
abbrev pub count : Bytes → List Address → ℕ
count text [] = 0
count text (a ∷ addresses) =
    let rest = count text addresses in if bytes_eq (addr_str a) text then suc rest else rest

abbrev pub has_text : Bytes → List Address → Bool
has_text text [] = false
has_text text (a ∷ addresses) = bytes_eq (addr_str a) text || has_text text addresses

pub count-unique_addresses :
    (text : Bytes) (seen : List Bytes) (addresses : List Address)
    → count text (unique_addresses seen addresses)
      ≡ (if exists text seen then 0 else if has_text text addresses then 1 else 0)
unfolding unique_addresses exists
count-unique_addresses text seen [] = ground arith
count-unique_addresses text seen (a ∷ addresses) = ground (
  arith,
  count-unique_addresses text seen addresses,
  count-unique_addresses text (addr_str a ∷ seen) addresses,
  bytes_eq_iff (addr_str a) text,
)

-- Whether an interface that is up has an address of an IP.
abbrev has_ip : Bytes → List InterfaceAddress → Bool
has_ip ip [] = false
has_ip ip (a ∷ ifaddrs) = bytes_eq (canonical (ip_of a)) ip || has_ip ip ifaddrs

abbrev listed : Bytes → Result (List InterfaceAddress) → Bool
listed ip (ok ifaddrs) = has_ip ip ifaddrs
listed ip _ = false

abbrev pub on_interface : Bytes → List Interface → Bool
on_interface ip [] = false
on_interface ip (iface ∷ interfaces) =
    (iface.up && listed ip iface.addrs) || on_interface ip interfaces

has_text-if :
    (text : Bytes) (x : Bool) (a : Address) (rest : List Address)
    → has_text text (if x then a ∷ rest else rest)
      ≡ ((x && bytes_eq (addr_str a) text) || has_text text rest)
has_text-if text true a rest = refl
has_text-if text false a rest = refl

boolean_step :
    (port : ℕ) (x same offered has : Bool)
    → (same ≡ true → x ≡ offered)
    → ((x && (port == port && same)) || (offered && has)) ≡ (offered && (same || has))
boolean_step port x same offered has step = ground (arith, step)

has_text-ip_addresses :
    (listen_ip ip : Bytes) (port : ℕ) (ifaddrs : List InterfaceAddress)
    → IsWildcard listen_ip
    → has_text (port ∷ ip) (ip_addresses listen_ip port ifaddrs)
      ≡ (offers listen_ip ip && has_ip ip ifaddrs)
unfolding ip_addresses addr_str bytes_eq
has_text-ip_addresses listen_ip ip port [] w = ground arith
has_text-ip_addresses listen_ip ip port (a ∷ ifaddrs) w =
    let step : bytes_eq (canonical (ip_of a)) ip ≡ true
        → accepts listen_ip (ip_of a) ≡ offers listen_ip ip =
      λ e.
        accepts_lem listen_ip (ip_of a) w
        ∙ ap (offers listen_ip) ((bytes_eq_iff (canonical (ip_of a)) ip).0 e) in
    has_text-if (port ∷ ip) (accepts listen_ip (ip_of a)) (tcp (ip_of a) port)
      (ip_addresses listen_ip port ifaddrs)
    ∙ rw (has_text-ip_addresses listen_ip ip port ifaddrs w) (
        boolean_step port (accepts listen_ip (ip_of a)) (bytes_eq (canonical (ip_of a)) ip)
          (offers listen_ip ip) (has_ip ip ifaddrs) step)

has_text-append :
    (text : Bytes) (xs ys : List Address)
    → has_text text (xs ++ ys) ≡ (has_text text xs || has_text text ys)
has_text-append text [] ys = refl
has_text-append text (x ∷ xs) ys = ground (arith, has_text-append text xs ys)

has_text-of_interface :
    (listen_ip ip : Bytes) (port : ℕ) (addrs : Result (List InterfaceAddress))
    → IsWildcard listen_ip
    → has_text (port ∷ ip) (of_interface listen_ip port addrs)
      ≡ (offers listen_ip ip && listed ip addrs)
unfolding of_interface
has_text-of_interface listen_ip ip port (ok ifaddrs) w =
    has_text-ip_addresses listen_ip ip port ifaddrs w
has_text-of_interface listen_ip ip port (err e) w = ground arith
has_text-of_interface listen_ip ip port (panic p) w = ground arith
has_text-of_interface listen_ip ip port stuck w = ground arith

has_text-interface :
    (text : Bytes) (up : Bool) (addresses rest : List Address)
    → has_text text (if not up then rest else addresses ++ rest)
      ≡ ((up && has_text text addresses) || has_text text rest)
has_text-interface text true addresses rest = has_text-append text addresses rest
has_text-interface text false addresses rest = refl

distribute :
    (up offered here there : Bool)
    → ((up && (offered && here)) || (offered && there)) ≡ (offered && ((up && here) || there))
distribute up offered here there = ground arith

pub has_text-interface_addresses :
    (listen_ip ip : Bytes) (port : ℕ) (interfaces : List Interface)
    → IsWildcard listen_ip
    → has_text (port ∷ ip) (interface_addresses listen_ip port interfaces)
      ≡ (offers listen_ip ip && on_interface ip interfaces)
unfolding interface_addresses of_interface
has_text-interface_addresses listen_ip ip port [] w = ground arith
has_text-interface_addresses listen_ip ip port (iface ∷ interfaces) w =
    has_text-interface (port ∷ ip) iface.up (of_interface listen_ip port iface.addrs)
      (interface_addresses listen_ip port interfaces)
    ∙ rw
        (
          has_text-of_interface listen_ip ip port iface.addrs w,
          has_text-interface_addresses listen_ip ip port interfaces w,
        )
        (distribute iface.up (offers listen_ip ip) (listed ip iface.addrs)
          (on_interface ip interfaces))
