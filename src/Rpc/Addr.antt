-- ===== src/Rpc/Addr.antt =====
-- net/crpc/server.go: `Addr`, the addresses that a server can be reached at. An IP is its bytes, a
-- nil one has none, and a port is a Go int as its 64 bits.
pub mod Accepts
pub mod Counts
pub mod Listed
mod Tests
use juren_cluster.Prelude.{
  ℕ, Bool, true, false, not, ◌&&◌, ◌||◌, Option, none, some, List, [], ◌∷◌, ◌++◌, Bytes, bytes_eq,
  has_prefix, drop, ◌==◌, length, if◌then◌else◌,
}
use juren_cluster.Outcome.{Result, ok, err, panic, stuck}

-- `net.Addr`: of TCP, of UDP, or of another network, with its name and its text.
pub data Address : Type 0 where
  tcp udp : Bytes → ℕ → Address
  other : Bytes → Bytes → Address

-- `Interface` of net: whether it is up, and its addresses.
pub data InterfaceAddress : Type 0 where
  ip_net ip_addr : Bytes → InterfaceAddress
  no_ip : InterfaceAddress

pub record Interface : Type 0 where
  pub up : Bool
  pub addrs : Result (List InterfaceAddress)

-- What the code asks of the packages net and strconv.
pub record Net : Type 0 where
  pub split_host_port : Bytes → Result (Bytes × Bytes)
  pub atoi : Bytes → Result ℕ
  pub parse_ip : Bytes → Bytes
  pub interfaces : Result (List Interface)

abbrev v4_in_v6_prefix : Bytes
v4_in_v6_prefix = 0 ∷ 0 ∷ 0 ∷ 0 ∷ 0 ∷ 0 ∷ 0 ∷ 0 ∷ 0 ∷ 0 ∷ 255 ∷ 255 ∷ []

abbrev pub ipv4_zero : Bytes
ipv4_zero = 0 ∷ 0 ∷ 0 ∷ 0 ∷ []

abbrev pub ipv6_unspecified : Bytes
ipv6_unspecified = 0 ∷ 0 ∷ 0 ∷ 0 ∷ 0 ∷ 0 ∷ 0 ∷ 0 ∷ 0 ∷ 0 ∷ 0 ∷ 0 ∷ 0 ∷ 0 ∷ 0 ∷ 0 ∷ []

-- `To4` of an IP: of four bytes, or of sixteen that hold one.
unfoldable pub to4 : Bytes → Option Bytes
to4 ip =
    if length ip == 4
    then some ip
    else if length ip == 16 && has_prefix v4_in_v6_prefix ip
    then some (drop 12 ip)
    else none

or_same : Bytes → Option Bytes → Bytes
or_same ip none = ip
or_same ip (some ip4) = ip4

-- The one form of an IP, on which `Equal` and `String` of an IP depend.
unfoldable pub canonical : Bytes → Bytes
unfolding to4 or_same
canonical ip = or_same ip (to4 ip)

abbrev ip_equal : Bytes → Bytes → Bool
ip_equal ip x = bytes_eq (canonical ip) (canonical x)

unfoldable pub is_unspecified : Bytes → Bool
is_unspecified ip = ip_equal ip ipv4_zero || ip_equal ip ipv6_unspecified

is_some : Option Bytes → Bool
is_some none = false
is_some (some ip) = true

unfoldable pub is_ipv4 : Bytes → Bool
unfolding is_some
is_ipv4 ip = is_some (to4 ip)

abbrev ip_of : InterfaceAddress → Bytes
ip_of (ip_net ip) = ip
ip_of (ip_addr ip) = ip
ip_of no_ip = []

-- The tests of the inner loop.
unfoldable pub accepts : Bytes → Bytes → Bool
accepts listen_ip ip =
    if length ip == 0 || is_unspecified ip
    then false
    else if length listen_ip == 0
    then true
    else if ip_equal listen_ip ipv4_zero && not (is_ipv4 ip)
    then false
    else if ip_equal listen_ip ipv6_unspecified && is_ipv4 ip
    then false
    else true

unfoldable pub ip_addresses : Bytes → ℕ → List InterfaceAddress → List Address
ip_addresses listen_ip port [] = []
ip_addresses listen_ip port (a ∷ ifaddrs) =
    let rest = ip_addresses listen_ip port ifaddrs in
    if accepts listen_ip (ip_of a) then tcp (ip_of a) port ∷ rest else rest

of_interface : Bytes → ℕ → Result (List InterfaceAddress) → List Address
unfolding ip_addresses
of_interface listen_ip port (ok ifaddrs) = ip_addresses listen_ip port ifaddrs
of_interface listen_ip port _ = []

unfoldable pub interface_addresses : Bytes → ℕ → List Interface → List Address
unfolding of_interface
interface_addresses listen_ip port [] = []
interface_addresses listen_ip port (iface ∷ interfaces) =
    let rest = interface_addresses listen_ip port interfaces in
    if not iface.up then rest else of_interface listen_ip port iface.addrs ++ rest

-- `String` of an address, up to its spelling: the port and the IP.
unfoldable pub addr_str : Address → Bytes
addr_str (tcp ip port) = port ∷ canonical ip
addr_str (udp ip port) = port ∷ canonical ip
addr_str (other network text) = text

unfoldable pub exists : Bytes → List Bytes → Bool
exists text [] = false
exists text (s ∷ seen) = bytes_eq s text || exists text seen

-- "Deduplicate addresses"
unfoldable pub unique_addresses : List Bytes → List Address → List Address
unique_addresses seen [] = []
unique_addresses seen (a ∷ addresses) =
    let skipped = unique_addresses seen addresses in
    let rest = unique_addresses (addr_str a ∷ seen) addresses in
    if exists (addr_str a) seen then skipped else a ∷ rest

abbrev network : Address → Bytes
network (tcp ip port) = 116 ∷ 99 ∷ 112 ∷ []
network (udp ip port) = 117 ∷ 100 ∷ 112 ∷ []
network (other name text) = name

abbrev tcp_networks : List Bytes
tcp_networks = (116 ∷ 99 ∷ 112 ∷ []) ∷ (116 ∷ 99 ∷ 112 ∷ 52 ∷ []) ∷ (116 ∷ 99 ∷ 112 ∷ 54 ∷ []) ∷ []

abbrev udp_networks : List Bytes
udp_networks =
    (117 ∷ 100 ∷ 112 ∷ []) ∷ (117 ∷ 100 ∷ 112 ∷ 52 ∷ []) ∷ (117 ∷ 100 ∷ 112 ∷ 54 ∷ []) ∷ []

specific : Address → Bytes → ℕ → List Address
unfolding exists
specific listener listen_ip port =
    if exists (network listener) tcp_networks
    then tcp listen_ip port ∷ []
    else if exists (network listener) udp_networks
    then udp listen_ip port ∷ []
    else listener ∷ []

wildcard : Address → Bytes → ℕ → Result (List Interface) → List Address
unfolding interface_addresses unique_addresses
wildcard listener listen_ip port (ok interfaces) =
    let addresses = unique_addresses [] (interface_addresses listen_ip port interfaces) in
    if length addresses == 0 then listener ∷ [] else addresses
wildcard listener listen_ip port _ = listener ∷ []

module _ (net : Net) where
  with_port : Bytes → Result ℕ → Option (Bytes × ℕ)
  with_port host (ok port) = some ((if length host == 0 then [] else net.parse_ip host), port)
  with_port host _ = none

  with_host : Result (Bytes × Bytes) → Option (Bytes × ℕ)
  unfolding with_port
  with_host (ok (host, port)) = with_port host (net.atoi port)
  with_host _ = none

  -- The IP and the port that the server listens on.
  pub endpoint : Address → Option (Bytes × ℕ)
  unfolding with_host
  endpoint (tcp ip port) = some (ip, port)
  endpoint (udp ip port) = some (ip, port)
  endpoint (other name text) = with_host (net.split_host_port text)

  of_endpoint : Address → Option (Bytes × ℕ) → List Address
  unfolding specific wildcard
  of_endpoint listener none = listener ∷ []
  of_endpoint listener (some (listen_ip, port)) =
      if port == 0
      then listener ∷ []
      else if not (length listen_ip == 0) && not (is_unspecified listen_ip)
      then specific listener listen_ip port
      else wildcard listener listen_ip port net.interfaces

  -- The listener may be nil, and so may its address.
  pub addr : Option (Option Address) → List Address
  unfolding of_endpoint endpoint
  addr none = []
  addr (some none) = []
  addr (some (some listener)) = of_endpoint listener (endpoint listener)
