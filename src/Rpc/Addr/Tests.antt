-- ===== src/Rpc/Addr/Tests.antt =====
-- `Addr` of net/crpc/server.go on a host with two interfaces, one of which is down.
use juren_cluster.Prelude.{
  ◌≡◌, refl, arith, true, false, ◌&&◌, some, List, [], ◌∷◌, Bytes, ◌⊎◌, All, has_prefix, drop,
  bytes_eq, if◌then◌else◌,
}
use juren_cluster.Outcome.{ok, err, corrupt_input}
use juren_cluster.Rpc.Addr.{
  Address, tcp, Interface, ip_net, ip_addr, no_ip, Net, addr, canonical, to4, is_unspecified,
  ipv4_zero, of_endpoint, endpoint, wildcard, interface_addresses, of_interface, ip_addresses,
  accepts, unique_addresses, exists, addr_str, or_same, is_ipv4, is_some,
}
use juren_cluster.Rpc.Addr.Accepts.{offers, IsWildcard}
use juren_cluster.Rpc.Addr.Counts.{count, on_interface}
use juren_cluster.Rpc.Addr.Listed.{IsTcpAt, addr-lists}

-- 10.0.0.7, in both forms, and fe80::1
abbrev ten : Bytes
ten = 10 ∷ 0 ∷ 0 ∷ 7 ∷ []

abbrev ten_mapped : Bytes
ten_mapped = 0 ∷ 0 ∷ 0 ∷ 0 ∷ 0 ∷ 0 ∷ 0 ∷ 0 ∷ 0 ∷ 0 ∷ 255 ∷ 255 ∷ ten

abbrev link_local : Bytes
link_local = 254 ∷ 128 ∷ 0 ∷ 0 ∷ 0 ∷ 0 ∷ 0 ∷ 0 ∷ 0 ∷ 0 ∷ 0 ∷ 0 ∷ 0 ∷ 0 ∷ 0 ∷ 1 ∷ []

abbrev host : List Interface
host =
    record {
      up = true;
      addrs = ok (ip_net ten ∷ ip_net link_local ∷ no_ip ∷ ip_addr ten_mapped ∷ []);
    }
    ∷ record { up = false; addrs = ok (ip_net (10 ∷ 0 ∷ 0 ∷ 8 ∷ []) ∷ []) }
    ∷ []

abbrev host_net : Net
host_net = record {
  split_host_port = λ text. err corrupt_input;
  atoi = λ text. err corrupt_input;
  parse_ip = λ text. [];
  interfaces = ok host;
}

abbrev any_ipv4 : Address
any_ipv4 = tcp ipv4_zero 6001

ipv4_zero-IsWildcard : IsWildcard ipv4_zero
unfolding is_unspecified canonical to4 bytes_eq
ipv4_zero-IsWildcard = refl

addr-lists_example :
    (((ip : Bytes) → (offers ipv4_zero ip && on_interface ip host) ≡ false)
      × (addr host_net (some (some any_ipv4)) ≡ any_ipv4 ∷ []))
    ⊎ (All (IsTcpAt 6001) (addr host_net (some (some any_ipv4)))
        × ((ip : Bytes)
            → count (6001 ∷ ip) (addr host_net (some (some any_ipv4)))
              ≡ (if offers ipv4_zero ip && on_interface ip host then 1 else 0)))
unfolding endpoint
addr-lists_example =
    addr-lists host_net any_ipv4 ipv4_zero 6001 host refl (omega arith) ipv4_zero-IsWildcard refl

-- The address is there once, though it is listed in two forms.
listed_once : addr host_net (some (some any_ipv4)) ≡ tcp ten 6001 ∷ []
unfolding addr of_endpoint endpoint wildcard interface_addresses of_interface ip_addresses accepts
    unique_addresses exists addr_str canonical to4 or_same is_unspecified is_ipv4 is_some bytes_eq
    has_prefix drop
listed_once = refl
