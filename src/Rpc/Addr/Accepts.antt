-- ===== src/Rpc/Addr/Accepts.antt =====
-- net/crpc/server.go: the IPs that `Addr` takes from the interfaces, by the one form of an IP.
use juren_cluster.Prelude.{
  ◌≡◌, refl, sym, arith, Bool, true, false, not, ◌&&◌, ◌||◌, Bytes, bytes_eq, bytes_eq_iff,
  has_prefix, length-drop, ◌==◌, length, if◌then◌else◌, inl, inr, Bool-cases,
}
use juren_cluster.Rpc.Addr.{
  ipv4_zero, ipv6_unspecified, to4, canonical, is_unspecified, is_ipv4, accepts, or_same, is_some,
  v4_in_v6_prefix,
}

-- The IPs that a server at an IP offers, in their one form: of its family, and not the wildcard.
abbrev pub offers : Bytes → Bytes → Bool
offers listen_ip ip =
    not (length ip == 0)
    && not (bytes_eq ip ipv4_zero)
    && not (bytes_eq ip ipv6_unspecified)
    && (length listen_ip == 0
        || (if bytes_eq (canonical listen_ip) ipv4_zero
            then length ip == 4
            else not (length ip == 4)))

is_ipv4_lem : (ip : Bytes) → is_ipv4 ip ≡ (length (canonical ip) == 4)
unfolding is_ipv4 canonical to4
is_ipv4_lem ip = elim (Bool-cases (length ip == 4)) [
  | inl four ↦ rw (four, is_some, or_same) (sym four)
  | inr other_length ↦ elim (Bool-cases (length ip == 16 && has_prefix v4_in_v6_prefix ip)) [
    | inl mapped ↦
        rw (other_length, mapped, is_some, or_same) (ground (arith, mapped, length-drop 12 ip))
    | inr no_v4 ↦ rw (other_length, no_v4, is_some, or_same) (sym other_length)
  ]
]

same_emptiness : (ip : Bytes) → (length (canonical ip) == 0) ≡ (length ip == 0)
unfolding canonical to4
same_emptiness ip = elim (Bool-cases (length ip == 4)) [
  | inl four ↦ rw (four, or_same)
  | inr other_length ↦ elim (Bool-cases (length ip == 16 && has_prefix v4_in_v6_prefix ip)) [
    | inl mapped ↦ rw (other_length, mapped, or_same) (ground (arith, mapped, length-drop 12 ip))
    | inr no_v4 ↦ rw (other_length, no_v4, or_same)
  ]
]

canonical_v4 : canonical ipv4_zero ≡ ipv4_zero
unfolding canonical to4 or_same
canonical_v4 = refl

canonical_v6 : canonical ipv6_unspecified ≡ ipv6_unspecified
unfolding canonical to4 or_same has_prefix
canonical_v6 = refl

-- A server that listens on every IP: of both families, or of one.
abbrev pub IsWildcard : Bytes → Type 0
IsWildcard listen_ip = (not (length listen_ip == 0) && not (is_unspecified listen_ip)) ≡ false

one_family : (ip : Bytes) → bytes_eq ip ipv4_zero ≡ true → bytes_eq ip ipv6_unspecified ≡ false
unfolding bytes_eq
one_family ip e = rw ((bytes_eq_iff ip ipv4_zero).0 e)

pub accepts_lem :
    (listen_ip ip : Bytes)
    → IsWildcard listen_ip
    → accepts listen_ip ip ≡ offers listen_ip (canonical ip)
unfolding accepts is_unspecified
accepts_lem listen_ip ip w =
    let w' = rw (canonical_v4, canonical_v6) at w in
    rw (canonical_v4, canonical_v6, is_ipv4_lem ip, sym (same_emptiness ip))
      (ground (arith, w', one_family (canonical listen_ip)))
