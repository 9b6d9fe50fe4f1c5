-- ===== src/Http/Address.antt =====
-- crates/http/src/lib.rs: which addresses may be fetched from. An IPv4 address is its octets, an
-- IPv6 address its segments of 16 bits.
pub mod Embedded
use kit.Prelude.{
  ℕ, ◌/◌, ◌%◌, ◌*◌, Bool, true, false, not, ◌&&◌, ◌||◌, Option, none, some, leb, ◌==◌,
  if◌then◌else◌,
}

pub record Ipv4Addr : Type 0 where
  pub o0 : ℕ
  pub o1 : ℕ
  pub o2 : ℕ
  pub o3 : ℕ

pub record Ipv6Addr : Type 0 where
  pub s0 : ℕ
  pub s1 : ℕ
  pub s2 : ℕ
  pub s3 : ℕ
  pub s4 : ℕ
  pub s5 : ℕ
  pub s6 : ℕ
  pub s7 : ℕ

pub data IpAddr : Type 0 where
  v4 : Ipv4Addr → IpAddr
  v6 : Ipv6Addr → IpAddr

-- `is_unspecified`, `is_loopback`, `is_private`, `is_link_local`, `is_multicast`, `is_broadcast` and
-- `is_documentation` of std's `Ipv4Addr`, in turn.
unfoldable pub is_special_v4 : Ipv4Addr → Bool
is_special_v4 ip =
    ((ip.o0 == 0) && ((ip.o1 == 0) && ((ip.o2 == 0) && (ip.o3 == 0))))
    || (ip.o0 == 127)
    || ((ip.o0 == 10)
        || ((ip.o0 == 172) && (leb 16 ip.o1 && leb ip.o1 31))
        || ((ip.o0 == 192) && (ip.o1 == 168)))
    || ((ip.o0 == 169) && (ip.o1 == 254))
    || (leb 224 ip.o0 && leb ip.o0 239)
    || ((ip.o0 == 255) && ((ip.o1 == 255) && ((ip.o2 == 255) && (ip.o3 == 255))))
    || (((ip.o0 == 192) && ((ip.o1 == 0) && (ip.o2 == 2)))
        || ((ip.o0 == 198) && ((ip.o1 == 51) && (ip.o2 == 100)))
        || ((ip.o0 == 203) && ((ip.o1 == 0) && (ip.o2 == 113))))

unfoldable pub is_public_unicast_v4 : Ipv4Addr → Bool
is_public_unicast_v4 ip =
    if is_special_v4 ip
    then false
    else if ip.o0 == 0
    then false
    else if (ip.o0 == 100) && (leb 64 ip.o1 && leb ip.o1 127)
    then false
    else if (ip.o0 == 192) && ((ip.o1 == 0) && (ip.o2 == 0))
    then false
    else if (ip.o0 == 192) && ((ip.o1 == 0) && (ip.o2 == 2))
    then false
    else if (ip.o0 == 192) && ((ip.o1 == 88) && (ip.o2 == 99))
    then false
    else if (ip.o0 == 198) && ((ip.o1 == 18) || (ip.o1 == 19))
    then false
    else if leb 240 ip.o0
    then false
    else true

-- `s & !(k - 1)` for a power k of 2.
unfoldable pub masked : ℕ → ℕ → ℕ
masked k s = s / k * k

-- The IPv4 address of the two segments' bytes.
unfoldable pub v4_of : ℕ → ℕ → Ipv4Addr
v4_of a b = record { o0 = a / 256; o1 = a % 256; o2 = b / 256; o3 = b % 256 }

-- Segments 0 to 4 are 0.
abbrev pub is_zero_front : Ipv6Addr → Bool
is_zero_front ip =
    (ip.s0 == 0) && ((ip.s1 == 0) && ((ip.s2 == 0) && ((ip.s3 == 0) && (ip.s4 == 0))))

-- `Ipv6Addr::to_ipv4`
unfoldable pub to_ipv4 : Ipv6Addr → Option Ipv4Addr
to_ipv4 ip =
    if is_zero_front ip && ((ip.s5 == 0) || (ip.s5 == 65535))
    then some (v4_of ip.s6 ip.s7)
    else none

unfoldable pub embedded_v4 : Ipv6Addr → Option Ipv4Addr
embedded_v4 ip = elim (to_ipv4 ip) [
  | some a ↦ some a
  | none ↦
      if (ip.s0 == 100)
        && ((ip.s1 == 65435) && ((ip.s2 == 0) && ((ip.s3 == 0) && ((ip.s4 == 0) && (ip.s5 == 0)))))
      then some (v4_of ip.s6 ip.s7)
      else if ip.s0 == 8194
      then some (v4_of ip.s1 ip.s2)
      else none
]

-- `is_unspecified`, `is_loopback` and `is_multicast` of std's `Ipv6Addr`.
unfoldable pub is_special_v6 : Ipv6Addr → Bool
is_special_v6 ip =
    (is_zero_front ip && ((ip.s5 == 0) && ((ip.s6 == 0) && ((ip.s7 == 0) || (ip.s7 == 1)))))
    || (masked 256 ip.s0 == 65280)

unfoldable pub is_public_unicast_v6 : Ipv6Addr → Bool
is_public_unicast_v6 ip =
    if is_special_v6 ip
    then false
    else if (masked 512 ip.s0 == 64512)
        || ((masked 64 ip.s0 == 65152) || (masked 64 ip.s0 == 65216))
    then false
    else if (ip.s0 == 8193) && ((masked 512 ip.s1 == 0) || (ip.s1 == 3512))
    then false
    else if (ip.s0 == 16383) && (masked 4096 ip.s1 == 0)
    then false
    else if (ip.s0 == 256) && ((ip.s1 == 0) && ((ip.s2 == 0) && (ip.s3 == 0)))
    then false
    else if (ip.s0 == 100) && ((ip.s1 == 65435) && (ip.s2 == 1))
    then false
    else elim (embedded_v4 ip) [ none ↦ true | some a ↦ is_public_unicast_v4 a ]

unfoldable pub is_public_unicast : IpAddr → Bool
is_public_unicast (v4 ip) = is_public_unicast_v4 ip
is_public_unicast (v6 ip) = is_public_unicast_v6 ip
