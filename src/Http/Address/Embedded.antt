-- ===== src/Http/Address/Embedded.antt =====
-- crates/http/src/lib.rs: an IPv6 address does not hide an IPv4 address.
use kit.Prelude.{ℕ, ◌+◌, ◌*◌, ◌/◌, ◌%◌, ◌<◌, ◌≡◌, ap, ◌∙◌, arith}
use kit.Http.Address.{
  Ipv4Addr, IpAddr, v4, v6, v4_of, to_ipv4, embedded_v4, is_special_v6, masked,
  is_public_unicast_v4, is_public_unicast_v6, is_public_unicast,
}

abbrev pub IsIpv4 : Ipv4Addr → Type 0
IsIpv4 a = (a.o0 < 256) × (a.o1 < 256) × (a.o2 < 256) × (a.o3 < 256)

-- The two segments that hold the bytes of an address.
abbrev pub high : Ipv4Addr → ℕ
high a = a.o0 * 256 + a.o1

abbrev pub low : Ipv4Addr → ℕ
low a = a.o2 * 256 + a.o3

-- ::ffff:a.b.c.d, 64:ff9b::a.b.c.d and 2002:aabb:ccdd:…
abbrev pub mapped : Ipv4Addr → IpAddr
mapped a =
    v6 (record { s0 = 0; s1 = 0; s2 = 0; s3 = 0; s4 = 0; s5 = 65535; s6 = high a; s7 = low a })

abbrev pub nat64 : Ipv4Addr → IpAddr
nat64 a =
    v6 (record { s0 = 100; s1 = 65435; s2 = 0; s3 = 0; s4 = 0; s5 = 0; s6 = high a; s7 = low a })

abbrev pub six_to_four : Ipv4Addr → ℕ → ℕ → ℕ → ℕ → ℕ → IpAddr
six_to_four a s3 s4 s5 s6 s7 =
    v6 (record { s0 = 8194; s1 = high a; s2 = low a; s3 = s3; s4 = s4; s5 = s5; s6 = s6; s7 = s7 })

v4_of_bytes : (a : Ipv4Addr) → IsIpv4 a → v4_of (high a) (low a) ≡ a
unfolding v4_of
v4_of_bytes a h =
    let (h0, h1, h2, h3) = h in
    let e0 : high a / 256 ≡ a.o0 = omega (arith, h1) in
    let e1 : high a % 256 ≡ a.o1 = omega (arith, h1) in
    let e2 : low a / 256 ≡ a.o2 = omega (arith, h3) in
    let e3 : low a % 256 ≡ a.o3 = omega (arith, h3) in
    ap (λ n. record { o0 = n; o1 = high a % 256; o2 = low a / 256; o3 = low a % 256 }) e0
    ∙ ap (λ n. record { o0 = a.o0; o1 = n; o2 = low a / 256; o3 = low a % 256 }) e1
    ∙ ap (λ n. record { o0 = a.o0; o1 = a.o1; o2 = n; o3 = low a % 256 }) e2
    ∙ ap (λ n. record { o0 = a.o0; o1 = a.o1; o2 = a.o2; o3 = n }) e3

-- An IPv6 address that carries an IPv4 address, as a mapped, a NAT64 or a 6to4 address, passes
-- exactly when the IPv4 address does.
pub embedded_public :
    (a : Ipv4Addr) (s3 s4 s5 s6 s7 : ℕ)
    → IsIpv4 a
    → (is_public_unicast (mapped a) ≡ is_public_unicast (v4 a))
      × (is_public_unicast (nat64 a) ≡ is_public_unicast (v4 a))
      × (is_public_unicast (six_to_four a s3 s4 s5 s6 s7) ≡ is_public_unicast (v4 a))
unfolding is_public_unicast is_public_unicast_v6 is_special_v6 embedded_v4 to_ipv4 masked
embedded_public a s3 s4 s5 s6 s7 h =
    let same = ap is_public_unicast_v4 (v4_of_bytes a h) in (same, same, same)
