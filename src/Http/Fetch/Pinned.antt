-- ===== src/Http/Fetch/Pinned.antt =====
-- crates/http/src/lib.rs: the address that a connection is pinned to.
use mathlib.Core.Path.{subst}
use kit.Prelude.{
  ℕ, true, String, List, [], ◌∷◌, ◌≡◌, inl, inr, arith, ok, Bool-cases, Option-cases, Result-cases,
}
use kit.Http.Address.{is_public_unicast}
use kit.Http.Fetch.{SocketAddr, Network, first_blocked, validate, resolve_and_validate, pin}

validate_public :
    (addrs : List SocketAddr) (a : SocketAddr)
    → validate addrs ≡ ok a
    → is_public_unicast a.ip ≡ true
unfolding validate first_blocked
validate_public [] a h = absurd (cc)
validate_public (first ∷ more) a h = elim (Bool-cases (is_public_unicast first.ip)) [
  | inl t ↦ elim (Option-cases (first_blocked more)) [
    | inl n ↦
        let is_a : first ≡ a = ground (arith, h, t, n) in
        subst (λ (x : SocketAddr). is_public_unicast x.ip ≡ true) is_a t
    | inr (ip, s) ↦ absurd (ground (arith, h, t, s))
  ]
  | inr n ↦ absurd (ground (arith, h, n))
]

module _ (net : Network) where
  resolved_public :
      (hop : ℕ) (host : String) (port : ℕ) (a : SocketAddr)
      → resolve_and_validate net hop host port ≡ ok a
      → is_public_unicast a.ip ≡ true
  unfolding resolve_and_validate
  resolved_public hop host port a h = elim (Option-cases (net.parse_ip host)) [
    | inr (ip, e) ↦ elim (Bool-cases (is_public_unicast ip)) [
      | inl t ↦
          let is_a : record { ip = ip; port = port } ≡ a = ground (arith, h, e, t) in
          subst (λ (x : SocketAddr). is_public_unicast x.ip ≡ true) is_a t
      | inr n ↦ absurd (ground (arith, h, e, n))
    ]
    | inl e ↦ elim (Result-cases (net.lookup_host hop host port)) [
      | inl (x, l) ↦ absurd (ground (arith, h, e, l))
      | inr (addrs, l) ↦ validate_public addrs a (ground (arith, h, e, l))
    ]
  ]

  pub pin_public :
      (hop : ℕ) (url : net.Url) (a : SocketAddr)
      → pin net hop url ≡ ok a
      → is_public_unicast a.ip ≡ true
  unfolding pin
  pin_public hop url a h = elim (Option-cases (net.host_str url)) [
    | inl e ↦ absurd (ground (arith, h, e))
    | inr (host, e) ↦ elim (Option-cases (net.port_or_known_default url)) [
      | inl p ↦ absurd (ground (arith, h, e, p))
      | inr (port, p) ↦ resolved_public hop host port a (ground (arith, h, e, p))
    ]
  ]
