-- ===== src/RateLimit/Ip.antt =====
-- crates/ratelimit/src/ip.rs: the client's address. The header is its bytes; `parse` stands for
-- `part.trim().parse::<IpAddr>().ok()` on one part.
pub mod Spoofing
use kit.Prelude.{
  ℕ, ◌-◌, Bool, true, false, Option, none, some, List, [], ◌∷◌, ◌++◌, length, get_or, filter_map,
  leb, ◌==◌, if◌then◌else◌,
}

-- `raw.split(',')`
unfoldable pub split : List ℕ → List (List ℕ)
split [] = [] ∷ []
split (c ∷ cs) =
    let rest = split cs in
    if c == b',' then [] ∷ rest else elim rest [ [] ↦ (c ∷ []) ∷ [] | p ∷ ps ↦ (c ∷ p) ∷ ps ]

-- The entry of the chain that `hops` proxies vouch for.
unfoldable pub hop : {Ip : Type 0} → Ip → ℕ → List Ip → Ip
hop peer hops [] = peer
hop peer hops (first ∷ more) =
    if leb (length (first ∷ more)) hops
    then first
    else get_or (first ∷ more) (length (first ∷ more) - hops) peer

module _ {Ip : Type 0} (parse : List ℕ → Option Ip) where
  unfoldable pub chain_of : List ℕ → List Ip
  chain_of raw = filter_map parse (split raw)

  -- `trusted` is the count of `TrustedProxies`. The indexes into the chain are in range, so `get_or`
  -- does not give its default.
  unfoldable pub client_ip : Ip → Option (List ℕ) → ℕ → Ip
  client_ip peer xff trusted =
      if trusted == 0
      then peer
      else elim xff [ none ↦ peer | some raw ↦ hop peer trusted (chain_of raw) ]
