-- ===== src/Cache/Connect.antt =====
-- crates/cache/src/lib.rs: `connect`. The client fred, rustls and the file system are a parameter.
pub mod Startup
use kit.Prelude.{
  ℕ, Bool, true, false, not, ◌||◌, Option, none, some, List, [], ◌∷◌, ◌++◌, any, if◌then◌else◌,
  Result, ok, err, ◌>>=◌, ok_or,
}
use kit.Prelude.Text.{starts_with}
use kit.Prelude.Sort.{codes}
use kit.Cache.Url.{percent_encode_userinfo}

pub record CacheConfig : Type 0 where
  pub url : List ℕ
  pub password : Option (List ℕ)
  pub ca_cert_path : Option (List ℕ)
  pub pool_size : ℕ

pub data ErrorKind : Type 0 where
  timeout canceled io other : ErrorKind

pub record Error : Type 0 where
  pub kind : ErrorKind
  pub details : List ℕ

-- What waiting for the first connection comes to.
pub data Waited : Type 0 where
  connected : Waited
  failed : Error → Waited
  elapsed : Waited

pub data ConnectError : Type 0 where
  invalid_url bad_ca no_certificates no_pool : ConnectError
  refused : Error → ConnectError

pub record Fred : Type 1 where
  pub Config : Type 0
  pub Tls : Type 0
  pub Cert : Type 0
  pub Pool : Type 0
  pub from_url : List ℕ → Option Config
  pub with_password : List ℕ → Config → Config
  pub with_tls : Tls → Config → Config
  pub with_fail_fast : Bool → Config → Config
  pub new_pool : Config → ℕ → Option Pool
  pub read : List ℕ → Option (List ℕ)
  pub pem_certs : List ℕ → Option (List Cert)
  pub accepts : Cert → Bool  -- whether the root store takes it
  pub tls_of : List Cert → Tls

-- `contains` on texts.
unfoldable pub contains : List ℕ → List ℕ → Bool
contains [] needle = starts_with [] needle
contains (c ∷ cs) needle = starts_with (c ∷ cs) needle || contains cs needle

unfoldable pub transient_io_errors : List (List ℕ)
transient_io_errors =
    codes "ConnectionRefused"
    ∷ codes "ConnectionReset"
    ∷ codes "ConnectionAborted"
    ∷ codes "TimedOut"
    ∷ codes "HostUnreachable"
    ∷ codes "NetworkUnreachable"
    ∷ codes "NotConnected"
    ∷ codes "BrokenPipe"
    ∷ codes "UnexpectedEof"
    ∷ codes "failed to lookup address"
    ∷ []

unfoldable pub is_transient : Error → Bool
is_transient e = elim e.kind [
  | timeout ↦ true
  | canceled ↦ true
  | io ↦ any (contains e.details) transient_io_errors
  | other ↦ false
]

module _ (f : Fred) where
  unfoldable pub all_accepted : List f.Cert → Bool
  all_accepted [] = true
  all_accepted (c ∷ cs) = let rest = all_accepted cs in if f.accepts c then rest else false

  unfoldable pub rustls_config_with_ca : List ℕ → Result ConnectError f.Tls
  rustls_config_with_ca ca_cert_path = do
    pem_bytes ← ok_or (f.read ca_cert_path) bad_ca
    certs ← ok_or (f.pem_certs pem_bytes) bad_ca
    elim certs [
      | [] ↦ err no_certificates
      | c ∷ cs ↦ if all_accepted (c ∷ cs) then ok (f.tls_of (c ∷ cs)) else err bad_ca
    ]

  unfoldable pub tls_configured : CacheConfig → f.Config → Result ConnectError f.Config
  tls_configured config cfg =
      if starts_with config.url (codes "rediss://")
      then elim config.ca_cert_path [
        | none ↦ ok cfg
        | some path ↦ rustls_config_with_ca path >>= λ tls. ok (f.with_tls tls cfg)
      ]
      else ok cfg

  unfoldable pub overridden : CacheConfig → f.Config → f.Config
  overridden config cfg = elim config.password [
    | none ↦ cfg
    | some password ↦ f.with_password password cfg
  ]

  -- The configuration that the pool is built from.
  unfoldable pub configured : (List ℕ → List ℕ) → CacheConfig → Result ConnectError f.Config
  configured encode config = do
    cfg ← ok_or (f.from_url (percent_encode_userinfo encode config.url)) invalid_url
    tls_configured config (overridden config cfg)

  unfoldable pub build : CacheConfig → f.Config → Result ConnectError f.Pool
  build config cfg = ok_or (f.new_pool cfg config.pool_size) no_pool

  -- What the wait for the probe leads to: the probe itself, an error, or a pool that reconnects.
  unfoldable pub after_wait : CacheConfig → f.Config → f.Pool → Waited → Result ConnectError f.Pool
  after_wait config cfg probe connected = ok probe
  after_wait config cfg probe (failed e) =
      if not (is_transient e) then err (refused e) else build config (f.with_fail_fast false cfg)
  after_wait config cfg probe elapsed = build config (f.with_fail_fast false cfg)

  -- `wait` is what the wait for a pool comes to within two seconds.
  unfoldable pub connect :
      (List ℕ → List ℕ) → (f.Pool → Waited) → CacheConfig → Result ConnectError f.Pool
  connect encode wait config = do
    cfg ← configured encode config
    probe ← build config cfg
    after_wait config cfg probe (wait probe)
