-- ===== src/Http/Fetch.antt =====
-- crates/http/src/lib.rs: fetching. The network is a parameter: URLs, the resolver and the servers,
-- which may answer each connection differently. What is modelled is the connections that are made.
mod Pinned
pub mod Guard
pub mod Cap
use kit.Prelude.{
  ℕ, zero, suc, ◌+◌, Bool, true, false, not, ◌&&◌, ◌||◌, Option, none, some, String, List, [], ◌∷◌,
  ◌++◌, length, ltb, leb, ◌==◌, str_eq, if◌then◌else◌, Result, ok, err,
}
use kit.Http.Address.{IpAddr, is_public_unicast}

pub record SocketAddr : Type 0 where
  pub ip : IpAddr
  pub port : ℕ

pub data SafeFetchError : Type 0 where
  invalid_url unsupported_scheme dns_lookup http : String → SafeFetchError
  missing_host dns_empty bad_redirect timeout : SafeFetchError
  blocked_address : IpAddr → SafeFetchError
  too_many_redirects : ℕ → SafeFetchError
  body_too_large : ℕ → SafeFetchError

pub record SafeFetchOpts : Type 0 where
  pub max_body_bytes : ℕ
  pub max_redirects : ℕ  -- u8

pub record SafeResponse : Type 0 where
  pub status : ℕ
  pub body : List ℕ
  pub final_url : String

-- A response of reqwest: `chunk()` gives the chunks in turn, then `None`, or an error.
pub record Response : Type 0 where
  pub status : ℕ
  pub url : String
  pub location : Option String  -- the header, if it is text
  pub chunks : List (Result String (List ℕ))

-- `url`, `tokio::net::lookup_host` and reqwest. The number tells the answers of one fetch apart.
pub record Network : Type 1 where
  pub Url : Type 0
  pub parse : String → Result String Url
  pub scheme : Url → String
  pub host_str : Url → Option String
  pub port_or_known_default : Url → Option ℕ
  pub join : Url → String → Result String Url
  pub to_string : Url → String
  pub parse_ip : String → Option IpAddr
  pub lookup_host : ℕ → String → ℕ → Result String (List SocketAddr)
  -- the answer of the server at the pinned address
  pub send : ℕ → SocketAddr → Url → Result String Response

-- The loop of `read_capped` over the chunks.
unfoldable pub read_chunks :
    ℕ → List ℕ → List (Result String (List ℕ)) → Result SafeFetchError (List ℕ)
read_chunks max_body_bytes body [] = ok body
read_chunks max_body_bytes body (err e ∷ chunks) = err (http e)
read_chunks max_body_bytes body (ok chunk ∷ chunks) =
    let rest = read_chunks max_body_bytes (body ++ chunk) chunks in
    if ltb max_body_bytes (length body + length chunk)
    then err (body_too_large max_body_bytes)
    else rest

unfoldable pub read_capped : Response → ℕ → Result SafeFetchError SafeResponse
read_capped resp max_body_bytes = elim (read_chunks max_body_bytes [] resp.chunks) [
  | err e ↦ err e
  | ok body ↦ ok (record { status = resp.status; body = body; final_url = resp.url })
]

-- The first address that is not public.
unfoldable pub first_blocked : List SocketAddr → Option IpAddr
first_blocked [] = none
first_blocked (a ∷ addrs) =
    let rest = first_blocked addrs in if not (is_public_unicast a.ip) then some a.ip else rest

-- What a resolver's answer comes to.
unfoldable pub validate : List SocketAddr → Result SafeFetchError SocketAddr
validate [] = err dns_empty
validate (first ∷ more) = elim (first_blocked (first ∷ more)) [
  | some ip ↦ err (blocked_address ip)
  | none ↦ ok first
]

unfoldable pub is_redirection : ℕ → Bool
is_redirection status = leb 300 status && ltb status 400

-- The connections that were made, with the result.
pub record Fetched : Type 0 where
  pub result : Result SafeFetchError SafeResponse
  pub connected : List SocketAddr

module _ (net : Network) where
  unfoldable pub resolve_and_validate : ℕ → String → ℕ → Result SafeFetchError SocketAddr
  resolve_and_validate hop host port = elim (net.parse_ip host) [
    | some ip ↦
        if not (is_public_unicast ip)
        then err (blocked_address ip)
        else ok (record { ip = ip; port = port })
    | none ↦ elim (net.lookup_host hop host port) [
      | err e ↦ err (dns_lookup e)
      | ok addrs ↦ validate addrs
    ]
  ]

  -- A URL's scheme, host, port and address, in the order of the code.
  unfoldable pub pin : ℕ → net.Url → Result SafeFetchError SocketAddr
  pin hop url =
      if str_eq (net.scheme url) "http" || str_eq (net.scheme url) "https"
      then elim (net.host_str url) [
        | none ↦ err missing_host
        | some host ↦ elim (net.port_or_known_default url) [
          | none ↦ err missing_host
          | some port ↦ resolve_and_validate hop host port
        ]
      ]
      else err (unsupported_scheme (net.scheme url))

  unfoldable pub safe_post_form_inner : String → SafeFetchOpts → Fetched
  safe_post_form_inner url opts = elim (net.parse url) [
    | err e ↦ record { result = err (invalid_url e); connected = [] }
    | ok parsed ↦ elim (pin 0 parsed) [
      | err e ↦ record { result = err e; connected = [] }
      | ok pinned ↦ elim (net.send 0 pinned parsed) [
        | err e ↦ record { result = err (http e); connected = pinned ∷ [] }
        | ok resp ↦ record {
          result = read_capped resp opts.max_body_bytes;
          connected = pinned ∷ [];
        }
      ]
    ]
  ]

  -- What a response leads to: the end, or the URL to fetch next.
  pub data Next : Type 0 where
    ends : Result SafeFetchError SafeResponse → Next
    follow : String → Next

  -- `left` is how many redirects may still be followed, `max_redirects - hops`.
  unfoldable pub next_of : SafeFetchOpts → ℕ → net.Url → Response → Next
  next_of opts left parsed resp =
      if is_redirection resp.status
      then if left == 0
        then ends (err (too_many_redirects opts.max_redirects))
        else elim resp.location [
          | none ↦ ends (err bad_redirect)
          | some loc ↦ elim (net.join parsed loc) [
            | err e ↦ ends (err (invalid_url e))
            | ok next ↦ follow (net.to_string next)
          ]
        ]
      else ends (read_capped resp opts.max_body_bytes)

  -- One pass of the loop: the connection that was made, if one was, and what follows.
  unfoldable pub hop_once : SafeFetchOpts → ℕ → ℕ → String → Option SocketAddr × Next
  hop_once opts left hop current = elim (net.parse current) [
    | err e ↦ (none, ends (err (invalid_url e)))
    | ok parsed ↦ elim (pin hop parsed) [
      | err e ↦ (none, ends (err e))
      | ok pinned ↦ elim (net.send hop pinned parsed) [
        | err e ↦ (some pinned, ends (err (http e)))
        | ok resp ↦ (some pinned, next_of opts left parsed resp)
      ]
    ]
  ]

  abbrev pub with_connection : Option SocketAddr → List SocketAddr → List SocketAddr
  with_connection none connected = connected
  with_connection (some a) connected = a ∷ connected

  -- The loop. With no redirect left `next_of` ends it, so that case of a next URL does not occur.
  unfoldable pub get_loop : SafeFetchOpts → ℕ → ℕ → String → Fetched
  get_loop opts zero hop current =
      let (made, next) = hop_once opts zero hop current in
      elim next [
        | ends result ↦ record { result = result; connected = with_connection made [] }
        | follow url ↦ record {
          result = err (too_many_redirects opts.max_redirects);
          connected = with_connection made [];
        }
      ]
  get_loop opts (suc left) hop current =
      let (made, next) = hop_once opts (suc left) hop current in
      elim next [
        | ends result ↦ record { result = result; connected = with_connection made [] }
        | follow url ↦
            let rest = get_loop opts left (hop + 1) url in
            record { result = rest.result; connected = with_connection made rest.connected }
      ]

  unfoldable pub safe_get_inner : String → SafeFetchOpts → Fetched
  safe_get_inner url opts = get_loop opts opts.max_redirects 0 url

  -- `timed_out`: the deadline passed before the fetch was done, which has made no more connections.
  unfoldable pub within : Bool → Fetched → Result SafeFetchError SafeResponse
  within timed_out fetched = if timed_out then err timeout else fetched.result

  unfoldable pub safe_get : Bool → String → SafeFetchOpts → Result SafeFetchError SafeResponse
  safe_get timed_out url opts = within timed_out (safe_get_inner url opts)

  unfoldable pub safe_post_form : Bool → String → SafeFetchOpts → Result SafeFetchError SafeResponse
  safe_post_form timed_out url opts = within timed_out (safe_post_form_inner url opts)
