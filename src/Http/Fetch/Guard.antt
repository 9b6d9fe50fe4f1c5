-- ===== src/Http/Fetch/Guard.antt =====
-- crates/http/src/lib.rs: which connections a fetch makes, and how large an answer is kept.
use mathlib.Core.Path.{subst}
use kit.Prelude.{
  ℕ, zero, suc, ◌+◌, ◌≤◌, true, Option, none, some, String, List, [], ◌∷◌, ◌≡◌, ◌≢◌, inl, inr, refl,
  Bool-cases, arith, length, Result, ok, err, Result-cases,
}
use kit.Prelude.Rows.{AllRows}
use kit.Http.Address.{is_public_unicast}
use kit.Http.Fetch.{
  SocketAddr, SafeFetchError, SafeFetchOpts, SafeResponse, Response, Network, Fetched, read_capped,
  pin, Next, is_redirection, ends, follow, next_of, hop_once, with_connection, get_loop,
  safe_get_inner, safe_post_form_inner, too_many_redirects, http, invalid_url,
}
use kit.Http.Fetch.Pinned.{pin_public}

abbrev pub AllPublic : List SocketAddr → Type 0
AllPublic = AllRows (λ a. is_public_unicast a.ip ≡ true)

module _ (net : Network) where
  -- A pass of the loop connects to a public address or not at all.
  hop_public :
      (opts : SafeFetchOpts) (left hop : ℕ) (current : String)
      → AllPublic (with_connection net (hop_once net opts left hop current).0 [])
  unfolding hop_once
  hop_public opts left hop current = by_parse (net.parse current)
    where
      by_pin :
          (parsed : net.Url) (r : Result SafeFetchError SocketAddr)
          → pin net hop parsed ≡ r
          → AllPublic (
              with_connection net
                (elim r as (λ x. Option SocketAddr × Next net) [
                  | err e ↦ (none, ends (err e))
                  | ok pinned ↦ elim (net.send hop pinned parsed) [
                    | err e ↦ (some pinned, ends (err (http e)))
                    | ok resp ↦ (some pinned, next_of net opts left parsed resp)
                  ]
                ]).0
                [])
      by_pin parsed (err e) h = tt
      by_pin parsed (ok a) h =
          elim (net.send hop a parsed)
            as (λ s. AllPublic (
              with_connection net
                (elim s as (λ x. Option SocketAddr × Next net) [
                  | err e ↦ (some a, ends (err (http e)))
                  | ok resp ↦ (some a, next_of net opts left parsed resp)
                ]).0
                [])) [
                  | err e ↦ (pin_public net hop parsed a h, tt)
                  | ok resp ↦ (pin_public net hop parsed a h, tt)
                ]

      by_parse :
          (r : Result String net.Url)
          → AllPublic (
              with_connection net
                (elim r as (λ x. Option SocketAddr × Next net) [
                  | err e ↦ (none, ends (err (invalid_url e)))
                  | ok parsed ↦ elim (pin net hop parsed) [
                    | err e ↦ (none, ends (err e))
                    | ok pinned ↦ elim (net.send hop pinned parsed) [
                      | err e ↦ (some pinned, ends (err (http e)))
                      | ok resp ↦ (some pinned, next_of net opts left parsed resp)
                    ]
                  ]
                ]).0
                [])
      by_parse (err e) = tt
      by_parse (ok parsed) = by_pin parsed (pin net hop parsed) refl

  with_connection-public :
      (o : Option SocketAddr) (connected : List SocketAddr)
      → AllPublic (with_connection net o [])
      → AllPublic connected
      → AllPublic (with_connection net o connected)
  with_connection-public none connected h k = k
  with_connection-public (some a) connected h k = (h.0, k)

  with_connection-length :
      (o : Option SocketAddr) (connected : List SocketAddr)
      → length (with_connection net o connected) ≤ length connected + 1
  with_connection-length none connected = omega arith
  with_connection-length (some a) connected = omega arith

  abbrev IsGuarded : ℕ → Fetched → Type 0
  IsGuarded most f = AllPublic f.connected × (length f.connected ≤ most)

  ended-IsGuarded :
      (o : Option SocketAddr) (most : ℕ) (r : Result SafeFetchError SafeResponse)
      → AllPublic (with_connection net o [])
      → 1 ≤ most
      → IsGuarded most (record { result = r; connected = with_connection net o [] })
  ended-IsGuarded o most r h k = (h, omega (arith, with_connection-length o [], k))

  get_loop-IsGuarded :
      (opts : SafeFetchOpts) (left hop : ℕ) (current : String)
      → IsGuarded (left + 1) (get_loop net opts left hop current)
  unfolding get_loop
  get_loop-IsGuarded opts zero hop current = by_next (hop_once net opts 0 hop current).1
    where
      by_next :
          (n : Next net)
          → IsGuarded 1 (elim n [
            | ends r ↦ record {
              result = r;
              connected = with_connection net (hop_once net opts 0 hop current).0 [];
            }
            | follow url ↦ record {
              result = err (too_many_redirects opts.max_redirects);
              connected = with_connection net (hop_once net opts 0 hop current).0 [];
            }
          ])
      by_next (ends r) = ended-IsGuarded _ 1 r (hop_public opts 0 hop current) (omega arith)
      by_next (follow url) =
          ended-IsGuarded _ 1 (err (too_many_redirects opts.max_redirects))
            (hop_public opts 0 hop current) (omega arith)
  get_loop-IsGuarded opts (suc left) hop current =
      by_next (λ url. get_loop-IsGuarded opts left (hop + 1) url)
        (hop_once net opts (suc left) hop current).1
    where
      made : Option SocketAddr
      made = (hop_once net opts (suc left) hop current).0

      by_next :
          ((url : String) → IsGuarded (left + 1) (get_loop net opts left (hop + 1) url))
          → (n : Next net)
          → IsGuarded (suc left + 1) (elim n [
            | ends r ↦ record { result = r; connected = with_connection net made [] }
            | follow url ↦ record {
              result = (get_loop net opts left (hop + 1) url).result;
              connected = with_connection net made (get_loop net opts left (hop + 1) url).connected;
            }
          ])
      by_next later (ends r) =
          ended-IsGuarded _ (suc left + 1) r (hop_public opts (suc left) hop current) (omega arith)
      by_next later (follow url) =
          let rest = later url in
          let all = (get_loop net opts left (hop + 1) url).connected in
          (
            with_connection-public made all (hop_public opts (suc left) hop current) rest.0,
            omega (arith, with_connection-length made all, rest.1),
          )

  post-IsGuarded :
      (url : String) (opts : SafeFetchOpts) → IsGuarded 1 (safe_post_form_inner net url opts)
  unfolding safe_post_form_inner
  post-IsGuarded url opts = elim (Result-cases (net.parse url)) [
    | inl (e, p) ↦ nothing (invalid_url e) (ground (arith, p))
    | inr (parsed, p) ↦ elim (Result-cases (pin net 0 parsed)) [
      | inl (e, q) ↦ nothing e (ground (arith, p, q))
      | inr (a, q) ↦ elim (Result-cases (net.send 0 a parsed)) [
        | inl (e, s) ↦ one a (err (http e)) (pin_public net 0 parsed a q) (ground (arith, p, q, s))
        | inr (resp, s) ↦
            one a (read_capped resp opts.max_body_bytes) (pin_public net 0 parsed a q)
              (ground (arith, p, q, s))
      ]
    ]
  ]
    where
      nothing :
          (e : SafeFetchError)
          → record { result = err e; connected = [] } ≡ safe_post_form_inner net url opts
          → IsGuarded 1 (safe_post_form_inner net url opts)
      nothing e same = subst (IsGuarded 1) same (tt, omega arith)

      one :
          (a : SocketAddr) (r : Result SafeFetchError SafeResponse)
          → is_public_unicast a.ip ≡ true
          → record { result = r; connected = a ∷ [] } ≡ safe_post_form_inner net url opts
          → IsGuarded 1 (safe_post_form_inner net url opts)
      one a r h same = subst (IsGuarded 1) same (ended-IsGuarded (some a) 1 r (h, tt) (omega arith))

  -- With no redirect left there is no URL to fetch next.
  next_of-zero :
      (opts : SafeFetchOpts) (parsed : net.Url) (resp : Response) (url : String)
      → next_of net opts 0 parsed resp ≢ follow url
  unfolding next_of
  next_of-zero opts parsed resp url h = elim (Bool-cases (is_redirection resp.status)) [
    | inl t ↦ absurd (ground (arith, h, t))
    | inr f ↦ absurd (ground (arith, h, f))
  ]

  -- Whatever URL is given, and whatever the resolver and the servers answer at each step, a fetch
  -- connects only to addresses that are public, redirects included: at most one connection more than
  -- the redirects that are allowed, and at most one for a form.
  pub connects_public :
      (url : String) (opts : SafeFetchOpts)
      → (AllPublic (safe_get_inner net url opts).connected
          × (length (safe_get_inner net url opts).connected ≤ opts.max_redirects + 1))
        × (AllPublic (safe_post_form_inner net url opts).connected
            × (length (safe_post_form_inner net url opts).connected ≤ 1))
  unfolding safe_get_inner
  connects_public url opts =
      (get_loop-IsGuarded opts opts.max_redirects 0 url, post-IsGuarded url opts)
