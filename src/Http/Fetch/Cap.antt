-- ===== src/Http/Fetch/Cap.antt =====
-- crates/http/src/lib.rs: the cap on the body.
use mathlib.Core.Path.{subst}
use kit.Prelude.{
  ℕ, zero, suc, ◌+◌, ◌≤◌, Bool, true, false, Option, none, some, String, List, [], ◌∷◌, ◌++◌, ◌≡◌,
  refl, arith, length, length-append, ltb, ◌==◌, if◌then◌else◌, Result, ok, err, Bool-cases,
  Result-cases, inl, inr, ◌⊎◌,
}
use kit.Http.Fetch.{
  SocketAddr, SafeFetchError, SafeFetchOpts, SafeResponse, Response, Network, Fetched, read_chunks,
  read_capped, pin, Next, ends, follow, next_of, hop_once, get_loop, with_connection,
  safe_get_inner, safe_post_form_inner, within, safe_get, safe_post_form, is_redirection, http,
  invalid_url, bad_redirect, too_many_redirects,
}

-- If it is a response its body is within the cap.
abbrev IsCapped : ℕ → Result SafeFetchError SafeResponse → Type 0
IsCapped most (err e) = Unit
IsCapped most (ok resp) = length resp.body ≤ most

read_chunks_cap :
    (most : ℕ) (body : List ℕ) (chunks : List (Result String (List ℕ))) (whole : List ℕ)
    → length body ≤ most
    → read_chunks most body chunks ≡ ok whole
    → length whole ≤ most
unfolding read_chunks
read_chunks_cap most body [] whole h e = ground (arith, h, e)
read_chunks_cap most body (err x ∷ chunks) whole h e = absurd (cc (e))
read_chunks_cap most body (ok chunk ∷ chunks) whole h e =
    elim (Bool-cases (ltb most (length body + length chunk))) [
      | inl t ↦ absurd (ground (arith, e, t))
      | inr f ↦
          let room : length body + length chunk ≤ most = ground (arith, f) in
          read_chunks_cap most (body ++ chunk) chunks whole
            (omega (arith, length-append body chunk, room)) (ground (arith, e, f))
    ]

read_capped-IsCapped : (resp : Response) (most : ℕ) → IsCapped most (read_capped resp most)
unfolding read_capped
read_capped-IsCapped resp most = by_read (read_chunks most [] resp.chunks) refl
  where
    by_read :
        (r : Result SafeFetchError (List ℕ))
        → read_chunks most [] resp.chunks ≡ r
        → IsCapped most (elim r as (λ x. Result SafeFetchError SafeResponse) [
          | err e ↦ err e
          | ok body ↦ ok (record { status = resp.status; body = body; final_url = resp.url })
        ])
    by_read (err x) e = tt
    by_read (ok body) e = read_chunks_cap most [] resp.chunks body (omega arith) e

module _ (net : Network) where
  abbrev IsNextCapped : ℕ → Next net → Type 0
  IsNextCapped most (ends r) = IsCapped most r
  IsNextCapped most (follow url) = Unit

  next_of-IsNextCapped :
      (opts : SafeFetchOpts) (left : ℕ) (parsed : net.Url) (resp : Response)
      → IsNextCapped opts.max_body_bytes (next_of net opts left parsed resp)
  unfolding next_of
  next_of-IsNextCapped opts left parsed resp =
      by_status (is_redirection resp.status) (left == 0) resp.location
    where
      by_status :
          (redirects none_left : Bool) (location : Option String)
          → let next : Next net =
              if redirects
              then if none_left
                then ends (err (too_many_redirects opts.max_redirects))
                else elim location [
                  | none ↦ ends (err bad_redirect)
                  | some loc ↦ elim (net.join parsed loc) [
                    | err e ↦ ends (err (invalid_url e))
                    | ok next ↦ follow (net.to_string next)
                  ]
                ]
              else ends (read_capped resp opts.max_body_bytes) in
            IsNextCapped opts.max_body_bytes next
      by_status false l loc = read_capped-IsCapped resp opts.max_body_bytes
      by_status true true loc = tt
      by_status true false none = tt
      by_status true false (some loc) =
          elim (net.join parsed loc)
            as (λ r. IsNextCapped opts.max_body_bytes (elim r as (λ x. Next net) [
              | err e ↦ ends (err (invalid_url e))
              | ok next ↦ follow (net.to_string next)
            ])) [ err e ↦ tt | ok next ↦ tt ]

  hop_once-IsNextCapped :
      (opts : SafeFetchOpts) (left hop : ℕ) (current : String)
      → IsNextCapped opts.max_body_bytes (hop_once net opts left hop current).1
  unfolding hop_once
  hop_once-IsNextCapped opts left hop current = elim (Result-cases (net.parse current)) [
    | inl (e, p) ↦ nothing (invalid_url e) (ground (arith, p))
    | inr (parsed, p) ↦ elim (Result-cases (pin net hop parsed)) [
      | inl (e, q) ↦ nothing e (ground (arith, p, q))
      | inr (a, q) ↦ elim (Result-cases (net.send hop a parsed)) [
        | inl (e, s) ↦ nothing (http e) (ground (arith, p, q, s))
        | inr (resp, s) ↦
            let same : next_of net opts left parsed resp ≡ (hop_once net opts left hop current).1 =
              ground (arith, p, q, s) in
            subst (IsNextCapped opts.max_body_bytes) same
              (next_of-IsNextCapped opts left parsed resp)
      ]
    ]
  ]
    where
      nothing :
          (e : SafeFetchError)
          → ends (err e) ≡ (hop_once net opts left hop current).1
          → IsNextCapped opts.max_body_bytes (hop_once net opts left hop current).1
      nothing e same = subst (IsNextCapped opts.max_body_bytes) same tt

  get_loop-IsCapped :
      (opts : SafeFetchOpts) (left hop : ℕ) (current : String)
      → IsCapped opts.max_body_bytes (get_loop net opts left hop current).result
  unfolding get_loop
  get_loop-IsCapped opts zero hop current =
      by_next (hop_once net opts 0 hop current).1 (hop_once-IsNextCapped opts 0 hop current)
    where
      by_next :
          (n : Next net)
          → IsNextCapped opts.max_body_bytes n
          → IsCapped opts.max_body_bytes
              (elim n as (λ x. Fetched) [
                | ends r ↦ record {
                  result = r;
                  connected = with_connection net (hop_once net opts 0 hop current).0 [];
                }
                | follow url ↦ record {
                  result = err (too_many_redirects opts.max_redirects);
                  connected = with_connection net (hop_once net opts 0 hop current).0 [];
                }
              ]).result
      by_next (ends r) h = h
      by_next (follow url) h = tt
  get_loop-IsCapped opts (suc left) hop current =
      by_next (λ url. get_loop-IsCapped opts left (hop + 1) url)
        (hop_once net opts (suc left) hop current).1
        (hop_once-IsNextCapped opts (suc left) hop current)
    where
      made : Option SocketAddr
      made = (hop_once net opts (suc left) hop current).0

      by_next :
          ((url : String)
            → IsCapped opts.max_body_bytes (get_loop net opts left (hop + 1) url).result)
          → (n : Next net) → IsNextCapped opts.max_body_bytes n
          → IsCapped opts.max_body_bytes
              (elim n as (λ x. Fetched) [
                | ends r ↦ record { result = r; connected = with_connection net made [] }
                | follow url ↦ record {
                  result = (get_loop net opts left (hop + 1) url).result;
                  connected =
                      with_connection net made (get_loop net opts left (hop + 1) url).connected;
                }
              ]).result
      by_next later (ends r) h = h
      by_next later (follow url) h = later url

  post-IsCapped :
      (url : String) (opts : SafeFetchOpts)
      → IsCapped opts.max_body_bytes (safe_post_form_inner net url opts).result
  unfolding safe_post_form_inner
  post-IsCapped url opts = elim (Result-cases (net.parse url)) [
    | inl (e, p) ↦ nothing (invalid_url e) (ground (arith, p))
    | inr (parsed, p) ↦ elim (Result-cases (pin net 0 parsed)) [
      | inl (e, q) ↦ nothing e (ground (arith, p, q))
      | inr (a, q) ↦ elim (Result-cases (net.send 0 a parsed)) [
        | inl (e, s) ↦ nothing (http e) (ground (arith, p, q, s))
        | inr (resp, s) ↦
            let same : read_capped resp opts.max_body_bytes
                ≡ (safe_post_form_inner net url opts).result =
              ground (arith, p, q, s) in
            subst (IsCapped opts.max_body_bytes) same
              (read_capped-IsCapped resp opts.max_body_bytes)
      ]
    ]
  ]
    where
      nothing :
          (e : SafeFetchError)
          → err e ≡ (safe_post_form_inner net url opts).result
          → IsCapped opts.max_body_bytes (safe_post_form_inner net url opts).result
      nothing e same = subst (IsCapped opts.max_body_bytes) same tt

  within-IsCapped :
      (timed_out : Bool) (most : ℕ) (f : Fetched) (resp : SafeResponse)
      → IsCapped most f.result
      → within net timed_out f ≡ ok resp
      → length resp.body ≤ most
  unfolding within
  within-IsCapped true most f resp h e = absurd (cc (e))
  within-IsCapped false most f resp h e = subst (IsCapped most) e h

  -- Whatever a server sends, in however many chunks and after however many redirects, an answer that
  -- a fetch returns has a body within the cap.
  pub fetch_capped :
      (timed_out : Bool) (url : String) (opts : SafeFetchOpts) (resp : SafeResponse)
      → (safe_get net timed_out url opts ≡ ok resp)
        ⊎ (safe_post_form net timed_out url opts ≡ ok resp)
      → length resp.body ≤ opts.max_body_bytes
  unfolding safe_get safe_post_form safe_get_inner
  fetch_capped timed_out url opts resp (inl e) =
      within-IsCapped timed_out opts.max_body_bytes _ resp
        (get_loop-IsCapped opts opts.max_redirects 0 url) e
  fetch_capped timed_out url opts resp (inr e) =
      within-IsCapped timed_out opts.max_body_bytes _ resp (post-IsCapped url opts) e
