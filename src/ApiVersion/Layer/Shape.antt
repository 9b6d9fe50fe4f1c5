-- ===== src/ApiVersion/Layer/Shape.antt =====
-- crates/api-version/src/layer.rs: the shape that a client is served.
use kit.Prelude.{
  ℕ, true, false, none, some, String, List, ◌≡◌, ◌≢◌, ◌⊎◌, inl, inr, ◌∙◌, refl, ap, arith, Result,
  ok, err, length, ◌>>=◌, Bool-cases,
}
use kit.ApiVersion.Version.{ApiVersion}
use kit.ApiVersion.Transform.{upgrade_request, touches}
use kit.ApiVersion.Platform.{Platform, IsPlatform}
use kit.ApiVersion.Policy.{ApiVersionContext, VersionRejection, answer, resolve, response_header}
use kit.ApiVersion.Layer.{
  Request, Response, is_json, set_content_length, into_response, rewrite_body, rewrite_request,
  rewrite_response, served, route_of, answered, negotiate_at, negotiate,
}

-- The request with the extension that the layer inserts.
abbrev pub seen_at : {p : Platform} → ApiVersion → Request p → Request p
seen_at version req = record req { version = some version }

-- The body, read whole, is JSON of this value.
abbrev pub Carries : (p : Platform) → p.Body → p.Value → Type 0
Carries p body v =
    (limit : ℕ) × (b : List ℕ) × (p.to_bytes body limit ≡ some b) × (p.from_slice b ≡ some v)

-- The body is JSON of this value, within the cap, and not empty.
pub record Readable (p : Platform) (cap : ℕ) (body : p.Body) (v : p.Value) : Type 0 where
  pub bytes : List ℕ
  pub read : p.to_bytes body cap ≡ some bytes
  pub filled : length bytes ≢ 0
  pub parsed : p.from_slice bytes ≡ some v

module _ {p : Platform} (laws : IsPlatform p) (c : ApiVersionContext p) where
  Carries-body_from : (v : p.Value) (b : List ℕ) → p.to_vec v ≡ some b → Carries p (p.body_from b) v
  Carries-body_from v b e = (
    length b,
    b,
    ground (arith, laws.to_bytes-body_from b (length b)),
    laws.from_slice-to_vec v b e,
  )

  rewrite_body_lem :
      (f : p.Value → p.Value) (headers : p.HeaderMap) (body : p.Body) {v : p.Value} (b : List ℕ)
      → Readable p c.max_body_bytes body v
      → p.to_vec (f v) ≡ some b
      → rewrite_body c f headers body ≡ ok (set_content_length p headers (length b), p.body_from b)
  unfolding rewrite_body
  rewrite_body_lem f headers body {v} b r e = ground (arith, r.read, r.parsed, r.filled)

  -- A JSON request body within the cap reaches the handler upgraded to the current shape, under the
  -- request's other parts unchanged.
  pub request_shape :
      (version : ApiVersion) (route : String) (method : p.Method) (req : Request p) (v : p.Value)
      → is_json p req.headers ≡ true
      → Readable p c.max_body_bytes req.body v
      → (seen : Request p) × (rewrite_request c version route method req ≡ ok seen)
        × Carries p seen.body (upgrade_request c.registry version route method v)
        × (seen.version ≡ req.version)
        × (seen.path ≡ req.path)
  unfolding rewrite_request
  request_shape version route method req v json r =
      let f = upgrade_request c.registry version route method in
      let (b, e) = laws.to_vec_total (f v) in
      (
        record req { headers = set_content_length p req.headers (length b); body = p.body_from b },
        ground (arith, rewrite_body_lem f req.headers req.body b r e),
        Carries-body_from (f v) b e,
        refl,
        refl,
      )

  module _ (next : Request p → Response p) (version : ApiVersion) (req : Request p)
      (speaks : resolve c req.headers req.pinned ≡ ok version) where
    negotiate_speaks : negotiate c next req ≡ negotiate_at c next version req
    unfolding negotiate
    negotiate_speaks = ground (arith, speaks)

    negotiate_not_due :
        touches c.registry version (route_of req) req.method ≡ false
        → negotiate c next req ≡ served version (next (seen_at version req))
    unfolding negotiate_at
    negotiate_not_due fresh = negotiate_speaks ∙ ground arith

    at_served :
        (res : Response p)
        → negotiate c next req ≡ served version res
        → p.get (negotiate c next req).headers p.served_header ≡ some (response_header p version)
    unfolding served
    at_served res e =
        ap (λ (r : Response p). p.get r.headers p.served_header) e
        ∙ laws.get-set_self res.headers p.served_header (response_header p version)

    named :
        (outcome : Result VersionRejection (Response p))
        → negotiate c next req ≡ answered (outcome >>= λ res. ok (served version res))
        → ((rejection : VersionRejection) × (negotiate c next req ≡ into_response rejection))
          ⊎ (p.get (negotiate c next req).headers p.served_header
              ≡ some (response_header p version))
    named (ok res) e = inr (at_served res e)
    named (err rejection) e = inl (rejection, e)

    -- The served version stands on every answer but a rejection.
    pub negotiate_names_version :
        ((rejection : VersionRejection) × (negotiate c next req ≡ into_response rejection))
        ⊎ (p.get (negotiate c next req).headers p.served_header ≡ some (response_header p version))
    negotiate_names_version =
        elim (Bool-cases (touches c.registry version (route_of req) req.method)) [
          | inl due ↦
              named
                (do
                  seen ← rewrite_request c version (route_of req) req.method (seen_at version req)
                  rewrite_response c version (route_of req) req.method (next seen))
                (negotiate_speaks ∙ unfold negotiate_at in ground arith)
          | inr fresh ↦ inr (at_served (next (seen_at version req)) (negotiate_not_due fresh))
        ]

    -- An answer over the cap that would have to be rewritten is refused with status 500, not
    -- passed on in the current shape.
    pub negotiate_over_cap :
        {seen : Request p}
        → touches c.registry version (route_of req) req.method ≡ true
        → rewrite_request c version (route_of req) req.method (seen_at version req) ≡ ok seen
        → is_json p (next seen).headers ≡ true
        → p.to_bytes (next seen).body c.max_body_bytes ≡ none
        → (negotiate c next req).status ≡ 500
    unfolding negotiate_at rewrite_response rewrite_body into_response answer
    negotiate_over_cap due rewritten json big =
        ap (λ (r : Response p). r.status) negotiate_speaks ∙ ground arith
