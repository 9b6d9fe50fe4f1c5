-- ===== src/ApiVersion/Layer.antt =====
-- crates/api-version/src/layer.rs: the middleware `negotiate`. The handler is a function from the
-- request that it sees to its response.
pub mod Shape
use kit.Prelude.{
  ℕ, suc, zero, ◌+◌, ◌-◌, ◌%◌, ◌/◌, Bool, true, false, not, ◌&&◌, ◌||◌, Option, none, some, String,
  List, [], ◌∷◌, ◌++◌, reverse, map, ltb, leb, ◌==◌, if◌then◌else◌, length, Result, ok, err, ◌>>=◌,
}
use kit.Prelude.Sort.{codes}
use kit.Prelude.Text.{starts_with, trim, to_ascii_lowercase, to_string}
use kit.ApiVersion.Version.{ApiVersion}
use kit.ApiVersion.Transform.{downgrade_response, upgrade_request, touches}
use kit.ApiVersion.Platform.{Platform}
use kit.ApiVersion.Policy.{
  ApiVersionContext, VersionRejection, not_transformable, answer, resolve, response_header,
}

module _ (p : Platform) where
  pub record Request : Type 0 where
    pub headers : p.HeaderMap
    pub pinned : Option ApiVersion  -- the extension `PinnedApiVersion`
    pub matched_path : Option String  -- the extension `MatchedPath`
    pub path : String
    pub method : p.Method
    pub version : Option ApiVersion  -- the extension that the layer inserts
    pub body : p.Body

  pub record Response : Type 0 where
    pub status : ℕ
    pub headers : p.HeaderMap
    pub body : p.Body

unfoldable pub is_json : (p : Platform) → p.HeaderMap → Bool
is_json p headers = elim (p.get headers p.content_type) [
  | none ↦ false
  | some value ↦ elim (p.to_str value) [
    | none ↦ false
    | some text ↦
        let value = to_ascii_lowercase (trim text) in
        starts_with value (codes "application/json")
        || starts_with value (codes "application/problem+json")
  ]
]

unfoldable pub set_content_length : (p : Platform) → p.HeaderMap → ℕ → p.HeaderMap
set_content_length p headers len = elim (p.header_value (to_string len)) [
  | none ↦ p.remove headers p.content_length
  | some value ↦ p.set headers p.content_length value
]

-- A body read under the cap; `to_vec` of what a rewrite gives.
abbrev pub or_rejected : {A : Type 0} → Option A → Result VersionRejection A
or_rejected none = err not_transformable
or_rejected (some a) = ok a

module _ {p : Platform} where
  unfoldable pub into_response : VersionRejection → Response p
  into_response rejection =
      let a = answer rejection in
      record { status = a.status; headers = p.error_headers; body = p.error_body a.code a.message }

  -- The part of both rewrites behind the test for JSON: the headers and the body, from a body and
  -- the rewriting of a value.
  unfoldable pub rewrite_body :
      ApiVersionContext p
      → (p.Value → p.Value)
      → p.HeaderMap
      → p.Body
      → Result VersionRejection (p.HeaderMap × p.Body)
  rewrite_body c f headers body = do
    bytes ← or_rejected (p.to_bytes body c.max_body_bytes)
    if length bytes == 0 then ok (headers, p.body_from bytes) else elim (p.from_slice bytes) [
      | none ↦ ok (headers, p.body_from bytes)
      | some value ↦ or_rejected (p.to_vec (f value)) >>= λ rewritten.
          ok (set_content_length p headers (length rewritten), p.body_from rewritten)
    ]

  unfoldable pub rewrite_request :
      ApiVersionContext p
      → ApiVersion
      → String
      → p.Method
      → Request p
      → Result VersionRejection (Request p)
  rewrite_request c version route method req = if not (is_json p req.headers) then ok req else do
    (headers, body) ←
        rewrite_body c (upgrade_request c.registry version route method) req.headers req.body
    ok (record req { headers = headers; body = body })

  unfoldable pub rewrite_response :
      ApiVersionContext p
      → ApiVersion
      → String
      → p.Method
      → Response p
      → Result VersionRejection (Response p)
  rewrite_response c version route method res = if not (is_json p res.headers) then ok res else do
    (headers, body) ←
        rewrite_body c (downgrade_response c.registry version route method) res.headers res.body
    ok (record res { headers = headers; body = body })

  -- The served version on an answer of the handler.
  unfoldable pub served : ApiVersion → Response p → Response p
  served version res = record res {
    headers = p.set res.headers p.served_header (response_header p version);
  }

  abbrev pub route_of : Request p → String
  route_of req = elim req.matched_path [ none ↦ req.path | some matched ↦ matched ]

  abbrev pub answered : Result VersionRejection (Response p) → Response p
  answered (ok res) = res
  answered (err rejection) = into_response rejection

  -- `negotiate` once the version is known.
  unfoldable pub negotiate_at :
      ApiVersionContext p → (Request p → Response p) → ApiVersion → Request p → Response p
  negotiate_at c next version req =
      let route = route_of req in
      let seen = record req { version = some version } in
      if not (touches c.registry version route req.method)
      then served version (next seen)
      else answered (do
        seen ← rewrite_request c version route req.method seen
        res ← rewrite_response c version route req.method (next seen)
        ok (served version res))

  unfoldable pub negotiate : ApiVersionContext p → (Request p → Response p) → Request p → Response p
  negotiate c next req = elim (resolve c req.headers req.pinned) [
    | err rejection ↦ into_response rejection
    | ok version ↦ negotiate_at c next version req
  ]
