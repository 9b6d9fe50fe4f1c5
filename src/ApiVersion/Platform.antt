-- ===== src/ApiVersion/Platform.antt =====
-- What crates/api-version uses of http, axum and serde_json. Header texts and bodies are bytes.
use kit.Prelude.{ℕ, ◌≡◌, Option, none, some, String, List, length, leb, if◌then◌else◌}

-- Types and operations of the libraries; nothing is assumed of them here.
pub record Platform : Type 1 where
  pub HeaderName : Type 0
  pub HeaderValue : Type 0
  pub HeaderMap : Type 0
  pub Method : Type 0
  pub Body : Type 0
  pub Value : Type 0
  -- `HeaderName::from_bytes`, `HeaderValue::from_str` and `from_static`, `to_str`
  pub header_name : List ℕ → Option HeaderName
  pub header_value : List ℕ → Option HeaderValue
  pub static_value : List ℕ → HeaderValue
  pub to_str : HeaderValue → Option (List ℕ)
  pub content_type : HeaderName
  pub content_length : HeaderName
  pub served_header : HeaderName
  -- `HeaderMap::get`, `insert` and `remove`
  pub get : HeaderMap → HeaderName → Option HeaderValue
  pub set : HeaderMap → HeaderName → HeaderValue → HeaderMap
  pub remove : HeaderMap → HeaderName → HeaderMap
  -- `to_bytes(body, limit)`, `Body::from`
  pub to_bytes : Body → ℕ → Option (List ℕ)
  pub body_from : List ℕ → Body
  -- `serde_json::from_slice`, `to_vec`, and `Json(json!({ "error": code, "message": message }))`
  pub from_slice : List ℕ → Option Value
  pub to_vec : Value → Option (List ℕ)
  pub error_headers : HeaderMap
  pub error_body : String → List ℕ → Body

-- What the libraries document, as far as the theorems rest on it.
pub record IsPlatform (p : Platform) : Type 0 where
  pub get-set_self :
      (m : p.HeaderMap) (k : p.HeaderName) (v : p.HeaderValue) → p.get (p.set m k v) k ≡ some v
  pub to_bytes-body_from :
      (b : List ℕ) (limit : ℕ)
      → p.to_bytes (p.body_from b) limit ≡ (if leb (length b) limit then some b else none)
  pub from_slice-to_vec : (v : p.Value) (b : List ℕ) → p.to_vec v ≡ some b → p.from_slice b ≡ some v
  -- serializing a `Value`, whose keys are strings, does not fail
  pub to_vec_total : (v : p.Value) → (b : List ℕ) × (p.to_vec v ≡ some b)
