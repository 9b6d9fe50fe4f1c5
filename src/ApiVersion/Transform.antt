-- ===== src/ApiVersion/Transform.antt =====
-- crates/api-version/src/transform.rs: the registry of transforms and its two walks. `Value`
-- (serde_json) and `Method` (http) are parameters; a product's `impl Transform` is a record.
pub mod Registry
pub mod Walk
use kit.Prelude.{
  Bool, true, false, ◌&&◌, Option, none, some, String, List, [], ◌∷◌, ◌++◌, ℕ, length, map, reverse,
  any, if◌then◌else◌,
}
use kit.Prelude.Sort.{sort_by}
use kit.ApiVersion.Version.{ApiVersion, version_lt, version_le}

module _ (Value Method : Type 0) where
  pub record Transform : Type 0 where
    pub version : ApiVersion
    pub applies_to : String → Method → Bool
    pub downgrade_response : Value → Value
    pub upgrade_request : Value → Value

  pub record TransformRegistry : Type 0 where
    pub transforms : List Transform

module _ {Value Method : Type 0} where
  abbrev pub new : TransformRegistry Value Method
  new = record { transforms = [] }

  abbrev pub by_version : Transform Value Method → Transform Value Method → Bool
  by_version a b = version_le a.version b.version

  -- `push`, then the stable `sort_by_key`.
  unfoldable pub with :
      TransformRegistry Value Method → Transform Value Method → TransformRegistry Value Method
  with r t = record { transforms = sort_by by_version (r.transforms ++ t ∷ []) }

  unfoldable pub len : TransformRegistry Value Method → ℕ
  len r = length r.transforms

  unfoldable pub oldest_change : TransformRegistry Value Method → Option ApiVersion
  oldest_change r = elim r.transforms [ [] ↦ none | t ∷ _ ↦ some t.version ]

  -- The guard of both loops and of `touches`.
  abbrev pub is_due : ApiVersion → String → Method → Transform Value Method → Bool
  is_due pinned route method t = version_lt pinned t.version && t.applies_to route method

  -- The `for` loop of `downgrade_response`, over the transforms in the order of the loop.
  unfoldable pub downgrade_loop :
      ApiVersion → String → Method → List (Transform Value Method) → Value → Value
  downgrade_loop pinned route method [] body = body
  downgrade_loop pinned route method (t ∷ ts) body =
      downgrade_loop pinned route method ts
        (if is_due pinned route method t then t.downgrade_response body else body)

  unfoldable pub downgrade_response :
      TransformRegistry Value Method → ApiVersion → String → Method → Value → Value
  downgrade_response r pinned route method body =
      downgrade_loop pinned route method (reverse r.transforms) body

  unfoldable pub upgrade_loop :
      ApiVersion → String → Method → List (Transform Value Method) → Value → Value
  upgrade_loop pinned route method [] body = body
  upgrade_loop pinned route method (t ∷ ts) body =
      upgrade_loop pinned route method ts
        (if is_due pinned route method t then t.upgrade_request body else body)

  unfoldable pub upgrade_request :
      TransformRegistry Value Method → ApiVersion → String → Method → Value → Value
  upgrade_request r pinned route method body = upgrade_loop pinned route method r.transforms body

  unfoldable pub touches : TransformRegistry Value Method → ApiVersion → String → Method → Bool
  touches r pinned route method = any (is_due pinned route method) r.transforms
