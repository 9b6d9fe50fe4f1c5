-- ===== src/ApiVersion/Policy.antt =====
-- crates/api-version/src/policy.rs: the context, and which contract a request speaks.
pub mod Resolve
use kit.Prelude.{
  ℕ, ◌*◌, Bool, true, false, not, Option, none, some, String, List, [], ◌∷◌, ◌++◌, if◌then◌else◌,
  Result, ok, err, ok_or, ◌>>=◌,
}
use kit.Prelude.Sort.{codes}
use kit.ApiVersion.Version.{ApiVersion, version_lt, version_le, from_str, display}
use kit.ApiVersion.Transform
use kit.ApiVersion.Transform.{TransformRegistry}
use kit.ApiVersion.Platform.{Platform}

pub data InvalidHeaderName : Type 0 where
  not_a_header_name sunset_after_current : InvalidHeaderName

pub data VersionRejection : Type 0 where
  malformed : List ℕ → VersionRejection
  from_the_future : ApiVersion → ApiVersion → VersionRejection
  sunset : ApiVersion → ApiVersion → VersionRejection
  not_transformable : VersionRejection

-- The status, the code and the message of a rejection's answer.
pub record Answer : Type 0 where
  pub status : ℕ
  pub code : String
  pub message : List ℕ

unfoldable pub answer : VersionRejection → Answer
answer (malformed raw) = record {
  status = 400;
  code = "invalid_api_version";
  message =
      codes "`" ++ (raw ++ codes "` is not an API version; expected a date of the form YYYY-MM-DD");
}
answer (from_the_future requested current) = record {
  status = 400;
  code = "unknown_api_version";
  message =
      codes "API version "
      ++ (display requested
          ++ (codes " is newer than " ++ (display current ++ codes ", the latest served here")));
}
answer (sunset requested oldest_supported) = record {
  status = 410;
  code = "sunset_api_version";
  message =
      codes "API version "
      ++ (display requested
          ++ (codes " is no longer served; the oldest still supported is "
              ++ display oldest_supported));
}
answer not_transformable = record {
  status = 500;
  code = "api_version_not_applicable";
  message = codes "the response could not be rendered in the requested API version";
}

abbrev pub default_max_body_bytes : ℕ
default_max_body_bytes = 4 * 1024 * 1024

pub record ApiVersionContext (p : Platform) : Type 0 where
  pub header : p.HeaderName
  pub current : ApiVersion
  pub oldest_supported : ApiVersion
  pub default : ApiVersion
  pub max_body_bytes : ℕ
  pub registry : TransformRegistry p.Value p.Method

module _ {p : Platform} where
  unfoldable pub new :
      List ℕ → ApiVersion → ApiVersion → Result InvalidHeaderName (ApiVersionContext p)
  new header current oldest_supported =
      if version_lt current oldest_supported
      then err sunset_after_current
      else elim (p.header_name header) [
        | none ↦ err not_a_header_name
        | some name ↦ ok (record {
          header = name;
          current = current;
          oldest_supported = oldest_supported;
          default = oldest_supported;
          max_body_bytes = default_max_body_bytes;
          registry = Transform.new;
        })
      ]

  unfoldable pub with_registry :
      ApiVersionContext p → TransformRegistry p.Value p.Method → ApiVersionContext p
  with_registry c registry = record c { registry = registry }

  -- A release build: the `debug_assert!` before it is not run.
  unfoldable pub with_default : ApiVersionContext p → ApiVersion → ApiVersionContext p
  with_default c default = record c {
    default = if version_le default c.current then default else c.current;
  }

  unfoldable pub with_max_body_bytes : ApiVersionContext p → ℕ → ApiVersionContext p
  with_max_body_bytes c max = record c { max_body_bytes = max }

  -- What follows once the header's text is read.
  unfoldable pub resolve_text : ApiVersionContext p → List ℕ → Result VersionRejection ApiVersion
  resolve_text c raw = elim (from_str raw) [
    | err e ↦ err (malformed raw)
    | ok version ↦
        if version_lt c.current version
        then err (from_the_future version c.current)
        else if version_lt version c.oldest_supported
        then err (sunset version c.oldest_supported)
        else ok version
  ]

  unfoldable pub resolve :
      ApiVersionContext p → p.HeaderMap → Option ApiVersion → Result VersionRejection ApiVersion
  resolve c headers pinned = elim (p.get headers c.header) [
    | none ↦ ok (elim pinned [ none ↦ c.default | some v ↦ v ])
    | some raw ↦ elim (p.to_str raw) [ none ↦ err (malformed []) | some text ↦ resolve_text c text ]
  ]

-- The header that names the served version.
unfoldable pub response_header : (p : Platform) → ApiVersion → p.HeaderValue
response_header p version = elim (p.header_value (display version)) [
  | none ↦ p.static_value (codes "unknown")
  | some v ↦ v
]
