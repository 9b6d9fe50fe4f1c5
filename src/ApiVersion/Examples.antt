-- ===== src/ApiVersion/Examples.antt =====
-- crates/api-version: tests, and the theorems at concrete inputs, over a small platform.
use mathlib.Core.List.{tail}
use kit.Prelude.{
  ℕ, ◌<◌, true, Option, none, some, List, [], ◌∷◌, ◌≡◌, ◌↔◌, refl, sym, arith, if◌then◌else◌, ok,
  ◌==◌, leb, length, str_eq,
}
use kit.Prelude.Sort.{codes}
use kit.ApiVersion.Version.{
  ApiVersion, days_in_month, from_ymd, version_le, from_str, display, parse_digits,
}
use kit.ApiVersion.Version.Calendar.{IsDate}
use kit.ApiVersion.Version.Wire.{from_str_iff}
use kit.ApiVersion.Transform.{Transform, TransformRegistry, downgrade_response, upgrade_request}
use kit.ApiVersion.Platform.{Platform, IsPlatform}
use kit.ApiVersion.Policy.{ApiVersionContext, resolve}
use kit.ApiVersion.Policy.Resolve.{resolve_iff}
use kit.Prelude.Text.{starts_with, to_ascii_lowercase, trim, trim_start}
use kit.ApiVersion.Layer.{Request, Response, is_json, rewrite_request}
use kit.ApiVersion.Layer.Shape.{Carries, seen_at, request_shape}

abbrev august : ApiVersion
august = record { year = 2026; month = 8; day = 3 }

abbrev september : ApiVersion
september = record { year = 2026; month = 9; day = 1 }

abbrev october : ApiVersion
october = record { year = 2026; month = 10; day = 1 }

from_str_iff_example :
    (from_str (codes "2026-08-03") ≡ ok august)
    ↔ (IsDate august × (august.year < 10000) × (display august ≡ codes "2026-08-03"))
from_str_iff_example = from_str_iff (codes "2026-08-03") august

from_str_test : from_str (codes "2026-08-03") ≡ ok august
unfolding codes from_str from_ymd parse_digits days_in_month
from_str_test = refl

-- A transform that marks a body on the way down and takes the mark off on the way up.
abbrev marker : ApiVersion → ℕ → Transform (List ℕ) ℕ
marker at tag = record {
  version = at;
  applies_to = λ route method. str_eq route "/agents";
  downgrade_response = λ body. tag ∷ body;
  upgrade_request = tail;
}

abbrev chain : TransformRegistry (List ℕ) ℕ
chain = record {
  transforms = marker august b'a' ∷ marker september b'b' ∷ marker october b'c' ∷ [];
}

-- A platform whose values are their own bytes, and whose header maps are functions.
abbrev small : Platform
small = record {
  HeaderName = ℕ;
  HeaderValue = List ℕ;
  HeaderMap = ℕ → Option (List ℕ);
  Method = ℕ;
  Body = List ℕ;
  Value = List ℕ;
  header_name = λ b. if length b == 0 then none else some 9;
  header_value = λ b. some b;
  static_value = λ b. b;
  to_str = λ v. some v;
  content_type = 1;
  content_length = 2;
  served_header = 3;
  get = λ m k. m k;
  set = λ m k v j. if j == k then some v else m j;
  remove = λ m k j. if j == k then none else m j;
  to_bytes = λ b limit. if leb (length b) limit then some b else none;
  body_from = λ b. b;
  from_slice = λ b. some b;
  to_vec = λ v. some v;
  error_headers = λ k. none;
  error_body = λ code message. message;
}

self_test : (k : ℕ) → (k == k) ≡ true
self_test k = ground arith

small-IsPlatform : IsPlatform small
small-IsPlatform = record {
  get-set_self = λ m k v. rw (self_test k);
  to_bytes-body_from = λ b limit. refl;
  from_slice-to_vec = λ v b e. sym e;
  to_vec_total = λ v. (v, refl);
}

abbrev context : ApiVersionContext small
context = record {
  header = 9;
  current = october;
  oldest_supported = august;
  default = august;
  max_body_bytes = 100;
  registry = chain;
}

abbrev json_header : ℕ → Option (List ℕ)
json_header k = if k == 1 then some (codes "application/json") else none

abbrev request : Request small
request = record {
  headers = λ k. if k == 9 then some (codes "2026-09-01") else json_header k;
  pinned = some october;
  matched_path = some "/agents";
  path = "/agents/7";
  method = 0;
  version = none;
  body = b'b' ∷ b'c' ∷ 7 ∷ [];
}

abbrev handler : Request small → Response small
handler r = record { status = 200; headers = json_header; body = 1 ∷ 2 ∷ [] }

abbrev raw_header : List ℕ
raw_header = codes "2026-09-01"

resolve_iff_example : (resolve context request.headers request.pinned ≡ ok september) ↔ (
    IsDate september
    × (september.year < 10000)
    × (display september ≡ raw_header)
    × (version_le september october ≡ true)
    × (version_le august september ≡ true))
resolve_iff_example =
    resolve_iff context request.headers request.pinned {value = raw_header} {raw = raw_header} refl
      refl september

json_test : is_json small request.headers ≡ true
unfolding codes is_json starts_with to_ascii_lowercase trim trim_start
json_test = refl

abbrev seen_shape :
    (seen : Request small) × (rewrite_request context september "/agents" 0
        (seen_at september request)
      ≡ ok seen)
    × Carries small seen.body (upgrade_request chain september "/agents" 0 request.body)
    × (seen.version ≡ some september)
    × (seen.path ≡ "/agents/7")
seen_shape =
    request_shape small-IsPlatform context september "/agents" 0 (seen_at september request)
      request.body json_test
      (record { bytes = request.body; read = refl; filled = omega arith; parsed = refl })
