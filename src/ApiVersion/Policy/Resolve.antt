-- ===== src/ApiVersion/Policy/Resolve.antt =====
-- crates/api-version/src/policy.rs: which versions `resolve` gives.
use kit.Prelude.{ℕ, ◌<◌, true, Option, none, some, List, ◌≡◌, ◌↔◌, ◌∙◌, sym, arith, ok}
use kit.ApiVersion.Version.{ApiVersion, version_lt, version_le, from_str, display}
use kit.ApiVersion.Version.Calendar.{IsDate}
use kit.ApiVersion.Version.Wire.{from_str_iff}
use kit.ApiVersion.Transform.{TransformRegistry}
use kit.ApiVersion.Platform.{Platform}
use kit.ApiVersion.Policy.{
  ApiVersionContext, new, with_registry, with_default, with_max_body_bytes, resolve_text, resolve,
}

module _ {p : Platform} where
  resolve_text_iff :
      (c : ApiVersionContext p) (raw : List ℕ) (v : ApiVersion)
      → (resolve_text c raw ≡ ok v) ↔ (
          (from_str raw ≡ ok v)
          × (version_le v c.current ≡ true)
          × (version_le c.oldest_supported v ≡ true))
  unfolding resolve_text
  resolve_text_iff c raw v = (λ h. (ground arith, ground arith, ground arith), λ h. ground arith)

  -- With a header whose text is `raw`, the request speaks `v` exactly when `raw` is the printed form
  -- of the date `v`, a year below 10000, and `v` is within the window from the oldest supported
  -- version to the current one, both included; a pin plays no part.
  pub resolve_iff :
      (c : ApiVersionContext p) (headers : p.HeaderMap) (pinned : Option ApiVersion)
      → {value : p.HeaderValue} {raw : List ℕ} → p.get headers c.header ≡ some value
      → p.to_str value ≡ some raw
      → (v : ApiVersion)
      → (resolve c headers pinned ≡ ok v) ↔ (
          IsDate v
          × (v.year < 10000)
          × (display v ≡ raw)
          × (version_le v c.current ≡ true)
          × (version_le c.oldest_supported v ≡ true))
  unfolding resolve
  resolve_iff c headers pinned {value} {raw} present text v =
      let read : resolve c headers pinned ≡ resolve_text c raw = ground arith in
      let (inside, back) = resolve_text_iff c raw v in
      let (parsed, printed) = from_str_iff raw v in
      (
        λ h.
            let (f, le, ge) = inside (sym read ∙ h) in
            let (date, y, shown) = parsed f in (date, y, shown, le, ge),
        λ (date, y, shown, le, ge). read ∙ back (printed (date, y, shown), le, ge),
      )

  -- The window is not empty, and the default is not past it.
  pub record IsContext (c : ApiVersionContext p) : Type 0 where
    pub window : version_le c.oldest_supported c.current ≡ true
    pub default_max : version_le c.default c.current ≡ true

  new-IsContext :
      (header : List ℕ) (current oldest : ApiVersion) {c : ApiVersionContext p}
      → new header current oldest ≡ ok c
      → IsContext c
  unfolding new
  new-IsContext header current oldest h = ground arith

  with_default-IsContext :
      (c : ApiVersionContext p) (v : ApiVersion) → IsContext c → IsContext (with_default c v)
  unfolding with_default version_lt
  with_default-IsContext c v h = ground arith

  -- The ways to build a context.
  pub data Built : ApiVersionContext p → Type 0 where
    made :
        (header : List ℕ) (current oldest : ApiVersion) {c : ApiVersionContext p}
        → new header current oldest ≡ ok c
        → Built c
    registered :
        {c : ApiVersionContext p} (r : TransformRegistry p.Value p.Method)
        → Built c
        → Built (with_registry c r)
    defaulted : {c : ApiVersionContext p} (v : ApiVersion) → Built c → Built (with_default c v)
    capped : {c : ApiVersionContext p} (max : ℕ) → Built c → Built (with_max_body_bytes c max)

  with_registry-IsContext :
      (c : ApiVersionContext p) (r : TransformRegistry p.Value p.Method)
      → IsContext c
      → IsContext (with_registry c r)
  unfolding with_registry
  with_registry-IsContext c r h = record { window = h.window; default_max = h.default_max }

  with_max_body_bytes-IsContext :
      (c : ApiVersionContext p) (max : ℕ) → IsContext c → IsContext (with_max_body_bytes c max)
  unfolding with_max_body_bytes
  with_max_body_bytes-IsContext c max h = record { window = h.window; default_max = h.default_max }

  Built-IsContext : {c : ApiVersionContext p} → Built c → IsContext c
  Built-IsContext (made header current oldest h) = new-IsContext header current oldest h
  Built-IsContext (registered {c = c} r b) = with_registry-IsContext c r (Built-IsContext b)
  Built-IsContext (defaulted {c = c} v b) = with_default-IsContext c v (Built-IsContext b)
  Built-IsContext (capped {c = c} max b) = with_max_body_bytes-IsContext c max (Built-IsContext b)

  -- However a context was built, a caller without a pin is never given a contract newer than the
  -- current one: neither by its header nor by the default.
  pub resolve-le-current :
      {c : ApiVersionContext p} (headers : p.HeaderMap) (v : ApiVersion)
      → Built c
      → resolve c headers none ≡ ok v
      → version_le v c.current ≡ true
  unfolding resolve resolve_text
  resolve-le-current headers v b h = ground (arith, Built-IsContext b)

  -- The sunset floor does not bind pins: without a header, a caller pinned before the oldest
  -- supported version is served its pin, not refused with 410.
  pub resolve_pin_below_floor :
      (c : ApiVersionContext p) (headers : p.HeaderMap) (pin : ApiVersion)
      → p.get headers c.header ≡ none
      → version_lt pin c.oldest_supported ≡ true
      → (v : ApiVersion) × (resolve c headers (some pin) ≡ ok v)
        × (version_lt v c.oldest_supported ≡ true)
  unfolding resolve
  resolve_pin_below_floor c headers pin absent below = (pin, ground arith, below)
