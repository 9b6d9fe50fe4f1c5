-- ===== src/Cache/Url.antt =====
-- crates/cache/src/lib.rs: the address of the store, which may carry a password: what of it is logged,
-- and how its credentials are encoded. The crate percent-encoding is a parameter. Texts are bytes.
pub mod Credentials
use kit.Prelude.{
  ℕ, Bool, true, false, ◌||◌, Option, none, some, List, [], ◌∷◌, ◌++◌, ◌==◌, drop, if◌then◌else◌,
}
use kit.Prelude.Text.{starts_with}
use kit.Prelude.Text.Split.{has, split_once, rsplit_once, cut}

abbrev pub scheme_end : List ℕ
scheme_end = b':' ∷ b'/' ∷ b'/' ∷ []

abbrev pub redacted : List ℕ
redacted = b'<' ∷ b'r' ∷ b'e' ∷ b'd' ∷ b'a' ∷ b'c' ∷ b't' ∷ b'e' ∷ b'd' ∷ b'>' ∷ []

-- `find("://")`, with the text up to its end and the rest.
unfoldable pub split_scheme : List ℕ → Option (List ℕ × List ℕ)
split_scheme [] = none
split_scheme (c ∷ cs) =
    let rest = elim (split_scheme cs) as (λ r. Option (List ℕ × List ℕ)) [
      | none ↦ none
      | some (a, b) ↦ some (c ∷ a, b)
    ] in
    if starts_with (c ∷ cs) scheme_end then some (scheme_end, drop 3 (c ∷ cs)) else rest

-- The sets `['?', '#']` and `['/', '?', '#']`.
abbrev pub ends_search : ℕ → Bool
ends_search c = (c == b'?') || (c == b'#')

abbrev pub ends_host : ℕ → Bool
ends_host c = (c == b'/') || ((c == b'?') || (c == b'#'))

unfoldable pub host_part : List ℕ → List ℕ
host_part after_userinfo = (cut ends_host after_userinfo).0

unfoldable pub redact_rest : List ℕ → List ℕ → List ℕ
redact_rest scheme rest =
    let (front, back) = cut ends_search rest in
    elim (rsplit_once b'@' front) [
      | some (userinfo, after) ↦ scheme ++ host_part (after ++ back)
      | none ↦ if has b'@' rest then scheme ++ redacted else scheme ++ host_part rest
    ]

unfoldable pub redact_url : List ℕ → List ℕ
redact_url url = elim (split_scheme url) [
  | none ↦ redacted
  | some (scheme, rest) ↦ redact_rest scheme rest
]

-- `encode` is `utf8_percent_encode` under `NON_ALPHANUMERIC`.
module _ (encode : List ℕ → List ℕ) where
  unfoldable pub encode_userinfo : List ℕ → List ℕ
  encode_userinfo userinfo = elim (split_once b':' userinfo) [
    | some (user, pass) ↦ encode user ++ b':' ∷ encode pass
    | none ↦ encode userinfo
  ]

  unfoldable pub percent_encode_userinfo : List ℕ → List ℕ
  percent_encode_userinfo url = elim (split_scheme url) [
    | none ↦ url
    | some (scheme, rest) ↦
        let (front, back) = cut ends_search rest in
        elim (rsplit_once b'@' front) [
          | none ↦ url
          | some (userinfo, after) ↦
              let (host, tail) = cut ends_host (after ++ back) in
              scheme ++ (encode_userinfo userinfo ++ b'@' ∷ (host ++ tail))
        ]
  ]
