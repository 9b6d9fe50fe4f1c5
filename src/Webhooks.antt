-- ===== src/Webhooks.antt =====
-- crates/webhooks/src/lib.rs: signed requests and the deliveries that have been processed. HMAC-SHA256
-- and the crate hex are a parameter. Texts are their characters, bodies their bytes.
pub mod Digits
pub mod Timestamped
pub mod Deliveries
mod Examples
use kit.Prelude.{
  ℕ, zero, suc, ◌+◌, ◌-◌, ◌*◌, ◌^◌, Bool, true, false, not, ◌&&◌, Option, none, some, String, List,
  [], ◌∷◌, ◌++◌, ltb, leb, ◌==◌, any, if◌then◌else◌, str_eq, Result, ok, err, ◌>>=◌, ok_or, length,
}
use kit.Prelude.Int.{ℤ, pos, negsuc, pos_part, neg_part}
use kit.Prelude.Text.{bytes_eq, to_string}
use kit.Prelude.Text.Split.{trim_by, strip_prefix}
use kit.Prelude.Strings.{is_whitespace}

pub data SignatureError : Type 0 where
  malformed_header mismatch : SignatureError

pub data TimestampedError : Type 0 where
  malformed_timestamp stale : TimestampedError
  signature : SignatureError → TimestampedError

-- `hmac` on a secret and a text, and `hex`.
pub record Crates : Type 0 where
  pub compute : List ℕ → List ℕ → List ℕ
  pub encode : List ℕ → List ℕ
  pub decode : List ℕ → Option (List ℕ)

abbrev pub trim : List ℕ → List ℕ
trim = trim_by is_whitespace

abbrev pub sha256_prefix : List ℕ
sha256_prefix = b's' ∷ b'h' ∷ b'a' ∷ b'2' ∷ b'5' ∷ b'6' ∷ b'=' ∷ []

-- `trim_start_matches("sha256=")`: the prefix as often as it stands there, which the length bounds.
unfoldable pub strip_all : ℕ → List ℕ → List ℕ
strip_all zero cs = cs
strip_all (suc n) cs = elim (strip_prefix sha256_prefix cs) [
  | none ↦ cs
  | some rest ↦ strip_all n rest
]

-- `i64::from_str`: a sign, then digits, in range.
unfoldable pub digits_value : ℕ → List ℕ → Option ℕ
digits_value acc [] = some acc
digits_value acc (c ∷ cs) =
    let rest = digits_value (10 * acc + (c - b'0')) cs in
    if leb b'0' c && leb c b'9' then rest else none

unfoldable pub parse_digits : List ℕ → Option ℕ
parse_digits [] = none
parse_digits (c ∷ cs) = digits_value 0 (c ∷ cs)

abbrev pub in_range : Bool → Option ℕ → Option ℤ
in_range negative none = none
in_range true (some zero) = some (pos 0)
in_range true (some (suc n)) = if ltb n (2 ^ 63) then some (negsuc n) else none
in_range false (some n) = if ltb n (2 ^ 63) then some (pos n) else none

unfoldable pub parse_i64 : List ℕ → Option ℤ
parse_i64 [] = none
parse_i64 (c ∷ cs) =
    if c == b'-'
    then in_range true (parse_digits cs)
    else if c == b'+'
    then in_range false (parse_digits cs)
    else in_range false (parse_digits (c ∷ cs))

unfoldable pub i64_to_string : ℤ → List ℕ
i64_to_string (pos n) = to_string n
i64_to_string (negsuc n) = b'-' ∷ to_string (suc n)

-- `abs_diff` and `unsigned_abs`.
abbrev pub abs_diff : ℤ → ℤ → ℕ
abs_diff a b =
    let x = pos_part a + neg_part b in let y = pos_part b + neg_part a in (x - y) + (y - x)

abbrev pub unsigned_abs : ℤ → ℕ
unsigned_abs a = pos_part a + neg_part a

module _ (c : Crates) where
  unfoldable pub verify_hex : List ℕ → List ℕ → List ℕ → Result SignatureError (Unit {0})
  verify_hex secret body signature_hex = elim (c.decode (trim signature_hex)) [
    | none ↦ err malformed_header
    | some provided ↦ if bytes_eq (c.compute secret body) provided then ok tt else err mismatch
  ]

  unfoldable pub verify_github : List ℕ → List ℕ → List ℕ → Result SignatureError (Unit {0})
  verify_github secret body header = elim (strip_prefix sha256_prefix (trim header)) [
    | none ↦ err malformed_header
    | some hex_part ↦ verify_hex secret body hex_part
  ]

  unfoldable pub sign_github : List ℕ → List ℕ → List ℕ
  sign_github secret body = sha256_prefix ++ c.encode (c.compute secret body)

  unfoldable pub timestamped_input : ℤ → List ℕ → List ℕ
  timestamped_input timestamp body = i64_to_string timestamp ++ b'.' ∷ body

  unfoldable pub sign_timestamped : List ℕ → ℤ → List ℕ → List ℕ
  sign_timestamped secret timestamp body = sign_github secret (timestamped_input timestamp body)

  -- From the signature on.
  unfoldable pub verified_bytes : List ℕ → Result TimestampedError (List ℕ)
  verified_bytes signature_header =
      let header = trim signature_header in
      ok_or (c.decode (strip_all (length header) header)) (signature malformed_header)

  unfoldable pub verify_timestamped :
      List ℕ → List ℕ → List ℕ → List ℕ → ℤ → ℤ → Result TimestampedError (List ℕ)
  verify_timestamped secret body timestamp_header signature_header now max_skew_secs =
      elim (parse_i64 (trim timestamp_header)) [
        | none ↦ err malformed_timestamp
        | some timestamp ↦
            if ltb (unsigned_abs max_skew_secs) (abs_diff now timestamp)
            then err stale
            else elim (verify_github secret (timestamped_input timestamp body) signature_header) [
              | err e ↦ err (signature e)
              | ok u ↦ verified_bytes signature_header
            ]
      ]
