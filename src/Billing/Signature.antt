-- ===== src/Billing/Signature.antt =====
-- crates/billing/src/webhooks.rs: the header `Stripe-Signature`. HMAC-SHA256 and hex are a parameter.
pub mod Verified
use kit.Prelude.{
  ℕ, zero, suc, ◌+◌, Bool, true, false, not, Option, none, some, List, [], ◌∷◌, ◌++◌, any, ltb,
  ◌==◌, if◌then◌else◌, Result, ok, err, ◌>>=◌, ok_or,
}
use kit.Prelude.Int.{ℤ, pos, pos_part}
use kit.Prelude.Text.{bytes_eq}
use kit.Prelude.Text.Split.{split_once}
use kit.Webhooks.{Crates, trim, parse_i64, i64_to_string, abs_diff}

pub data SignatureError : Type 0 where
  missing_header malformed_header timestamp_out_of_tolerance no_match : SignatureError

pub record ParsedHeader : Type 0 where
  pub timestamp : ℤ
  pub v1_signatures : List (List ℕ)

abbrev pub default_tolerance_secs : ℤ
default_tolerance_secs = pos 300

-- `split(c)`, with the part that has been read so far.
unfoldable pub parts : ℕ → List ℕ → List ℕ → List (List ℕ)
parts c part [] = part ∷ []
parts c part (d ∷ ds) =
    let cut = part ∷ parts c [] ds in
    let grown = parts c (part ++ d ∷ []) ds in if d == c then cut else grown

-- What one pair does to the timestamp and the signatures so far.
abbrev pub State : Type 0
State = Option ℤ × List (List ℕ)

module _ (c : Crates) where
  unfoldable pub read_pair : List ℕ → State → Result SignatureError State
  read_pair pair (timestamp, v1_signatures) = elim (split_once b'=' pair) [
    | none ↦ err malformed_header
    | some (key, value) ↦
        if bytes_eq (trim key) (b't' ∷ [])
        then elim (parse_i64 (trim value)) [
          | none ↦ err malformed_header
          | some t ↦ ok (some t, v1_signatures)
        ]
        else if bytes_eq (trim key) (b'v' ∷ b'1' ∷ [])
        then elim (c.decode (trim value)) [
          | none ↦ err malformed_header
          | some bytes ↦ ok (timestamp, v1_signatures ++ bytes ∷ [])
        ]
        else ok (timestamp, v1_signatures)
  ]

  unfoldable pub read_pairs : List (List ℕ) → State → Result SignatureError State
  read_pairs [] state = ok state
  read_pairs (pair ∷ pairs) state = read_pair pair state >>= λ state'. read_pairs pairs state'

  -- The checks behind the loop.
  unfoldable pub parsed : State → Result SignatureError ParsedHeader
  parsed (none, v1_signatures) = err malformed_header
  parsed (some timestamp, []) = err malformed_header
  parsed (some timestamp, s ∷ signatures) =
      ok (record { timestamp = timestamp; v1_signatures = s ∷ signatures })

  unfoldable pub parse_signature_header : List ℕ → Result SignatureError ParsedHeader
  parse_signature_header header = read_pairs (parts b',' [] header) (none, []) >>= parsed

  unfoldable pub expected_signature : List ℕ → ℤ → List ℕ → List ℕ
  expected_signature secret timestamp body =
      c.compute secret (i64_to_string timestamp ++ b'.' ∷ body)

  -- `tolerance_secs.max(0)`.
  abbrev pub tolerance : ℤ → ℕ
  tolerance secs = pos_part secs

  unfoldable pub verify_parsed : List ℕ → List ℕ → ℤ → ℤ → ParsedHeader → Result SignatureError ℤ
  verify_parsed payload secret now tolerance_secs p =
      if ltb (tolerance tolerance_secs) (abs_diff now p.timestamp)
      then err timestamp_out_of_tolerance
      else if any (λ candidate. bytes_eq candidate (expected_signature secret p.timestamp payload))
          p.v1_signatures
      then ok p.timestamp
      else err no_match

  unfoldable pub verify_signature : List ℕ → List ℕ → List ℕ → ℤ → ℤ → Result SignatureError ℤ
  verify_signature payload signature_header secret now tolerance_secs =
      parse_signature_header signature_header >>= λ p.
      verify_parsed payload secret now tolerance_secs p

  unfoldable pub verify_optional_signature :
      List ℕ → Option (List ℕ) → List ℕ → ℤ → ℤ → Result SignatureError ℤ
  verify_optional_signature payload signature_header secret now tolerance_secs = do
    header ← ok_or signature_header missing_header
    verify_signature payload header secret now tolerance_secs
