-- ===== src/Webhooks/Examples.antt =====
-- crates/webhooks: tests, and the theorems at concrete requests.
use kit.Prelude.{
  ℕ, zero, suc, ◌+◌, ◌≤◌, false, Option, none, some, List, [], ◌∷◌, ◌++◌, ◌≡◌, refl, arith, any,
  ◌==◌, if◌then◌else◌, length, ok, err, length, replicate, Bool-cases, Option-cases, inl, inr,
}
use kit.Prelude.Int.{ℤ, pos}
use kit.Prelude.Text.{to_string, digits_of}
use kit.Prelude.Text.Split.{trim_by}
use kit.Prelude.Strings.{is_whitespace}
use kit.Webhooks.{
  Crates, trim, sha256_prefix, digits_value, parse_digits, parse_i64, i64_to_string, abs_diff,
  verify_github, timestamped_input, sign_timestamped, verify_timestamped, signature,
  malformed_header,
}
use kit.Webhooks.Digits.{IsHex, not_hex}
use kit.Webhooks.Timestamped.{
  verify_timestamped_sound, verify_timestamped-sign_timestamped, spaced_malformed,
}

-- An encoding of a list of bytes: each byte as so many digits `1`, and a digit `0` behind them.
ones : ℕ → List ℕ → List ℕ
ones n rest = replicate n b'1' ++ b'0' ∷ rest

encode : List ℕ → List ℕ
unfolding ones
encode [] = []
encode (b ∷ bytes) = ones b (encode bytes)

-- With the digits `1` that were counted so far.
decode_from : ℕ → List ℕ → Option (List ℕ)
decode_from n [] = if n == 0 then some [] else none
decode_from n (c ∷ cs) =
    let counted = decode_from (suc n) cs in
    let next = elim (decode_from 0 cs) as (λ r. Option (List ℕ)) [
      | none ↦ none
      | some bytes ↦ some (n ∷ bytes)
    ] in
    if c == b'1' then counted else if c == b'0' then next else none

decode-ones :
    (b n : ℕ) (rest bytes : List ℕ)
    → decode_from 0 rest ≡ some bytes
    → decode_from n (ones b rest) ≡ some ((n + b) ∷ bytes)
unfolding decode_from ones
decode-ones zero n rest bytes h = ground (arith, h)
decode-ones (suc b) n rest bytes h = ground (arith, decode-ones b (suc n) rest bytes h)

decode-encode : (bytes : List ℕ) → decode_from 0 (encode bytes) ≡ some bytes
unfolding encode decode_from
decode-encode [] = refl
decode-encode (b ∷ bytes) =
    ground (arith, decode-ones b 0 (encode bytes) bytes (decode-encode bytes))

decode-digits : (n : ℕ) (s bytes : List ℕ) → decode_from n s ≡ some bytes → any not_hex s ≡ false
unfolding decode_from any
decode-digits n [] bytes h = refl
decode-digits n (c ∷ cs) bytes h = elim (Bool-cases (c == b'1')) [
  | inl one ↦ ground (arith, h, one, decode-digits (suc n) cs bytes)
  | inr f ↦ elim (Bool-cases (c == b'0')) [
    | inr g ↦ absurd (ground (arith, h, f, g))
    | inl null ↦ elim (Option-cases (decode_from 0 cs)) [
      | inl bad ↦ absurd (ground (arith, h, f, null, bad))
      | inr (rest, good) ↦ ground (arith, f, null, good, decode-digits 0 cs rest good)
    ]
  ]
]

abbrev crates : Crates
crates = record {
  compute = λ secret body. length secret ∷ length body ∷ [];
  encode = encode;
  decode = decode_from 0;
}

crates-IsHex : IsHex crates
crates-IsHex = record { undone = decode-encode; digits = decode-digits 0 }

abbrev secret : List ℕ
secret = 9 ∷ []

abbrev body : List ℕ
body = b'h' ∷ b'i' ∷ []

abbrev stamp : List ℕ
stamp = b'1' ∷ b'7' ∷ []

stamp_test : parse_i64 (trim (b' ' ∷ b'1' ∷ b'7' ∷ [])) ≡ some (pos 17)
unfolding parse_i64 parse_digits digits_value trim_by is_whitespace
stamp_test = refl

signed_test :
    verify_timestamped crates secret body
      (b' ' ∷ stamp)
      (sign_timestamped crates secret (pos 17) body)
      (pos 20)
      (pos 5)
    ≡ ok (crates.compute secret (timestamped_input crates (pos 17) body))
signed_test =
    verify_timestamped-sign_timestamped crates crates-IsHex secret body (b' ' ∷ stamp) (pos 17)
      (pos 20) (pos 5) stamp_test (omega arith)

verify_timestamped-sign_timestamped_example :
    verify_timestamped crates secret body
      (b' ' ∷ stamp)
      (sign_timestamped crates secret (pos 17) body)
      (pos 20)
      (pos 5)
    ≡ ok (crates.compute secret (timestamped_input crates (pos 17) body))
verify_timestamped-sign_timestamped_example =
    verify_timestamped-sign_timestamped crates crates-IsHex secret body (b' ' ∷ stamp) (pos 17)
      (pos 20) (pos 5) stamp_test (omega arith)

verify_timestamped_sound_example :
    (timestamp : ℤ) × (parse_i64 (trim (b' ' ∷ stamp)) ≡ some timestamp)
    × (abs_diff (pos 20) timestamp ≤ 5)
    × (crates.compute secret (timestamped_input crates (pos 17) body)
        ≡ crates.compute secret (timestamped_input crates timestamp body))
verify_timestamped_sound_example =
    verify_timestamped_sound crates crates-IsHex secret body (b' ' ∷ stamp)
      (sign_timestamped crates secret (pos 17) body)
      (crates.compute secret (timestamped_input crates (pos 17) body)) (pos 20) (pos 5) signed_test

written_test :
    encode (crates.compute secret (timestamped_input crates (pos 17) body))
    ≡ b'1' ∷ b'0' ∷ b'1' ∷ b'1' ∷ b'1' ∷ b'1' ∷ b'1' ∷ b'0' ∷ []
unfolding encode timestamped_input i64_to_string to_string digits_of
written_test = refl

spaced_malformed_example :
    (verify_github crates secret
        (timestamped_input crates (pos 17) body)
        (sha256_prefix ++ b' ' ∷ b'1' ∷ b'0' ∷ b'1' ∷ b'1' ∷ b'1' ∷ b'1' ∷ b'1' ∷ b'0' ∷ [])
      ≡ ok tt)
    × (verify_timestamped crates secret body
          (b' ' ∷ stamp)
          (sha256_prefix ++ b' ' ∷ b'1' ∷ b'0' ∷ b'1' ∷ b'1' ∷ b'1' ∷ b'1' ∷ b'1' ∷ b'0' ∷ [])
          (pos 20)
          (pos 5)
        ≡ err (signature malformed_header))
spaced_malformed_example =
    spaced_malformed crates crates-IsHex secret body (b' ' ∷ stamp)
      (b'0' ∷ b'1' ∷ b'1' ∷ b'1' ∷ b'1' ∷ b'1' ∷ b'0' ∷ []) (pos 17) (pos 20) (pos 5) b'1'
      stamp_test (omega arith) written_test
