-- ===== src/Webhooks/Timestamped.antt =====
-- crates/webhooks/src/lib.rs: what a verified request shows, and that a signed one is verified.
use kit.Prelude.{
  ℕ, ◌≤◌, Bool, true, false, ◌||◌, none, some, List, ◌∷◌, ◌++◌, ◌≡◌, inl, inr, refl, sym, ap, ◌∙◌,
  arith, ltb, any, any-append, length, Bool-cases, Option-cases, ok, err, Result-cases, ok_or-eq-ok,
}
use kit.Prelude.Int.{ℤ}
use kit.Prelude.Text.{bytes_eq, bytes_eq_refl, bytes_eq→eq}
use kit.Prelude.Text.Split.{trim_by-none, strip_prefix, strip_prefix-append}
use kit.Prelude.Strings.{is_whitespace}
use kit.Webhooks.{
  malformed_header, signature, Crates, trim, sha256_prefix, strip_all, parse_i64, abs_diff,
  unsigned_abs, verify_hex, verify_github, sign_github, timestamped_input, sign_timestamped,
  verified_bytes, verify_timestamped,
}
use kit.Webhooks.Digits.{
  not_hex, IsHex, digits_no_space, trim_digits, strip_all_once, space_dropped, spaced_trim,
}

module _ (c : Crates) (hex : IsHex c) where
  -- A signature that is verified stands behind one prefix.
  abbrev Signed : List ℕ → List ℕ → List ℕ → Type 0
  Signed secret body header =
      (rest : List ℕ) × (strip_prefix sha256_prefix (trim header) ≡ some rest)
      × (c.decode (trim rest) ≡ some (c.compute secret body))

  verify_github-Signed :
      (secret body header : List ℕ)
      → verify_github c secret body header ≡ ok tt
      → Signed secret body header
  unfolding verify_github verify_hex
  verify_github-Signed secret body header h =
      elim (Option-cases (strip_prefix sha256_prefix (trim header))) [
        | inl bad ↦ absurd (ground (arith, h, bad))
        | inr (rest, good) ↦ elim (Option-cases (c.decode (trim rest))) [
          | inl bad ↦ absurd (ground (arith, h, good, bad))
          | inr (provided, read) ↦ elim (Bool-cases (bytes_eq (c.compute secret body) provided)) [
            | inr f ↦ absurd (ground (arith, h, good, read, f))
            | inl t ↦
                (rest, good, read ∙ ap some (sym (bytes_eq→eq (c.compute secret body) provided t)))
          ]
        ]
      ]

  Signed-verify_github :
      (secret body header : List ℕ)
      → Signed secret body header
      → verify_github c secret body header ≡ ok tt
  unfolding verify_github verify_hex
  Signed-verify_github secret body header (rest, good, read) =
      ground (arith, good, read, bytes_eq_refl (c.compute secret body))

  verified_bytes-Signed :
      (secret body header bytes : List ℕ)
      → Signed secret body header
      → verified_bytes c header ≡ ok bytes
      → bytes ≡ c.compute secret body
  unfolding verified_bytes
  verified_bytes-Signed secret body header bytes (rest, good, read) h =
      let once = strip_all_once (trim header) rest good (hex.digits (trim rest) _ read) in
      let found : c.decode rest ≡ some bytes =
        ap c.decode (sym once)
        ∙ ok_or-eq-ok (c.decode (strip_all (length (trim header)) (trim header)))
            (signature malformed_header) h in
      let whole = trim_digits rest (hex.digits rest bytes found) in
      some_inj (sym found ∙ ap c.decode (sym whole) ∙ read)
    where
      some_inj : {a b : List ℕ} → some a ≡ some b → a ≡ b
      some_inj e = cc

  -- A space is no digit.
  space_refused : (digits : List ℕ) → c.decode (b' ' ∷ digits) ≡ none
  unfolding any
  space_refused digits = elim (Option-cases (c.decode (b' ' ∷ digits))) [
    | inl h ↦ h
    | inr (bytes, h) ↦ let clash : true ≡ false = hex.digits (b' ' ∷ digits) bytes h in absurd (cc)
  ]

  -- A timestamped request that is verified has a timestamp that lies within the skew of now, and the
  -- bytes that are answered are the HMAC, under the secret, of that timestamp, a dot and the body.
  -- The crate hex is assumed to decode nothing but digits.
  pub verify_timestamped_sound :
      (secret body timestamp_header signature_header bytes : List ℕ) (now max_skew_secs : ℤ)
      → verify_timestamped c secret body timestamp_header signature_header now max_skew_secs
        ≡ ok bytes
      → (timestamp : ℤ) × (parse_i64 (trim timestamp_header) ≡ some timestamp)
        × (abs_diff now timestamp ≤ unsigned_abs max_skew_secs)
        × (bytes ≡ c.compute secret (timestamped_input c timestamp body))
  unfolding verify_timestamped
  verify_timestamped_sound secret body timestamp_header signature_header bytes now max_skew_secs h =
      elim (Option-cases (parse_i64 (trim timestamp_header))) [
        | inl bad ↦ absurd (ground (arith, h, bad))
        | inr (timestamp, good) ↦
            elim (Bool-cases (ltb (unsigned_abs max_skew_secs) (abs_diff now timestamp))) [
              | inl late ↦ absurd (ground (arith, h, good, late))
              | inr near ↦
                  elim (Result-cases (
                    verify_github c secret (timestamped_input c timestamp body) signature_header)) [
                      | inl (e, refused) ↦ absurd (ground (arith, h, good, near, refused))
                      | inr (u, verified) ↦ (
                        timestamp,
                        good,
                        ground (arith, near),
                        verified_bytes-Signed secret (timestamped_input c timestamp body)
                            signature_header bytes
                            (verify_github-Signed secret (timestamped_input c timestamp body)
                              signature_header verified)
                            (ground (arith, h, good, near, verified)),
                      )
                    ]
            ]
      ]

  prefix_plain : any is_whitespace sha256_prefix ≡ false
  unfolding any is_whitespace
  prefix_plain = refl

  or_false : (a b : Bool) → a ≡ false → b ≡ false → (a || b) ≡ false
  or_false a b p q = ground arith

  encoded_digits : (bytes : List ℕ) → any not_hex (c.encode bytes) ≡ false
  encoded_digits bytes = hex.digits (c.encode bytes) bytes (hex.undone bytes)

  signed_trim :
      (bytes : List ℕ) → trim (sha256_prefix ++ c.encode bytes) ≡ sha256_prefix ++ c.encode bytes
  signed_trim bytes = trim_by-none is_whitespace (sha256_prefix ++ c.encode bytes) (
      any-append is_whitespace sha256_prefix (c.encode bytes)
      ∙ or_false (any is_whitespace sha256_prefix) (any is_whitespace (c.encode bytes)) prefix_plain
          (digits_no_space (c.encode bytes) (encoded_digits bytes)))

  -- A body that is signed with a timestamp is verified with the HMAC that was made, by any header that
  -- reads as that timestamp and at any moment within the skew of it.
  pub verify_timestamped-sign_timestamped :
      (secret body timestamp_header : List ℕ) (timestamp now max_skew_secs : ℤ)
      → parse_i64 (trim timestamp_header) ≡ some timestamp
      → abs_diff now timestamp ≤ unsigned_abs max_skew_secs
      → verify_timestamped c secret body timestamp_header
          (sign_timestamped c secret timestamp body)
          now
          max_skew_secs
        ≡ ok (c.compute secret (timestamped_input c timestamp body))
  unfolding verify_timestamped verified_bytes sign_timestamped sign_github
  verify_timestamped-sign_timestamped secret body timestamp_header timestamp now max_skew_secs read
        near =
      let bytes = c.compute secret (timestamped_input c timestamp body) in
      let header = sha256_prefix ++ c.encode bytes in
      let whole : trim header ≡ header = signed_trim bytes in
      let stripped : strip_prefix sha256_prefix (trim header) ≡ some (c.encode bytes) =
        ap (strip_prefix sha256_prefix) whole
        ∙ strip_prefix-append sha256_prefix (c.encode bytes) in
      let inner : trim (c.encode bytes) ≡ c.encode bytes =
        trim_digits (c.encode bytes) (encoded_digits bytes) in
      let opened : c.decode (trim (c.encode bytes)) ≡ some bytes =
        ap c.decode inner ∙ hex.undone bytes in
      let verified : verify_github c secret (timestamped_input c timestamp body) header ≡ ok tt =
        Signed-verify_github secret (timestamped_input c timestamp body) header
          (c.encode bytes, stripped, opened) in
      let once : strip_all (length (trim header)) (trim header) ≡ c.encode bytes =
        strip_all_once (trim header) (c.encode bytes) stripped
          (ap (any not_hex) inner ∙ encoded_digits bytes) in
      let decoded : c.decode (strip_all (length (trim header)) (trim header)) ≡ some bytes =
        ap c.decode once ∙ hex.undone bytes in
      let fresh : ltb (unsigned_abs max_skew_secs) (abs_diff now timestamp) ≡ false =
        ground (arith, near) in
      accepted header bytes read fresh verified decoded
    where
      accepted :
          (h bytes : List ℕ)
          → parse_i64 (trim timestamp_header) ≡ some timestamp
          → ltb (unsigned_abs max_skew_secs) (abs_diff now timestamp) ≡ false
          → verify_github c secret (timestamped_input c timestamp body) h ≡ ok tt
          → c.decode (strip_all (length (trim h)) (trim h)) ≡ some bytes
          → verify_timestamped c secret body timestamp_header h now max_skew_secs ≡ ok bytes
      accepted h bytes read fresh verified decoded = ground (arith, read, fresh, verified, decoded)

  -- A signature that is written with a space behind the prefix is verified by `verify_github`, but the
  -- timestamped check, which verifies it too, then answers that the header is malformed.
  pub spaced_malformed :
      (secret body timestamp_header digits : List ℕ) (timestamp now max_skew_secs : ℤ) (digit : ℕ)
      → parse_i64 (trim timestamp_header) ≡ some timestamp
      → abs_diff now timestamp ≤ unsigned_abs max_skew_secs
      → c.encode (c.compute secret (timestamped_input c timestamp body)) ≡ digit ∷ digits
      → (verify_github c secret
            (timestamped_input c timestamp body)
            (sha256_prefix ++ b' ' ∷ digit ∷ digits)
          ≡ ok tt)
        × (verify_timestamped c secret body timestamp_header
              (sha256_prefix ++ b' ' ∷ digit ∷ digits)
              now
              max_skew_secs
            ≡ err (signature malformed_header))
  unfolding verify_timestamped verified_bytes
  spaced_malformed secret body timestamp_header digits timestamp now max_skew_secs digit read near
        written =
      let bytes = c.compute secret (timestamped_input c timestamp body) in
      let header = sha256_prefix ++ b' ' ∷ digit ∷ digits in
      let hexed : any not_hex (digit ∷ digits) ≡ false =
        ap (any not_hex) (sym written) ∙ encoded_digits bytes in
      let whole : trim header ≡ header =
        spaced_trim digit digits (digits_no_space (digit ∷ digits) hexed) in
      let stripped : strip_prefix sha256_prefix (trim header) ≡ some (b' ' ∷ digit ∷ digits) =
        ap (strip_prefix sha256_prefix) whole
        ∙ strip_prefix-append sha256_prefix (b' ' ∷ digit ∷ digits) in
      let inner : trim (b' ' ∷ digit ∷ digits) ≡ digit ∷ digits =
        space_dropped (digit ∷ digits) ∙ trim_digits (digit ∷ digits) hexed in
      let opened : c.decode (trim (b' ' ∷ digit ∷ digits)) ≡ some bytes =
        ap c.decode (inner ∙ sym written) ∙ hex.undone bytes in
      let verified : verify_github c secret (timestamped_input c timestamp body) header ≡ ok tt =
        Signed-verify_github secret (timestamped_input c timestamp body) header
          (b' ' ∷ digit ∷ digits, stripped, opened) in
      let once : strip_all (length (trim header)) (trim header) ≡ b' ' ∷ digit ∷ digits =
        strip_all_once (trim header) (b' ' ∷ digit ∷ digits) stripped
          (ap (any not_hex) inner ∙ hexed) in
      let undecoded : c.decode (strip_all (length (trim header)) (trim header)) ≡ none =
        ap c.decode once ∙ space_refused (digit ∷ digits) in
      let fresh : ltb (unsigned_abs max_skew_secs) (abs_diff now timestamp) ≡ false =
        ground (arith, near) in
      (verified, refused header read fresh verified undecoded)
    where
      refused :
          (h : List ℕ)
          → parse_i64 (trim timestamp_header) ≡ some timestamp
          → ltb (unsigned_abs max_skew_secs) (abs_diff now timestamp) ≡ false
          → verify_github c secret (timestamped_input c timestamp body) h ≡ ok tt
          → c.decode (strip_all (length (trim h)) (trim h)) ≡ none
          → verify_timestamped c secret body timestamp_header h now max_skew_secs
            ≡ err (signature malformed_header)
      refused h read fresh verified undecoded = ground (arith, read, fresh, verified, undecoded)
