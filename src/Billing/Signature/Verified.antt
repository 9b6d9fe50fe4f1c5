-- ===== src/Billing/Signature/Verified.antt =====
-- crates/billing/src/webhooks.rs: what a verified header shows, and which parts of it do not matter.
use kit.Prelude.{
  ℕ, ◌≤◌, true, false, Option, some, List, [], ◌∷◌, ◌++◌, ◌≡◌, inl, inr, refl, sym, ap, ◌∙◌, arith,
  any, ltb, Bool-cases, Result, ok, err, ◌>>=◌, >>=-eq-ok, ok_or, ok_or-eq-ok,
}
use kit.Prelude.Int.{ℤ}
use kit.Prelude.Text.{bytes_eq}
use kit.Prelude.Text.Split.{split_once}
use kit.Webhooks.{Crates, trim, abs_diff}
use kit.Billing.Signature.{
  SignatureError, ParsedHeader, State, read_pair, read_pairs, parse_signature_header,
  expected_signature, tolerance, verify_parsed, verify_signature, verify_optional_signature,
  missing_header,
}

module _ (c : Crates) where
  parsed_ok :
      (payload secret : List ℕ) (now tolerance_secs timestamp : ℤ) (p : ParsedHeader)
      → verify_parsed c payload secret now tolerance_secs p ≡ ok timestamp
      → (p.timestamp ≡ timestamp)
        × (abs_diff now timestamp ≤ tolerance c tolerance_secs)
        × (any
              (λ candidate. bytes_eq candidate (expected_signature c secret timestamp payload))
              p.v1_signatures
            ≡ true)
  unfolding verify_parsed
  parsed_ok payload secret now tolerance_secs timestamp p h =
      elim (Bool-cases (ltb (tolerance c tolerance_secs) (abs_diff now p.timestamp))) [
        | inl late ↦ absurd (ground (arith, h, late))
        | inr near ↦
            elim (Bool-cases (
              any
                (λ candidate. bytes_eq candidate (expected_signature c secret p.timestamp payload))
                p.v1_signatures)) [
                  | inr f ↦ absurd (ground (arith, h, near, f))
                  | inl found ↦
                      let same : p.timestamp ≡ timestamp = ground (arith, h, near, found) in
                      (
                        same,
                        ground (arith, near, same),
                        ap
                              (λ t.
                                any
                                  (λ candidate.
                                    bytes_eq candidate (expected_signature c secret t payload))
                                  p.v1_signatures)
                              (sym same)
                            ∙ found,
                      )
                ]
      ]

  -- A payload that is verified came with a header that can be read, of which one signature is the HMAC,
  -- under the secret, of the timestamp that is answered, a dot and the payload, and that timestamp lies
  -- within the tolerance of now; a negative tolerance counts as none.
  pub verify_signature_sound :
      (payload secret : List ℕ) (header : Option (List ℕ)) (now tolerance_secs timestamp : ℤ)
      → verify_optional_signature c payload header secret now tolerance_secs ≡ ok timestamp
      → (text : List ℕ) × (p : ParsedHeader) × (header ≡ some text)
        × (parse_signature_header c text ≡ ok p)
        × ((p.timestamp ≡ timestamp)
            × (abs_diff now timestamp ≤ tolerance c tolerance_secs)
            × (any
                  (λ candidate. bytes_eq candidate (expected_signature c secret timestamp payload))
                  p.v1_signatures
                ≡ true))
  unfolding verify_optional_signature verify_signature
  verify_signature_sound payload secret header now tolerance_secs timestamp h =
      let (text, there, rest) = >>=-eq-ok (ok_or header missing_header) _ h in
      let (p, read, verified) =
        >>=-eq-ok (parse_signature_header c text)
          (λ p. verify_parsed c payload secret now tolerance_secs p) rest in
      (
        text,
        p,
        ok_or-eq-ok header missing_header there,
        read,
        parsed_ok payload secret now tolerance_secs timestamp p verified,
      )

  -- A pair of another scheme.
  pub record IsOther (pair key value : List ℕ) : Type 0 where
    pub cut : split_once b'=' pair ≡ some (key, value)
    pub no_time : bytes_eq (trim key) (b't' ∷ []) ≡ false
    pub no_v1 : bytes_eq (trim key) (b'v' ∷ b'1' ∷ []) ≡ false

  other_ignored :
      (pair key value : List ℕ) (state : State)
      → IsOther pair key value
      → read_pair c pair state ≡ ok state
  unfolding read_pair
  other_ignored pair key value state o = ground (arith, o.cut, o.no_time, o.no_v1)

  -- Pairs of other schemes, such as `v0`, are ignored wherever they stand: the header is read the same
  -- without them, errors included.
  pub read_pairs-IsOther :
      (before after : List (List ℕ)) (pair key value : List ℕ) (state : State)
      → IsOther pair key value
      → read_pairs c (before ++ pair ∷ after) state ≡ read_pairs c (before ++ after) state
  unfolding read_pairs
  read_pairs-IsOther [] after pair key value state o =
      ap (λ r. r >>= λ s. read_pairs c after s) (other_ignored pair key value state o)
  read_pairs-IsOther (first ∷ before) after pair key value state o =
      by_first (λ s. read_pairs-IsOther before after pair key value s o) (read_pair c first state)
    where
      by_first :
          ((s : State) → read_pairs c (before ++ pair ∷ after) s ≡ read_pairs c (before ++ after) s)
          → (r : Result SignatureError State)
          → (r >>= λ s. read_pairs c (before ++ pair ∷ after) s)
            ≡ (r >>= λ s. read_pairs c (before ++ after) s)
      by_first later (err e) = refl
      by_first later (ok s) = later s
