-- ===== src/License/Verified.antt =====
-- crates/license/src/lib.rs: what a verified license has passed, and that a signed one is verified.
use kit.Prelude.{ℕ, false, some, List, ◌≡◌, inl, inr, refl, ap, ◌∙◌, arith, ok, Option-cases}
use kit.Prelude.Int.{ℤ, ltb_ℤ}
use kit.Prelude.Tokens.{Jwt, IsPair, eddsa}
use kit.License.{
  Claims, Chrono, License, registered, validation_for, from_claims, to_claims, verify, sign,
}

module _ (ch : Chrono) (j : Jwt Claims) where
  -- Every moment that is read from a second lies in that second.
  abbrev pub ReadsSeconds : Type 0
  ReadsSeconds = (t : ℤ) (d : ch.DateTime) → ch.from_timestamp t ≡ some d → ch.timestamp d ≡ t

  -- A license that is signed is verified under the key of the pair, for its own product and from the
  -- second of its issue to the second of its end, to the same license with both moments cut to whole
  -- seconds, if these are moments that can be read.
  pub verify-sign :
      (signing : j.EncodingKey) (key : j.DecodingKey) (now : ℤ) (token : List ℕ) (spec : License ch)
      (issued_at expires_at : ch.DateTime)
      → IsPair registered j signing key
      → ch.from_timestamp (ch.timestamp spec.issued_at) ≡ some issued_at
      → ch.from_timestamp (ch.timestamp spec.expires_at) ≡ some expires_at
      → ltb_ℤ now (ch.timestamp spec.issued_at) ≡ false
      → ltb_ℤ (ch.timestamp spec.expires_at) now ≡ false
      → sign ch j signing spec ≡ ok token
      → verify ch j key now token spec.product
        ≡ ok (record spec { issued_at = issued_at; expires_at = expires_at })
  unfolding verify sign validation_for to_claims from_claims
  verify-sign signing key now token spec issued_at expires_at pair i e begun live h =
      elim (Option-cases (j.encode eddsa (to_claims ch spec) signing)) [
        | inl failed ↦ absurd (ground (arith, h, failed))
        | inr (t, made) ↦
            let same : t ≡ token = ground (arith, h, made) in
            let decoded : j.decode now token key (validation_for spec.product)
                ≡ ok (to_claims ch spec) =
              pair now token (validation_for spec.product) (to_claims ch spec) (made ∙ ap some same)
                (record {
                  present = (λ h. cc, (λ h. cc, (λ h. cc, (λ h. cc, tt))));
                  issuer = refl;
                  audience = refl;
                  unexpired = λ h. live;
                  mature = λ h. begun;
                }) in
            ground (arith, decoded, i, e)
      ]
