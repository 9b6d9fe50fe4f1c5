-- ===== src/Crypto/Local/Wrapped.antt =====
-- crates/crypto/src/lib.rs: what the local backend wraps, it unwraps.
use kit.Prelude.{
  ℕ, true, false, some, List, [], ◌∷◌, ◌++◌, ◌≡◌, inl, inr, refl, sym, ap, ◌∙◌, arith, length,
  length-append, take, drop, ltb, ◌==◌, Bool-cases, Option-cases, if◌then◌else◌, ok, err,
}
use kit.Prelude.Text.{starts_with, starts_with-append_short, drop-append}
use kit.Crypto.Envelope.{
  Cipher, Opens, nonce_size, gcp_kms_prefix, encrypt_value, decrypt_value, is_gcp_kms_ciphertext,
  wrapped_by_kms,
}
use kit.Crypto.Local

take-append : (cs ds : List ℕ) → take (length cs) (cs ++ ds) ≡ cs
take-append [] ds = refl
take-append (c ∷ cs) ds = ap (◌∷◌ c) (take-append cs ds)

module _ (c : Cipher) where
  -- Values: the nonce is a parameter, of the size that the code draws.
  encrypt_value-sealed :
      (nonce text key sealed : List ℕ)
      → encrypt_value c nonce text key ≡ ok sealed
      → (ciphertext : List ℕ) × (sealed ≡ nonce ++ ciphertext)
        × (c.encrypt key nonce text ≡ some ciphertext)
        × ((length key == 32) ≡ true)
  unfolding encrypt_value
  encrypt_value-sealed nonce text key sealed h = elim (Bool-cases (length key == 32)) [
    | inr bad ↦ absurd (ground (arith, h, bad))
    | inl good ↦ elim (Option-cases (c.encrypt key nonce text)) [
      | inl none_left ↦ absurd (ground (arith, h, good, none_left))
      | inr (ct, e) ↦ (ct, ground (arith, h, good, e), e, good)
    ]
  ]

module _ (c : Cipher) (opens : Opens c) where
  pub decrypt-encrypt :
      (nonce text key sealed : List ℕ)
      → length nonce ≡ nonce_size
      → encrypt_value c nonce text key ≡ ok sealed
      → decrypt_value c sealed key ≡ ok text
  unfolding decrypt_value
  decrypt-encrypt nonce text key sealed size h =
      let (ct, whole, enc, good) = encrypt_value-sealed c nonce text key sealed h in
      let front : take nonce_size (nonce ++ ct) ≡ nonce =
        ap (λ n. take n (nonce ++ ct)) (sym size) ∙ take-append nonce ct in
      let back : drop nonce_size (nonce ++ ct) ≡ ct =
        ap (λ n. drop n (nonce ++ ct)) (sym size) ∙ drop-append nonce ct in
      let long : ltb (length (nonce ++ ct)) nonce_size ≡ false =
        ground (arith, length-append nonce ct, size) in
      rw whole (rw long (rw good (rw front (rw back (rw (opens key nonce text ct enc) refl)))))

  -- What the local backend wraps with a nonce of 12 bytes it unwraps to the same key, unless the
  -- nonce itself begins with the eight bytes "gcp-kms:", and then it refuses its own ciphertext as
  -- one of the managed backend.
  pub unwrap-wrap :
      (kek nonce dek wrapped : List ℕ)
      → length nonce ≡ nonce_size
      → Local.wrap_dek c kek nonce dek ≡ ok wrapped
      → Local.unwrap_dek c kek wrapped
        ≡ (if starts_with nonce gcp_kms_prefix then err wrapped_by_kms else ok dek)
  unfolding Local.wrap_dek Local.unwrap_dek is_gcp_kms_ciphertext
  unwrap-wrap kek nonce dek wrapped size h =
      let (ct, whole, enc, good) = encrypt_value-sealed c nonce dek kek wrapped h in
      let same : starts_with wrapped gcp_kms_prefix ≡ starts_with nonce gcp_kms_prefix =
        ap (λ w. starts_with w gcp_kms_prefix) whole
        ∙ starts_with-append_short nonce ct gcp_kms_prefix (omega arith) in
      ground (arith, same, decrypt-encrypt nonce dek kek wrapped size h)

pub wrapped_shape :
    (c : Cipher) (kek nonce dek wrapped : List ℕ)
    → Local.wrap_dek c kek nonce dek ≡ ok wrapped
    → (ct : List ℕ) × (wrapped ≡ nonce ++ ct)
unfolding Local.wrap_dek
wrapped_shape c kek nonce dek wrapped h =
    let (ct, whole, enc, good) = encrypt_value-sealed c nonce dek kek wrapped h in (ct, whole)
