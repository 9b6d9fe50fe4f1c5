-- ===== src/Crypto/Routing.antt =====
-- crates/crypto/src/lib.rs: a column that holds the ciphertexts of both backends.
use kit.Prelude.{
  ℕ, true, false, none, some, List, ◌++◌, ◌≡◌, inl, inr, ap, ◌∙◌, arith, length, drop, Option-cases,
  ok, err,
}
use kit.Prelude.Text.{starts_with, starts_with-append, starts_with-append_short, drop-append}
use kit.Crypto.Envelope.{
  Cipher, nonce_size, gcp_kms_prefix, is_gcp_kms_ciphertext, wrapped_by_kms, wrapped_by_local,
}
use kit.Crypto.Local
use kit.Crypto.Local.Wrapped.{wrapped_shape}
use kit.Crypto.Kms
use kit.Crypto.Kms.{
  Service, Cache, get, cache_get, answered, unwrap_start, unwrap_finish, cache_put,
}

-- The service decrypts what it encrypted, and its ciphertexts are texts.
abbrev pub Decrypts : Service → Type 0
Decrypts s =
    (r now : ℕ) (text ct : List ℕ)
    → s.encrypt r text ≡ some ct
    → (s.from_utf8 ct ≡ some ct) × (s.decrypt now ct ≡ some text)

module _ (s : Service) (c : Cipher) (kek : List ℕ) where
  kms_shape :
      (r : ℕ) (dek wrapped : List ℕ)
      → Kms.wrap_dek s r dek ≡ ok wrapped
      → (ct : List ℕ) × (s.encrypt r dek ≡ some ct) × (wrapped ≡ gcp_kms_prefix ++ ct)
  unfolding Kms.wrap_dek
  kms_shape r dek wrapped h = elim (Option-cases (s.encrypt r dek)) [
    | inl failed ↦ absurd (ground (arith, h, failed))
    | inr (ct, e) ↦ (ct, e, ground (arith, h, e))
  ]

  -- What the managed backend wraps, the local backend refuses as such. The managed backend itself
  -- unwraps it to the same key, if its cache has no entry for it, and then has the key cached; the
  -- service is assumed to decrypt what it encrypted and to answer with texts.
  pub kms_routed :
      (r now : ℕ) (dek wrapped : List ℕ) (cache : Cache)
      → Decrypts s
      → Kms.wrap_dek s r dek ≡ ok wrapped
      → get wrapped cache ≡ none
      → (Local.unwrap_dek c kek wrapped ≡ err wrapped_by_kms)
        × (Kms.unwrap_dek s now wrapped cache ≡ (ok dek, cache_put now wrapped dek cache))
  unfolding Local.unwrap_dek is_gcp_kms_ciphertext Kms.unwrap_dek unwrap_start unwrap_finish
      cache_get
  kms_routed r now dek wrapped cache decrypts h miss =
      let (ct, enc, whole) = kms_shape r dek wrapped h in
      let (utf8, dec) = decrypts r now dek ct enc in
      let prefixed : starts_with wrapped gcp_kms_prefix ≡ true =
        ap (λ w. starts_with w gcp_kms_prefix) whole ∙ starts_with-append gcp_kms_prefix ct in
      let rest : drop 8 wrapped ≡ ct = ap (drop 8) whole ∙ drop-append gcp_kms_prefix ct in
      (ground (arith, prefixed), ground (arith, prefixed, miss, rest, utf8, dec))

  -- What the local backend wraps, with a nonce of 12 bytes that does not begin with the prefix, the
  -- managed backend refuses as such without a request, and leaves its cache alone.
  pub local_routed :
      (now : ℕ) (nonce dek wrapped : List ℕ) (cache : Cache)
      → length nonce ≡ nonce_size
      → starts_with nonce gcp_kms_prefix ≡ false
      → Local.wrap_dek c kek nonce dek ≡ ok wrapped
      → Kms.unwrap_dek s now wrapped cache ≡ (err wrapped_by_local, cache)
  unfolding Kms.unwrap_dek unwrap_start is_gcp_kms_ciphertext
  local_routed now nonce dek wrapped cache size plain h =
      let (ct, whole) = wrapped_shape c kek nonce dek wrapped h in
      let same : starts_with wrapped gcp_kms_prefix ≡ false =
        ap (λ w. starts_with w gcp_kms_prefix) whole
        ∙ starts_with-append_short nonce ct gcp_kms_prefix (omega arith)
        ∙ plain in
      ground (arith, same)
