-- ===== src/Crypto/Local.antt =====
-- crates/crypto/src/lib.rs: `LocalKek`, the backend whose key is in memory.
pub mod Wrapped
use kit.Prelude.{ℕ, List, if◌then◌else◌, Result, ok, err}
use kit.Crypto.Envelope.{
  CryptoError, Cipher, encrypt_value, decrypt_value, is_gcp_kms_ciphertext, wrapped_by_kms,
}

module _ (c : Cipher) (kek : List ℕ) where
  unfoldable pub wrap_dek : List ℕ → List ℕ → Result CryptoError (List ℕ)
  wrap_dek nonce_bytes plaintext_dek = encrypt_value c nonce_bytes plaintext_dek kek

  unfoldable pub unwrap_dek : List ℕ → Result CryptoError (List ℕ)
  unwrap_dek encrypted_dek =
      if is_gcp_kms_ciphertext encrypted_dek
      then err wrapped_by_kms
      else decrypt_value c encrypted_dek kek
