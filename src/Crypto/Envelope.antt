-- ===== src/Crypto/Envelope.antt =====
-- crates/crypto/src/lib.rs: AES-GCM under a key of 32 bytes. The cipher and
-- the hex decoder are parameters; a random nonce is an argument.
use kit.Prelude.{
  ℕ, Bool, Option, none, some, List, [], ◌∷◌, ◌++◌, ◌≡◌, length, take, drop, ltb, ◌==◌, not,
  if◌then◌else◌, Result, ok, err,
}
use kit.Prelude.Text.{starts_with}

pub data CryptoError : Type 0 where
  dek_size kek_size : ℕ → CryptoError
  encryption_failed too_short decryption_failed bad_hex not_utf8 : CryptoError
  wrapped_by_kms wrapped_by_local : CryptoError
  kms_encrypt kms_decrypt kms_probe : CryptoError

-- `aes_gcm::Aes256Gcm`, from a key, a nonce and a text.
pub record Cipher : Type 0 where
  pub encrypt : List ℕ → List ℕ → List ℕ → Option (List ℕ)
  pub decrypt : List ℕ → List ℕ → List ℕ → Option (List ℕ)

-- What is encrypted is decrypted under the same key and nonce.
abbrev pub Opens : Cipher → Type 0
Opens c =
    (key nonce text sealed : List ℕ)
    → c.encrypt key nonce text ≡ some sealed
    → c.decrypt key nonce sealed ≡ some text

abbrev pub nonce_size : ℕ
nonce_size = 12

abbrev pub gcp_kms_prefix : List ℕ
gcp_kms_prefix = b'g' ∷ b'c' ∷ b'p' ∷ b'-' ∷ b'k' ∷ b'm' ∷ b's' ∷ b':' ∷ []

module _ (c : Cipher) where
  unfoldable pub encrypt_value : List ℕ → List ℕ → List ℕ → Result CryptoError (List ℕ)
  encrypt_value nonce_bytes plaintext dek =
      if length dek == 32
      then elim (c.encrypt dek nonce_bytes plaintext) [
        | none ↦ err encryption_failed
        | some ciphertext ↦ ok (nonce_bytes ++ ciphertext)
      ]
      else err (dek_size (length dek))

  unfoldable pub decrypt_value : List ℕ → List ℕ → Result CryptoError (List ℕ)
  decrypt_value encrypted dek =
      if ltb (length encrypted) nonce_size
      then err too_short
      else if length dek == 32
      then elim (c.decrypt dek (take nonce_size encrypted) (drop nonce_size encrypted)) [
        | none ↦ err decryption_failed
        | some plaintext ↦ ok plaintext
      ]
      else err (dek_size (length dek))

-- `hex::decode` is the first argument.
unfoldable pub parse_kek : (List ℕ → Option (List ℕ)) → List ℕ → Result CryptoError (List ℕ)
parse_kek hex hex_key = elim (hex hex_key) [
  | none ↦ err bad_hex
  | some bytes ↦ if not (length bytes == 32) then err (kek_size (length bytes)) else ok bytes
]

unfoldable pub is_gcp_kms_ciphertext : List ℕ → Bool
is_gcp_kms_ciphertext bytes = starts_with bytes gcp_kms_prefix
