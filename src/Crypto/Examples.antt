-- ===== src/Crypto/Examples.antt =====
-- crates/crypto: tests, and the theorems at concrete keys and ciphertexts.
use kit.Prelude.{
  ℕ, false, none, some, List, [], ◌∷◌, ◌++◌, ◌≡◌, refl, arith, length, replicate, if◌then◌else◌,
  ◌==◌, ok, err,
}
use kit.Prelude.Text.{starts_with}
use kit.Crypto.Envelope.{
  Cipher, Opens, gcp_kms_prefix, encrypt_value, wrapped_by_kms, parse_kek, kek_size,
}
use kit.Crypto.Local
use kit.Crypto.Local.Wrapped.{unwrap-wrap}
use kit.Crypto.Kms
use kit.Crypto.Kms.{Service, CachedDek, Cache, seconds, max_entries, get, unwrap_finish}

-- A cipher that appends the length of the key.
abbrev toy : Cipher
toy = record {
  encrypt = λ key nonce text. some (length key ∷ text);
  decrypt = λ key nonce sealed. elim sealed [
    | [] ↦ none
    | k ∷ text ↦ if k == length key then some text else none
  ];
}

toy-Opens : Opens toy
toy-Opens key nonce text sealed h = ground (arith, h)

abbrev kek : List ℕ
kek = replicate 32 1

abbrev nonce : List ℕ
nonce = replicate 12 7

abbrev dek : List ℕ
dek = 5 ∷ 6 ∷ []

abbrev wrapped : List ℕ
wrapped = nonce ++ 32 ∷ 5 ∷ 6 ∷ []

wrap_test : Local.wrap_dek toy kek nonce dek ≡ ok wrapped
unfolding Local.wrap_dek encrypt_value
wrap_test = refl

unwrap-wrap_example :
    Local.unwrap_dek toy kek wrapped
    ≡ (if starts_with nonce gcp_kms_prefix then err wrapped_by_kms else ok dek)
unwrap-wrap_example = unwrap-wrap toy toy-Opens kek nonce dek wrapped refl wrap_test

parse_kek_test : parse_kek (λ h. some h) (1 ∷ 2 ∷ []) ≡ err (kek_size 2)
unfolding parse_kek
parse_kek_test = refl

-- A service that answers with the text itself.
abbrev echo : Service
echo = record {
  encrypt = λ r text. some text;
  decrypt = λ now ct. some ct;
  from_utf8 = λ bytes. some bytes;
}

abbrev managed : List ℕ
managed = gcp_kms_prefix ++ dek

kms_wrap_test : Kms.wrap_dek echo 0 dek ≡ ok managed
unfolding Kms.wrap_dek
kms_wrap_test = refl

empty_test : get managed [] ≡ none
unfolding get
empty_test = refl

plain_test : starts_with nonce gcp_kms_prefix ≡ false
unfolding starts_with
plain_test = refl

abbrev one_key : Cache
one_key = (unwrap_finish echo 4 managed (some dek) []).1
