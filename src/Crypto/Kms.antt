-- ===== src/Crypto/Kms.antt =====
-- crates/crypto/src/lib.rs: `GcpKmsKek`, the backend of Google's service, with its cache of keys and
-- its cached health check. The service is a parameter that may answer each request differently.
pub mod Entries
pub mod Cached
use kit.Prelude.{
  ℕ, ◌+◌, ◌-◌, ◌*◌, ◌/◌, Bool, true, false, not, Option, none, some, List, [], ◌∷◌, ◌++◌, length,
  drop, filter, ltb, leb, if◌then◌else◌, Result, ok, err,
}
use kit.Prelude.Sort.{codes, sort_by}
use kit.Prelude.Text.{bytes_eq}
use kit.Crypto.Envelope.{
  CryptoError, gcp_kms_prefix, is_gcp_kms_ciphertext, not_utf8, wrapped_by_local, kms_encrypt,
  kms_decrypt, kms_probe,
}

-- `GcpKmsClient` at one key name, and `str::from_utf8`. The first number tells requests apart.
pub record Service : Type 0 where
  pub encrypt : ℕ → List ℕ → Option (List ℕ)
  pub decrypt : ℕ → List ℕ → Option (List ℕ)
  pub from_utf8 : List ℕ → Option (List ℕ)

pub record CachedDek : Type 0 where
  pub plaintext : List ℕ
  pub cached_at : ℕ  -- in nanoseconds

-- The hash map, in an order of its own.
abbrev pub Cache : Type 0
Cache = List (List ℕ × CachedDek)

-- The fields that change.
pub record GcpKmsKek : Type 0 where
  pub cache : Cache
  pub last_health_ok : Option ℕ

abbrev pub seconds : ℕ → ℕ
seconds n = n * 1000000000

abbrev pub ttl : ℕ
ttl = seconds 60

abbrev pub max_entries : ℕ
max_entries = 1024

-- `HashMap::get`, `remove` and `insert`.
unfoldable pub get : List ℕ → Cache → Option CachedDek
get key [] = none
get key ((k, d) ∷ cache) = let rest = get key cache in if bytes_eq k key then some d else rest

unfoldable pub remove : List ℕ → Cache → Cache
remove key cache = filter (λ e. not (bytes_eq e.0 key)) cache

unfoldable pub insert : List ℕ → CachedDek → Cache → Cache
insert key d cache = (key, d) ∷ remove key cache

-- `Instant::elapsed` is `now - cached_at`, at least 0. The key that was found, and the cache after.
unfoldable pub cache_get : ℕ → List ℕ → Cache → Option (List ℕ) × Cache
cache_get now key cache = elim (get key cache) [
  | none ↦ (none, cache)
  | some entry ↦
      if ltb (now - entry.cached_at) ttl
      then (some entry.plaintext, cache)
      else (none, remove key cache)
]

-- The loop that puts the newer half back.
unfoldable pub insert_all : Cache → Cache → Cache
insert_all [] cache = cache
insert_all ((k, d) ∷ entries) cache = insert_all entries (insert k d cache)

abbrev pub older : List ℕ × CachedDek → List ℕ × CachedDek → Bool
older e f = leb e.1.cached_at f.1.cached_at

unfoldable pub make_room : Cache → Cache
make_room cache =
    if leb max_entries (length cache)
    then insert_all (drop (max_entries / 2) (sort_by older cache)) []
    else cache

unfoldable pub cache_put : ℕ → List ℕ → List ℕ → Cache → Cache
cache_put now key plaintext cache =
    insert key (record { plaintext = plaintext; cached_at = now }) (make_room cache)

-- How `unwrap_dek` begins: with an answer, or with the text that the service is asked to decrypt.
pub data Started : Type 0 where
  answered : Result CryptoError (List ℕ) → Started
  asks : List ℕ → Started

module _ (s : Service) where
  unfoldable pub wrap_dek : ℕ → List ℕ → Result CryptoError (List ℕ)
  wrap_dek request plaintext_dek = elim (s.encrypt request plaintext_dek) [
    | none ↦ err kms_encrypt
    | some ct ↦ ok (gcp_kms_prefix ++ ct)
  ]

  -- `unwrap_dek` up to the request to the service.
  unfoldable pub unwrap_start : ℕ → List ℕ → Cache → Started × Cache
  unwrap_start now encrypted_dek cache =
      if not (is_gcp_kms_ciphertext encrypted_dek)
      then (answered (err wrapped_by_local), cache)
      else let (hit, cache') = cache_get now encrypted_dek cache in
        elim hit [
          | some cached ↦ (answered (ok cached), cache')
          | none ↦ elim (s.from_utf8 (drop (length gcp_kms_prefix) encrypted_dek)) [
            | none ↦ (answered (err not_utf8), cache')
            | some ct ↦ (asks ct, cache')
          ]
        ]

  -- From the service's answer on. Other calls may have used the cache in between.
  unfoldable pub unwrap_finish :
      ℕ → List ℕ → Option (List ℕ) → Cache → Result CryptoError (List ℕ) × Cache
  unwrap_finish now encrypted_dek none cache = (err kms_decrypt, cache)
  unwrap_finish now encrypted_dek (some plaintext) cache =
      (ok plaintext, cache_put now encrypted_dek plaintext cache)

  -- A call that nothing interrupts, answered at the time at which it asked.
  unfoldable pub unwrap_dek : ℕ → List ℕ → Cache → Result CryptoError (List ℕ) × Cache
  unwrap_dek now encrypted_dek cache =
      let (started, cache') = unwrap_start now encrypted_dek cache in
      elim started [
        | answered r ↦ (r, cache')
        | asks ct ↦ unwrap_finish now encrypted_dek (s.decrypt now ct) cache'
      ]

  -- The result, with the time of the last success after it.
  unfoldable pub health_check : ℕ → Option ℕ → Result CryptoError (Unit {0}) × Option ℕ
  health_check now last_health_ok =
      if elim last_health_ok [ none ↦ false | some t ↦ ltb (now - t) (seconds 10) ]
      then (ok tt, last_health_ok)
      else elim (s.encrypt now (codes "readyz-probe")) [
        | none ↦ (err kms_probe, last_health_ok)
        | some ct ↦ (ok tt, some now)
      ]
