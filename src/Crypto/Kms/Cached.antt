-- ===== src/Crypto/Kms/Cached.antt =====
-- crates/crypto/src/lib.rs: the cache of the managed backend over any sequence of calls that share it.
use kit.Prelude.{
  ℕ, ◌≤◌, Option, none, some, List, [], ◌≡◌, ◌⊎◌, inl, inr, refl, arith, length, drop, Bool-cases,
  Option-cases,
}
use kit.Prelude.Rows.{AllRows}
use kit.Crypto.Envelope.{gcp_kms_prefix, is_gcp_kms_ciphertext}
use kit.Crypto.Kms.{Service, CachedDek, Cache, max_entries, cache_get, unwrap_start, unwrap_finish}
use kit.Crypto.Kms.Entries.{
  length-cache_put, length-cache_get, AllRows-cache_put, cache_get-AllRows,
}

module _ (s : Service) where
  -- Calls of `unwrap_dek` interleave at the request to the service: any number may have begun before
  -- one of them is answered.
  pub data Step : Cache → Cache → Type 0 where
    starts : (cache : Cache) (now : ℕ) (enc : List ℕ) → Step cache (unwrap_start s now enc cache).1
    finishes :
        (cache : Cache) (asked now : ℕ) (enc ct : List ℕ)
        → s.from_utf8 (drop (length gcp_kms_prefix) enc) ≡ some ct
        → asked ≤ now
        → Step cache (unwrap_finish s now enc (s.decrypt asked ct) cache).1

  -- From the empty cache.
  pub data Reach : Cache → Type 0 where
    fresh : Reach []
    next : {cache cache' : Cache} → Reach cache → Step cache cache' → Reach cache'

  -- The entry is what the service answered, for this ciphertext, before the entry was made.
  abbrev pub IsAnswer : List ℕ × CachedDek → Type 0
  IsAnswer e =
      (asked : ℕ) × (ct : List ℕ) × (asked ≤ e.1.cached_at)
      × (s.from_utf8 (drop (length gcp_kms_prefix) e.0) ≡ some ct)
      × (s.decrypt asked ct ≡ some e.1.plaintext)

  abbrev IsCache : Cache → Type 0
  IsCache cache = (length cache ≤ max_entries) × AllRows IsAnswer cache

  -- Before the request a call does no more to the cache than look its key up.
  start_cache :
      (cache : Cache) (now : ℕ) (enc : List ℕ)
      → ((unwrap_start s now enc cache).1 ≡ cache)
        ⊎ ((unwrap_start s now enc cache).1 ≡ (cache_get now enc cache).1)
  unfolding unwrap_start
  start_cache cache now enc = elim (Bool-cases (is_gcp_kms_ciphertext enc)) [
    | inr local ↦ inl (ground (arith, local))
    | inl kms ↦ elim (Option-cases (cache_get now enc cache).0) [
      | inr (pt, hit) ↦ inr (ground (arith, kms, hit))
      | inl miss ↦ elim (Option-cases (s.from_utf8 (drop 8 enc))) [
        | inl bad ↦ inr (ground (arith, kms, miss, bad))
        | inr (ct, good) ↦ inr (ground (arith, kms, miss, good))
      ]
    ]
  ]

  start-IsCache :
      (cache : Cache) (now : ℕ) (enc : List ℕ)
      → IsCache cache
      → IsCache (unwrap_start s now enc cache).1
  start-IsCache cache now enc h = elim (start_cache cache now enc) [
    | inl same ↦ rw same h
    | inr looked ↦ rw looked (
      omega (arith, length-cache_get now enc cache, h.0),
      cache_get-AllRows IsAnswer now enc cache h.1,
    )
  ]

  finish-IsCache :
      (cache : Cache) (asked now : ℕ) (enc ct : List ℕ) (answer : Option (List ℕ))
      → s.decrypt asked ct ≡ answer
      → s.from_utf8 (drop (length gcp_kms_prefix) enc) ≡ some ct
      → asked ≤ now
      → IsCache cache
      → IsCache (unwrap_finish s now enc answer cache).1
  unfolding unwrap_finish
  finish-IsCache cache asked now enc ct none e u le h = h
  finish-IsCache cache asked now enc ct (some plaintext) e u le h = (
    length-cache_put now enc plaintext cache h.0,
    AllRows-cache_put IsAnswer now enc plaintext cache (asked, ct, le, u, e) h.1,
  )

  Reach-IsCache : {cache : Cache} → Reach cache → IsCache cache
  Reach-IsCache fresh = (omega arith, tt)
  Reach-IsCache (next r (starts cache now enc)) = start-IsCache cache now enc (Reach-IsCache r)
  Reach-IsCache (next r (finishes cache asked now enc ct u le)) =
      finish-IsCache cache asked now enc ct (s.decrypt asked ct) refl u le (Reach-IsCache r)

  -- Over any sequence of calls that share the cache and interleave at their requests, the cache never
  -- has more than 1,024 entries.
  pub length-Reach : {cache : Cache} → Reach cache → length cache ≤ max_entries
  length-Reach r = (Reach-IsCache r).0
