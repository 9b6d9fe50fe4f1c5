-- ===== src/Crypto/Kms/Entries.antt =====
-- crates/crypto/src/lib.rs: how many entries the cache has, and what holds of every one of them.
use mathlib.Core.Path.{subst}
use kit.Prelude.{
  ℕ, zero, suc, ◌+◌, ◌-◌, ◌≤◌, Bool, not, some, List, [], ◌∷◌, ◌≡◌, inl, inr, refl, arith, ltb,
  ltb→lt, Option-cases, ◌<◌, length, drop, filter, leb, Bool-cases,
}
use kit.Prelude.Rows.{AllRows}
use kit.Prelude.Sort.{insert_by, sort_by}
use kit.Prelude.Text.{bytes_eq, bytes_eq→eq}
use kit.Crypto.Kms.{
  Cache, CachedDek, ttl, max_entries, get, remove, insert, cache_get, insert_all, older, make_room,
  cache_put,
}

module _ {A : Type 0} where
  length-filter : (p : A → Bool) (xs : List A) → length (filter p xs) ≤ length xs
  unfolding filter
  length-filter p [] = omega arith
  length-filter p (x ∷ xs) = ground (arith, length-filter p xs)

  length-drop : (n : ℕ) (xs : List A) → length (drop n xs) ≡ length xs - n
  length-drop zero xs = omega arith
  length-drop (suc n) [] = omega arith
  length-drop (suc n) (x ∷ xs) = omega (arith, length-drop n xs)

  length-insert_by :
      (le : A → A → Bool) (x : A) (xs : List A) → length (insert_by le x xs) ≡ suc (length xs)
  unfolding insert_by
  length-insert_by le x [] = refl
  length-insert_by le x (y ∷ ys) = ground (arith, length-insert_by le x ys)

  length-sort_by : (le : A → A → Bool) (xs : List A) → length (sort_by le xs) ≡ length xs
  unfolding sort_by
  length-sort_by le [] = refl
  length-sort_by le (x ∷ xs) =
      omega (arith, length-insert_by le x (sort_by le xs), length-sort_by le xs)

  AllRows-filter :
      (P : A → Type 0) (p : A → Bool) (xs : List A) → AllRows P xs → AllRows P (filter p xs)
  unfolding filter
  AllRows-filter P p [] h = tt
  AllRows-filter P p (x ∷ xs) h = ground (arith, AllRows-filter P p xs h.1)

  AllRows-drop : (P : A → Type 0) (n : ℕ) (xs : List A) → AllRows P xs → AllRows P (drop n xs)
  AllRows-drop P zero xs h = h
  AllRows-drop P (suc n) [] h = h
  AllRows-drop P (suc n) (x ∷ xs) h = AllRows-drop P n xs h.1

  AllRows-insert_by :
      (P : A → Type 0) (le : A → A → Bool) (x : A) (xs : List A)
      → P x
      → AllRows P xs
      → AllRows P (insert_by le x xs)
  unfolding insert_by
  AllRows-insert_by P le x [] p h = (p, tt)
  AllRows-insert_by P le x (y ∷ ys) p h = ground (arith, AllRows-insert_by P le x ys p h.1)

  AllRows-sort_by :
      (P : A → Type 0) (le : A → A → Bool) (xs : List A) → AllRows P xs → AllRows P (sort_by le xs)
  unfolding sort_by
  AllRows-sort_by P le [] h = tt
  AllRows-sort_by P le (x ∷ xs) h =
      AllRows-insert_by P le x (sort_by le xs) h.0 (AllRows-sort_by P le xs h.1)

length-insert :
    (key : List ℕ) (d : CachedDek) (cache : Cache)
    → length (insert key d cache) ≤ suc (length cache)
unfolding insert remove
length-insert key d cache = omega (arith, length-filter (λ e. not (bytes_eq e.0 key)) cache)

length-insert_all :
    (entries cache : Cache) → length (insert_all entries cache) ≤ length entries + length cache
unfolding insert_all
length-insert_all [] cache = omega arith
length-insert_all ((k, d) ∷ entries) cache =
    omega (arith, length-insert_all entries (insert k d cache), length-insert k d cache)

length_newer :
    (n : ℕ) (cache : Cache)
    → length (insert_all (drop n (sort_by older cache)) []) ≤ length cache - n
length_newer n cache = omega (
  arith,
  length-insert_all (drop n (sort_by older cache)) [],
  length-drop n (sort_by older cache),
  length-sort_by older cache,
)

length-make_room :
    (cache : Cache) → length cache ≤ max_entries → suc (length (make_room cache)) ≤ max_entries
unfolding make_room
length-make_room cache h = elim (Bool-cases (leb max_entries (length cache))) [
  | inl full ↦ rw full (omega (arith, length_newer 512 cache, h))
  | inr room ↦ rw room (ground (arith, room, h))
]

pub length-cache_put :
    (now : ℕ) (key plaintext : List ℕ) (cache : Cache)
    → length cache ≤ max_entries
    → length (cache_put now key plaintext cache) ≤ max_entries
unfolding cache_put
length-cache_put now key plaintext cache h = omega (
  arith,
  length-insert key (record { plaintext = plaintext; cached_at = now }) (make_room cache),
  length-make_room cache h,
)

pub length-cache_get :
    (now : ℕ) (key : List ℕ) (cache : Cache) → length (cache_get now key cache).1 ≤ length cache
unfolding cache_get remove
length-cache_get now key cache = ground (arith, length-filter (λ e. not (bytes_eq e.0 key)) cache)

module _ (P : List ℕ × CachedDek → Type 0) where
  AllRows-insert :
      (key : List ℕ) (d : CachedDek) (cache : Cache)
      → P (key, d)
      → AllRows P cache
      → AllRows P (insert key d cache)
  unfolding insert remove
  AllRows-insert key d cache p h = (p, AllRows-filter P (λ e. not (bytes_eq e.0 key)) cache h)

  AllRows-insert_all :
      (entries cache : Cache)
      → AllRows P entries
      → AllRows P cache
      → AllRows P (insert_all entries cache)
  unfolding insert_all
  AllRows-insert_all [] cache h k = k
  AllRows-insert_all ((key, d) ∷ entries) cache h k =
      AllRows-insert_all entries (insert key d cache) h.1 (AllRows-insert key d cache h.0 k)

  AllRows-make_room : (cache : Cache) → AllRows P cache → AllRows P (make_room cache)
  unfolding make_room
  AllRows-make_room cache h = elim (Bool-cases (leb max_entries (length cache))) [
    | inl full ↦ rw full (
        AllRows-insert_all (drop 512 (sort_by older cache)) []
          (AllRows-drop P 512 (sort_by older cache) (AllRows-sort_by P older cache h)) tt)
    | inr room ↦ rw room h
  ]

  pub AllRows-cache_put :
      (now : ℕ) (key plaintext : List ℕ) (cache : Cache)
      → P (key, record { plaintext = plaintext; cached_at = now })
      → AllRows P cache
      → AllRows P (cache_put now key plaintext cache)
  unfolding cache_put
  AllRows-cache_put now key plaintext cache p h =
      AllRows-insert key _ (make_room cache) p (AllRows-make_room cache h)

  get-AllRows :
      (key : List ℕ) (cache : Cache) (d : CachedDek)
      → AllRows P cache
      → get key cache ≡ some d
      → P (key, d)
  unfolding get
  get-AllRows key [] d h e = absurd (cc)
  get-AllRows key ((k, x) ∷ cache) d h e = elim (Bool-cases (bytes_eq k key)) [
    | inl same ↦
        let keys = bytes_eq→eq k key same in
        let found : x ≡ d = ground (arith, e, same) in rw (← found) (rw (← keys) h.0)
    | inr other ↦ get-AllRows key cache d h.1 (ground (arith, e, other))
  ]

  pub cache_get-AllRows :
      (now : ℕ) (key : List ℕ) (cache : Cache)
      → AllRows P cache
      → AllRows P (cache_get now key cache).1
  unfolding cache_get remove
  cache_get-AllRows now key cache h =
      ground (arith, AllRows-filter P (λ (e : List ℕ × CachedDek). not (bytes_eq e.0 key)) cache h)

  -- A hit is an entry younger than its time to live.
  pub cache_get-hit :
      (now : ℕ) (key plaintext : List ℕ) (cache : Cache)
      → AllRows P cache
      → (cache_get now key cache).0 ≡ some plaintext
      → (cached_at : ℕ) × P (key, record { plaintext = plaintext; cached_at = cached_at })
        × (now - cached_at < ttl)
  unfolding cache_get
  cache_get-hit now key plaintext cache h e = elim (Option-cases (get key cache)) [
    | inl missing ↦ absurd (ground (arith, e, missing))
    | inr (d, found) ↦ elim (Bool-cases (ltb (now - d.cached_at) ttl)) [
      | inr old ↦ absurd (ground (arith, e, found, old))
      | inl young ↦
          let same : d.plaintext ≡ plaintext = ground (arith, e, found, young) in
          (
            d.cached_at,
            subst (λ t. P (key, record { plaintext = t; cached_at = d.cached_at })) same
                (get-AllRows key cache d h found),
            ltb→lt (now - d.cached_at) ttl young,
          )
    ]
  ]
