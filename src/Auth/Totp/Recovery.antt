-- ===== src/Auth/Totp/Recovery.antt =====
-- crates/auth/src/totp.rs: a recovery code is good as often as its hash is stored.
use kit.Prelude.{
  ℕ, zero, suc, ◌+◌, Option, none, some, String, List, [], ◌∷◌, ◌≡◌, ◌⊎◌, inl, inr, refl, arith,
  Bool-cases, if◌then◌else◌,
}
use kit.Prelude.Text.{bytes_eq}
use kit.Auth.Totp.{match_loop, verify_and_consume}

-- How many of the hashes are the one that is presented.
unfoldable pub count : List ℕ → List (List ℕ) → ℕ
count presented [] = 0
count presented (stored ∷ hashes) =
    let rest = count presented hashes in if bytes_eq presented stored then suc rest else rest

-- The hashes without the one at an index, which the caller marks as consumed.
unfoldable pub consume : ℕ → List (List ℕ) → List (List ℕ)
consume i [] = []
consume zero (stored ∷ hashes) = hashes
consume (suc i) (stored ∷ hashes) = stored ∷ consume i hashes

module _ (hash_recovery_code : String → List ℕ) where
  Found : List ℕ → ℕ → List (List ℕ) → Option ℕ → Type 0
  Found presented idx hashes result =
      (j : ℕ) × (result ≡ some (idx + j))
      × (suc (count presented (consume j hashes)) ≡ count presented hashes)

  match_loop-count :
      (presented : List ℕ) (idx : ℕ) (matched : Option ℕ) (hashes : List (List ℕ))
      → (match_loop hash_recovery_code presented idx matched hashes ≡ matched)
          × (count presented hashes ≡ 0)
        ⊎ Found presented idx hashes (match_loop hash_recovery_code presented idx matched hashes)
  unfolding match_loop count consume Found
  match_loop-count presented idx matched [] = inl (refl, refl)
  match_loop-count presented idx matched (stored ∷ hashes) =
      elim (match_loop-count presented (suc idx)
        (if bytes_eq presented stored then some idx else matched) hashes) [
          | inr (j, found, fewer) ↦ inr (suc j, ground (arith, found), ground (arith, fewer))
          | inl (kept, absent) ↦ elim (Bool-cases (bytes_eq presented stored)) [
            | inl same ↦ inr (0, ground (arith, kept, same), ground (arith, same))
            | inr differs ↦ inl (ground (arith, kept, differs), ground (arith, absent, differs))
          ]
        ]

  -- A recovery code is refused exactly when its hash is not among the stored ones, and when it is
  -- accepted, the index that is answered is one whose consumption leaves one such hash less: a code whose
  -- hash is stored once is good once.
  pub verify_and_consume-count :
      (code : String) (hashes : List (List ℕ))
      → (verify_and_consume hash_recovery_code code hashes ≡ none)
          × (count (hash_recovery_code code) hashes ≡ 0)
        ⊎ (i : ℕ) × (verify_and_consume hash_recovery_code code hashes ≡ some i)
          × (suc (count (hash_recovery_code code) (consume i hashes))
              ≡ count (hash_recovery_code code) hashes)
  unfolding verify_and_consume Found
  verify_and_consume-count code hashes =
      elim (match_loop-count (hash_recovery_code code) 0 none hashes) [
        | inl refused ↦ inl refused
        | inr (i, found, fewer) ↦ inr (i, ground (arith, found), fewer)
      ]
