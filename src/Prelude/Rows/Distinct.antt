-- ===== src/Prelude/Rows/Distinct.antt =====
-- The rows of a table with a key in common, and updates under a key.
use mathlib.Core.Path.{◌≡◌, refl, sym, ap, ◌∙◌, subst, fun_ext}
use mathlib.Core.Logic.{◌≢◌, ◌⊎◌, inl, inr}
use mathlib.Core.Bool.{Bool, true, false}
use mathlib.Core.List.{List, [], ◌∷◌, ◌++◌}
use Prim.Native.Nat.{ℕ}
use native.Mathlib.Omega.{arith}
use kit.Prelude.Tests.{◌==◌, if◌then◌else◌}
use kit.Prelude.Lists.{any}
use kit.Prelude.Rows.{update_where, AllRows, AllRows-map, AllRows-update_where, AllRows-at, Among}

module _ {A : Type 0} where
  -- No two rows are related.
  abbrev pub DistinctBy : (A → A → Bool) → List A → Type 0
  DistinctBy rel [] = Unit
  DistinctBy rel (r ∷ rs) = (any (rel r) rs ≡ false) × DistinctBy rel rs

  pub any-update_where :
      (q p : A → Bool) (f : A → A) (table : List A)
      → ((r : A) → q (f r) ≡ q r)
      → any q (update_where p f table) ≡ any q table
  unfolding any update_where
  any-update_where q p f [] same = refl
  any-update_where q p f (r ∷ rs) same = ground (arith, same r, any-update_where q p f rs same)

  pub DistinctBy-update_where :
      (rel : A → A → Bool) (p : A → Bool) (f : A → A) (table : List A)
      → ((r s : A) → rel (f r) s ≡ rel r s)
      → ((r s : A) → rel r (f s) ≡ rel r s)
      → DistinctBy rel table
      → DistinctBy rel (update_where p f table)
  unfolding update_where
  DistinctBy-update_where rel p f [] left right h = tt
  DistinctBy-update_where rel p f (r ∷ rs) left right h =
      (head (p r), DistinctBy-update_where rel p f rs left right h.1)
    where
      kept : (x : A) → any (rel x) (update_where p f rs) ≡ any (rel x) rs
      kept x = any-update_where (rel x) p f rs (right x)

      head : (b : Bool) → any (rel (if b then f r else r)) (update_where p f rs) ≡ false
      head true = kept (f r) ∙ ap (λ q. any q rs) (fun_ext (left r)) ∙ h.0
      head false = kept r ∙ h.0

  any_last :
      (q : A → Bool) (xs : List A) (new : A)
      → any q xs ≡ false
      → q new ≡ false
      → any q (xs ++ new ∷ []) ≡ false
  unfolding any
  any_last q [] new h k = ground arith
  any_last q (x ∷ xs) new h k = ground (arith, any_last q xs new)

  pub DistinctBy-append :
      (rel : A → A → Bool) (xs : List A) (new : A)
      → any (λ x. rel x new) xs ≡ false
      → DistinctBy rel xs
      → DistinctBy rel (xs ++ new ∷ [])
  unfolding any
  DistinctBy-append rel [] new h d = (refl, tt)
  DistinctBy-append rel (x ∷ xs) new h d =
      (any_last (rel x) xs new d.0 (ground arith), DistinctBy-append rel xs new (ground arith) d.1)

  pub Among-key :
      (key : A → ℕ) (r : A) (table : List A) (k : ℕ)
      → Among r table
      → any (λ s. key s == k) table ≡ false
      → key r ≢ k
  unfolding any
  Among-key key r [] k m h = absurd m
  Among-key key r (x ∷ xs) k (inl e) h = ground (arith, ap (λ (s : A). key s) e)
  Among-key key r (x ∷ xs) k (inr m) h = Among-key key r xs k m (ground arith)

  update_where-none :
      (p : A → Bool) (f : A → A) (table : List A)
      → any p table ≡ false
      → update_where p f table ≡ table
  unfolding any update_where
  update_where-none p f [] h = refl
  update_where-none p f (r ∷ rs) h = ground (arith, update_where-none p f rs)

  -- With distinct ids, an update under the id of one row of the table reaches that row alone.
  pub AllRows-at_key :
      (key : A → ℕ) (P : A → Type 0) (f : A → A) (r : A) (table : List A)
      → DistinctBy (λ s t. key t == key s) table
      → Among r table
      → P (f r)
      → AllRows P table
      → AllRows P (update_where (λ s. key s == key r) f table)
  unfolding update_where
  AllRows-at_key key P f r [] d m h all = absurd m
  AllRows-at_key key P f r (x ∷ xs) d (inl e) h all =
      let self : (key x == key r) ≡ true = ground (arith, ap (λ (s : A). key s) e) in
      let rest : any (λ s. key s == key r) xs ≡ false =
        subst (λ (s : A). any (λ t. key t == key s) xs ≡ false) e d.0 in
      (
        subst (λ (b : Bool). P (if b then f x else x)) (sym self)
            (subst (λ (s : A). P (f s)) (sym e) h),
        subst (AllRows P) (sym (update_where-none (λ s. key s == key r) f xs rest)) all.1,
      )
  AllRows-at_key key P f r (x ∷ xs) d (inr m) h all =
      let other : (key x == key r) ≡ false = ground (arith, Among-key key r xs (key x) m d.0) in
      (
        subst (λ (b : Bool). P (if b then f x else x)) (sym other) all.0,
        AllRows-at_key key P f r xs d.1 m h all.1,
      )

  any-AllRows :
      (q : A → Bool) (table : List A) → any q table ≡ false → AllRows (λ s. q s ≡ false) table
  unfolding any
  any-AllRows q [] h = tt
  any-AllRows q (x ∷ xs) h = (ground arith, any-AllRows q xs (ground arith))

  pub AllRows-any :
      (q : A → Bool) (table : List A) → AllRows (λ s. q s ≡ false) table → any q table ≡ false
  unfolding any
  AllRows-any q [] h = refl
  AllRows-any q (x ∷ xs) h = ground (arith, h.0, AllRows-any q xs h.1)

  -- A row is related to no other row of the table.
  pub DistinctBy-Among :
      (rel : A → A → Bool) (r : A) (table : List A)
      → ((s t : A) → rel s t ≡ rel t s)
      → DistinctBy rel table
      → Among r table
      → AllRows (λ s. (s ≡ r) ⊎ (rel r s ≡ false)) table
  DistinctBy-Among rel r [] symmetric d m = absurd m
  DistinctBy-Among rel r (x ∷ xs) symmetric d (inl e) = (
    inl e,
    AllRows-map (λ s k. inr (subst (λ y. rel y s ≡ false) e k)) xs (any-AllRows (rel x) xs d.0),
  )
  DistinctBy-Among rel r (x ∷ xs) symmetric d (inr m) = (
    inr (symmetric r x ∙ AllRows-at (λ s. rel x s ≡ false) xs r (any-AllRows (rel x) xs d.0) m),
    DistinctBy-Among rel r xs symmetric d.1 m,
  )

  -- An update that relates no rows that were not related.
  pub DistinctBy-update_where_mono :
      (rel : A → A → Bool) (p : A → Bool) (f : A → A) (table : List A)
      → ((r s : A) → rel r s ≡ false → rel (f r) s ≡ false)
      → ((r s : A) → rel r s ≡ false → rel r (f s) ≡ false)
      → DistinctBy rel table
      → DistinctBy rel (update_where p f table)
  unfolding update_where
  DistinctBy-update_where_mono rel p f [] left right h = tt
  DistinctBy-update_where_mono rel p f (r ∷ rs) left right h = (
    AllRows-any (rel (if p r then f r else r)) (update_where p f rs) (
        AllRows-update_where (λ s. rel (if p r then f r else r) s ≡ false) p f rs
          (λ s _. right (if p r then f r else r) s)
          (AllRows-map (λ s k. at_row (p r) s k) rs (any-AllRows (rel r) rs h.0))),
    DistinctBy-update_where_mono rel p f rs left right h.1,
  )
    where
      at_row : (b : Bool) (s : A) → rel r s ≡ false → rel (if b then f r else r) s ≡ false
      at_row true s k = left r s k
      at_row false s k = k
