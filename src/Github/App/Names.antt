-- ===== src/Github/App/Names.antt =====
-- crates/github/src/app.rs: the names of repositories, read off the key of the cache.
use kit.Prelude.{
  ℕ, Bool, true, false, List, [], ◌∷◌, ◌≡◌, refl, sym, ap, ◌∙◌, arith, any, if◌then◌else◌,
}
use kit.Prelude.Text.Split.{has, is_nil, split_once, split_once-append, split_once-none}
use kit.Github.App.{join}

-- Names as GitHub allows them: not empty, and without a comma.
abbrev pub is_bad : List ℕ → Bool
is_bad name = if is_nil name then true else has b',' name

unfoldable pub AreNames : List (List ℕ) → Type 0
AreNames repos = any is_bad repos ≡ false

join-cons :
    (name : List ℕ) (names : List (List ℕ))
    → is_nil name ≡ false
    → is_nil (join (name ∷ names)) ≡ false
unfolding join
join-cons [] names h = absurd (cc)
join-cons (c ∷ cs) [] h = refl
join-cons (c ∷ cs) (next ∷ names) h = refl

-- Names are read off what is joined of them.
pub join_injective :
    (us vs : List (List ℕ)) → AreNames us → AreNames vs → join us ≡ join vs → us ≡ vs
unfolding join AreNames any
join_injective [] [] bu bv h = refl
join_injective [] (v ∷ vs) bu bv h = absurd (ground (arith, ap is_nil h, join-cons v vs, bv))
join_injective (u ∷ us) [] bu bv h = absurd (ground (arith, ap is_nil h, join-cons u us, bu))
join_injective (u ∷ []) (v ∷ []) bu bv h = ap (λ x. x ∷ []) h
join_injective (u ∷ []) (v ∷ v' ∷ vs) bu bv h = absurd (
    ground (
      arith,
      ap (split_once b',') h,
      split_once-none b',' u,
      split_once-append b',' v (join (v' ∷ vs)),
      bu,
      bv,
    ))
join_injective (u ∷ u' ∷ us) (v ∷ []) bu bv h = absurd (
    ground (
      arith,
      ap (split_once b',') h,
      split_once-none b',' v,
      split_once-append b',' u (join (u' ∷ us)),
      bu,
      bv,
    ))
join_injective (u ∷ u' ∷ us) (v ∷ v' ∷ vs) bu bv h =
    let cut =
      sym (split_once-append b',' u (join (u' ∷ us)) (ground (arith, bu)))
      ∙ ap (split_once b',') h
      ∙ split_once-append b',' v (join (v' ∷ vs)) (ground (arith, bv)) in
    let head : u ≡ v = cc in
    let tail : join (u' ∷ us) ≡ join (v' ∷ vs) = cc in
    let rest = join_injective (u' ∷ us) (v' ∷ vs) (ground (arith, bu)) (ground (arith, bv)) tail in
    cc
