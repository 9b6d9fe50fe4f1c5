-- ===== src/RateLimit/Ip/Spoofing.antt =====
-- crates/ratelimit/src/ip.rs: what a client writes into the header itself does not count.
use kit.Prelude.{
  ℕ, zero, suc, ◌+◌, ◌-◌, ◌≤◌, ◌<◌, Bool, true, false, Option, some, List, [], ◌∷◌, ◌++◌, ◌≡◌, refl,
  sym, ap, ◌∙◌, arith, length, length-append, get_or, filter_map, Bool-cases, inl, inr, leb, ◌==◌,
  if◌then◌else◌,
}
use kit.RateLimit.Ip.{split, hop, chain_of, client_ip}

split_some : (cs : List ℕ) → (p : List ℕ) × (ps : List (List ℕ)) × (split cs ≡ p ∷ ps)
unfolding split
split_some [] = ([], [], refl)
split_some (c ∷ cs) =
    let (p, ps, e) = split_some cs in
    elim (Bool-cases (c == b',')) [
      | inl t ↦ ([], p ∷ ps, ground (arith, e, t))
      | inr f ↦ (c ∷ p, ps, ground (arith, e, f))
    ]

-- A comma between two texts separates their parts.
split_at : (pre post : List ℕ) → split (pre ++ b',' ∷ post) ≡ split pre ++ split post
unfolding split
split_at [] post = refl
split_at (c ∷ pre) post = let (p, ps, e) = split_some pre in ground (arith, split_at pre post, e)

filter_map-append :
    {A B : Type 0} (f : A → Option B) (xs ys : List A)
    → filter_map f (xs ++ ys) ≡ filter_map f xs ++ filter_map f ys
unfolding filter_map
filter_map-append f [] ys = refl
filter_map-append f (x ∷ xs) ys = ground (arith, filter_map-append f xs ys)

leb→le : (a b : ℕ) → leb a b ≡ true → a ≤ b
leb→le a b h = ground arith

module _ {A : Type 0} where
  get_or-append :
      (xs ys : List A) (n i : ℕ) (d : A) → n ≡ length xs + i → get_or (xs ++ ys) n d ≡ get_or ys i d
  get_or-append [] ys n i d e = ap (λ n. get_or ys n d) (omega (arith, e))
  get_or-append (x ∷ xs) ys zero i d e = absurd (omega (arith, e))
  get_or-append (x ∷ xs) ys (suc n) i d e = get_or-append xs ys n i d (omega (arith, e))

  -- Entries in front of those that the proxies append make no difference.
  hop-append :
      (peer : A) (hops : ℕ) (front back : List A)
      → hops ≤ length back
      → 0 < hops
      → hop peer hops (front ++ back) ≡ hop peer hops back
  unfolding hop
  hop-append peer hops [] back h k = refl
  hop-append peer hops (x ∷ front) [] h k = absurd (omega (arith, h, k))
  hop-append peer hops (x ∷ front) (y ∷ back) h k =
      let all = x ∷ front ++ y ∷ back in
      let past : leb (length all) hops ≡ false = ground (arith, length-append front (y ∷ back)) in
      let at =
        get_or-append (x ∷ front) (y ∷ back) (length all - hops) (length (y ∷ back) - hops) peer
          (omega (arith, length-append front (y ∷ back), h)) in
      ap (λ b. if b then x else get_or all (length all - hops) peer) past
      ∙ at
      ∙ from_back (leb (length (y ∷ back)) hops) refl
    where
      from_back :
          (b : Bool)
          → leb (length (y ∷ back)) hops ≡ b
          → get_or (y ∷ back) (length (y ∷ back) - hops) peer
            ≡ (if b then y else get_or (y ∷ back) (length (y ∷ back) - hops) peer)
      from_back true e =
          let none_left : length (y ∷ back) - hops ≡ 0 =
            omega (arith, leb→le (length (y ∷ back)) hops e, h) in
          ap (λ n. get_or (y ∷ back) n peer) none_left
      from_back false e = refl

-- However a client fills the header, behind as many trusted proxies as are configured its address is
-- read from what the proxies append: if their part holds at least that many addresses, whatever
-- stands in front of it makes no difference.
pub client_ip_spoofed :
    {Ip : Type 0} (parse : List ℕ → Option Ip) (peer : Ip) (forged appended : List ℕ) (trusted : ℕ)
    → trusted ≤ length (chain_of parse appended)
    → client_ip parse peer (some (forged ++ b',' ∷ appended)) trusted
      ≡ client_ip parse peer (some appended) trusted
unfolding client_ip chain_of
client_ip_spoofed parse peer forged appended zero h = refl
client_ip_spoofed parse peer forged appended (suc n) h =
    let parts =
      ap (filter_map parse) (split_at forged appended)
      ∙ filter_map-append parse (split forged) (split appended) in
    ap
      (λ t.
        if t then peer else hop peer (suc n) (filter_map parse (split (forged ++ b',' ∷ appended))))
      (not_zero n)
    ∙ ap (hop peer (suc n)) parts
    ∙ hop-append peer (suc n) (filter_map parse (split forged)) (filter_map parse (split appended))
        h (omega arith)
    ∙ ap (λ t. if t then peer else hop peer (suc n) (filter_map parse (split appended)))
        (sym (not_zero n))
  where
    not_zero : (n : ℕ) → (suc n == 0) ≡ false
    not_zero n = ground arith
