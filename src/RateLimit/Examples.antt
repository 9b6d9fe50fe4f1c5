-- ===== src/RateLimit/Examples.antt =====
-- crates/ratelimit: the theorems at a concrete arithmetic, limiter and header.
use kit.Prelude.{
  ℕ, ◌+◌, ◌-◌, ◌*◌, ◌≤◌, true, Option, none, some, List, [], ◌∷◌, ◌++◌, ◌≡◌, refl, arith, leb,
  filter_map,
}
use kit.RateLimit.Float.{Float, IsFloat}
use kit.RateLimit.Limiter.{Quota, Buckets, check, checks, prune}
use kit.RateLimit.Limiter.Pruning.{prune_unobservable}
use native.Mathlib.Nat.{mul-le-mul_right}
use kit.RateLimit.Ip.{split, hop, chain_of, client_ip}
use kit.RateLimit.Ip.Spoofing.{client_ip_spoofed}

-- The natural numbers, on which subtraction stops at 0.
abbrev whole : Float
whole = record {
  F = ℕ;
  of_u32 = λ n. n;
  add = λ a b. a + b;
  sub = λ a b. a - b;
  mul = λ a b. a * b;
  le = leb;
}

leb_mul : (a b r : ℕ) → leb a b ≡ true → leb (a * r) (b * r) ≡ true
leb_mul a b r h =
    let le : a ≤ b = ground (arith, h) in
    let product : a * r ≤ b * r = mul-le-mul_right r le in ground (arith, product)

whole-IsFloat : IsFloat whole
whole-IsFloat = record {
  le_refl = λ a. ground arith;
  le_trans = λ a b c h k. ground (arith, h, k);
  le_antisym = λ a b h k. ground (arith, h, k);
  le_total = λ a b h. ground (arith, h);
  of_u32_le = λ m n h k. refl;
  sub_one = λ n h. omega arith;
  sub_self = λ a. omega arith;
  add_zero = λ a. omega arith;
  zero_mul = λ r. omega arith;
  add_mono = λ a b x h. ground (arith, h);
  sub_mono = λ a b x h. ground (arith, h);
  mul_mono = λ a b r h k. leb_mul a b r h;
  sub_pos = λ a b h. ground arith;
  sub_le = λ a b h. ground arith;
}

abbrev quota : Quota whole
quota = record { capacity = 2; refill_per_sec = 1 }

abbrev fresh : Buckets whole
fresh k = none

abbrev busy : Buckets whole
busy = (check whole quota 11 "b" (check whole quota 10 "a" fresh).1).1

prune_unobservable_example :
    (checks whole quota ((13, "a") ∷ (13, "b") ∷ (13, "a") ∷ []) (prune whole quota 12 busy)).0
    ≡ (checks whole quota ((13, "a") ∷ (13, "b") ∷ (13, "a") ∷ []) busy).0
prune_unobservable_example =
    prune_unobservable whole whole-IsFloat quota refl 12 ((13, "a") ∷ (13, "b") ∷ (13, "a") ∷ [])
      busy (refl, (refl, (refl, tt)))

-- Addresses of one digit.
abbrev digit : List ℕ → Option ℕ
digit (c ∷ []) = some (c - b'0')
digit _ = none

client_ip_spoofed_example :
    client_ip digit 0 (some ((b'9' ∷ b',' ∷ b'8' ∷ []) ++ b',' ∷ (b'7' ∷ b',' ∷ b'6' ∷ []))) 2
    ≡ client_ip digit 0 (some (b'7' ∷ b',' ∷ b'6' ∷ [])) 2
unfolding chain_of filter_map split
client_ip_spoofed_example =
    client_ip_spoofed digit 0 (b'9' ∷ b',' ∷ b'8' ∷ []) (b'7' ∷ b',' ∷ b'6' ∷ []) 2 (omega arith)

client_ip_test : client_ip digit 0 (some (b'9' ∷ b',' ∷ b'7' ∷ b',' ∷ b'6' ∷ [])) 2 ≡ 7
unfolding client_ip chain_of filter_map split hop
client_ip_test = refl
