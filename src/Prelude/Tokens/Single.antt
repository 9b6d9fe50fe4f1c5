-- ===== src/Prelude/Tokens/Single.antt =====
-- A crate with a single token, of one value, which decodes under one key: it has every property that
-- is assumed of jsonwebtoken, and it computes.
use Prim.Native.Nat.{ℕ}
use Prim.Native.String.{String}
use mathlib.Core.Path.{◌≡◌, refl, sym, ◌∙◌, subst}
use mathlib.Core.Logic.{◌≢◌, inl, inr}
use mathlib.Core.Bool.{Bool, true, false, not, ◌&&◌, ◌||◌}
use mathlib.Core.List.{List, [], ◌∷◌}
use mathlib.Core.Option.{Option, none, some}
use native.Mathlib.Omega.{arith}
use native.Mathlib.Decide.{ℕ_discrete}
use text.Mathlib.Text.{◌==◌ as str_eq}
use text.Mathlib.TextEquality.{eq_iff}
use kit.Prelude.Tests.{ok, err, if◌then◌else◌, Bool-cases, ◌==◌}
use kit.Prelude.Rows.{AllRows}
use kit.Prelude.Int.{ℤ, ltb_ℤ}
use kit.Prelude.Tokens.{
  Registered, ClaimName, Validation, IsPresent, Agrees, AgreesAud, NotBefore, NotAfter, Passes, Jwt,
  Validates, IsPair, IsExact, invalid_signature, expired_signature,
}

abbrev is_some : {A : Type 0} → Option A → Bool
is_some none = false
is_some (some a) = true

abbrev has_claim : Registered → ClaimName → Bool
has_claim r ClaimName.exp_claim = is_some r.exp
has_claim r ClaimName.iss_claim = is_some r.iss
has_claim r ClaimName.aud_claim = is_some r.aud
has_claim r ClaimName.nbf_claim = is_some r.nbf

abbrev has_all : Registered → List ClaimName → Bool
has_all r [] = true
has_all r (c ∷ cs) = has_claim r c && has_all r cs

abbrev agrees : Option String → Option String → Bool
agrees none claim = true
agrees (some e) none = true
agrees (some e) (some claim) = str_eq claim e

abbrev agrees_aud : Option String → Option String → Bool
agrees_aud none claim = not (is_some claim)
agrees_aud (some e) claim = agrees (some e) claim

abbrev not_before : Option ℤ → ℤ → Bool
not_before none now = true
not_before (some t) now = not (ltb_ℤ now t)

abbrev not_after : Option ℤ → ℤ → Bool
not_after none now = true
not_after (some t) now = not (ltb_ℤ t now)

abbrev pub checked : Validation → ℤ → Registered → Bool
checked v now r =
    has_all r v.required_spec_claims
    && (agrees v.iss r.iss
        && (agrees_aud v.aud r.aud
            && ((not v.validate_exp || not_after r.exp now)
                && (not v.validate_nbf || not_before r.nbf now))))

is_some_iff :
    {A : Type 0} (o : Option A) → ((is_some o ≡ true) → o ≢ none) × ((o ≢ none) → is_some o ≡ true)
is_some_iff none = (λ h. cc, λ h. absurd (h refl))
is_some_iff (some a) = (λ h. cc, λ h. refl)

has_claim_iff :
    (r : Registered) (c : ClaimName)
    → ((has_claim r c ≡ true) → IsPresent r c) × (IsPresent r c → has_claim r c ≡ true)
has_claim_iff r ClaimName.exp_claim = is_some_iff r.exp
has_claim_iff r ClaimName.iss_claim = is_some_iff r.iss
has_claim_iff r ClaimName.aud_claim = is_some_iff r.aud
has_claim_iff r ClaimName.nbf_claim = is_some_iff r.nbf

and_true : (a b : Bool) → a ≡ true → b ≡ true → (a && b) ≡ true
and_true a b h k = ground arith

and_both : (a b : Bool) → (a && b) ≡ true → (a ≡ true) × (b ≡ true)
and_both a b h = ground arith

has_all_iff :
    (r : Registered) (cs : List ClaimName)
    → ((has_all r cs ≡ true) → AllRows (IsPresent r) cs)
      × (AllRows (IsPresent r) cs → has_all r cs ≡ true)
has_all_iff r [] = (λ h. tt, λ h. refl)
has_all_iff r (c ∷ cs) =
    let rest = has_all_iff r cs in
    (
      λ h. let (p, q) = and_both _ _ h in ((has_claim_iff r c).0 p, rest.0 q),
      λ h. and_true _ _ ((has_claim_iff r c).1 h.0) (rest.1 h.1),
    )

agrees_iff :
    (e c : Option String) → ((agrees e c ≡ true) → Agrees e c) × (Agrees e c → agrees e c ≡ true)
agrees_iff none c = (λ h. tt, λ h. refl)
agrees_iff (some e) none = (λ h. tt, λ h. refl)
agrees_iff (some e) (some c) = ((eq_iff c e).0, (eq_iff c e).1)

agrees_aud_iff :
    (e c : Option String)
    → ((agrees_aud e c ≡ true) → AgreesAud e c) × (AgreesAud e c → agrees_aud e c ≡ true)
agrees_aud_iff none none = (λ h. refl, λ h. refl)
agrees_aud_iff none (some c) = (λ h. absurd (cc), λ h. absurd (cc))
agrees_aud_iff (some e) c = agrees_iff (some e) c

not_after_iff :
    (o : Option ℤ) (now : ℤ)
    → ((not_after o now ≡ true) → NotAfter o now) × (NotAfter o now → not_after o now ≡ true)
not_after_iff none now = (λ h. tt, λ h. refl)
not_after_iff (some t) now = (λ h. ground arith, λ h. ground arith)

not_before_iff :
    (o : Option ℤ) (now : ℤ)
    → ((not_before o now ≡ true) → NotBefore o now) × (NotBefore o now → not_before o now ≡ true)
not_before_iff none now = (λ h. tt, λ h. refl)
not_before_iff (some t) now = (λ h. ground arith, λ h. ground arith)

unless_iff :
    (a b : Bool)
    → (((not a || b) ≡ true) → a ≡ true → b ≡ true) × ((a ≡ true → b ≡ true) → (not a || b) ≡ true)
unless_iff true b = (λ h k. h, λ h. h refl)
unless_iff false b = (λ h k. cc, λ h. refl)

pub checked-Passes :
    (v : Validation) (now : ℤ) (r : Registered) → checked v now r ≡ true → Passes v now r
checked-Passes v now r h =
    let (a, rest) = and_both _ _ h in
    let (b, rest) = and_both _ _ rest in
    let (c, rest) = and_both _ _ rest in
    let (d, e) = and_both _ _ rest in
    record {
      present = (has_all_iff r v.required_spec_claims).0 a;
      issuer = (agrees_iff v.iss r.iss).0 b;
      audience = (agrees_aud_iff v.aud r.aud).0 c;
      unexpired = λ k. (not_after_iff r.exp now).0 ((unless_iff _ _).0 d k);
      mature = λ k. (not_before_iff r.nbf now).0 ((unless_iff _ _).0 e k);
    }

pub Passes-checked :
    (v : Validation) (now : ℤ) (r : Registered) → Passes v now r → checked v now r ≡ true
Passes-checked v now r p = and_true _ _ ((has_all_iff r v.required_spec_claims).1 p.present) (
    and_true _ _ ((agrees_iff v.iss r.iss).1 p.issuer) (
      and_true _ _ ((agrees_aud_iff v.aud r.aud).1 p.audience) (
        and_true _ _ ((unless_iff _ _).1 (λ k. (not_after_iff r.exp now).1 (p.unexpired k)))
          ((unless_iff _ _).1 (λ k. (not_before_iff r.nbf now).1 (p.mature k))))))

-- The claims are compared with the ones that the token was made of.
pub false_eq : (s t : String) → str_eq s t ≡ false → s ≢ t
false_eq s t h e = let k : true ≡ false = sym ((eq_iff s t).1 e) ∙ h in absurd (cc)

abbrev pub decide_eq : (s t : String) (b : Bool) → str_eq s t ≡ b → Dec (s ≡ t)
decide_eq s t true h = yes ((eq_iff s t).0 h)
decide_eq s t false h = no (false_eq s t h)

abbrev pub String-discrete : Discrete String
String-discrete s t = decide_eq s t (str_eq s t) refl

abbrev pub ℤ-discrete : Discrete ℤ
ℤ-discrete = hlevel (ℕ_discrete)

abbrev pub is_yes : {P : Type 0} → Dec P → Bool
is_yes (yes p) = true
is_yes (no n) = false

holds : {P : Type 0} (d : Dec P) → is_yes d ≡ true → P
holds (yes p) h = p
holds (no n) h = absurd (cc)

module _ {C : Type 0} (registered : C → Registered) (discrete : Discrete C) (only : C) where
  abbrev pub single : Jwt C
  single = record {
    EncodingKey = Unit {0};
    DecodingKey = ℕ;
    encode = λ a c k. if is_yes (discrete c only) then some (7 ∷ []) else none;
    decode = λ now token key v.
        if key == 1
        then if checked v now (registered only) then ok only else err expired_signature
        else err invalid_signature;
  }

  pub single-Validates : Validates registered single
  single-Validates now token key v c h = elim (Bool-cases (key == 1)) [
    | inr f ↦ absurd (ground (arith, h, f))
    | inl t ↦ elim (Bool-cases (checked v now (registered only))) [
      | inr f ↦ absurd (ground (arith, h, t, f))
      | inl p ↦
          let is_only : only ≡ c = ground (arith, h, t, p) in
          subst (λ d. Passes v now (registered d)) is_only
            (checked-Passes v now (registered only) p)
    ]
  ]

  pub single-IsPair : IsPair registered single tt 1
  single-IsPair now token v c h p = elim (Bool-cases (is_yes (discrete c only))) [
    | inr f ↦ absurd (ground (arith, h, f))
    | inl t ↦
        let is_only = holds (discrete c only) t in
        let good : checked v now (registered only) ≡ true =
          Passes-checked v now (registered only)
            (subst (λ d. Passes v now (registered d)) is_only p) in
        ground (arith, good, is_only)
  ]

  pub single-IsExact : IsExact single
  single-IsExact a signing now token key v c c' h k = elim (Bool-cases (is_yes (discrete c only))) [
    | inr f ↦ absurd (ground (arith, h, f))
    | inl t ↦
        let is_only = holds (discrete c only) t in
        elim (Bool-cases (key == 1)) [
          | inr f ↦ absurd (ground (arith, k, f))
          | inl one ↦ elim (Bool-cases (checked v now (registered only))) [
            | inr f ↦ absurd (ground (arith, k, one, f))
            | inl p ↦ ground (arith, k, one, p, is_only)
          ]
        ]
  ]
