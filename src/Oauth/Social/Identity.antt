-- ===== src/Oauth/Social/Identity.antt =====
-- crates/oauth/src/lib.rs: the names of the providers, and the identities that they give.
use kit.Prelude.{
  true, Option, some, String, ◌≡◌, ◌↔◌, inl, inr, refl, arith, eq_iff, ok, Option-cases,
}
use kit.Oauth.Social.{
  OAuthProvider, google, git_hub, discord, as_str, from_str, OAuthUser, Profiles, GoogleUserInfo,
  DiscordUserInfo, parse_user, OAuthClient, userinfo_endpoint, fetch_user,
}

-- A provider is read off exactly its own name, and its name is read as itself.
pub from_str-as_str : (s : String) (p : OAuthProvider) → (from_str s ≡ ok p) ↔ (s ≡ as_str p)
unfolding from_str as_str
from_str-as_str s google =
    (λ h. ground (arith, eq_iff s "google", eq_iff s "github", eq_iff s "discord"), λ h. rw h refl)
from_str-as_str s git_hub =
    (λ h. ground (arith, eq_iff s "google", eq_iff s "github", eq_iff s "discord"), λ h. rw h refl)
from_str-as_str s discord =
    (λ h. ground (arith, eq_iff s "google", eq_iff s "github", eq_iff s "discord"), λ h. rw h refl)

-- The provider itself said that the address is verified.
abbrev pub Asserted : Profiles → OAuthProvider → String → Type 0
Asserted j google body =
    (info : GoogleUserInfo) × (j.google_info body ≡ some info) × (info.email_verified ≡ true)
Asserted j git_hub body = ⊥
Asserted j discord body =
    (info : DiscordUserInfo) × (j.discord_info body ≡ some info) × (info.verified ≡ true)

parse_user-Asserted :
    (j : Profiles) (p : OAuthProvider) (body : String) (u : OAuthUser)
    → parse_user j p body ≡ ok u
    → (u.provider ≡ p) × (u.email_verified ≡ true → Asserted j p body)
unfolding parse_user
parse_user-Asserted j google body u h = elim (Option-cases (j.google_info body)) [
  | inl bad ↦ absurd (ground (arith, h, bad))
  | inr (info, good) ↦ (ground (arith, h, good), λ v. (info, good, ground (arith, h, good, v)))
]
parse_user-Asserted j git_hub body u h = elim (Option-cases (j.git_hub_info body)) [
  | inl bad ↦ absurd (ground (arith, h, bad))
  | inr (info, good) ↦ (ground (arith, h, good), λ v. absurd (ground (arith, h, good, v)))
]
parse_user-Asserted j discord body u h = elim (Option-cases (j.discord_info body)) [
  | inl bad ↦ absurd (ground (arith, h, bad))
  | inr (info, good) ↦ (ground (arith, h, good), λ v. (info, good, ground (arith, h, good, v)))
]

-- A profile that is fetched is of the client's provider, and its address counts as verified only if
-- the provider's own answer says so: never for GitHub, which says nothing of it.
pub fetch_user-Asserted :
    (j : Profiles) (fetch : String → String → Option String) (c : OAuthClient)
    (access_token : String) (u : OAuthUser)
    → fetch_user j fetch c access_token ≡ ok u
    → (u.provider ≡ c.provider)
      × (u.email_verified ≡ true
          → (body : String) × (fetch (userinfo_endpoint c.provider) access_token ≡ some body)
            × Asserted j c.provider body)
unfolding fetch_user
fetch_user-Asserted j fetch c access_token u h =
    elim (Option-cases (fetch (userinfo_endpoint c.provider) access_token)) [
      | inl bad ↦ absurd (ground (arith, h, bad))
      | inr (body, got) ↦
          let (same, told) = parse_user-Asserted j c.provider body u (ground (arith, h, got)) in
          (same, λ v. (body, got, told v))
    ]
