-- ===== src/Github/Ownership.antt =====
-- crates/github/src/ownership.rs: whether a user has an installation, by GitHub's own answer.
use kit.Prelude.{
  Bool, true, false, Option, none, some, String, List, ◌≡◌, ◌⊎◌, ap, ◌∙◌, inl, inr, arith,
  Bool-cases, Option-cases, if◌then◌else◌, Result, ok, err, ◌>>=◌, ok_or, ok_or-eq-ok, >>=-eq-ok,
}
use kit.Prelude.Int.{ℤ, eq_ℤ, eq_ℤ→eq}
use kit.Prelude.Json.{Value, object, Items, nil, cons, get, as_array, as_i64}
use kit.Oauth.Social.{OAuthClient, OAuthError, TokenResponse, git_hub, new, exchange_code}
use kit.Github.{GithubError, http, exchange}

-- `Value::get`.
abbrev pub get_field : String → Value → Option Value
get_field key (object fields) = get key fields
get_field key v = none

unfoldable pub any_id : ℤ → Items → Bool
any_id installation_id nil = false
any_id installation_id (cons entry installations) =
    let rest = any_id installation_id installations in
    elim (as_i64 (get_field "id" entry)) [
      | none ↦ rest
      | some id ↦ if eq_ℤ id installation_id then true else rest
    ]

unfoldable pub owns_installation : Value → ℤ → Bool
owns_installation payload installation_id = elim (as_array (get_field "installations" payload)) [
  | none ↦ false
  | some installations ↦ any_id installation_id installations
]

pub record GithubOauth : Type 0 where
  pub oauth : OAuthClient
  pub user_agent : String

unfoldable pub new_oauth : String → String → String → String → GithubOauth
new_oauth client_id client_secret redirect_uri user_agent = record {
  oauth = new git_hub client_id client_secret redirect_uri none;
  user_agent = user_agent;
}

-- `post` answers the exchange, `installations` the list for a token and an agent, each if it is a success
-- and can be read.
module _ (post : String → List (String × String) → Option TokenResponse)
    (installations : String → String → Option Value) where
  unfoldable pub token_of : GithubOauth → String → Result GithubError String
  token_of g code = elim (exchange_code post g.oauth code none) [
    | err e ↦ err (exchange e)
    | ok token ↦ ok token
  ]

  unfoldable pub user_owns_installation : GithubOauth → String → ℤ → Result GithubError Bool
  user_owns_installation g code installation_id = token_of g code >>= λ token.
      ok_or (installations token g.user_agent) (http "listing the user's installations")
      >>= λ payload. ok (owns_installation payload installation_id)

-- An entry of the list with this id.
unfoldable pub Lists : ℤ → Items → Type 0
Lists installation_id nil = ⊥
Lists installation_id (cons entry items) =
    (as_i64 (get_field "id" entry) ≡ some installation_id) ⊎ Lists installation_id items

any_id-Lists :
    (installation_id : ℤ) (items : Items)
    → any_id installation_id items ≡ true
    → Lists installation_id items
unfolding any_id Lists
any_id-Lists installation_id nil h = absurd (cc)
any_id-Lists installation_id (cons entry items) h =
    elim (Option-cases (as_i64 (get_field "id" entry))) [
      | inl no_id ↦ inr (any_id-Lists installation_id items (ground (arith, h, no_id)))
      | inr (id, is_id) ↦ elim (Bool-cases (eq_ℤ id installation_id)) [
        | inl same ↦ inl (is_id ∙ ap some (eq_ℤ→eq id installation_id same))
        | inr differs ↦ inr (any_id-Lists installation_id items (ground (arith, h, is_id, differs)))
      ]
    ]

owns_installation-Lists :
    (payload : Value) (installation_id : ℤ)
    → owns_installation payload installation_id ≡ true
    → (items : Items) × (as_array (get_field "installations" payload) ≡ some items)
      × Lists installation_id items
unfolding owns_installation
owns_installation-Lists payload installation_id h =
    elim (Option-cases (as_array (get_field "installations" payload))) [
      | inl no_list ↦ absurd (ground (arith, h, no_list))
      | inr (items, is_list) ↦
          (items, is_list, any_id-Lists installation_id items (ground (arith, h, is_list)))
    ]

-- A user is said to own an installation only if GitHub exchanged the code for a token and answered, for
-- that token, an object whose `installations` is an array with an object of which `id` is this very
-- integer: no other shape of an answer grants anything.
pub user_owns_installation-Lists :
    (post : String → List (String × String) → Option TokenResponse)
    (installations : String → String → Option Value) (g : GithubOauth) (code : String)
    (installation_id : ℤ)
    → user_owns_installation post installations g code installation_id ≡ ok true
    → (token : String) × (payload : Value) × (items : Items) × (exchange_code post g.oauth code none
        ≡ ok token)
      × (installations token g.user_agent ≡ some payload)
      × (as_array (get_field "installations" payload) ≡ some items)
      × Lists installation_id items
unfolding user_owns_installation token_of
user_owns_installation-Lists post installations g code installation_id h =
    let (token, got, rest) = >>=-eq-ok (token_of post installations g code) _ h in
    let (payload, listed, owned) =
      >>=-eq-ok (ok_or (installations token g.user_agent) (http "listing the user's installations"))
        _ rest in
    let (items, is_list, lists) =
      owns_installation-Lists payload installation_id
        (ap (λ r. elim r as (λ x. Bool) [ ok b ↦ b | err e ↦ false ]) owned) in
    (
      token,
      payload,
      items,
      exchanged (exchange_code post g.oauth code none) token got,
      ok_or-eq-ok (installations token g.user_agent) _ listed,
      is_list,
      lists,
    )
  where
    exchanged :
        (r : Result OAuthError String) (token : String)
        → elim r as (λ x. Result GithubError String) [ err e ↦ err (exchange e) | ok t ↦ ok t ]
          ≡ ok token
        → r ≡ ok token
    exchanged (ok t) token h' =
        ap ok (ap (λ r. elim r as (λ x. String) [ ok b ↦ b | err e ↦ "" ]) h')
    exchanged (err e) token h' = absurd (cc)
