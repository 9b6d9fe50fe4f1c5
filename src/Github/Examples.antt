-- ===== src/Github/Examples.antt =====
-- crates/github: tests, and the theorems at concrete answers of GitHub.
use kit.Prelude.{
  ℕ, ◌+◌, ◌<◌, true, Option, none, some, String, List, [], ◌∷◌, ◌≡◌, ◌⊎◌, refl, any, ok,
}
use kit.Prelude.Int.{pos, eq_ℤ}
use kit.Prelude.Text.{bytes_eq}
use kit.Prelude.Json.{
  Value, object, array, int, Items, nil, cons, field, end, get as get_key, as_array,
}
use kit.Oauth.Social.{TokenResponse as OauthToken, exchange_code}
use kit.Github.App.{
  Crates, Cache, GithubAppAuth, refresh_margin_secs, app_jwt, expiry_of, is_fresh, join, get,
  cached, entry_of, mint, installation_token,
}
use kit.Github.App.Names.{AreNames}
use kit.Github.App.Scope.{IsGranted, start, call, installation_token-IsGranted}
use kit.Github.Ownership.{
  GithubOauth, new_oauth, any_id, owns_installation, token_of, user_owns_installation, get_field,
  Lists, user_owns_installation-Lists,
}

-- GitHub grants a token for an hour, whose text is the same in every round.
abbrev crates : Crates
crates = record {
  EncodingKey = Unit;
  from_rsa_pem = λ pem. some tt;
  encode = λ claims key. some "jwt";
  send = λ round request. some (record { token = "ghs"; expires_at = "later" });
  parse_from_rfc3339 = λ text. some (pos 4600);
}

abbrev auth : GithubAppAuth crates
auth = record { app_id = 7; key = tt; user_agent = "ferrflow" }

abbrev repos : List (List ℕ)
repos = (b'k' ∷ []) ∷ (b'i' ∷ b't' ∷ []) ∷ []

repos-AreNames : AreNames repos
unfolding AreNames any
repos-AreNames = refl

abbrev later_cache : Cache
later_cache = (installation_token crates auth 0 (some 1000) (pos 42) repos []).1

served_test : (installation_token crates auth 1 (some 1010) (pos 42) repos later_cache).0 ≡ ok "ghs"
unfolding installation_token cached get join mint app_jwt entry_of expiry_of is_fresh eq_ℤ bytes_eq
served_test = refl

installation_token-IsGranted_example :
    (expiry : ℕ) × (g : IsGranted crates auth (pos 42) repos "ghs" expiry) × ((1010
          + refresh_margin_secs
        < expiry)
      ⊎ (g.round ≡ 1))
installation_token-IsGranted_example =
    installation_token-IsGranted crates auth 1 1010 (pos 42) repos later_cache "ghs"
      (call 0 (some 1000) (pos 42) repos repos-AreNames start) repos-AreNames served_test

abbrev post : String → List (String × String) → Option OauthToken
post url form = some (record { access_token = some "gho"; error = none })

abbrev payload : Value
payload = object (
    field "installations"
      (array (
        cons (object (field "id" (int (pos 11)) end))
          (cons (object (field "id" (int (pos 42)) end)) nil)))
      end)

abbrev installations : String → String → Option Value
installations token user_agent = some payload

abbrev oauth : GithubOauth
oauth = new_oauth "id" "secret" "https://a.b" "ferrflow"

owned_test : user_owns_installation post installations oauth "code" (pos 42) ≡ ok true
unfolding user_owns_installation token_of new_oauth exchange_code owns_installation any_id get_key
    eq_ℤ
owned_test = refl

user_owns_installation-Lists_example :
    (token : String) × (answer : Value) × (items : Items) × (exchange_code post oauth.oauth "code"
        none
      ≡ ok token)
    × (installations token oauth.user_agent ≡ some answer)
    × (as_array (get_field "installations" answer) ≡ some items)
    × Lists (pos 42) items
user_owns_installation-Lists_example =
    user_owns_installation-Lists post installations oauth "code" (pos 42) owned_test
