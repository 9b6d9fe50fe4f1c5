-- ===== src/Cache/Url/Credentials.antt =====
-- crates/cache/src/lib.rs: addresses with credentials.
use kit.Prelude.{
  ℕ, Bool, false, ◌||◌, Option, none, some, List, [], ◌∷◌, ◌++◌, ◌≡◌, refl, ap, ◌∙◌, arith, ◌==◌,
  any, any-append,
}
use kit.Prelude.Text.{starts_with}
use kit.Prelude.Text.Split.{
  has, split_once, rsplit_once, cut, split_once-append, rsplit_once-append, cut-append, Begins,
  cut-Begins,
}
use kit.Cache.Url.{
  scheme_end, split_scheme, ends_search, ends_host, host_part, redact_rest, redact_url,
  encode_userinfo, percent_encode_userinfo,
}

-- A name with no colon, then "://".
split_scheme-append :
    (name rest : List ℕ)
    → has b':' name ≡ false
    → split_scheme (name ++ (scheme_end ++ rest)) ≡ some (name ++ scheme_end, rest)
unfolding split_scheme starts_with any
split_scheme-append [] rest h = refl
split_scheme-append (c ∷ name) rest h = ground (arith, split_scheme-append name rest)

append_assoc : (xs ys zs : List ℕ) → (xs ++ ys) ++ zs ≡ xs ++ (ys ++ zs)
append_assoc [] ys zs = refl
append_assoc (x ∷ xs) ys zs = ap (◌∷◌ x) (append_assoc xs ys zs)

-- An address: a scheme, credentials without `?` and `#`, a host, and what follows it up to the query,
-- and from the query on.
abbrev pub address : List ℕ → List ℕ → List ℕ → List ℕ → List ℕ → List ℕ
address name userinfo host path query =
    name ++ (scheme_end ++ ((userinfo ++ b'@' ∷ (host ++ path)) ++ query))

pub record IsAddress (name userinfo host path query : List ℕ) : Type 0 where
  pub plain_name : has b':' name ≡ false
  pub credentials : any ends_search userinfo ≡ false
  pub plain_host : any ends_host host ≡ false
  pub no_at : has b'@' (host ++ path) ≡ false
  pub path_begins : Begins ends_host path
  pub plain_path : any ends_search path ≡ false
  pub query_begins : Begins ends_search query

host_search : (host : List ℕ) → any ends_host host ≡ false → any ends_search host ≡ false
unfolding any
host_search [] h = refl
host_search (c ∷ host) h = ground (arith, host_search host)

search_host : (query : List ℕ) → Begins ends_search query → Begins ends_host query
search_host [] h = tt
search_host (c ∷ query) h = ground arith

Begins-append :
    (path query : List ℕ)
    → Begins ends_host path
    → Begins ends_search query
    → Begins ends_host (path ++ query)
Begins-append [] query h k = search_host query k
Begins-append (c ∷ path) query h k = h

append-nil : (xs : List ℕ) → xs ++ [] ≡ xs
append-nil [] = refl
append-nil (x ∷ xs) = ap (◌∷◌ x) (append-nil xs)

or_false : (a b : Bool) → a ≡ false → b ≡ false → (a || b) ≡ false
or_false a b h k = ground arith

module _ (name userinfo host path query : List ℕ)
    (a : IsAddress name userinfo host path query) where
  front : List ℕ
  front = userinfo ++ b'@' ∷ (host ++ path)

  front_plain : any ends_search front ≡ false
  unfolding front any
  front_plain =
      any-append ends_search userinfo (b'@' ∷ (host ++ path))
      ∙ or_false _ _ a.credentials (
          any-append ends_search host path
          ∙ or_false _ _ (host_search host a.plain_host) a.plain_path)

  searched : cut ends_search (front ++ query) ≡ (front, query)
  searched =
      cut-append ends_search front query front_plain
      ∙ rw (cut-Begins ends_search query a.query_begins) (ap (λ f. (f, query)) (append-nil front))

  separated : rsplit_once b'@' front ≡ some (userinfo, host ++ path)
  unfolding front
  separated = rsplit_once-append b'@' userinfo (host ++ path) a.no_at

  hosted : cut ends_host ((host ++ path) ++ query) ≡ (host, path ++ query)
  hosted =
      ap (cut ends_host) (append_assoc host path query)
      ∙ cut-append ends_host host (path ++ query) a.plain_host
      ∙ rw
          (cut-Begins ends_host (path ++ query)
            (Begins-append path query a.path_begins a.query_begins))
          (ap (λ f. (f, path ++ query)) (append-nil host))

  scheme_split :
      split_scheme (address name userinfo host path query)
      ≡ some (name ++ scheme_end, front ++ query)
  unfolding front
  scheme_split = split_scheme-append name (front ++ query) a.plain_name

  pub redact_url-address :
      redact_url (address name userinfo host path query) ≡ (name ++ scheme_end) ++ host
  unfolding redact_url redact_rest host_part
  redact_url-address = ground (arith, scheme_split, searched, separated, hosted)

none_in_nil : any ends_search [] ≡ false
unfolding any
none_in_nil = refl

-- A password with an `@` and behind it a `?` is logged in part: what stands between the two is taken
-- for the host.
pub redact_url_leaks :
    (name user p q r host : List ℕ)
    → has b':' name ≡ false
    → any ends_search (user ++ b':' ∷ p) ≡ false
    → any ends_host q ≡ false
    → has b'@' q ≡ false
    → redact_url
        (name ++ (scheme_end ++ ((user ++ b':' ∷ (p ++ b'@' ∷ (q ++ b'?' ∷ r))) ++ b'@' ∷ host)))
      ≡ (name ++ scheme_end) ++ q
redact_url_leaks name user p q r host plain credentials host_like no_at =
    ap redact_url regroup
    ∙ redact_url-address name (user ++ b':' ∷ p) q [] (b'?' ∷ (r ++ b'@' ∷ host)) (record {
      plain_name = plain;
      credentials = credentials;
      plain_host = host_like;
      no_at = ap (has b'@') (append-nil q) ∙ no_at;
      path_begins = tt;
      plain_path = none_in;
      query_begins = refl;
    })
  where
    none_in : any ends_search [] ≡ false
    none_in = none_in_nil

    regroup :
        name ++ (scheme_end ++ ((user ++ b':' ∷ (p ++ b'@' ∷ (q ++ b'?' ∷ r))) ++ b'@' ∷ host))
        ≡ address name (user ++ b':' ∷ p) q [] (b'?' ∷ (r ++ b'@' ∷ host))
    regroup = simp (append_assoc, append-nil)

-- What a client reads of the rest of an address: the credentials in front of the first `@`, the user
-- in front of their first colon, both decoded.
abbrev pub credentials_of : (List ℕ → List ℕ) → List ℕ → Option (List ℕ × List ℕ)
credentials_of decode rest = elim (split_once b'@' rest) [
  | none ↦ none
  | some (userinfo, after) ↦ elim (split_once b':' userinfo) [
    | none ↦ none
    | some (user, pass) ↦ some (decode user, decode pass)
  ]
]

-- What percent-encoding promises: no byte that separates the parts is left, and it can be undone.
abbrev pub special : ℕ → Bool
special c = (c == b':') || ((c == b'@') || ((c == b'?') || (c == b'#')))

pub record Encodes (encode decode : List ℕ → List ℕ) : Type 0 where
  pub plain : (s : List ℕ) → any special (encode s) ≡ false
  pub undone : (s : List ℕ) → decode (encode s) ≡ s

special-has :
    (xs : List ℕ)
    → any special xs ≡ false
    → (has b':' xs ≡ false) × (has b'@' xs ≡ false) × (any ends_search xs ≡ false)
unfolding any
special-has [] h = (refl, refl, refl)
special-has (c ∷ xs) h = ground (arith, special-has xs)

module _ (encode decode : List ℕ → List ℕ) (encodes : Encodes encode decode)
    (name user pass host path query : List ℕ)
    (a : IsAddress name (user ++ b':' ∷ pass) host path query)
    (one_colon : has b':' user ≡ false) where
  abbrev pub encoded : List ℕ
  encoded = encode user ++ b':' ∷ encode pass

  at_free : has b'@' encoded ≡ false
  unfolding any
  at_free =
      any-append (λ d. d == b'@') (encode user) (b':' ∷ encode pass)
      ∙ or_false _ _ (special-has (encode user) (encodes.plain user)).1
          (special-has (encode pass) (encodes.plain pass)).1

  encode_userinfo-encoded : encode_userinfo encode (user ++ b':' ∷ pass) ≡ encoded
  unfolding encode_userinfo
  encode_userinfo-encoded = ground (arith, split_once-append b':' user pass one_colon)

  -- The address of a user and a password in which both are encoded is the same one, host, path and
  -- query included, with the encoded credentials; a client that splits it at the first `@` and the
  -- first colon and decodes both parts reads the user and the password back, whatever bytes but `?`
  -- and `#` the password has. The encoding is assumed to leave no separator and to be undone.
  pub percent_encode_userinfo-address :
      (percent_encode_userinfo encode (address name (user ++ b':' ∷ pass) host path query)
        ≡ address name encoded host path query)
      × (credentials_of decode ((encoded ++ b'@' ∷ (host ++ path)) ++ query) ≡ some (user, pass))
  unfolding percent_encode_userinfo
  percent_encode_userinfo-address = (same, read)
    where
      direct :
          percent_encode_userinfo encode (address name (user ++ b':' ∷ pass) host path query)
          ≡ (name ++ scheme_end) ++ (encoded ++ b'@' ∷ (host ++ (path ++ query)))
      direct = ground (
        arith,
        scheme_split name (user ++ b':' ∷ pass) host path query a,
        searched name (user ++ b':' ∷ pass) host path query a,
        separated name (user ++ b':' ∷ pass) host path query a,
        hosted name (user ++ b':' ∷ pass) host path query a,
        encode_userinfo-encoded,
      )

      same :
          percent_encode_userinfo encode (address name (user ++ b':' ∷ pass) host path query)
          ≡ address name encoded host path query
      same = direct ∙ simp (append_assoc)

      regroup :
          (encoded ++ b'@' ∷ (host ++ path)) ++ query ≡ encoded ++ b'@' ∷ ((host ++ path) ++ query)
      regroup = append_assoc encoded (b'@' ∷ (host ++ path)) query

      read : credentials_of decode ((encoded ++ b'@' ∷ (host ++ path)) ++ query) ≡ some (user, pass)
      read = ground (
        arith,
        regroup,
        split_once-append b'@' encoded ((host ++ path) ++ query) at_free,
        split_once-append b':' (encode user) (encode pass)
            (special-has (encode user) (encodes.plain user)).0,
        encodes.undone user,
        encodes.undone pass,
      )
