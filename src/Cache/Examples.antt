-- ===== src/Cache/Examples.antt =====
-- crates/cache: tests, and the theorems at concrete addresses and calls.
use kit.Prelude.{ℕ, ◌+◌, true, false, none, some, List, [], ◌∷◌, ◌++◌, map, ◌≡◌, refl, any, ok, err}
use kit.Prelude.Sort.{codes}
use kit.Prelude.Text.{starts_with}
use kit.Prelude.Text.Split.{rsplit_once, cut, has}
use kit.Cache.Url.{
  scheme_end, split_scheme, redact_url, redact_rest, host_part, ends_search, ends_host,
}
use kit.Cache.Url.Credentials.{redact_url_leaks}
use kit.Cache.Connect.{
  CacheConfig, Error, Fred, failed, other, refused, configured, tls_configured, overridden, build,
  after_wait, connect, is_transient,
}
use kit.Cache.Swr.{
  Swr, Answers, failure, gets, locks, loads, deletes_lock, then_done, load_under_lock, miss,
  with_raw, get_or_load,
}
use kit.Cache.Swr.Lock.{Locks, Reach, AnyTime, single_flight_broken}

abbrev name : List ℕ
name = b'r' ∷ b's' ∷ []

abbrev colon : List ℕ
colon = b':' ∷ b'p' ∷ b'/' ∷ b'w' ∷ []

abbrev host : List ℕ
host = b'h' ∷ []

leak_test : redact_url (codes "redis://:pa@ss?word@host") ≡ codes "redis://ss"
unfolding codes redact_url split_scheme starts_with redact_rest cut rsplit_once host_part
leak_test = refl

plain_name : has b':' name ≡ false
unfolding any
plain_name = refl

credentials_plain : any ends_search (b':' ∷ b'p' ∷ b'a' ∷ []) ≡ false
unfolding any
credentials_plain = refl

ss_host : any ends_host (b's' ∷ b's' ∷ []) ≡ false
unfolding any
ss_host = refl

ss_at : has b'@' (b's' ∷ b's' ∷ []) ≡ false
unfolding any
ss_at = refl

redact_url_leaks_example :
    redact_url (
      name
      ++ (scheme_end
          ++ (([] ++ b':' ∷ ((b'p' ∷ b'a' ∷ []) ++ b'@' ∷ ((b's' ∷ b's' ∷ []) ++ b'?' ∷ b'w' ∷ [])))
              ++ b'@' ∷ host)))
    ≡ (name ++ scheme_end) ++ b's' ∷ b's' ∷ []
redact_url_leaks_example =
    redact_url_leaks name [] (b'p' ∷ b'a' ∷ []) (b's' ∷ b's' ∷ []) (b'w' ∷ []) host plain_name
      credentials_plain ss_host ss_at

-- An encoding that moves every byte behind the separators.
abbrev moved : List ℕ → List ℕ
moved = map (λ c. c + 65)

abbrev toy_fred : Fred
toy_fred = record {
  Config = ℕ;
  Tls = ℕ;
  Cert = ℕ;
  Pool = ℕ;
  from_url = λ u. some 0;
  with_password = λ p c. c;
  with_tls = λ t c. c;
  with_fail_fast = λ b c. c;
  new_pool = λ c n. some 7;
  read = λ p. none;
  pem_certs = λ b. none;
  accepts = λ c. true;
  tls_of = λ cs. 0;
}

abbrev settings : CacheConfig
settings = record {
  url = name ++ scheme_end ++ host;
  password = none;
  ca_cert_path = none;
  pool_size = 6;
}

abbrev wrong_password : Error
wrong_password = record { kind = other; details = [] }

refused_test :
    connect toy_fred moved (λ p. failed wrong_password) settings ≡ err (refused wrong_password)
unfolding connect configured build after_wait is_transient tls_configured overridden starts_with
    codes
refused_test = refl

abbrev policy : Swr
policy = record { fresh_ttl = 1000000000; lock_ttl = 50000000; bypass = false }

-- The lock is taken and the loader fails.
abbrev outage : Answers ℕ
outage = record {
  get = ok none;
  get_now_ms = 5;
  set_lock = ok true;
  load = err failure;
  poll = λ i. ok none;
  poll_now_ms = λ i. 5;
  from_str = λ raw. none;
}

outage_test :
    get_or_load policy outage
    ≡ record { result = err failure; effects = gets ∷ locks ∷ loads ∷ deletes_lock ∷ [] }
unfolding get_or_load with_raw miss load_under_lock then_done
outage_test = refl

abbrev one_loads : Locks
one_loads = record { expires = some 53; loading = 3 ∷ [] }

single_flight_broken_example :
    Reach 50 AnyTime (record { expires = some 103; loading = 53 ∷ 53 ∷ [] })
single_flight_broken_example = single_flight_broken 50 3
