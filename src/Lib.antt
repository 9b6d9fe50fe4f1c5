-- ===== src/Lib.antt =====
-- A model of the shared Rust crates on which the FerrLabs APIs are built, with the theorems that
-- make their core correct. Each crate is used by itself: a service calls api-version as an axum
-- layer, asks permissions before it acts, keeps its logins in the session store of auth, reads
-- bearer tokens with the extractor of auth, limits requests with ratelimit and hands work to queue.
-- Secrets are sealed by crypto, values are cached behind cache, logins by other providers go
-- through oauth, webhooks and billing read signed requests, and license checks signed keys. The
-- crates share no state; what they have in common is the way they keep it, as tables behind SQL
-- statements or maps.
--
-- The files:
--   Prelude          shared names, tests, lists, sorting, integers; Rows and Rows/Distinct are the
--                    laws of tables under UPDATE, lookup and uniqueness, for queue and auth
--   Permissions      crates/permissions/src/lib.rs: Scope (the enum, parse, implies), ScopeSet (has,
--                    require, intersection, from_strings, the OIDC scope string)
--   ApiVersion       crates/api-version/src: Version (version.rs), Transform (transform.rs), Policy
--                    (policy.rs), Layer (layer.rs); Platform is the interface of http, axum and
--                    serde_json that the layer is generic in
--   Queue            crates/queue/src: Job (job.rs), Table (schema.rs), Client (queue.rs), Worker
--                    (worker.rs)
--   Auth/Session     crates/auth/src/session.rs: PgSessionStore; Store has the table's invariant and
--                    its steps
--   RateLimit        crates/ratelimit/src: Limiter (lib.rs), Ip (ip.rs); Float is the interface of
--                    f64 arithmetic that the limiter is generic in
--   Http             crates/http/src/lib.rs: Address (is_public_unicast), Fetch (safe_get,
--                    safe_post_form); Network is the interface of url, the resolver and reqwest
--   Auth/Jwt         crates/auth/src/jwt.rs and middleware.rs: the config, issue_token, verify_token
--                    under several keys, the extractor AuthUser
--   Auth/Totp        crates/auth/src/totp.rs: verify_step_at and the recovery codes
--   License          crates/license/src/lib.rs: sign and verify
--   Crypto           crates/crypto/src/lib.rs: Envelope (values and keys), Local (LocalKek), Kms
--                    (GcpKmsKek with its cache), Routing (a column with ciphertexts of both)
--   Cache            crates/cache/src: Url and Connect (lib.rs), Swr (swr.rs), where Swr/Lock is the
--                    lock between callers as a step relation
--   Oauth            crates/oauth/src: Oidc (oidc.rs; Client is OidcClient), Social (lib.rs)
--   Webhooks         crates/webhooks/src/lib.rs: signatures, timestamps; Deliveries is the store
--   Billing          crates/billing/src: Signature (webhooks.rs), Events (events.rs, error.rs, with
--                    the plans and products of crates/types/src/lib.rs)
--   Contact          crates/types/src/contact.rs: the checks on a contact request
--   Github           crates/github/src: App (app.rs), Ownership (ownership.rs)
--
-- Prelude/Tokens is the interface of jsonwebtoken for Auth/Jwt, License and Oauth: what its
-- documentation says of signatures and of the claims that are validated; Prelude/Tokens/Single is a
-- crate of this kind. Prelude/Json is the type of serde_json's values, Prelude/Text and
-- Prelude/Strings are the texts. Definitions keep the names of the functions that they model.
-- Examples in each folder has tests and the theorems at concrete data.
--
-- How the code is read. A table of Postgres is the list of its rows, and each SQL statement, or
-- transaction, is one atomic step on it; a statement that the database refuses is a step that is
-- not taken. Rows that other transactions have locked are a test that claim_one skips. Times are
-- microseconds and readings of a clock are arguments, as are ids and tokens that are drawn at
-- random. A HashSet is a list without repetitions, a DashMap a function of its key or a list of
-- entries of which the first with a key counts. Machine integers keep their bounds: u16 and u8 in
-- the parser of versions, u64 in the retry delay, i32 for the attempts, u32 for a quota. A body, a
-- header's value and an X-Forwarded-For header are lists of bytes. debug_assert and logging are
-- left out.
--
-- Recursion is structural, but for the printing of decimal numbers, which has fuel: 4 further
-- digits for a u16, which has at most five, and n + 1 for a length n, and the removal of a repeated
-- prefix (strip_all of Webhooks), whose fuel is the length of the text. The theorems on the printed
-- text show that the fuel is enough. The loop that waits in get_or_load runs its MAX_POLLS rounds.
--
-- Parameters. Platform and its laws (http, axum, serde_json), the interface Float and its laws
-- (IEEE 754 on finite numbers), SHA-256 and the conversion of lifetimes in the session store, the
-- network of the http client (url, DNS, reqwest), the decoding of payloads and the handler of a
-- worker, the parser of one IP address, jsonwebtoken, AES-GCM and the key service of crypto,
-- HMAC-SHA256 and hex of webhooks and billing, totp-rs, fred and rustls of cache, the requests of
-- github, and the shapes that serde_json reads. Nothing is assumed of the ones that have no laws:
-- that no two stored tokens share a hash is a condition on the token drawn for a new session.
--
-- Not modelled: the tasks that only decide when a round of the worker or sweeper runs (timers,
-- LISTEN/NOTIFY, shutdown), logging and metrics, the client of Google's key service, the Stripe
-- client and argon2, and the crates errors, id, telemetry, middleware, mail, db, vault, audit and
-- testkit; they are mostly calls of other services or libraries, or tables.
mod Prelude
pub mod Permissions
pub mod ApiVersion
pub mod Queue
pub mod Auth
pub mod RateLimit
pub mod Http
pub mod Crypto
pub mod License
pub mod Cache
pub mod Oauth
pub mod Webhooks
pub mod Billing
pub mod Contact
pub mod Github
