-- ===== src/Billing/Examples.antt =====
-- crates/billing: tests, and the theorems at concrete headers and events.
use kit.Prelude.{ℕ, ◌≤◌, true, none, some, List, [], ◌∷◌, ◌≡◌, refl, ok, any, length}
use kit.Prelude.Int.{pos}
use kit.Prelude.Rows.{find}
use kit.Prelude.Json.{null}
use kit.Prelude.Text.{bytes_eq, to_string, digits_of}
use kit.Prelude.Text.Split.{split_once, trim_by}
use kit.Prelude.Strings.{is_whitespace}
use kit.Webhooks.{
  Crates, abs_diff, unsigned_abs, i64_to_string, parse_i64, parse_digits, digits_value,
}
use kit.Billing.Signature.{
  ParsedHeader, parts, read_pair, read_pairs, parsed, parse_signature_header, expected_signature,
  tolerance, verify_parsed, verify_signature, verify_optional_signature,
}
use kit.Billing.Signature.Verified.{verify_signature_sound}
use kit.Billing.Events.{
  ferr_track, slug, all, product_from_slug, Metadata, owner_of, team, RawEvent, Shapes, canceled,
  SubscriptionChange, subscription_deleted, change_from_subscription, tier_from_str, event_of,
  parse_event,
}
use kit.Billing.Events.Changes.{Carries, parse_event-Carries}

abbrev crates : Crates
crates = record {
  compute = λ secret body. length secret ∷ length body ∷ [];
  encode = λ bytes. bytes;
  decode = λ text. some text;
}

abbrev secret : List ℕ
secret = b's' ∷ []

abbrev body : List ℕ
body = b'h' ∷ b'i' ∷ []

-- `t=17,v0=x, v1=..`, with the signature of `17.hi`.
abbrev header : List ℕ
header =
    b't' ∷ b'=' ∷ b'1' ∷ b'7' ∷ b',' ∷ b'v' ∷ b'0' ∷ b'=' ∷ b'x' ∷ b',' ∷ b' ' ∷ b'v' ∷ b'1' ∷ b'='
    ∷ 1 ∷ 5 ∷ []

verified_test :
    verify_optional_signature crates body (some header) secret (pos 20) (pos 5) ≡ ok (pos 17)
unfolding verify_optional_signature verify_signature verify_parsed parse_signature_header parts
    read_pairs read_pair parsed expected_signature abs_diff unsigned_abs i64_to_string to_string
    digits_of parse_i64 parse_digits digits_value split_once trim_by is_whitespace bytes_eq any
verified_test = refl

verify_signature_sound_example :
    (text : List ℕ) × (p : ParsedHeader) × (some header ≡ some text)
    × (parse_signature_header crates text ≡ ok p)
    × ((p.timestamp ≡ pos 17)
        × (abs_diff (pos 20) (pos 17) ≤ tolerance crates (pos 5))
        × (any
              (λ candidate. bytes_eq candidate (expected_signature crates secret (pos 17) body))
              p.v1_signatures
            ≡ true))
verify_signature_sound_example =
    verify_signature_sound crates body secret (some header) (pos 20) (pos 5) (pos 17) verified_test

abbrev v0 : List ℕ
v0 = b'v' ∷ b'0' ∷ b'=' ∷ b'x' ∷ []

abbrev metadata : Metadata
metadata = record { org_id = some "org"; product = some "ferrtrack"; tier = some "team" }

abbrev deletion : RawEvent
deletion = record { event_type = "customer.subscription.deleted"; object = null }

-- Stripe's object may still say `active`.
abbrev shapes : Shapes
shapes = record {
  event = λ payload. some deletion;
  invoice = λ object. none;
  subscription = λ object.
      some (record { id = "sub"; customer = "cus"; status = "active"; metadata = metadata });
}

abbrev deleted : SubscriptionChange
deleted = record {
  stripe_subscription_id = "sub";
  stripe_customer_id = "cus";
  org_id = "org";
  product = ferr_track;
  tier = team;
  status = canceled;
}

deleted_test : parse_event shapes body ≡ ok (subscription_deleted deleted)
unfolding parse_event event_of change_from_subscription owner_of product_from_slug find all slug
    tier_from_str
deleted_test = refl

parse_event-Carries_example :
    (raw : RawEvent) × (shapes.event body ≡ some raw)
    × Carries shapes raw (subscription_deleted deleted)
parse_event-Carries_example =
    parse_event-Carries shapes body (subscription_deleted deleted) deleted_test
