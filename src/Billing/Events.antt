-- ===== src/Billing/Events.antt =====
-- crates/billing/src/events.rs, with the types Plan, Product and SubscriptionStatus of
-- crates/types/src/lib.rs. serde_json is a parameter that reads the three shapes of an event.
pub mod Changes
use kit.Prelude.{
  ℕ, Bool, true, false, not, Option, none, some, String, List, [], ◌∷◌, if◌then◌else◌, str_eq,
  Result, ok, err, ◌>>=◌, ok_or,
}
use kit.Prelude.Json.{Value}
use kit.Prelude.Rows.{find}
use kit.Billing.Signature.{SignatureError}

pub data Plan : Type 0 where
  free pro team enterprise : Plan

pub data Product : Type 0 where
  ferr_flow ferr_vault ferr_track ferr_growth ferr_fleet : Product

unfoldable pub slug : Product → String
slug ferr_flow = "ferrflow"
slug ferr_vault = "ferrvault"
slug ferr_track = "ferrtrack"
slug ferr_growth = "ferrgrowth"
slug ferr_fleet = "ferrfleet"

unfoldable pub all : List Product
all = ferr_flow ∷ ferr_vault ∷ ferr_track ∷ ferr_growth ∷ ferr_fleet ∷ []

unfoldable pub paid : List Product
paid = ferr_vault ∷ ferr_track ∷ ferr_growth ∷ ferr_fleet ∷ []

unfoldable pub is_paid : Product → Bool
is_paid ferr_flow = false
is_paid p = true

pub data SubscriptionStatus : Type 0 where
  trialing active past_due canceled incomplete : SubscriptionStatus

pub data BillingError : Type 0 where
  stripe : String → BillingError
  signature_verification : SignatureError → BillingError
  malformed_payload : BillingError
  missing_field : String → BillingError

pub record SubscriptionChange : Type 0 where
  pub stripe_subscription_id : String
  pub stripe_customer_id : String
  pub org_id : String
  pub product : Product
  pub tier : Plan
  pub status : SubscriptionStatus

pub data WebhookEvent : Type 0 where
  invoice_paid subscription_updated subscription_deleted : SubscriptionChange → WebhookEvent
  other : String → WebhookEvent

pub record Metadata : Type 0 where
  pub org_id : Option String
  pub product : Option String
  pub tier : Option String

pub record RawEvent : Type 0 where
  pub event_type : String
  pub object : Value

pub record RawSubscriptionObject : Type 0 where
  pub id : String
  pub customer : String
  pub status : String
  pub metadata : Metadata

pub record InvoiceLine : Type 0 where
  pub metadata : Metadata
  pub subscription : Option String

pub record RawInvoiceObject : Type 0 where
  pub subscription : Option String
  pub customer : String
  pub metadata : Metadata
  pub lines : List InvoiceLine

pub record Shapes : Type 0 where
  pub event : List ℕ → Option RawEvent
  pub invoice : Value → Option RawInvoiceObject
  pub subscription : Value → Option RawSubscriptionObject

unfoldable pub product_from_slug : String → Option Product
unfolding all slug
product_from_slug s = find (λ p. str_eq (slug p) s) all

unfoldable pub tier_from_str : String → Plan
tier_from_str value =
    if str_eq value "pro"
    then pro
    else if str_eq value "team"
    then team
    else if str_eq value "enterprise"
    then enterprise
    else free

unfoldable pub status_from_stripe : String → SubscriptionStatus
status_from_stripe value =
    if str_eq value "trialing"
    then trialing
    else if str_eq value "active"
    then active
    else if str_eq value "past_due"
    then past_due
    else if str_eq value "unpaid"
    then past_due
    else if str_eq value "canceled"
    then canceled
    else incomplete

-- Of both shapes: the organization, the product and the tier.
abbrev pub Owner : Type 0
Owner = String × Product × Plan

unfoldable pub owner_of : Metadata → Result BillingError Owner
owner_of m = do
  org_id ← ok_or m.org_id (missing_field "metadata.org_id")
  product_slug ← ok_or m.product (missing_field "metadata.product")
  product ← ok_or (product_from_slug product_slug) (missing_field "metadata.product (unknown slug)")
  ok (org_id, product, elim m.tier [ none ↦ free | some t ↦ tier_from_str t ])

unfoldable pub change_from_subscription :
    RawSubscriptionObject → Option SubscriptionStatus → Result BillingError SubscriptionChange
change_from_subscription raw status_override = owner_of raw.metadata >>= λ o. ok (record {
  stripe_subscription_id = raw.id;
  stripe_customer_id = raw.customer;
  org_id = o.0;
  product = o.1;
  tier = o.2;
  status = elim status_override [ none ↦ status_from_stripe raw.status | some s ↦ s ];
})

abbrev pub first : List InvoiceLine → Option InvoiceLine
first [] = none
first (l ∷ lines) = some l

-- The invoice's own metadata, or that of its first line.
unfoldable pub metadata_of : RawInvoiceObject → Metadata
metadata_of raw = elim raw.metadata.org_id [
  | some org ↦ raw.metadata
  | none ↦ elim (first raw.lines) [ none ↦ raw.metadata | some l ↦ l.metadata ]
]

unfoldable pub subscription_of : RawInvoiceObject → Option String
subscription_of raw = elim raw.subscription [
  | some s ↦ some s
  | none ↦ elim (first raw.lines) [ none ↦ none | some l ↦ l.subscription ]
]

unfoldable pub change_from_invoice : RawInvoiceObject → Result BillingError SubscriptionChange
change_from_invoice raw = owner_of (metadata_of raw) >>= λ o. do
  subscription_id ← ok_or (subscription_of raw) (missing_field "subscription")
  ok (record {
    stripe_subscription_id = subscription_id;
    stripe_customer_id = raw.customer;
    org_id = o.0;
    product = o.1;
    tier = o.2;
    status = active;
  })

module _ (shapes : Shapes) where
  unfoldable pub event_of : RawEvent → Result BillingError WebhookEvent
  event_of raw =
      if str_eq raw.event_type "invoice.paid"
      then (do
        invoice ← ok_or (shapes.invoice raw.object) malformed_payload
        change ← change_from_invoice invoice
        ok (invoice_paid change))
      else if str_eq raw.event_type "customer.subscription.updated"
      then (do
        sub ← ok_or (shapes.subscription raw.object) malformed_payload
        change ← change_from_subscription sub none
        ok (subscription_updated change))
      else if str_eq raw.event_type "customer.subscription.deleted"
      then (do
        sub ← ok_or (shapes.subscription raw.object) malformed_payload
        change ← change_from_subscription sub (some canceled)
        ok (subscription_deleted change))
      else ok (other raw.event_type)

  unfoldable pub parse_event : List ℕ → Result BillingError WebhookEvent
  parse_event payload = ok_or (shapes.event payload) malformed_payload >>= event_of
