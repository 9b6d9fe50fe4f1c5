-- ===== src/Billing/Events/Changes.antt =====
-- crates/billing/src/events.rs: the changes that events carry.
use kit.Prelude.{
  ℕ, Option, none, some, String, List, ◌≡◌, ◌≢◌, ◌↔◌, inl, inr, refl, ap, ◌∙◌, arith, str_eq,
  eq_iff, Bool-cases, Result, ok, err, ◌>>=◌, >>=-eq-ok, ok_or, ok_or-eq-ok,
}
use mathlib.Core.Path.{subst}
use kit.Prelude.Rows.{find}
use kit.Billing.Events.{
  Product, ferr_flow, ferr_vault, ferr_track, ferr_growth, ferr_fleet, slug, product_from_slug,
  Metadata, Owner, owner_of, RawEvent, RawSubscriptionObject, RawInvoiceObject, SubscriptionChange,
  SubscriptionStatus, canceled, active, WebhookEvent, invoice_paid, subscription_updated,
  subscription_deleted, other, Shapes, BillingError, status_from_stripe, change_from_subscription,
  change_from_invoice, metadata_of, subscription_of, event_of, parse_event, malformed_payload,
  missing_field,
}

-- A product is read off exactly its own slug.
pub product_from_slug-slug :
    (s : String) (p : Product) → (product_from_slug s ≡ some p) ↔ (s ≡ slug p)
unfolding product_from_slug find
product_from_slug-slug s p = (λ h. read s p h, λ h. rw h (own p))
  where
    own : (p : Product) → product_from_slug (slug p) ≡ some p
    own ferr_flow = refl
    own ferr_vault = refl
    own ferr_track = refl
    own ferr_growth = refl
    own ferr_fleet = refl

    read : (s : String) (p : Product) → product_from_slug s ≡ some p → s ≡ slug p
    read s p h = ground (
      arith,
      eq_iff "ferrflow" s,
      eq_iff "ferrvault" s,
      eq_iff "ferrtrack" s,
      eq_iff "ferrgrowth" s,
      eq_iff "ferrfleet" s,
    )

-- The organization and the product that metadata names.
unfoldable pub Names : Metadata → SubscriptionChange → Type 0
Names m change = (m.org_id ≡ some change.org_id) × (m.product ≡ some (slug change.product))

owner_of_ok :
    (m : Metadata) (o : Owner)
    → owner_of m ≡ ok o
    → (m.org_id ≡ some (o.0)) × (m.product ≡ some (slug (o.1)))
unfolding owner_of
owner_of_ok m o h =
    let (org, has_org, rest) = >>=-eq-ok (ok_or m.org_id (missing_field "metadata.org_id")) _ h in
    let (s, has_slug, rest') =
      >>=-eq-ok (ok_or m.product (missing_field "metadata.product")) _ rest in
    let (p, read, done) =
      >>=-eq-ok (ok_or (product_from_slug s) (missing_field "metadata.product (unknown slug)")) _
        rest' in
    let is_slug : s ≡ slug p =
      (product_from_slug-slug s p).0 (ok_or-eq-ok (product_from_slug s) _ read) in
    (
      ok_or-eq-ok m.org_id _ has_org
          ∙ ap (λ r. elim r as (λ x. Option String) [ ok x ↦ some (x.0) | err e ↦ none ]) done,
      ok_or-eq-ok m.product _ has_slug
          ∙ ap some is_slug
          ∙ ap (λ r. elim r as (λ x. Option String) [ ok x ↦ some (slug (x.1)) | err e ↦ none ])
              done,
    )

-- A success keeps what is shown of its value.
ok_carries :
    {A : Type 0} (P : A → Type 0) {a b : A}
    → ◌≡◌ {A = Result BillingError A} (ok a) (ok b)
    → P a
    → P b
ok_carries P same p = subst (λ r. elim r as (λ x. Type 0) [ ok x ↦ P x | err e ↦ Unit ]) same p

-- What a change carries of an object with this identity, customer, metadata and status.
unfoldable pub Shows : String → String → Metadata → SubscriptionStatus → SubscriptionChange → Type 0
Shows id customer m status change =
    Names m change
    × (change.status ≡ status)
    × (id ≡ change.stripe_subscription_id)
    × (customer ≡ change.stripe_customer_id)

subscription_Shows :
    (sub : RawSubscriptionObject) (status : SubscriptionStatus)
    (override : Option SubscriptionStatus) (change : SubscriptionChange)
    → elim override as (λ x. SubscriptionStatus) [
      | none ↦ status_from_stripe sub.status
      | some s ↦ s
    ]
      ≡ status
    → change_from_subscription sub override ≡ ok change
    → Shows sub.id sub.customer sub.metadata status change
unfolding change_from_subscription Shows Names
subscription_Shows sub status override change is_status h =
    let (o, owned, built) = >>=-eq-ok (owner_of sub.metadata) _ h in
    ok_carries (Shows sub.id sub.customer sub.metadata status) built
      (owner_of_ok sub.metadata o owned, is_status, refl, refl)

invoice_Shows :
    (invoice : RawInvoiceObject) (change : SubscriptionChange)
    → change_from_invoice invoice ≡ ok change
    → (id : String) × (subscription_of invoice ≡ some id)
      × Shows id invoice.customer (metadata_of invoice) active change
unfolding change_from_invoice Shows Names
invoice_Shows invoice change h =
    let (o, owned, rest) = >>=-eq-ok (owner_of (metadata_of invoice)) _ h in
    let (id, has_id, built) =
      >>=-eq-ok (ok_or (subscription_of invoice) (missing_field "subscription")) _ rest in
    (
      id,
      ok_or-eq-ok (subscription_of invoice) _ has_id,
      ok_carries (Shows id invoice.customer (metadata_of invoice) active) built
          (owner_of_ok (metadata_of invoice) o owned, refl, refl, refl),
    )

-- What an event carries, by the type that Stripe gives it.
unfoldable pub Carries : Shapes → RawEvent → WebhookEvent → Type 0
Carries shapes raw (invoice_paid change) =
    (raw.event_type ≡ "invoice.paid")
    × ((invoice : RawInvoiceObject) × (id : String) × (shapes.invoice raw.object ≡ some invoice)
        × (subscription_of invoice ≡ some id)
        × Shows id invoice.customer (metadata_of invoice) active change)
Carries shapes raw (subscription_updated change) =
    (raw.event_type ≡ "customer.subscription.updated")
    × ((sub : RawSubscriptionObject) × (shapes.subscription raw.object ≡ some sub)
        × Shows sub.id sub.customer sub.metadata (status_from_stripe sub.status) change)
Carries shapes raw (subscription_deleted change) =
    (raw.event_type ≡ "customer.subscription.deleted")
    × ((sub : RawSubscriptionObject) × (shapes.subscription raw.object ≡ some sub)
        × Shows sub.id sub.customer sub.metadata canceled change)
Carries shapes raw (other kind) =
    (raw.event_type ≡ kind)
    × (kind ≢ "invoice.paid")
    × (kind ≢ "customer.subscription.updated")
    × (kind ≢ "customer.subscription.deleted")

module _ (shapes : Shapes) where
  paid_Carries :
      (raw : RawEvent) (event : WebhookEvent)
      → raw.event_type ≡ "invoice.paid"
      → (ok_or (shapes.invoice raw.object) malformed_payload >>= λ invoice.
          change_from_invoice invoice >>= λ change. ok (invoice_paid change))
        ≡ ok event
      → Carries shapes raw event
  unfolding Carries
  paid_Carries raw event kind h =
      let (invoice, shaped, rest) =
        >>=-eq-ok (ok_or (shapes.invoice raw.object) malformed_payload) _ h in
      let (change, changed, done) = >>=-eq-ok (change_from_invoice invoice) _ rest in
      let (id, has_id, shown) = invoice_Shows invoice change changed in
      ok_carries (Carries shapes raw) done
        (kind, (invoice, id, ok_or-eq-ok (shapes.invoice raw.object) _ shaped, has_id, shown))

  updated_Carries :
      (raw : RawEvent) (event : WebhookEvent)
      → raw.event_type ≡ "customer.subscription.updated"
      → (ok_or (shapes.subscription raw.object) malformed_payload >>= λ sub.
          change_from_subscription sub none >>= λ change. ok (subscription_updated change))
        ≡ ok event
      → Carries shapes raw event
  unfolding Carries
  updated_Carries raw event kind h =
      let (sub, shaped, rest) =
        >>=-eq-ok (ok_or (shapes.subscription raw.object) malformed_payload) _ h in
      let (change, changed, done) = >>=-eq-ok (change_from_subscription sub none) _ rest in
      ok_carries (Carries shapes raw) done (
        kind,
        (
          sub,
          ok_or-eq-ok (shapes.subscription raw.object) _ shaped,
          subscription_Shows sub (status_from_stripe sub.status) none change refl changed,
        ),
      )

  deleted_Carries :
      (raw : RawEvent) (event : WebhookEvent)
      → raw.event_type ≡ "customer.subscription.deleted"
      → (ok_or (shapes.subscription raw.object) malformed_payload >>= λ sub.
          change_from_subscription sub (some canceled) >>= λ change.
          ok (subscription_deleted change))
        ≡ ok event
      → Carries shapes raw event
  unfolding Carries
  deleted_Carries raw event kind h =
      let (sub, shaped, rest) =
        >>=-eq-ok (ok_or (shapes.subscription raw.object) malformed_payload) _ h in
      let (change, changed, done) =
        >>=-eq-ok (change_from_subscription sub (some canceled)) _ rest in
      ok_carries (Carries shapes raw) done (
        kind,
        (
          sub,
          ok_or-eq-ok (shapes.subscription raw.object) _ shaped,
          subscription_Shows sub canceled (some canceled) change refl changed,
        ),
      )

  event_of-Carries :
      (raw : RawEvent) (event : WebhookEvent)
      → event_of shapes raw ≡ ok event
      → Carries shapes raw event
  unfolding event_of Carries
  event_of-Carries raw event h = elim (Bool-cases (str_eq raw.event_type "invoice.paid")) [
    | inl paid ↦
        paid_Carries raw event (ground (arith, eq_iff raw.event_type "invoice.paid", paid))
          (ground (arith, h, paid))
    | inr f ↦ elim (Bool-cases (str_eq raw.event_type "customer.subscription.updated")) [
      | inl updated ↦
          updated_Carries raw event
            (ground (arith, eq_iff raw.event_type "customer.subscription.updated", updated))
            (ground (arith, h, f, updated))
      | inr g ↦ elim (Bool-cases (str_eq raw.event_type "customer.subscription.deleted")) [
        | inl deleted ↦
            deleted_Carries raw event
              (ground (arith, eq_iff raw.event_type "customer.subscription.deleted", deleted))
              (ground (arith, h, f, g, deleted))
        | inr k ↦
            ok_carries (Carries shapes raw) {a = other raw.event_type} (ground (arith, h, f, g, k))
              (
                refl,
                λ same. absurd (ground (arith, eq_iff raw.event_type "invoice.paid", f, same)),
                λ same. absurd (
                    ground (arith, eq_iff raw.event_type "customer.subscription.updated", g, same)),
                λ same. absurd (
                    ground (arith, eq_iff raw.event_type "customer.subscription.deleted", k, same)),
              )
      ]
    ]
  ]

  -- A payload that is accepted has the envelope of an event and carries what that event says: the type
  -- of the event chooses the object that is read, whose metadata names the organization and, by its exact
  -- slug, the product; a paid invoice makes the subscription active, a deleted one is canceled whatever
  -- its status says, an update takes the status of the object, and only types other than these three
  -- are passed on unread.
  pub parse_event-Carries :
      (payload : List ℕ) (event : WebhookEvent)
      → parse_event shapes payload ≡ ok event
      → (raw : RawEvent) × (shapes.event payload ≡ some raw) × Carries shapes raw event
  unfolding parse_event
  parse_event-Carries payload event h =
      let (raw, read, rest) =
        >>=-eq-ok (ok_or (shapes.event payload) malformed_payload) (event_of shapes) h in
      (raw, ok_or-eq-ok (shapes.event payload) _ read, event_of-Carries raw event rest)
