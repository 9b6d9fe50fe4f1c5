-- ===== src/Webhooks/Deliveries.antt =====
-- crates/webhooks/src/lib.rs: the deliveries that have been processed.
use kit.Prelude.{
  ℕ, ◌+◌, Bool, true, false, not, ◌&&◌, sym, ap, ◌∙◌, String, List, [], ◌∷◌, ◌≡◌, inl, inr, refl,
  arith, any, str_eq, eq_iff, if◌then◌else◌, Bool-cases,
}

-- `InMemoryDeliveryStore`: a set of ids.
abbrev pub Store : Type 0
Store = List String

unfoldable pub seen : Store → String → Bool
seen store delivery_id = any (λ id. str_eq id delivery_id) store

-- `DashSet::insert`: whether the id is new, and the set with it.
unfoldable pub record_delivery : Store → String → Bool × Store
record_delivery store delivery_id =
    if seen store delivery_id then (false, store) else (true, delivery_id ∷ store)

-- How often an id is found new over a sequence of deliveries.
abbrev pub accepted : String → List String → Store → ℕ
accepted id [] store = 0
accepted id (d ∷ deliveries) store =
    let (new, store') = record_delivery store d in
    (if new && str_eq d id then 1 else 0) + accepted id deliveries store'

seen-record :
    (store : Store) (d id : String)
    → seen store id ≡ true
    → seen (record_delivery store d).1 id ≡ true
unfolding record_delivery seen any
seen-record store d id h = elim (Bool-cases (seen store d)) [
  | inl t ↦ ground (arith, t, h)
  | inr f ↦ ground (arith, f, h)
]

-- An id that is in the set is not found new.
not_again :
    (id d : String) (store : Store)
    → seen store id ≡ true
    → ((record_delivery store d).0 && str_eq d id) ≡ false
unfolding record_delivery
not_again id d store h = elim (Bool-cases (str_eq d id)) [
  | inl same ↦
      let known : seen store d ≡ true = ap (seen store) ((eq_iff d id).0 same) ∙ h in
      ground (arith, known)
  | inr other ↦ ground (arith, other)
]

accepted-seen :
    (id : String) (deliveries : List String) (store : Store)
    → seen store id ≡ true
    → accepted id deliveries store ≡ 0
accepted-seen id [] store h = refl
accepted-seen id (d ∷ deliveries) store h = rw (not_again id d store h) (
    omega
      (arith, accepted-seen id deliveries (record_delivery store d).1 (seen-record store d id h)))

recorded : (store : Store) (id : String) → seen (record_delivery store id).1 id ≡ true
unfolding record_delivery seen any
recorded store id = elim (Bool-cases (any (λ i. str_eq i id) store)) [
  | inl t ↦ ground (arith, t)
  | inr f ↦ ground (arith, f, eq_iff id id)
]

seen_other :
    (store : Store) (d id : String)
    → str_eq d id ≡ false
    → seen (record_delivery store d).1 id ≡ seen store id
unfolding record_delivery seen any
seen_other store d id other = elim (Bool-cases (any (λ i. str_eq i d) store)) [
  | inl t ↦ ground (arith, t)
  | inr f ↦ ground (arith, f, other)
]

new_once :
    (store : Store) (d id : String)
    → seen store id ≡ false
    → str_eq d id ≡ true
    → ((record_delivery store d).0 && str_eq d id) ≡ true
unfolding record_delivery
new_once store d id absent same =
    let new : seen store d ≡ false = ap (seen store) ((eq_iff d id).0 same) ∙ absent in
    ground (arith, new, same)

not_other :
    (store : Store) (d id : String)
    → str_eq d id ≡ false
    → ((record_delivery store d).0 && str_eq d id) ≡ false
not_other store d id other = ground (arith, other)

-- Over any sequence of deliveries, redelivered ones included, and from any set, an id is found new at
-- most once, and exactly once if it is delivered and was not in the set.
pub record_once :
    (id : String) (deliveries : List String) (store : Store)
    → accepted id deliveries store
      ≡ (if not (seen store id) && any (λ d. str_eq d id) deliveries then 1 else 0)
unfolding any
record_once id [] store = ground arith
record_once id (d ∷ deliveries) store = elim (Bool-cases (seen store id)) [
  | inl known ↦ rw known (accepted-seen id (d ∷ deliveries) store known)
  | inr absent ↦ elim (Bool-cases (str_eq d id)) [
    | inl same ↦
        let after : seen (record_delivery store d).1 id ≡ true =
          ap (seen (record_delivery store d).1) (sym ((eq_iff d id).0 same)) ∙ recorded store d in
        ground (
          arith,
          absent,
          same,
          new_once store d id absent same,
          accepted-seen id deliveries (record_delivery store d).1 after,
        )
    | inr other ↦ ground (
      arith,
      absent,
      other,
      not_other store d id other,
      seen_other store d id other,
      record_once id deliveries (record_delivery store d).1,
    )
  ]
]
