-- ===== src/Delivery/Vehicles/Allowed.antt =====
-- Every selection is of a vehicle that the products allow
-- (src/modules/delivery/engine/delivery-vehicle-selection.logic.ts).
use mathlib.Core.List.{Memᴰ}
use mathlib.Core.List.Memᴰ.{head, tail}
use mathlib.Core.Option.{some-injective}
use vikram_backend.Prelude.{
  ℕ, ◌≡◌, refl, sym, subst, ◌∙◌, Bool, true, false, not, ◌&&◌, ◌||◌, Option, some, none, List, [],
  ◌∷◌, arith, Bool-cases, Option-cases, inl, inr, if_either, leb, find?,
}
use vikram_backend.Delivery.Vehicles.{
  VehicleType, OrderLoad, VehicleCapacity, EngineConfig, MultiVehicleMode,
  passes_product_restrictions, is_allowed, required_vehicle_count, is_nil, has_type, same_type,
  priority_index,
}
use vikram_backend.Delivery.Vehicles.Selection.{
  split, chosen, tier_choice, VehicleSelection, SelectionMode, last_or, or_last, clamp_to_allowed,
  prefer, fallback_type, resolve_vehicle_for_quantity, is_in, is_restricted, select_by_tier,
  select_vehicle_for_load,
}
use vikram_backend.Delivery.Vehicles.Branches.{of_selection}
use vikram_backend.Prelude.Sorting.{insert_by, sort_by, mem-sort_by}

same_type_self : (t : VehicleType) → same_type t t ≡ true
same_type_self t = ground arith

has_type_of_mem : (t : VehicleType) (ts : List VehicleType) → Memᴰ t ts → has_type t ts ≡ true
has_type_of_mem t [] m = elim m [ ]
has_type_of_mem t (s ∷ ss) (head e) =
    subst (λ (x : VehicleType). has_type t (x ∷ ss) ≡ true) e (rw (same_type_self t) refl)
has_type_of_mem t (s ∷ ss) (tail m) = elim (Bool-cases (same_type t s)) [
  | inl b ↦ rw b refl
  | inr b ↦ rw b (has_type_of_mem t ss m)
]

insert_by-is_nil :
    (f : VehicleType → VehicleType → Bool) (x : VehicleType) (ys : List VehicleType)
    → is_nil (insert_by f x ys) ≡ false
insert_by-is_nil f x [] = refl
insert_by-is_nil f x (y ∷ ys) = elim (Bool-cases (f x y)) [ inl b ↦ rw b refl | inr b ↦ rw b refl ]

sort_by-is_nil :
    (f : VehicleType → VehicleType → Bool) (ts : List VehicleType)
    → is_nil ts ≡ false
    → is_nil (sort_by f ts) ≡ false
sort_by-is_nil f [] h = h
sort_by-is_nil f (t ∷ ts) h = insert_by-is_nil f t (sort_by f ts)

last_or-mem : (t s : VehicleType) (ss : List VehicleType) → Memᴰ (last_or t (s ∷ ss)) (s ∷ ss)
last_or-mem t s [] = head refl
last_or-mem t s (x ∷ ss) = tail (last_or-mem s x ss)

find?-mem :
    (q : VehicleType → Bool) (ts : List VehicleType) {t : VehicleType}
    → find? q ts ≡ some t
    → Memᴰ t ts
find?-mem q [] {t} e = absurd (cc e)
find?-mem q (s ∷ ss) {t} e = elim (Bool-cases (q s)) [
  | inl b ↦ head (sym (some-injective s t (rw b at e)))
  | inr b ↦ tail (find?-mem q ss (rw b at e))
]

or_last-mem :
    (t : VehicleType) (q : VehicleType → Bool) (ts : List VehicleType)
    → is_nil ts ≡ false
    → Memᴰ (or_last t ts (find? q ts)) ts
or_last-mem t q [] h = absurd (cc h)
or_last-mem t q (s ∷ ss) h = elim (Option-cases (find? q (s ∷ ss))) [
  | inl n ↦ rw n (last_or-mem t s ss)
  | inr (x, n) ↦ rw n (find?-mem q (s ∷ ss) n)
]

clamp-allowed :
    (t : VehicleType) (o : Option (List VehicleType)) → is_allowed o (clamp_to_allowed t o) ≡ true
unfolding clamp_to_allowed
clamp-allowed t none = refl
clamp-allowed t (some ts) = elim (Bool-cases (is_nil ts || has_type t ts)) [
  | inl b ↦ rw b b
  | inr b ↦
      let up = λ (s : VehicleType). leb (priority_index t) (priority_index s) in
      let sorted = sort_by (λ a b. leb (priority_index a) (priority_index b)) ts in
      let full : is_nil ts ≡ false = ground arith in
      let found : has_type (or_last t sorted (find? up sorted)) ts ≡ true =
        has_type_of_mem (or_last t sorted (find? up sorted)) ts (
          mem-sort_by (λ a b. leb (priority_index a) (priority_index b)) ts
            (or_last-mem t up sorted
              (sort_by-is_nil (λ a b. leb (priority_index a) (priority_index b)) ts full))) in
      rw (b, full, found) refl
]

in-allowed :
    (o : Option (List VehicleType)) (t : VehicleType) → is_in o t ≡ true → is_allowed o t ≡ true
in-allowed none t h = refl
in-allowed (some ts) t h = ground arith

prefer-allowed :
    (l : OrderLoad) (p : Option VehicleType) (t : VehicleType)
    → is_allowed l.allowed_types t ≡ true
    → is_allowed l.allowed_types (prefer l p t) ≡ true
prefer-allowed l none t h = h
prefer-allowed l (some p) t h =
    if_either (λ (x : VehicleType). is_allowed l.allowed_types x ≡ true)
      (is_in l.allowed_types p && leb (priority_index t) (priority_index p))
      (λ b. in-allowed l.allowed_types p (ground arith)) (λ _. h)

abbrev pub IsAllowed : OrderLoad → VehicleSelection → Type 0
IsAllowed l s = (t : VehicleType) → s.vehicle_type ≡ some t → is_allowed l.allowed_types t ≡ true

named :
    (l : OrderLoad) (s : VehicleSelection) (t : VehicleType)
    → s.vehicle_type ≡ some t
    → is_allowed l.allowed_types t ≡ true
    → IsAllowed l s
named l s t e h u k =
    subst (λ (x : VehicleType). is_allowed l.allowed_types x ≡ true)
      (some-injective t u (sym e ∙ k)) h

suitable-allowed :
    (l : OrderLoad) (v : VehicleCapacity)
    → passes_product_restrictions v l ≡ true
    → is_allowed l.allowed_types v.vehicle_type ≡ true
unfolding passes_product_restrictions
suitable-allowed l v h = ground arith

split-IsAllowed :
    (l : OrderLoad) (m : MultiVehicleMode) (v : VehicleCapacity) (n : ℕ)
    → passes_product_restrictions v l ≡ true
    → IsAllowed l (split m v n)
split-IsAllowed l MultiVehicleMode.auto_split v n p =
    named l (split MultiVehicleMode.auto_split v n) v.vehicle_type refl (suitable-allowed l v p)
split-IsAllowed l MultiVehicleMode.reject v n p = λ t e. absurd (cc e)
split-IsAllowed l MultiVehicleMode.bulk_quote v n p =
    named l (split MultiVehicleMode.bulk_quote v n) v.vehicle_type refl (suitable-allowed l v p)

tier-IsAllowed :
    (l : OrderLoad) (cs : List VehicleCapacity) (e : EngineConfig)
    → IsAllowed l (select_by_tier l cs e)
unfolding select_by_tier
tier-IsAllowed l cs e =
    if_either (IsAllowed l) (not (is_nil l.missing_products) && not (is_restricted l.allowed_types))
      (λ _ t k. absurd (cc k))
      (λ _.
        if_either (IsAllowed l)
          (not e.qty_tier_fallback_enabled && not (is_restricted l.allowed_types))
          (λ _ t k. absurd (cc k))
          (λ _. named l (tier_choice l cs) (fallback_type l) refl (
            prefer-allowed l l.preferred_type
              (clamp_to_allowed (resolve_vehicle_for_quantity l.total_quantity) l.allowed_types)
              (clamp-allowed (resolve_vehicle_for_quantity l.total_quantity) l.allowed_types))))

-- Whatever vehicle a selection names, whether by capacity, by the tiers of quantity, by the preference
-- of the products or for a quote, is one of the types that the products allow, when they allow
-- some types only.
pub select_vehicle_for_load-IsAllowed :
    (l : OrderLoad) (cs : List VehicleCapacity) (e : EngineConfig)
    → IsAllowed l (select_vehicle_for_load l cs e)
select_vehicle_for_load-IsAllowed l cs e =
    of_selection l cs (IsAllowed l)
      (record {
        of_refused = λ m n b t k. absurd (cc k);
        of_one = λ v (m, p) k.
            named l (chosen SelectionMode.capacity v 1) v.vehicle_type refl
              (suitable-allowed l v p);
        of_trips = λ m v (k, p). split-IsAllowed l m v (required_vehicle_count v l) p;
        of_tier = tier-IsAllowed l cs;
      })
      e
