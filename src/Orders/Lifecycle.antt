-- ===== src/Orders/Lifecycle.antt =====
-- The transition table and the reading of statuses (src/modules/orders/order-lifecycle.constants.ts).
use Prim.Native.String.{String}
use vikram_backend.Prelude.{
  ℕ, zero, suc, ◌+◌, ◌≤◌, ◌≡◌, ◌≢◌, refl, Bool, true, false, not, ◌||◌, Option, some, none, arith,
  find?-of_find?-none, find?,
}
use vikram_backend.Orders.Status.{
  OrderStatus, same_status, includes, normalize_order_status, cancellable_statuses,
  non_cancellable_statuses, pending_bucket, accepted_bucket, completed_bucket,
  order_status_transitions, text_eq, look_up, first_row, status_names, status_aliases,
  resolve_status_input,
}

-- A status that stands for itself.
abbrev pub IsCanonical : OrderStatus → Type 0
IsCanonical s = normalize_order_status s ≡ s

abbrev is_legacy_row : String × OrderStatus → Bool
is_legacy_row row = not (same_status (normalize_order_status row.1) row.1)

aliases-IsCanonical : find? is_legacy_row status_aliases ≡ none
aliases-IsCanonical = refl

not_legacy : (row : String × OrderStatus) → is_legacy_row row ≡ false → IsCanonical row.1
not_legacy (t, s) h = ground arith

normalize-IsCanonical : (s : OrderStatus) → IsCanonical (normalize_order_status s)
normalize-IsCanonical s = ground arith

alias-IsCanonical :
    (t : String) (row : String × OrderStatus)
    → look_up status_aliases t ≡ some row
    → IsCanonical row.1
alias-IsCanonical t row h = not_legacy row (
    find?-of_find?-none is_legacy_row (λ r. text_eq r.0 t) status_aliases {x = row}
      aliases-IsCanonical h)

first_row-IsCanonical :
    (s : OrderStatus) (a b c : Option (String × OrderStatus))
    → ((row : String × OrderStatus) → a ≡ some row → IsCanonical row.1)
    → ((row : String × OrderStatus) → b ≡ some row → IsCanonical row.1)
    → first_row a b c ≡ some s
    → IsCanonical s
first_row-IsCanonical s (some (t, r)) b c ha hb h = ground (arith, ha (t, r) refl)
first_row-IsCanonical s none (some (t, r)) c ha hb h = ground (arith, hb (t, r) refl)
first_row-IsCanonical s none none (some (t, r)) ha hb h = ground (arith, normalize-IsCanonical r)
first_row-IsCanonical s none none none ha hb h = cc

-- Whatever text a request gives for a status, the status it is read as is canonical: never one of the
-- legacy values PROCESSING, READY_FOR_DISPATCH, DISPATCHED or AWAITING_HUB_ALLOCATION.
pub resolve-IsCanonical :
    (to_upper_case : String → String) (t : String) (s : OrderStatus)
    → resolve_status_input to_upper_case t ≡ some s
    → IsCanonical s
unfolding resolve_status_input
resolve-IsCanonical up t s h =
    first_row-IsCanonical s (look_up status_aliases t) (look_up status_aliases (up t))
      (look_up status_names (up t)) (λ row e. alias-IsCanonical t row e)
      (λ row e. alias-IsCanonical (up t) row e) h

-- A run of n changes, each one allowed by the table.
pub data Run : ℕ → OrderStatus → OrderStatus → Type 0 where
  stay : {s : OrderStatus} → Run 0 s s
  move :
      {n : ℕ} {s t u : OrderStatus}
      → Run n s t
      → includes (order_status_transitions t) u ≡ true
      → Run (suc n) s u

-- How many changes a run from the status can still make.
abbrev remaining : OrderStatus → ℕ
remaining OrderStatus.pending = 8
remaining OrderStatus.confirmed = 7
remaining OrderStatus.awaiting_hub_allocation = 7
remaining OrderStatus.hub_assigned = 6
remaining OrderStatus.accepted_by_hub = 5
remaining OrderStatus.processing = 5
remaining OrderStatus.picking = 4
remaining OrderStatus.packed = 3
remaining OrderStatus.ready_for_dispatch = 3
remaining OrderStatus.driver_assigned = 2
remaining OrderStatus.out_for_delivery = 1
remaining OrderStatus.dispatched = 1
remaining _ = 0

-- How many changes it takes at least to come to the status from PENDING.
abbrev distance : OrderStatus → ℕ
distance OrderStatus.pending = 0
distance OrderStatus.accepted_by_hub = 2
distance OrderStatus.picking = 3
distance OrderStatus.packed = 3
distance OrderStatus.driver_assigned = 4
distance OrderStatus.out_for_delivery = 4
distance OrderStatus.delivered = 5
distance _ = 1

move-remaining :
    (s t : OrderStatus)
    → includes (order_status_transitions s) t ≡ true
    → suc (remaining t) ≤ remaining s
unfolding order_status_transitions
move-remaining s t h = ground arith

-- Statuses that no change leads to.
abbrev is_fresh : OrderStatus → Bool
is_fresh OrderStatus.processing = true
is_fresh OrderStatus.ready_for_dispatch = true
is_fresh OrderStatus.dispatched = true
is_fresh OrderStatus.awaiting_hub_allocation = true
is_fresh OrderStatus.reschedule_requested = true
is_fresh _ = false

move-distance :
    (s t : OrderStatus)
    → includes (order_status_transitions s) t ≡ true
    → is_fresh s ≡ false
    → (distance t ≤ suc (distance s)) × (is_fresh t ≡ false)
unfolding order_status_transitions
move-distance s t h f = ground arith

Run-remaining : (n : ℕ) {s t : OrderStatus} → Run n s t → n + remaining t ≤ remaining s
Run-remaining zero stay = omega arith
Run-remaining (suc n) (move {s = s} {t = t} {u = u} r h) =
    omega (arith, Run-remaining n r, move-remaining t u h)

Run-distance :
    (n : ℕ) {s t : OrderStatus}
    → Run n s t
    → is_fresh s ≡ false
    → (distance t ≤ n + distance s) × (is_fresh t ≡ false)
Run-distance zero stay f = (omega arith, f)
Run-distance (suc n) (move {s = s} {t = t} {u = u} r h) f =
    let (d, g) = Run-distance n r f in
    let (d', g') = move-distance t u h g in (omega (arith, d, d'), g')

-- An order that goes from PENDING to DELIVERED by changes that the table allows makes at least five
-- and at most eight of them; from any status there are at most eight in all; and after DELIVERED or
-- CANCELLED there is none.
pub lifecycle_lem :
    (n : ℕ) {s t : OrderStatus}
    → Run n s t
    → (n ≤ 8)
      × (s ≡ OrderStatus.pending → t ≡ OrderStatus.delivered → 5 ≤ n)
      × (includes completed_bucket s ≡ true → n ≡ 0)
lifecycle_lem n {s} {t} r =
    let far = Run-remaining n r in
    (
      ground (arith, far),
      λ from to. ground (arith, Run-distance n r (rw from refl)),
      λ ended. ground (arith, far),
    )

-- Every status but RESCHEDULE_REQUESTED is in exactly one of the two lists, the cancellable ones are the
-- bucket `pending`, and CANCELLED is an allowed change from each of them and from each accepted one.
pub cancellable_lem :
    (s : OrderStatus)
    → s ≢ OrderStatus.reschedule_requested
    → (includes cancellable_statuses s ≡ not (includes non_cancellable_statuses s))
      × (includes cancellable_statuses s ≡ includes pending_bucket s)
      × (includes (order_status_transitions s) OrderStatus.cancelled
          ≡ (includes pending_bucket s || includes accepted_bucket s))
unfolding order_status_transitions
cancellable_lem s h = ground arith
