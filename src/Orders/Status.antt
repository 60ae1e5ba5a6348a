-- ===== src/Orders/Status.antt =====
-- The order lifecycle (src/modules/orders/order-lifecycle.constants.ts): the statuses, the transition
-- table, and the reading of a status from a request. `toUpperCase` of JavaScript is a parameter.
use Prim.Native.String.{String, compare as compare_text}
use Prim.Native.Nat.{Ordering}
use vikram_backend.Prelude.{
  ℕ, Bool, true, false, Option, some, none, List, [], ◌∷◌, ◌==◌, find?, is_some,
}

-- OrderStatus (prisma/schema.prisma).
pub data OrderStatus : Type 0 where
  pending confirmed hub_assigned awaiting_hub_allocation accepted_by_hub : OrderStatus
  picking processing packed ready_for_dispatch driver_assigned out_for_delivery : OrderStatus
  dispatched delivered cancelled reschedule_requested : OrderStatus

abbrev pub status_number : OrderStatus → ℕ
status_number pending = 0
status_number confirmed = 1
status_number hub_assigned = 2
status_number awaiting_hub_allocation = 3
status_number accepted_by_hub = 4
status_number picking = 5
status_number processing = 6
status_number packed = 7
status_number ready_for_dispatch = 8
status_number driver_assigned = 9
status_number out_for_delivery = 10
status_number dispatched = 11
status_number delivered = 12
status_number cancelled = 13
status_number reschedule_requested = 14

-- `===` on statuses.
abbrev pub same_status : OrderStatus → OrderStatus → Bool
same_status a b = status_number a == status_number b

abbrev pub includes : List OrderStatus → OrderStatus → Bool
includes l s = is_some (find? (same_status s) l)

-- ORDER_LIFECYCLE.
abbrev pub order_lifecycle : List OrderStatus
order_lifecycle =
    pending ∷ confirmed ∷ hub_assigned ∷ accepted_by_hub ∷ picking ∷ packed ∷ driver_assigned
    ∷ out_for_delivery ∷ delivered ∷ []

-- `normalizeOrderStatus`.
abbrev pub normalize_order_status : OrderStatus → OrderStatus
normalize_order_status processing = accepted_by_hub
normalize_order_status ready_for_dispatch = packed
normalize_order_status dispatched = out_for_delivery
normalize_order_status awaiting_hub_allocation = hub_assigned
normalize_order_status s = s

-- ORDER_STATUS_BUCKETS.
abbrev pub pending_bucket : List OrderStatus
pending_bucket = pending ∷ confirmed ∷ hub_assigned ∷ awaiting_hub_allocation ∷ []

abbrev pub accepted_bucket : List OrderStatus
accepted_bucket =
    accepted_by_hub ∷ processing ∷ picking ∷ packed ∷ ready_for_dispatch ∷ driver_assigned
    ∷ out_for_delivery ∷ dispatched ∷ []

abbrev pub completed_bucket : List OrderStatus
completed_bucket = delivered ∷ cancelled ∷ []

-- CANCELLABLE_STATUSES, NON_CANCELLABLE_STATUSES.
abbrev pub cancellable_statuses : List OrderStatus
cancellable_statuses = pending ∷ confirmed ∷ hub_assigned ∷ awaiting_hub_allocation ∷ []

abbrev pub non_cancellable_statuses : List OrderStatus
non_cancellable_statuses =
    accepted_by_hub ∷ picking ∷ processing ∷ packed ∷ ready_for_dispatch ∷ driver_assigned
    ∷ out_for_delivery ∷ dispatched ∷ delivered ∷ cancelled ∷ []

-- `ORDER_STATUS_TRANSITIONS[s] ?? []`.
unfoldable pub order_status_transitions : OrderStatus → List OrderStatus
order_status_transitions pending = confirmed ∷ hub_assigned ∷ cancelled ∷ []
order_status_transitions confirmed = hub_assigned ∷ accepted_by_hub ∷ cancelled ∷ []
order_status_transitions hub_assigned = accepted_by_hub ∷ cancelled ∷ []
order_status_transitions awaiting_hub_allocation = hub_assigned ∷ accepted_by_hub ∷ cancelled ∷ []
order_status_transitions accepted_by_hub = picking ∷ packed ∷ cancelled ∷ []
order_status_transitions processing = picking ∷ packed ∷ cancelled ∷ []
order_status_transitions picking = packed ∷ cancelled ∷ []
order_status_transitions packed = driver_assigned ∷ out_for_delivery ∷ cancelled ∷ []
order_status_transitions ready_for_dispatch = driver_assigned ∷ out_for_delivery ∷ cancelled ∷ []
order_status_transitions driver_assigned = out_for_delivery ∷ cancelled ∷ []
order_status_transitions out_for_delivery = delivered ∷ cancelled ∷ []
order_status_transitions dispatched = delivered ∷ cancelled ∷ []
order_status_transitions delivered = []
order_status_transitions cancelled = []
order_status_transitions reschedule_requested = []

abbrev pub text_eq : String → String → Bool
text_eq s t = elim (compare_text s t) [ Ordering.eq ↦ true | _ ↦ false ]

abbrev pub Table : Type 0
Table = List (String × OrderStatus)

-- STATUS_ALIASES.
abbrev pub status_aliases : Table
status_aliases =
    ("OrderPlaced", pending)
    ∷ ("order_placed", pending)
    ∷ ("PENDING", pending)
    ∷ ("Confirmed", confirmed)
    ∷ ("CONFIRMED", confirmed)
    ∷ ("HubAssigned", hub_assigned)
    ∷ ("HUB_ASSIGNED", hub_assigned)
    ∷ ("AcceptedByHub", accepted_by_hub)
    ∷ ("ACCEPTED_BY_HUB", accepted_by_hub)
    ∷ ("PROCESSING", accepted_by_hub)
    ∷ ("accepted", accepted_by_hub)
    ∷ ("Picking", picking)
    ∷ ("PICKING", picking)
    ∷ ("picking", picking)
    ∷ ("Packed", packed)
    ∷ ("PACKED", packed)
    ∷ ("packed", packed)
    ∷ ("READY_FOR_DISPATCH", packed)
    ∷ ("DriverAssigned", driver_assigned)
    ∷ ("DRIVER_ASSIGNED", driver_assigned)
    ∷ ("OutForDelivery", out_for_delivery)
    ∷ ("OUT_FOR_DELIVERY", out_for_delivery)
    ∷ ("DISPATCHED", out_for_delivery)
    ∷ ("dispatch", out_for_delivery)
    ∷ ("out_for_delivery", out_for_delivery)
    ∷ ("Delivered", delivered)
    ∷ ("DELIVERED", delivered)
    ∷ ("delivered", delivered)
    ∷ ("Cancelled", cancelled)
    ∷ ("CANCELLED", cancelled)
    ∷ ("cancelled", cancelled)
    ∷ ("cancel", cancelled)
    ∷ []

-- The keys of ORDER_STATUS_LABELS, each with the status of that name.
abbrev pub status_names : Table
status_names =
    ("PENDING", pending)
    ∷ ("CONFIRMED", confirmed)
    ∷ ("HUB_ASSIGNED", hub_assigned)
    ∷ ("AWAITING_HUB_ALLOCATION", awaiting_hub_allocation)
    ∷ ("ACCEPTED_BY_HUB", accepted_by_hub)
    ∷ ("PICKING", picking)
    ∷ ("PROCESSING", processing)
    ∷ ("PACKED", packed)
    ∷ ("READY_FOR_DISPATCH", ready_for_dispatch)
    ∷ ("DRIVER_ASSIGNED", driver_assigned)
    ∷ ("OUT_FOR_DELIVERY", out_for_delivery)
    ∷ ("DISPATCHED", dispatched)
    ∷ ("DELIVERED", delivered)
    ∷ ("CANCELLED", cancelled)
    ∷ ("RESCHEDULE_REQUESTED", reschedule_requested)
    ∷ []

abbrev pub look_up : Table → String → Option (String × OrderStatus)
look_up t s = find? (λ row. text_eq row.0 s) t

-- The rows that an alias, an alias in capitals and a name in capitals have, tried in that order.
abbrev pub first_row :
    Option (String × OrderStatus)
    → Option (String × OrderStatus)
    → Option (String × OrderStatus)
    → Option OrderStatus
first_row (some (_, s)) b c = some s
first_row none (some (_, s)) c = some s
first_row none none (some (_, s)) = some (normalize_order_status s)
first_row none none none = none

-- `resolveStatusInput`. The empty text is in no table. Names that every JavaScript object inherits, such
-- as `constructor`, are taken for absent.
unfoldable pub resolve_status_input : (String → String) → String → Option OrderStatus
resolve_status_input to_upper_case input =
    first_row (look_up status_aliases input) (look_up status_aliases (to_upper_case input))
      (look_up status_names (to_upper_case input))
