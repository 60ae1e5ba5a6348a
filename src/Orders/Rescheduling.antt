-- ===== src/Orders/Rescheduling.antt =====
-- Rescheduling an order: the hub proposes another slot, and the customer accepts or declines it
-- (`requestReschedule`, `acceptReschedule`, `declineReschedule` of
-- src/modules/delivery/delivery-schedule.service.ts). Notifications and labels are left out, and of the
-- proposal's columns only the slot, of which the others are copies.
pub mod Outcomes
mod Tests
use vikram_backend.Prelude.{
  ℕ, max, Bool, false, not, ◌&&◌, ◌||◌, Option, none, some, ltb, ◌==◌, if◌then◌else◌, is_some,
  Result, ok, err,
}
use vikram_backend.Delivery.Slots.Store.{Reservation, Slot, Db}
use vikram_backend.Delivery.Slots.Ops.{SlotError, reservation_count, confirm_reservation}
use vikram_backend.Delivery.Windows.{Operating, validate_slot_against_operating_rules}
use vikram_backend.Orders.Status.{OrderStatus, same_status}
use vikram_backend.Orders.World.{
  World, Order, OrderError, not_found, bad_request, update_order, add_timeline, find_live,
}
use vikram_backend.Orders.Customer.{owned}
use vikram_backend.Orders.Shop.{Shop, set_at}

abbrev pub is_at_hub : ℕ → Option ℕ → Bool
is_at_hub hub none = false
is_at_hub hub (some h) = h == hub

abbrev pub at_hub : ℕ → Option Order → Option Order
at_hub hub none = none
at_hub hub (some o) = if is_at_hub hub o.hub_id then some o else none

abbrev pub slot_at_hub : ℕ → Option Slot → Option Slot
slot_at_hub hub none = none
slot_at_hub hub (some x) = if x.key.hub_id == hub && x.active then some x else none

abbrev pub can_be_rescheduled : OrderStatus → Bool
can_be_rescheduled s = not (
    same_status s OrderStatus.delivered
    || same_status s OrderStatus.cancelled
    || same_status s OrderStatus.out_for_delivery
    || same_status s OrderStatus.dispatched)

-- The slot is within the rules, and has room.
abbrev pub is_proposable : ℕ → ℕ → Operating → Db → Slot → Bool
is_proposable now k o db x =
    not (
      is_some (
        validate_slot_against_operating_rules x.key.slot_date x.key.start_minutes x.key.end_minutes
          o))
    && ltb (max x.reserved_capacity (reservation_count now k db)) x.capacity

abbrev pub move_order : ℕ → OrderStatus → World → World
move_order i st w = add_timeline i st (update_order i (λ x. record x { status = st }) w)

abbrev pub propose_slot :
    ℕ → Operating → ℕ → ℕ → Option Slot → Shop → Shop × Result OrderError (Unit {0})
propose_slot now o i k none s = (s, err bad_request)
propose_slot now o i k (some x) s =
    if is_proposable now k o s.world.slots x
    then (
      record s {
        world = move_order i OrderStatus.reschedule_requested s.world;
        proposed_slot = set_at i (some k) s.proposed_slot;
      },
      ok tt,
    )
    else (s, err bad_request)

abbrev pub propose_for :
    ℕ → Operating → ℕ → ℕ → ℕ → Option Order → Shop → Shop × Result OrderError (Unit {0})
propose_for now o hub i k none s = (s, err not_found)
propose_for now o hub i k (some x) s =
    if can_be_rescheduled x.status
    then propose_slot now o i k (slot_at_hub hub (s.world.slots.slot k)) s
    else (s, err bad_request)

-- `requestReschedule` of slot k.
unfoldable pub request_reschedule :
    ℕ → Operating → ℕ → ℕ → ℕ → Shop → Shop × Result OrderError (Unit {0})
request_reschedule now o hub i k s = propose_for now o hub i k (at_hub hub (find_live s.world i)) s

-- The transaction of `acceptReschedule`, after the reservation of slot k.
abbrev pub accepted :
    ℕ → ℕ → Shop → Db × Result SlotError Reservation → Shop × Result OrderError (Unit {0})
accepted i k s (db, ok x) = (
  record s {
    world = move_order i OrderStatus.accepted_by_hub (record s.world { slots = db });
    scheduled_slot = set_at i (some k) s.scheduled_slot;
    proposed_slot = set_at i none s.proposed_slot;
  },
  ok tt,
)
accepted i k s (db, err e) = (s, err bad_request)

abbrev pub accept_slot : ℕ → ℕ → ℕ → Option ℕ → Shop → Shop × Result OrderError (Unit {0})
accept_slot now customer i none s = (s, err bad_request)
accept_slot now customer i (some k) s =
    accepted i k s (confirm_reservation now customer i k s.world.slots)

abbrev pub accept_for : ℕ → ℕ → ℕ → Option Order → Shop → Shop × Result OrderError (Unit {0})
accept_for now customer i none s = (s, err not_found)
accept_for now customer i (some o) s =
    if same_status o.status OrderStatus.reschedule_requested
    then accept_slot now customer i (s.proposed_slot i) s
    else (s, err bad_request)

-- `acceptReschedule`.
unfoldable pub accept_reschedule : ℕ → ℕ → ℕ → Shop → Shop × Result OrderError (Unit {0})
accept_reschedule now customer i s =
    accept_for now customer i (owned customer (find_live s.world i)) s

abbrev pub decline_for : ℕ → Option Order → Shop → Shop × Result OrderError (Unit {0})
decline_for i none s = (s, err not_found)
decline_for i (some o) s =
    if same_status o.status OrderStatus.reschedule_requested
    then (
      record s {
        world = move_order i OrderStatus.accepted_by_hub s.world;
        proposed_slot = set_at i none s.proposed_slot;
      },
      ok tt,
    )
    else (s, err bad_request)

-- `declineReschedule`.
unfoldable pub decline_reschedule : ℕ → ℕ → Shop → Shop × Result OrderError (Unit {0})
decline_reschedule customer i s = decline_for i (owned customer (find_live s.world i)) s
