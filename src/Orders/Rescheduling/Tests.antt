-- ===== src/Orders/Rescheduling/Tests.antt =====
-- An order that was placed for a slot, and for which the hub proposes another one.
use vikram_backend.Prelude.{ℕ, ◌+◌, ◌≡◌, refl, true, none, some, [], ◌∷◌, ◌==◌, if◌then◌else◌, ok}
use vikram_backend.Delivery.Slots.Store.{Slot, Db, confirmed}
use vikram_backend.Delivery.Windows.{
  default_operating, is_delivery_holiday, validate_slot_against_operating_rules,
}
use vikram_backend.Orders.Status.{OrderStatus}
use vikram_backend.Orders.Tests.{world_of, online_order}
use vikram_backend.Orders.Shop.{Shop}
use vikram_backend.Orders.Rescheduling.{request_reschedule, accept_reschedule}
use vikram_backend.Orders.Rescheduling.Outcomes.{IsRefused, accept_reschedule-Refused}

abbrev slot_at : ℕ → Slot
slot_at start = record {
  key = record { hub_id = 1; slot_date = 20416; start_minutes = start; end_minutes = start + 30 };
  cutoff_minutes = 660;
  capacity = 8;
  reserved_capacity = 0;
  vehicle_types = [];
  logistics_type = none;
  active = true;
}

abbrev db : Db
db = record {
  slot = λ k. if k == 0 then some (slot_at 660) else if k == 1 then some (slot_at 720) else none;
  by_key = λ _. none;
  next_slot_id = 2;
  reservations =
      record {
        id = 0;
        slot_id = 0;
        customer_id = 9;
        order_id = some 0;
        status = confirmed;
        expires_at = none;
      }
      ∷ [];
  next_reservation_id = 1;
}

abbrev shop : Shop
shop = record {
  world = record (world_of (record online_order { status = OrderStatus.accepted_by_hub })) {
    slots = db;
  };
  idempotency_key = λ _. none;
  scheduled_slot = λ _. some 0;
  proposed_slot = λ _. none;
  variant = λ _. none;
  cart = λ _. [];
}

abbrev proposed : Shop
proposed = (request_reschedule 10 default_operating 1 0 1 shop).0

is_proposed : (request_reschedule 10 default_operating 1 0 1 shop).1 ≡ ok tt
unfolding request_reschedule validate_slot_against_operating_rules is_delivery_holiday
is_proposed = refl

accept_reschedule-Refused_example : IsRefused proposed (accept_reschedule 20 9 0 proposed)
unfolding request_reschedule validate_slot_against_operating_rules is_delivery_holiday
accept_reschedule-Refused_example = accept_reschedule-Refused 20 9 0 proposed refl
