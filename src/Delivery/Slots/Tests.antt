-- ===== src/Delivery/Slots/Tests.antt =====
-- Runs of the slot operations, and the theorems at concrete tables.
use vikram_backend.Prelude.{◌≤◌, ◌<◌, ◌≡◌, refl, true, some, none, ◌∷◌, [], ok, err}
use vikram_backend.Delivery.Slots.Store.{SlotKey, Slot, Db, pending, active_count, empty_db}
use vikram_backend.Delivery.Slots.Ops.{
  unavailable, expire_stale_reservations, hold_slot, upsert_slot, new_hold,
}
use vikram_backend.Delivery.Slots.Capacity.{IsValid, upsert-IsValid, empty-IsValid, hold-IsValid}
use vikram_backend.Delivery.Slots.Histories.{Reach, start, next, holds, upserts, no_overbooking}
use vikram_backend.Delivery.Slots.Holds.{hold_iff_room}

abbrev key : SlotKey
key = record { hub_id = 1; slot_date = 20; start_minutes = 660; end_minutes = 690 }

-- One slot with two places.
abbrev opened : Db
opened = (upsert_slot key 640 2 ("FULL_TRUCK" ∷ []) none empty_db).0

abbrev one_hold : Db
one_hold = (hold_slot 1000 7 0 opened).0

abbrev two_holds : Db
two_holds = (hold_slot 2000 8 0 one_hold).0

third_refused : (hold_slot 3000 9 0 two_holds).1 ≡ err unavailable
unfolding hold_slot upsert_slot
third_refused = refl

third_after_expiry :
    (hold_slot 901000 9 0 two_holds).1
    ≡ ok (record {
      id = 2;
      slot_id = 0;
      customer_id = 9;
      order_id = none;
      status = pending;
      expires_at = some 1801000;
    })
unfolding hold_slot upsert_slot
third_after_expiry = refl

two_holds-Reach : Reach two_holds
two_holds-Reach =
    next
      (next (next start (upserts key 640 2 ("FULL_TRUCK" ∷ []) none empty_db))
        (holds 1000 7 0 opened))
      (holds 2000 8 0 one_hold)

abbrev full_slot : Slot
full_slot = record {
  key = key;
  cutoff_minutes = 640;
  capacity = 2;
  reserved_capacity = 2;
  vehicle_types = "FULL_TRUCK" ∷ [];
  logistics_type = none;
  active = true;
}

no_overbooking_example :
    (2 ≡ active_count 0 two_holds.reservations) × (active_count 0 two_holds.reservations ≤ 2)
unfolding hold_slot upsert_slot
no_overbooking_example = no_overbooking two_holds 0 full_slot two_holds-Reach refl

two_holds-IsValid : IsValid two_holds
two_holds-IsValid = hold-IsValid 2000 8 0 one_hold (
    hold-IsValid 1000 7 0 opened
      (upsert-IsValid key 640 2 ("FULL_TRUCK" ∷ []) none empty_db empty-IsValid))

hold_iff_room_example :
    (active_count 0 (expire_stale_reservations 3000 two_holds).reservations < 2
      → (hold_slot 3000 9 0 two_holds).1
        ≡ ok (new_hold 3000 9 0 (expire_stale_reservations 3000 two_holds)))
    × (2 ≤ active_count 0 (expire_stale_reservations 3000 two_holds).reservations
        → hold_slot 3000 9 0 two_holds
          ≡ (expire_stale_reservations 3000 two_holds, err unavailable))
unfolding hold_slot upsert_slot
hold_iff_room_example = hold_iff_room 3000 9 0 two_holds full_slot two_holds-IsValid refl refl refl
