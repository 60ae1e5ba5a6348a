-- ===== src/Orders/Rescheduling/Outcomes.antt =====
-- What a proposal and its acceptance lead to (src/modules/delivery/delivery-schedule.service.ts).
use vikram_backend.Prelude.{
  ℕ, ◌<◌, ◌≡◌, ◌⊎◌, refl, ap, ◌∙◌, if_either, Bool, true, false, ◌&&◌, Option, none, some, leb,
  ◌==◌, arith, Bool-cases, Option-cases, inl, inr, find?, Result, ok, err,
}
use vikram_backend.Prelude.Rows.{count_if-update_where}
use vikram_backend.Delivery.Slots.Store.{Reservation, Slot, Db}
use vikram_backend.Delivery.Slots.Ops.{
  SlotError, reservation_count, take_place, is_own_hold, confirm_row, has_order, is_taken, is_stale,
  new_hold, with_slot, confirm_active, confirm_reservation, expire_stale_reservations,
}
use vikram_backend.Delivery.Windows.{Operating, validate_slot_against_operating_rules}
use vikram_backend.Orders.Status.{OrderStatus, same_status}
use vikram_backend.Orders.World.{OrderError, not_found, bad_request, find_live}
use vikram_backend.Orders.Customer.{owned}
use vikram_backend.Orders.Shop.{Shop}
use vikram_backend.Orders.Rescheduling.{
  at_hub, slot_at_hub, can_be_rescheduled, is_proposable, propose_slot, propose_for,
  request_reschedule, accepted, accept_slot, accept_for, accept_reschedule,
}

-- The expiry keeps the orders of the reservations.
expire-is_taken :
    (now i : ℕ) (db : Db) → is_taken i (expire_stale_reservations now db) ≡ is_taken i db
unfolding expire_stale_reservations
expire-is_taken now i db =
    ap (λ (n : ℕ). leb 1 n)
      (count_if-update_where (is_stale now) (has_order i) _ db.reservations (λ r h. refl))

abbrev is_err : Db × Result SlotError Reservation → Bool
is_err (db, ok r) = false
is_err (db, err e) = true

take_place-taken :
    (now k : ℕ) (x : Slot) (new : Reservation) (db : Db)
    → is_err (take_place now k x true new db) ≡ true
unfolding take_place
take_place-taken now k x new db = ground arith

confirm_active-taken :
    (now customer i k : ℕ) (x : Slot) (db : Db)
    → is_taken i db ≡ true
    → is_err (confirm_active now customer i k x db) ≡ true
unfolding confirm_active
confirm_active-taken now customer i k x db h =
    elim (Option-cases (find? (is_own_hold now customer k) db.reservations)) [
      | inl e ↦
          rw (e, h, confirm_active)
            (take_place-taken now k x (confirm_row i (new_hold now customer k db)) db)
      | inr (r, e) ↦ rw (e, h, confirm_active) refl
    ]

confirm_reservation-taken :
    (now customer i k : ℕ) (db : Db)
    → is_taken i db ≡ true
    → is_err (confirm_reservation now customer i k db) ≡ true
unfolding confirm_reservation
confirm_reservation-taken now customer i k db h =
    let d = expire_stale_reservations now db in
    let h' : is_taken i d ≡ true = expire-is_taken now i db ∙ h in
    elim (Option-cases (d.slot k)) [
      | inl e ↦ rw (e, with_slot) refl
      | inr (x, e) ↦
          rw (e, with_slot)
            (if_either (λ (r : Db × Result SlotError Reservation). is_err r ≡ true) x.active
              (λ _. confirm_active-taken now customer i k x d h') (λ _. refl))
    ]

abbrev pub IsRefused : Shop → Shop × Result OrderError (Unit {0}) → Type 0
IsRefused s r = (r.0 ≡ s) × ((e : OrderError) × (r.1 ≡ err e))

accepted-err :
    (i k : ℕ) (s : Shop) (r : Db × Result SlotError Reservation)
    → is_err r ≡ true
    → IsRefused s (accepted i k s r)
accepted-err i k s (db, ok x) h = cc
accepted-err i k s (db, err e) h = (refl, (bad_request, refl))

accept_slot-taken :
    (now customer i : ℕ) (p : Option ℕ) (s : Shop)
    → is_taken i s.world.slots ≡ true
    → IsRefused s (accept_slot now customer i p s)
accept_slot-taken now customer i none s h = (refl, (bad_request, refl))
accept_slot-taken now customer i (some k) s h =
    accepted-err i k s (confirm_reservation now customer i k s.world.slots)
      (confirm_reservation-taken now customer i k s.world.slots h)

-- An order that ever had a reservation of a slot, even one that was released, cannot accept a
-- proposed slot: whatever the proposal is, the acceptance fails and changes nothing.
pub accept_reschedule-Refused :
    (now customer i : ℕ) (s : Shop)
    → is_taken i s.world.slots ≡ true
    → IsRefused s (accept_reschedule now customer i s)
unfolding accept_reschedule
accept_reschedule-Refused now customer i s h =
    elim (Option-cases (owned customer (find_live s.world i))) [
      | inl e ↦ rw (e, accept_for) (refl, (not_found, refl))
      | inr (o, e) ↦
          rw (e, accept_for)
            (if_either (IsRefused s) (same_status o.status OrderStatus.reschedule_requested)
              (λ _. accept_slot-taken now customer i (s.proposed_slot i) s h)
              (λ _. (refl, (bad_request, refl))))
    ]

-- The slot k is an open one of the hub, lies within the delivery rules and has room.
abbrev pub IsOpenSlot : ℕ → Operating → ℕ → ℕ → Db → Type 0
IsOpenSlot now o hub k db =
    (x : Slot) × (db.slot k ≡ some x)
    × (x.key.hub_id ≡ hub)
    × (x.active ≡ true)
    × (validate_slot_against_operating_rules x.key.slot_date x.key.start_minutes x.key.end_minutes o
        ≡ none)
    × (reservation_count now k db < x.capacity)

-- What a proposal leaves: it is noted, and no reservation and no order's own slot change.
abbrev pub IsProposed :
    ℕ → Operating → ℕ → ℕ → ℕ → Shop → Shop × Result OrderError (Unit {0}) → Type 0
IsProposed now o hub i k s (t, r) =
    IsRefused s (t, r)
    ⊎ (IsOpenSlot now o hub k s.world.slots
        × (t.proposed_slot i ≡ some k)
        × (t.world.slots ≡ s.world.slots)
        × (t.scheduled_slot ≡ s.scheduled_slot))

propose_slot-IsProposed :
    (now : ℕ) (o : Operating) (hub i k : ℕ) (s : Shop) (y : Option Slot)
    → s.world.slots.slot k ≡ y
    → IsProposed now o hub i k s (propose_slot now o i k (slot_at_hub hub y) s)
propose_slot-IsProposed now o hub i k s none e = inl (refl, (bad_request, refl))
propose_slot-IsProposed now o hub i k s (some x) e =
    elim (Bool-cases (x.key.hub_id == hub && x.active)) [
      | inr b ↦ rw b (inl (refl, (bad_request, refl)))
      | inl b ↦ elim (Bool-cases (is_proposable now k o s.world.slots x)) [
        | inr c ↦ rw (b, c) (inl (refl, (bad_request, refl)))
        | inl c ↦
            rw (b, c)
              (inr (
                (x, e, ground arith, ground arith, ground arith, ground arith),
                ground arith,
                refl,
                refl,
              ))
      ]
    ]

-- A hub's proposal is refused and changes nothing, or it is made: then the slot is an open one of the
-- hub, lies within the delivery rules and has room; it is noted as the order's proposed slot, and
-- neither the reservations nor the order's own slot change, so that the room is not kept for it.
pub request_reschedule-IsProposed :
    (now : ℕ) (o : Operating) (hub i k : ℕ) (s : Shop)
    → IsProposed now o hub i k s (request_reschedule now o hub i k s)
unfolding request_reschedule
request_reschedule-IsProposed now o hub i k s =
    elim (Option-cases (at_hub hub (find_live s.world i))) [
      | inl e ↦ rw (e, propose_for) (inl (refl, (not_found, refl)))
      | inr (x, e) ↦
          rw (e, propose_for)
            (if_either (IsProposed now o hub i k s) (can_be_rescheduled x.status)
              (λ _. propose_slot-IsProposed now o hub i k s (s.world.slots.slot k) refl)
              (λ _. inl (refl, (bad_request, refl))))
    ]
