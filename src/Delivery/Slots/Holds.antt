-- ===== src/Delivery/Slots/Holds.antt =====
-- What a customer may rely on: when `holdSlot` gives a place, and that a hold can be confirmed
-- until it runs out.
use vikram_backend.Prelude.{
  ℕ, ◌+◌, ◌≤◌, ◌<◌, ◌≡◌, refl, true, false, some, none, List, ◌∷◌, [], arith, inl, inr, count_if,
  count_if-append, update_where, find?, find?-holds, Option-cases, All, ok, err,
}
use vikram_backend.Delivery.Slots.Store.{Reservation, Slot, Db, expired, is_pending, active_count}
use vikram_backend.Delivery.Slots.Ops.{
  unavailable, expire_stale_reservations, hold_slot, hold_active, is_held, is_stale, is_counted,
  reservation_count, is_own_hold, has_order, is_taken, confirm_row, confirm_reservation,
  extend_hold, slot_hold_ms, new_hold,
}
use vikram_backend.Delivery.Slots.Expiry.{expire-slot}
use vikram_backend.Delivery.Slots.Capacity.{SlotFits, IsValid, IsTimed, expire-IsValid}
use vikram_backend.Prelude.Rows.{
  count_if-update_first_found, find?-update_where, count_if-update_where, find?-of_count,
}

count_fresh :
    (now i : ℕ) (rs : List Reservation)
    → All IsTimed rs
    → count_if (is_stale now) rs ≡ 0
    → count_if (is_counted now i) rs ≡ active_count i rs
count_fresh now i [] t z = refl
count_fresh now i (r ∷ rs) t z = ground (arith, t.0, count_fresh now i rs t.1)

count_if-stale_expire :
    (now : ℕ) (db : Db)
    → count_if (is_stale now) (expire_stale_reservations now db).reservations ≡ 0
unfolding expire_stale_reservations
count_if-stale_expire now db = none_left db.reservations
  where
    none_left :
        (rs : List Reservation)
        → count_if
            (is_stale now)
            (update_where (is_stale now) (λ r. record r { status = expired }) rs)
          ≡ 0
    none_left [] = refl
    none_left (r ∷ rs) = ground (arith, none_left rs)

-- Once the stale holds are expired, the rows that the service counts are the live ones.
reservation_count-expire :
    (now i : ℕ) (db : Db)
    → IsValid db
    → let db' = expire_stale_reservations now db in
      reservation_count now i db' ≡ active_count i db'.reservations
reservation_count-expire now i db v =
    count_fresh now i (expire_stale_reservations now db).reservations
      (expire-IsValid now db v).timed (count_if-stale_expire now db)

-- Of an open slot, a customer with no live reservation on it gets a hold exactly when, after the
-- stale holds are expired, the live reservations are fewer than the slot's capacity; if not, the
-- call is refused and changes nothing but what expired.
pub hold_iff_room :
    (now customer i : ℕ) (db : Db) (s : Slot)
    → IsValid db
    → let db' = expire_stale_reservations now db in
      db'.slot i ≡ some s
      → s.active ≡ true
      → find? (is_held now customer i) db'.reservations ≡ none
      → (active_count i db'.reservations < s.capacity
          → (hold_slot now customer i db).1 ≡ ok (new_hold now customer i db'))
        × (s.capacity ≤ active_count i db'.reservations
            → hold_slot now customer i db ≡ (db', err unavailable))
unfolding hold_slot
hold_iff_room now customer i db s v e a none_held =
    let db' = expire_stale_reservations now db in
    let fits : SlotFits (some s) (active_count i db'.reservations) =
      rw e at ((expire-IsValid now db v).fits i) in
    let counted = reservation_count-expire now i db v in
    (
      λ room. ground (arith, e, a, none_held, fits, counted),
      λ full. ground (arith, e, a, none_held, fits, counted),
    )

own_hold-expire :
    (now later customer i : ℕ) (db : Db)
    → now ≤ later
    → find? (is_own_hold later customer i) (expire_stale_reservations now db).reservations
      ≡ find? (is_own_hold later customer i) db.reservations
unfolding expire_stale_reservations
own_hold-expire now later customer i db h =
    find?-update_where (is_stale now) (is_own_hold later customer i)
      (λ r. record r { status = expired }) db.reservations (λ r p. ground arith)
      (λ r p. ground arith)

is_taken-expire :
    (now order : ℕ) (db : Db)
    → is_taken order (expire_stale_reservations now db) ≡ is_taken order db
unfolding expire_stale_reservations
is_taken-expire now order db = ground (
  arith,
  count_if-update_where (is_stale now) (has_order order) (λ r. record r { status = expired })
      db.reservations (λ r p. refl),
)

-- A customer whose hold on an open slot has not run out can confirm it for an order that has no
-- reservation yet, however full the slot is; the row is confirmed for that order.
pub confirm_of_hold :
    (now customer order i : ℕ) (db : Db) (s : Slot) (r : Reservation)
    → db.slot i ≡ some s
    → s.active ≡ true
    → find? (is_own_hold now customer i) db.reservations ≡ some r
    → is_taken order db ≡ false
    → (confirm_reservation now customer order i db).1 ≡ ok (confirm_row order r)
unfolding confirm_reservation
confirm_of_hold now customer order i db s r e a held free = ground (
  arith,
  expire-slot now db i,
  own_hold-expire now now customer i db,
  is_taken-expire now order db,
)

hold_active-own :
    (now later customer i : ℕ) (slot : Slot) (db : Db) (r : Reservation)
    → (hold_active now customer i slot db).1 ≡ ok r
    → is_pending r.status ≡ true
    → later < now + slot_hold_ms
    → 1
      ≤ count_if (is_own_hold later customer i) (hold_active now customer i slot db).0.reservations
unfolding hold_active
hold_active-own now later customer i slot db r e p h =
    elim (Option-cases (find? (is_held now customer i) db.reservations)) [
      | inl free ↦ ground (
        arith,
        count_if-append (is_own_hold later customer i) db.reservations
            (new_hold now customer i db ∷ []),
      )
      | inr (x, held) ↦ ground (
        arith,
        find?-holds (is_held now customer i) db.reservations held,
        count_if-update_first_found (is_held now customer i) (is_own_hold later customer i)
            (extend_hold now) db.reservations x held,
      )
    ]

-- After a call of `holdSlot` that gives a hold, the customer's hold is there until it runs out,
-- SLOT_HOLD_MINUTES later: whatever the time before that, `confirmReservation` finds it.
pub hold_lasts :
    (now later customer i : ℕ) (db : Db) (r : Reservation)
    → (hold_slot now customer i db).1 ≡ ok r
    → is_pending r.status ≡ true
    → later < now + slot_hold_ms
    → (x : Reservation) × (find?
          (is_own_hold later customer i)
          (hold_slot now customer i db).0.reservations
        ≡ some x)
unfolding hold_slot
hold_lasts now later customer i db r e p h =
    let db' = expire_stale_reservations now db in
    let own = is_own_hold later customer i in
    find?-of_count own (hold_slot now customer i db).0.reservations
      (elim (Option-cases (db'.slot i)) [
        | inl gone ↦ ground (arith, gone)
        | inr (slot, there) ↦ ground (arith, there, hold_active-own now later customer i slot db' r)
      ])
