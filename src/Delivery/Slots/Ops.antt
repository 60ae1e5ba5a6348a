-- ===== src/Delivery/Slots/Ops.antt =====
-- The operations of `DeliverySlotService`. Each returns the tables after it and what it returns or
-- throws; all the `new Date()` of one call are its argument `now`.
use Prim.Native.String.{String}
use vikram_backend.Prelude.{
  ℕ, suc, ◌+◌, ◌*◌, Bool, true, false, not, ◌&&◌, ◌||◌, Option, none, some, List, [], ◌∷◌, ◌++◌,
  ltb, leb, ◌==◌, if◌then◌else◌, count_if, find?, update_first, filter_if, update_where, Result, ok,
  err,
}
use vikram_backend.Delivery.Slots.Store.{
  pending, confirmed, released, expired, Reservation, SlotKey, Slot, Db, is_pending, is_confirmed,
  is_active, expires_after, expires_by, unexpired, update_slot, decrement,
}

pub data SlotError : Type 0 where
  -- 'Your selected delivery slot is no longer available.'
  unavailable : SlotError
  -- The unique index on `order_id`.
  order_taken : SlotError

-- SLOT_HOLD_MINUTES, in milliseconds.
abbrev pub slot_hold_ms : ℕ
slot_hold_ms = 15 * 60 * 1000

-- A hold that ran out.
abbrev pub is_stale : ℕ → Reservation → Bool
is_stale now r = is_pending r.status && expires_by now r.expires_at

-- `bySlot.set(slotId, (bySlot.get(slotId) ?? 0) + 1)`.
unfoldable pub bump : ℕ → List (ℕ × ℕ) → List (ℕ × ℕ)
bump i [] = (i, 1) ∷ []
bump i ((j, n) ∷ m) = if j == i then (j, n + 1) ∷ m else (j, n) ∷ bump i m

unfoldable pub count_by_slot : List Reservation → List (ℕ × ℕ) → List (ℕ × ℕ)
unfolding bump
count_by_slot [] m = m
count_by_slot (r ∷ rs) m = count_by_slot rs (bump r.slot_id m)

-- The loop over `bySlot`.
unfoldable pub release_counts : List (ℕ × ℕ) → (ℕ → Option Slot) → ℕ → Option Slot
release_counts [] slot = slot
release_counts ((i, n) ∷ m) slot = release_counts m (update_slot i (decrement n) slot)

-- `expireStaleReservations`. The rows whose id is among the stale ones are the stale rows.
unfoldable pub expire_stale_reservations : ℕ → Db → Db
unfolding count_by_slot release_counts
expire_stale_reservations now db =
    let stale = filter_if (is_stale now) db.reservations in
    record db {
      reservations =
          update_where (is_stale now) (λ r. record r { status = expired }) db.reservations;
      slot = release_counts (count_by_slot stale []) db.slot;
    }

-- CONFIRMED, or PENDING and not run out: the rows that `loadReservationCounts`, `holdSlot` and
-- `confirmReservation` count.
abbrev pub is_counted : ℕ → ℕ → Reservation → Bool
is_counted now i r =
    r.slot_id == i
    && (is_confirmed r.status || (is_pending r.status && expires_after now r.expires_at))

-- `loadReservationCounts`, at one slot.
abbrev pub reservation_count : ℕ → ℕ → Db → ℕ
reservation_count now i db = count_if (is_counted now i) db.reservations

-- One unit of slot i, and the row that takes it.
abbrev pub place : ℕ → Reservation → Db → Db
place i new db = record db {
  slot = update_slot i (λ s. record s { reserved_capacity = s.reserved_capacity + 1 }) db.slot;
  reservations = db.reservations ++ (new ∷ []);
  next_reservation_id = suc db.next_reservation_id;
}

-- The part that `holdSlot` and `confirmReservation` share: count, take one unit, create the row.
-- `taken` is a violation of the unique index on `order_id`: the create throws, and the transaction
-- takes the unit back.
unfoldable pub take_place :
    ℕ → ℕ → Slot → Bool → Reservation → Db → Db × Result SlotError Reservation
take_place now i slot taken new db =
    if leb slot.capacity (reservation_count now i db)
    then (db, err unavailable)
    else if not (ltb slot.reserved_capacity slot.capacity && slot.active)
    then (db, err unavailable)
    else if taken
    then (db, err order_taken)
    else (place i new db, ok new)

-- The `existing` row of `holdSlot`.
abbrev pub is_held : ℕ → ℕ → ℕ → Reservation → Bool
is_held now customer i r =
    r.slot_id == i && r.customer_id == customer && is_active r.status && unexpired now r.expires_at

abbrev pub extend_hold : ℕ → Reservation → Reservation
extend_hold now r = record r { expires_at = some (now + slot_hold_ms) }

abbrev pub new_hold : ℕ → ℕ → ℕ → Db → Reservation
new_hold now customer i db = record {
  id = db.next_reservation_id;
  slot_id = i;
  customer_id = customer;
  order_id = none;
  status = pending;
  expires_at = some (now + slot_hold_ms);
}

-- `holdSlot` from the read of `existing` on.
unfoldable pub hold_active : ℕ → ℕ → ℕ → Slot → Db → Db × Result SlotError Reservation
unfolding take_place
hold_active now customer i slot db = elim (find? (is_held now customer i) db.reservations) [
  | some r ↦
      if is_pending r.status
      then (
        record db {
          reservations = update_first (is_held now customer i) (extend_hold now) db.reservations;
        },
        ok (extend_hold now r),
      )
      else (db, ok r)
  | none ↦ take_place now i slot false (new_hold now customer i db) db
]

abbrev pub with_slot :
    ℕ → (Slot → Db → Db × Result SlotError Reservation) → Db → Db × Result SlotError Reservation
with_slot i k db = elim (db.slot i) [
  | none ↦ (db, err unavailable)
  | some slot ↦ if slot.active then k slot db else (db, err unavailable)
]

unfoldable pub hold_slot : ℕ → ℕ → ℕ → Db → Db × Result SlotError Reservation
unfolding expire_stale_reservations hold_active
hold_slot now customer i db =
    with_slot i (hold_active now customer i) (expire_stale_reservations now db)

-- The `pending` row of `confirmReservation`.
abbrev pub is_own_hold : ℕ → ℕ → ℕ → Reservation → Bool
is_own_hold now customer i r =
    r.slot_id == i && r.customer_id == customer && is_pending r.status && unexpired now r.expires_at

abbrev pub confirm_row : ℕ → Reservation → Reservation
confirm_row order r = record r { status = confirmed; order_id = some order; expires_at = none }

abbrev pub has_order : ℕ → Reservation → Bool
has_order order r = elim r.order_id [ none ↦ false | some o ↦ o == order ]

abbrev pub is_taken : ℕ → Db → Bool
is_taken order db = leb 1 (count_if (has_order order) db.reservations)

-- `confirmReservation` from the read of `pending` on.
unfoldable pub confirm_active : ℕ → ℕ → ℕ → ℕ → Slot → Db → Db × Result SlotError Reservation
unfolding take_place
confirm_active now customer order i slot db =
    elim (find? (is_own_hold now customer i) db.reservations) [
      | some r ↦ if is_taken order db then (db, err order_taken) else (
        record db {
          reservations =
              update_first (is_own_hold now customer i) (confirm_row order) db.reservations;
        },
        ok (confirm_row order r),
      )
      | none ↦
          take_place now i slot (is_taken order db) (confirm_row order (new_hold now customer i db))
            db
    ]

unfoldable pub confirm_reservation : ℕ → ℕ → ℕ → ℕ → Db → Db × Result SlotError Reservation
unfolding expire_stale_reservations confirm_active
confirm_reservation now customer order i db =
    with_slot i (confirm_active now customer order i) (expire_stale_reservations now db)

abbrev pub is_live_order : ℕ → Reservation → Bool
is_live_order order r = has_order order r && is_active r.status

-- `releaseOrderReservation`.
unfoldable pub release_order_reservation : ℕ → Db → Db
release_order_reservation order db = elim (find? (is_live_order order) db.reservations) [
  | none ↦ db
  | some r ↦ record db {
    reservations =
        update_first (is_live_order order) (λ x. record x { status = released }) db.reservations;
    slot = update_slot r.slot_id (decrement 1) db.slot;
  }
]

abbrev key_eq : SlotKey → SlotKey → Bool
key_eq a b =
    a.hub_id == b.hub_id
    && a.slot_date == b.slot_date
    && a.start_minutes == b.start_minutes
    && a.end_minutes == b.end_minutes

abbrev or_keep : Option String → Option String → Option String
or_keep none old = old
or_keep (some t) old = some t

-- `upsertSlot`: the tables and the id of the row.
unfoldable pub upsert_slot : SlotKey → ℕ → ℕ → List String → Option String → Db → Db × ℕ
upsert_slot key cutoff capacity vehicles logistics db = elim (db.by_key key) [
  | some i ↦ (
    record db {
      slot =
          update_slot i
            (λ s. record s {
              cutoff_minutes = cutoff;
              active = true;
              logistics_type = or_keep logistics s.logistics_type;
            })
            db.slot;
    },
    i,
  )
  | none ↦ (
    record db {
      slot = λ j.
          if db.next_slot_id == j
          then some (record {
            key = key;
            cutoff_minutes = cutoff;
            capacity = capacity;
            reserved_capacity = 0;
            vehicle_types = vehicles;
            logistics_type = logistics;
            active = true;
          })
          else db.slot j;
      by_key = λ k. if key_eq key k then some db.next_slot_id else db.by_key k;
      next_slot_id = suc db.next_slot_id;
    },
    db.next_slot_id,
  )
]
