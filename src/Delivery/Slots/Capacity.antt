-- ===== src/Delivery/Slots/Capacity.antt =====
-- The invariant of the slot tables, kept by every operation: the stored count of a slot is the
-- number of its live reservations, and does not pass its capacity.
use Prim.Native.String.{String}
use vikram_backend.Prelude.{
  ℕ, ◌≤◌, ◌<◌, ◌≡◌, ◌⊎◌, refl, if_either, find?-holds, inl, inr, Bool, true, false, Option, none,
  some, List, [], ◌∷◌, arith, is_some, Option-cases, count_if-append, find?, update_first, All,
  All-append, Result,
}
use vikram_backend.Delivery.Slots.Store.{
  Reservation, released, expired, SlotKey, Slot, Db, is_pending, active_on, active_count, empty_db,
}
use vikram_backend.Delivery.Slots.Ops.{
  SlotError, is_stale, expire_stale_reservations, place, take_place, is_held, extend_hold, new_hold,
  hold_active, with_slot, hold_slot, is_own_hold, confirm_row, is_taken, confirm_active,
  confirm_reservation, is_live_order, release_order_reservation, upsert_slot,
}
use vikram_backend.Delivery.Slots.Expiry.{expire-slot, expire-active_count}
use vikram_backend.Prelude.Rows.{
  count_if-update_first, count_if-update_first_drop, All-update_first, All-update_where,
}

-- A slot row against the number n of its live reservations.
abbrev pub SlotFits : Option Slot → ℕ → Type 0
SlotFits none n = n ≡ 0
SlotFits (some s) n = (s.reserved_capacity ≡ n) × (n ≤ s.capacity)

-- A pending row has an end.
abbrev pub IsTimed : Reservation → Type 0
IsTimed r = is_pending r.status ≡ true → is_some r.expires_at ≡ true

pub record IsValid (db : Db) : Type 0 where
  pub fits : (i : ℕ) → SlotFits (db.slot i) (active_count i db.reservations)
  pub fresh : (i : ℕ) → db.next_slot_id ≤ i → db.slot i ≡ none
  pub timed : All IsTimed db.reservations

pub empty-IsValid : IsValid empty_db
empty-IsValid = record { fits = λ i. refl; fresh = λ i h. refl; timed = tt }

pub expire-IsValid : (now : ℕ) (db : Db) → IsValid db → IsValid (expire_stale_reservations now db)
unfolding expire_stale_reservations
expire-IsValid now db v = record {
  fits = λ i. ground (arith, v.fits i, expire-slot now db i, expire-active_count now i db);
  fresh = λ i h. ground (arith, v.fresh i h, expire-slot now db i);
  timed =
      All-update_where IsTimed (is_stale now) (λ r. record r { status = expired }) db.reservations
        (λ r. ground arith) v.timed;
}

place-IsValid :
    (i : ℕ) (slot : Slot) (new : Reservation) (db : Db)
    → IsValid db
    → db.slot i ≡ some slot
    → active_on i new ≡ true
    → slot.reserved_capacity < slot.capacity
    → IsTimed new
    → IsValid (place i new db)
place-IsValid i slot new db v e a room t = record {
  fits = λ j.
      ground (arith, v.fits i, v.fits j, count_if-append (active_on j) db.reservations (new ∷ []));
  fresh = λ j h. ground (arith, v.fresh j h);
  timed = All-append IsTimed db.reservations (new ∷ []) v.timed (t, tt);
}

abbrev IsOk : Db × Result SlotError Reservation → Type 0
IsOk r = IsValid r.0

take_place-cases :
    (now i : ℕ) (slot : Slot) (taken : Bool) (new : Reservation) (db : Db)
    → ((take_place now i slot taken new db).0 ≡ db)
      ⊎ (((take_place now i slot taken new db).0 ≡ place i new db)
          × (slot.reserved_capacity < slot.capacity))
unfolding take_place
take_place-cases now i slot taken new db = ground arith

take_place-IsValid :
    (now i : ℕ) (slot : Slot) (taken : Bool) (new : Reservation) (db : Db)
    → IsValid db
    → db.slot i ≡ some slot
    → active_on i new ≡ true
    → IsTimed new
    → IsValid (take_place now i slot taken new db).0
take_place-IsValid now i slot taken new db v e a t =
    elim (take_place-cases now i slot taken new db) [
      | inl same ↦ rw same v
      | inr (placed, room) ↦ rw placed (place-IsValid i slot new db v e a room t)
    ]

rewrite-IsValid :
    (p : Reservation → Bool) (f : Reservation → Reservation) (db : Db)
    → IsValid db
    → ((r : Reservation) → IsTimed (f r))
    → ((j : ℕ) (r : Reservation) → p r ≡ true → active_on j (f r) ≡ active_on j r)
    → IsValid (record db { reservations = update_first p f db.reservations })
rewrite-IsValid p f db v t same = record {
  fits = λ j.
      ground (arith, v.fits j, count_if-update_first p (active_on j) f db.reservations (same j));
  fresh = v.fresh;
  timed = All-update_first IsTimed p f db.reservations t v.timed;
}

hold_active-IsValid :
    (now customer i : ℕ) (slot : Slot) (db : Db)
    → IsValid db
    → db.slot i ≡ some slot
    → IsValid (hold_active now customer i slot db).0
unfolding hold_active
hold_active-IsValid now customer i slot db v e =
    elim (Option-cases (find? (is_held now customer i) db.reservations)) [
      | inl free ↦
          rw (free, hold_active)
            (take_place-IsValid now i slot false (new_hold now customer i db) db v e (ground arith)
              (ground arith))
      | inr (r, held) ↦
          rw (held, hold_active)
            (if_either IsOk _
              (λ _.
                rewrite-IsValid (is_held now customer i) (extend_hold now) db v (λ x. ground arith)
                  (λ j x h. ground arith))
              (λ _. v))
    ]

confirm_active-IsValid :
    (now customer order i : ℕ) (slot : Slot) (db : Db)
    → IsValid db
    → db.slot i ≡ some slot
    → IsValid (confirm_active now customer order i slot db).0
unfolding confirm_active
confirm_active-IsValid now customer order i slot db v e =
    elim (Option-cases (find? (is_own_hold now customer i) db.reservations)) [
      | inl free ↦
          rw (free, confirm_active)
            (take_place-IsValid now i slot (is_taken order db)
              (confirm_row order (new_hold now customer i db)) db v e (ground arith) (ground arith))
      | inr (r, held) ↦
          rw (held, confirm_active)
            (if_either IsOk _ (λ _. v)
              (λ _.
                rewrite-IsValid (is_own_hold now customer i) (confirm_row order) db v
                  (λ x. ground arith) (λ j x h. ground arith)))
    ]

with_slot-IsValid :
    (i : ℕ) (k : Slot → Db → Db × Result SlotError Reservation) (db : Db)
    → IsValid db
    → ((slot : Slot) → db.slot i ≡ some slot → IsValid (k slot db).0)
    → IsValid (with_slot i k db).0
with_slot-IsValid i k db v h = elim (Option-cases (db.slot i)) [
  | inl e ↦ rw (e, with_slot) v
  | inr (slot, e) ↦ rw (e, with_slot) (if_either IsOk slot.active (λ _. h slot e) (λ _. v))
]

pub hold-IsValid :
    (now customer i : ℕ) (db : Db) → IsValid db → IsValid (hold_slot now customer i db).0
unfolding hold_slot
hold-IsValid now customer i db v =
    let v' = expire-IsValid now db v in
    with_slot-IsValid i (hold_active now customer i) (expire_stale_reservations now db) v'
      λ slot e. hold_active-IsValid now customer i slot (expire_stale_reservations now db) v' e

pub confirm-IsValid :
    (now customer order i : ℕ) (db : Db)
    → IsValid db
    → IsValid (confirm_reservation now customer order i db).0
unfolding confirm_reservation
confirm-IsValid now customer order i db v =
    let v' = expire-IsValid now db v in
    with_slot-IsValid i (confirm_active now customer order i) (expire_stale_reservations now db) v'
      λ slot e.
        confirm_active-IsValid now customer order i slot (expire_stale_reservations now db) v' e

pub release-IsValid :
    (order : ℕ) (db : Db) → IsValid db → IsValid (release_order_reservation order db)
unfolding release_order_reservation
release-IsValid order db v = elim (Option-cases (find? (is_live_order order) db.reservations)) [
  | inl e ↦ rw (e, release_order_reservation) v
  | inr (r, e) ↦
      rw (e, release_order_reservation)
        (record {
          fits = λ j. ground (
            arith,
            v.fits j,
            find?-holds (is_live_order order) db.reservations e,
            count_if-update_first_drop (is_live_order order) (active_on j)
                (λ x. record x { status = released }) db.reservations r (λ x. ground arith) e,
          );
          fresh = λ j h. ground (arith, v.fresh j h);
          timed =
              All-update_first IsTimed (is_live_order order) (λ x. record x { status = released })
                db.reservations (λ x. ground arith) v.timed;
        })
]

pub upsert-IsValid :
    (key : SlotKey) (cutoff capacity : ℕ) (vehicles : List String) (logistics : Option String)
    (db : Db)
    → IsValid db
    → IsValid (upsert_slot key cutoff capacity vehicles logistics db).0
unfolding upsert_slot
upsert-IsValid key cutoff capacity vehicles logistics db v = elim (Option-cases (db.by_key key)) [
  | inl e ↦
      rw (e, upsert_slot)
        (record {
          fits = λ j. ground (arith, v.fits j, v.fresh j);
          fresh = λ j h. ground (arith, v.fresh j);
          timed = v.timed;
        })
  | inr (i, e) ↦
      rw (e, upsert_slot)
        (record {
          fits = λ j. ground (arith, v.fits j);
          fresh = λ j h. ground (arith, v.fresh j h);
          timed = v.timed;
        })
]
