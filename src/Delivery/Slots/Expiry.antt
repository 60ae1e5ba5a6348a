-- ===== src/Delivery/Slots/Expiry.antt =====
-- What `expireStaleReservations` does to each slot: it gives back as many units as it expires rows.
use mathlib.Core.Option
use vikram_backend.Prelude.{
  ℕ, ◌+◌, ◌≡◌, Bool, Option, List, [], ◌∷◌, arith, ◌==◌, if◌then◌else◌, count_if, filter_if,
  update_where,
}
use vikram_backend.Delivery.Slots.Store.{
  Reservation, Slot, Db, expired, active_count, update_slot, decrement,
}
use vikram_backend.Delivery.Slots.Ops.{
  is_stale, bump, count_by_slot, release_counts, expire_stale_reservations,
}

-- What the map of counts holds for slot i.
tally : ℕ → List (ℕ × ℕ) → ℕ
tally i [] = 0
tally i ((j, n) ∷ m) = (if j == i then n else 0) + tally i m

tally-bump :
    (i j : ℕ) (m : List (ℕ × ℕ)) → tally i (bump j m) ≡ tally i m + (if j == i then 1 else 0)
unfolding tally bump
tally-bump i j [] = ground arith
tally-bump i j ((k, n) ∷ m) = ground (arith, tally-bump i j m)

abbrev of_slot : ℕ → Reservation → Bool
of_slot i r = r.slot_id == i

tally-count_by_slot :
    (i : ℕ) (rs : List Reservation) (m : List (ℕ × ℕ))
    → tally i (count_by_slot rs m) ≡ tally i m + count_if (of_slot i) rs
unfolding count_by_slot
tally-count_by_slot i [] m = omega arith
tally-count_by_slot i (r ∷ rs) m =
    ground (arith, tally-bump i r.slot_id m, tally-count_by_slot i rs (bump r.slot_id m))

abbrev minus : ℕ → Option Slot → Option Slot
minus k o = Option.map (decrement k) o

release_counts_lem :
    (m : List (ℕ × ℕ)) (slot : ℕ → Option Slot) (i : ℕ)
    → release_counts m slot i ≡ minus (tally i m) (slot i)
unfolding release_counts tally
release_counts_lem [] slot i = ground arith
release_counts_lem ((j, n) ∷ m) slot i =
    ground (arith, release_counts_lem m (update_slot j (decrement n) slot) i)

-- The units that expiry gives back to slot i.
abbrev pub stale_count : ℕ → ℕ → Db → ℕ
stale_count now i db = count_if (of_slot i) (filter_if (is_stale now) db.reservations)

pub expire-slot :
    (now : ℕ) (db : Db) (i : ℕ)
    → (expire_stale_reservations now db).slot i ≡ minus (stale_count now i db) (db.slot i)
unfolding expire_stale_reservations tally
expire-slot now db i = ground (
  arith,
  release_counts_lem (count_by_slot (filter_if (is_stale now) db.reservations) []) db.slot i,
  tally-count_by_slot i (filter_if (is_stale now) db.reservations) [],
)

active_count-expire :
    (now i : ℕ) (rs : List Reservation)
    → active_count i (update_where (is_stale now) (λ r. record r { status = expired }) rs)
        + count_if (of_slot i) (filter_if (is_stale now) rs)
      ≡ active_count i rs
active_count-expire now i [] = omega arith
active_count-expire now i (r ∷ rs) = ground (arith, active_count-expire now i rs)

pub expire-active_count :
    (now i : ℕ) (db : Db)
    → active_count i (expire_stale_reservations now db).reservations + stale_count now i db
      ≡ active_count i db.reservations
unfolding expire_stale_reservations
expire-active_count now i db = active_count-expire now i db.reservations
