-- ===== src/Delivery/Slots/Store.antt =====
-- The two tables that delivery-slot.service.ts works on, `DeliverySlot` and
-- `DeliverySlotReservation` (prisma/schema.prisma), and the row operations that it uses.
-- Times are milliseconds. Ids are given out in order.
use Prim.Native.String.{String}
use mathlib.Core.Option
use vikram_backend.Prelude.{
  ℕ, ◌-◌, Bool, true, false, ◌&&◌, Option, none, some, List, [], ltb, leb, ◌==◌, if◌then◌else◌,
  count_if,
}

pub data ReservationStatus : Type 0 where
  pending confirmed released expired : ReservationStatus

pub record Reservation : Type 0 where
  pub id : ℕ
  pub slot_id : ℕ
  pub customer_id : ℕ
  pub order_id : Option ℕ
  pub status : ReservationStatus
  pub expires_at : Option ℕ

-- The columns of the unique index of `DeliverySlot`.
pub record SlotKey : Type 0 where
  pub hub_id : ℕ
  pub slot_date : ℕ
  pub start_minutes : ℕ
  pub end_minutes : ℕ

pub record Slot : Type 0 where
  pub key : SlotKey
  pub cutoff_minutes : ℕ
  pub capacity : ℕ
  pub reserved_capacity : ℕ
  pub vehicle_types : List String
  pub logistics_type : Option String
  pub active : Bool

-- The slots by primary key and by unique index, and the reservations, oldest first.
pub record Db : Type 0 where
  pub slot : ℕ → Option Slot
  pub by_key : SlotKey → Option ℕ
  pub next_slot_id : ℕ
  pub reservations : List Reservation
  pub next_reservation_id : ℕ

abbrev pub empty_db : Db
empty_db = record {
  slot = λ _. none;
  by_key = λ _. none;
  next_slot_id = 0;
  reservations = [];
  next_reservation_id = 0;
}

abbrev pub is_pending : ReservationStatus → Bool
is_pending pending = true
is_pending _ = false

abbrev pub is_confirmed : ReservationStatus → Bool
is_confirmed confirmed = true
is_confirmed _ = false

-- `status IN (PENDING, CONFIRMED)`.
abbrev pub is_active : ReservationStatus → Bool
is_active pending = true
is_active confirmed = true
is_active _ = false

-- `expiresAt > now`, which a null does not satisfy.
abbrev pub expires_after : ℕ → Option ℕ → Bool
expires_after now none = false
expires_after now (some t) = ltb now t

-- `expiresAt <= now`, which a null does not satisfy.
abbrev pub expires_by : ℕ → Option ℕ → Bool
expires_by now none = false
expires_by now (some t) = leb t now

-- `expiresAt IS NULL OR expiresAt > now`.
abbrev pub unexpired : ℕ → Option ℕ → Bool
unexpired now none = true
unexpired now (some t) = ltb now t

-- `update` of one slot row.
abbrev pub update_slot : ℕ → (Slot → Slot) → (ℕ → Option Slot) → ℕ → Option Slot
update_slot i f slot j = if i == j then Option.map f (slot j) else slot j

-- `decrement` by k, and then the `updateMany` that puts a negative count back to 0: subtraction
-- on ℕ, which stops at 0, is the two together.
abbrev pub decrement : ℕ → Slot → Slot
decrement k s = record s { reserved_capacity = s.reserved_capacity - k }

-- A reservation that takes a place of slot i.
abbrev pub active_on : ℕ → Reservation → Bool
active_on i r = r.slot_id == i && is_active r.status

abbrev pub active_count : ℕ → List Reservation → ℕ
active_count i = count_if (active_on i)
