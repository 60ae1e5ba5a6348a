-- ===== src/Delivery/Slots/Histories.antt =====
-- Histories of calls of the slot service, by any customers at any times.
use Prim.Native.String.{String}
use vikram_backend.Prelude.{ℕ, ◌≤◌, ◌≡◌, Option, some, List, arith}
use vikram_backend.Delivery.Slots.Store.{SlotKey, Slot, Db, active_count, empty_db}
use vikram_backend.Delivery.Slots.Ops.{
  expire_stale_reservations, hold_slot, confirm_reservation, release_order_reservation, upsert_slot,
}
use vikram_backend.Delivery.Slots.Capacity.{
  IsValid, empty-IsValid, expire-IsValid, hold-IsValid, confirm-IsValid, release-IsValid,
  upsert-IsValid,
}

-- One call. A call that throws leaves the tables as the operation says.
pub data Step : Db → Db → Type 0 where
  expires : (now : ℕ) (db : Db) → Step db (expire_stale_reservations now db)
  holds : (now customer i : ℕ) (db : Db) → Step db (hold_slot now customer i db).0
  confirms :
      (now customer order i : ℕ) (db : Db) → Step db (confirm_reservation now customer order i db).0
  releases : (order : ℕ) (db : Db) → Step db (release_order_reservation order db)
  upserts :
      (key : SlotKey) (cutoff capacity : ℕ) (vehicles : List String) (logistics : Option String)
      (db : Db)
      → Step db (upsert_slot key cutoff capacity vehicles logistics db).0

pub data Reach : Db → Type 0 where
  start : Reach empty_db
  next : {a b : Db} → Reach a → Step a b → Reach b

Step-IsValid : {a b : Db} → Step a b → IsValid a → IsValid b
Step-IsValid (expires now db) v = expire-IsValid now db v
Step-IsValid (holds now c i db) v = hold-IsValid now c i db v
Step-IsValid (confirms now c o i db) v = confirm-IsValid now c o i db v
Step-IsValid (releases o db) v = release-IsValid o db v
Step-IsValid (upserts k c n vs l db) v = upsert-IsValid k c n vs l db v

pub Reach-IsValid : {db : Db} → Reach db → IsValid db
Reach-IsValid start = empty-IsValid
Reach-IsValid (next r st) = Step-IsValid st (Reach-IsValid r)

-- After any history of calls, the stored count of every slot is the number of its pending and
-- confirmed reservations, and that number does not pass the slot's capacity.
pub no_overbooking :
    (db : Db) (i : ℕ) (s : Slot)
    → Reach db
    → db.slot i ≡ some s
    → (s.reserved_capacity ≡ active_count i db.reservations)
      × (active_count i db.reservations ≤ s.capacity)
no_overbooking db i s r e = ground (arith, (Reach-IsValid r).fits i)
