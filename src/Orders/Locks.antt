-- ===== src/Orders/Locks.antt =====
-- Orders that are neither delivered nor verified by their code stay so: the rules for handlers, and
-- the operations of src/hub/orders/hub-orders.service.ts before the delivery.
use Prim.Native.String.{String}
use vikram_backend.Prelude.{
  ℕ, ◌≡◌, Bool, true, not, ◌&&◌, Option, some, none, arith, Option-cases, inl, inr,
}
use vikram_backend.Orders.Status.{OrderStatus, same_status}
use vikram_backend.Orders.World.{World, Order, Handler, ◌>>=◌}
use vikram_backend.Orders.Effects.{release_reserved_stock}
use vikram_backend.Orders.Hub.{
  find_hub_order, transition_order, accept, reject, mark_picking, mark_packed, mark_loading,
  dispatch_order, mark_driver_reached, generate_delivery_otp, OtpConfig, scoped,
}

abbrev pub is_locked : Option Order → Bool
is_locked none = true
is_locked (some o) = not o.otp_verified && not (same_status o.status OrderStatus.delivered)

-- Order j is neither delivered nor verified.
abbrev pub IsLocked : ℕ → World → Type 0
IsLocked j w = is_locked (w.order j) ≡ true

abbrev pub Keeps {ℓ} : {A : Type ℓ} → ℕ → Handler A → Type 0
Keeps j m = (w : World) → IsLocked j w → IsLocked j (m w).0

-- A row that is found is the row of the table.
pub find-Keeps {ℓ} :
    {B : Type ℓ} (j hub i : ℕ) (f : Order → Handler B)
    → ((w : World) (o : Order) → w.order i ≡ some o → IsLocked j w → IsLocked j (f o w).0)
    → Keeps j (find_hub_order hub i >>= f)
unfolding find_hub_order
find-Keeps j hub i f h w l = elim (Option-cases (scoped hub (w.order i))) [
  | inl e ↦ rw e l
  | inr (o, e) ↦ rw e (h w o (same (w.order i) o e) l)
]
  where
    same : (r : Option Order) (o : Order) → scoped hub r ≡ some o → r ≡ some o
    same none o e = cc
    same (some x) o e = ground arith

pub accept-Keeps : (j : ℕ) (hub i : ℕ) → Keeps j (accept hub i)
unfolding accept find_hub_order transition_order
accept-Keeps j hub i w l = ground arith

pub reject-Keeps : (j : ℕ) (now hub i : ℕ) → Keeps j (reject now hub i)
unfolding reject find_hub_order transition_order release_reserved_stock
reject-Keeps j now hub i w l = ground arith

pub mark_picking-Keeps : (j : ℕ) (now hub i : ℕ) → Keeps j (mark_picking now hub i)
unfolding mark_picking find_hub_order transition_order
mark_picking-Keeps j now hub i w l = ground arith

pub mark_packed-Keeps : (j : ℕ) (now hub i : ℕ) → Keeps j (mark_packed now hub i)
unfolding mark_packed find_hub_order transition_order
mark_packed-Keeps j now hub i w l = ground arith

pub mark_loading-Keeps : (j now hub i : ℕ) → Keeps j (mark_loading now hub i)
unfolding mark_loading
mark_loading-Keeps j now hub i =
    find-Keeps j hub i _
      λ w o e l. ground (arith, mark_picking-Keeps j now hub i w, mark_packed-Keeps j now hub i w)

pub dispatch_order-Keeps : (j : ℕ) (now hub i : ℕ) → Keeps j (dispatch_order now hub i)
unfolding dispatch_order find_hub_order transition_order
dispatch_order-Keeps j now hub i w l = ground arith

pub mark_driver_reached-Keeps : (j : ℕ) (now hub i : ℕ) → Keeps j (mark_driver_reached now hub i)
unfolding mark_driver_reached find_hub_order transition_order
mark_driver_reached-Keeps j now hub i w l = ground arith

pub generate_delivery_otp-Keeps :
    (j : ℕ) (c : OtpConfig) (drawn : String) (now hub i : ℕ)
    → Keeps j (generate_delivery_otp c drawn now hub i)
unfolding generate_delivery_otp find_hub_order transition_order
generate_delivery_otp-Keeps j c drawn now hub i w l = ground arith
