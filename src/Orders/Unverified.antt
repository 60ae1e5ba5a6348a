-- ===== src/Orders/Unverified.antt =====
-- Histories of an order at its hub, and the code that it is delivered with
-- (src/hub/orders/hub-orders.service.ts, src/admin/orders/admin-orders.service.ts).
use Prim.Native.String.{String}
use vikram_backend.Prelude.{ℕ, ◌≡◌, true, false, Option, some, ◌==◌}
use vikram_backend.Orders.World.{World, Order}
use vikram_backend.Orders.Hub.{
  accept, reject, mark_picking, mark_packed, mark_loading, dispatch_order, mark_driver_reached,
  generate_delivery_otp, OtpConfig, accepts,
}
use vikram_backend.Orders.Handover.{
  deliver, complete_delivery, verify_delivery_otp, cancel_order, assign_driver, assign_vehicle,
}
use vikram_backend.Orders.Requests.{assign_hub, admin_assign_driver}
use vikram_backend.Orders.Customer.{confirm_paid_order}
use vikram_backend.Orders.Locks.{
  IsLocked, accept-Keeps, reject-Keeps, mark_picking-Keeps, mark_packed-Keeps, mark_loading-Keeps,
  dispatch_order-Keeps, mark_driver_reached-Keeps, generate_delivery_otp-Keeps,
}
use vikram_backend.Orders.Otp.{
  deliver-Keeps, complete_delivery-Keeps, cancel_order-Keeps, verify_delivery_otp-Keeps,
  assign_vehicle-Keeps, assign_hub-Keeps, admin_assign_driver-Keeps, assign_driver-Keeps,
  confirm_paid_order-Keeps,
}

module _ (am : ℕ → ℕ → ℕ) (c : OtpConfig) (trim : String → String) (j : ℕ) where
  -- One operation, by anyone, on any order, whether it fails or not. A verification of order j is one
  -- with a code that is not its own.
  pub data Step : World → World → Type 0 where
    step_accept : (w : World) (hub i : ℕ) → Step w (accept hub i w).0
    step_reject : (w : World) (now hub i : ℕ) → Step w (reject now hub i w).0
    step_mark_picking : (w : World) (now hub i : ℕ) → Step w (mark_picking now hub i w).0
    step_mark_packed : (w : World) (now hub i : ℕ) → Step w (mark_packed now hub i w).0
    step_mark_loading : (w : World) (now hub i : ℕ) → Step w (mark_loading now hub i w).0
    step_dispatch_order : (w : World) (now hub i : ℕ) → Step w (dispatch_order now hub i w).0
    step_mark_driver_reached :
        (w : World) (now hub i : ℕ) → Step w (mark_driver_reached now hub i w).0
    step_generate_delivery_otp :
        (w : World) (drawn : String) (now hub i : ℕ)
        → Step w (generate_delivery_otp c drawn now hub i w).0
    step_deliver : (w : World) (now hub i : ℕ) → Step w (deliver am now hub i w).0
    step_complete_delivery :
        (w : World) (now hub i : ℕ) → Step w (complete_delivery am now hub i w).0
    step_cancel_order : (w : World) (now hub i : ℕ) → Step w (cancel_order am now hub i w).0
    step_assign_driver :
        (w : World) (today driver : ℕ) (vehicle : Option ℕ) (hub i : ℕ)
        → Step w (assign_driver today driver vehicle hub i w).0
    step_assign_vehicle :
        (w : World) (vehicle hub i : ℕ) → Step w (assign_vehicle vehicle hub i w).0
    step_assign_hub : (w : World) (hub i : ℕ) → Step w (assign_hub hub i w).0
    step_admin_assign_driver :
        (w : World) (driver : ℕ) (vehicle : Option ℕ) (i : ℕ)
        → Step w (admin_assign_driver driver vehicle i w).0
    step_confirm_paid_order : (w : World) (now i : ℕ) → Step w (confirm_paid_order now i w).0
    step_verify_delivery_otp :
        (w : World) (otp : String) (now hub i : ℕ)
        → ((o : Order)
            → w.order j ≡ some o
            → (i == j) ≡ true
            → accepts c o.delivery_otp (trim otp) ≡ false)
        → Step w (verify_delivery_otp am c trim otp now hub i w).0

  pub data History : World → World → Type 0 where
    start : {w : World} → History w w
    later : {u v w : World} → History u v → Step v w → History u w

  Step-IsLocked : {v w : World} → Step v w → IsLocked j v → IsLocked j w
  Step-IsLocked (step_accept w hub i) l = accept-Keeps j hub i w l
  Step-IsLocked (step_reject w now hub i) l = reject-Keeps j now hub i w l
  Step-IsLocked (step_mark_picking w now hub i) l = mark_picking-Keeps j now hub i w l
  Step-IsLocked (step_mark_packed w now hub i) l = mark_packed-Keeps j now hub i w l
  Step-IsLocked (step_mark_loading w now hub i) l = mark_loading-Keeps j now hub i w l
  Step-IsLocked (step_dispatch_order w now hub i) l = dispatch_order-Keeps j now hub i w l
  Step-IsLocked (step_mark_driver_reached w now hub i) l = mark_driver_reached-Keeps j now hub i w l
  Step-IsLocked (step_generate_delivery_otp w drawn now hub i) l =
      generate_delivery_otp-Keeps j c drawn now hub i w l
  Step-IsLocked (step_deliver w now hub i) l = deliver-Keeps am j now hub i w l
  Step-IsLocked (step_complete_delivery w now hub i) l = complete_delivery-Keeps am j now hub i w l
  Step-IsLocked (step_cancel_order w now hub i) l = cancel_order-Keeps am j now hub i w l
  Step-IsLocked (step_assign_driver w today driver vehicle hub i) l =
      assign_driver-Keeps j today driver vehicle hub i w l
  Step-IsLocked (step_assign_vehicle w vehicle hub i) l = assign_vehicle-Keeps j vehicle hub i w l
  Step-IsLocked (step_assign_hub w hub i) l = assign_hub-Keeps j hub i w l
  Step-IsLocked (step_admin_assign_driver w driver vehicle i) l =
      admin_assign_driver-Keeps j driver vehicle i w l
  Step-IsLocked (step_confirm_paid_order w now i) l = confirm_paid_order-Keeps j now i w l
  Step-IsLocked (step_verify_delivery_otp w otp now hub i h) l =
      verify_delivery_otp-Keeps am j c trim otp now hub i w h l

  History-IsLocked : {v w : World} → History v w → IsLocked j v → IsLocked j w
  History-IsLocked start l = l
  History-IsLocked (later h s) l = Step-IsLocked s (History-IsLocked h l)

-- An order that is neither delivered nor verified is neither after any number of the hub's operations
-- (from acceptance to cancellation, but for its request of a status by name), of assignments by the
-- administrator and of confirmed payments, on this order and on others, as long as nobody gives the
-- order's own code, or the bypass code where there is one.
pub no_delivery_without_code :
    (am : ℕ → ℕ → ℕ) (c : OtpConfig) (trim : String → String) (j : ℕ) {v w : World}
    → History am c trim j v w
    → IsLocked j v
    → IsLocked j w
no_delivery_without_code am c trim j h l = History-IsLocked am c trim j h l
