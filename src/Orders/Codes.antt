-- ===== src/Orders/Codes.antt =====
-- When a hub may take a delivery's code for right (`verifyDeliveryOtp` of
-- src/hub/orders/hub-orders.service.ts), as statements on the order's row.
use Prim.Native.String.{String}
use text.Mathlib.TextEquality.{eq_iff}
use vikram_backend.Prelude.{
  ◌≡◌, ◌≢◌, ◌⊎◌, refl, true, false, some, Bool-cases, inl, inr, arith, is_some, Option-cases,
}
use vikram_backend.Orders.Status.{OrderStatus, text_eq}
use vikram_backend.Orders.World.{Order}
use vikram_backend.Orders.Hub.{OtpConfig, is_out, accepts}
use vikram_backend.Orders.Handover.{can_verify}

-- The order is out and has a code that is dated and not verified yet, and what is given is that code,
-- or the bypass where the application does not run in production.
pub record IsRightCode (c : OtpConfig) (provided : String) (o : Order) : Type 0 where
  pub code : String
  pub is_own : o.delivery_otp ≡ some code
  pub not_empty : code ≢ ""
  pub is_dated : is_some o.otp_generated_at ≡ true
  pub is_on_its_way :
      (o.status ≡ OrderStatus.out_for_delivery) ⊎ (o.status ≡ OrderStatus.dispatched)
  pub not_verified : o.otp_verified ≡ false
  pub is_given : (provided ≡ code) ⊎ ((c.is_dev ≡ true) × (c.bypass ≢ "") × (provided ≡ c.bypass))

text_eq-≢ : (s t : String) → text_eq s t ≡ false → s ≢ t
text_eq-≢ s t h e = let b = (eq_iff s t).1 e in cc

≢-text_eq : (s t : String) → s ≢ t → text_eq s t ≡ false
≢-text_eq s t h = elim (Bool-cases (text_eq s t)) [
  | inl b ↦ absurd (h ((eq_iff s t).0 b))
  | inr b ↦ b
]

is_out-cases :
    (s : OrderStatus)
    → is_out s ≡ true
    → (s ≡ OrderStatus.out_for_delivery) ⊎ (s ≡ OrderStatus.dispatched)
is_out-cases OrderStatus.pending h = cc
is_out-cases OrderStatus.confirmed h = cc
is_out-cases OrderStatus.hub_assigned h = cc
is_out-cases OrderStatus.awaiting_hub_allocation h = cc
is_out-cases OrderStatus.accepted_by_hub h = cc
is_out-cases OrderStatus.picking h = cc
is_out-cases OrderStatus.processing h = cc
is_out-cases OrderStatus.packed h = cc
is_out-cases OrderStatus.ready_for_dispatch h = cc
is_out-cases OrderStatus.driver_assigned h = cc
is_out-cases OrderStatus.out_for_delivery h = inl refl
is_out-cases OrderStatus.dispatched h = inr refl
is_out-cases OrderStatus.delivered h = cc
is_out-cases OrderStatus.cancelled h = cc
is_out-cases OrderStatus.reschedule_requested h = cc

cases-is_out :
    (s : OrderStatus)
    → (s ≡ OrderStatus.out_for_delivery) ⊎ (s ≡ OrderStatus.dispatched)
    → is_out s ≡ true
cases-is_out s (inl e) = rw e refl
cases-is_out s (inr e) = rw e refl

given-accepts :
    (c : OtpConfig) (code provided : String)
    → (provided ≡ code) ⊎ ((c.is_dev ≡ true) × (c.bypass ≢ "") × (provided ≡ c.bypass))
    → accepts c (some code) provided ≡ true
given-accepts c code provided (inl e) = let b = (eq_iff provided code).1 e in rw b refl
given-accepts c code provided (inr (d, n, e)) =
    let b = (eq_iff provided c.bypass).1 e in let m = ≢-text_eq c.bypass "" n in ground arith

accepts-given :
    (c : OtpConfig) (code provided : String)
    → accepts c (some code) provided ≡ true
    → (provided ≡ code) ⊎ ((c.is_dev ≡ true) × (c.bypass ≢ "") × (provided ≡ c.bypass))
accepts-given c code provided h = elim (Bool-cases (text_eq provided code)) [
  | inl b ↦ inl ((eq_iff provided code).0 b)
  | inr b ↦
      let d : c.is_dev ≡ true = ground arith in
      let n : text_eq c.bypass "" ≡ false = ground arith in
      let e : text_eq provided c.bypass ≡ true = ground arith in
      inr (d, text_eq-≢ c.bypass "" n, (eq_iff provided c.bypass).0 e)
]

pub IsRightCode-can_verify :
    (c : OtpConfig) (provided : String) (o : Order)
    → IsRightCode c provided o
    → can_verify c provided o ≡ true
unfolding can_verify
IsRightCode-can_verify c provided o r =
    let own : o.delivery_otp ≡ some r.code = r.is_own in
    let out = cases-is_out o.status r.is_on_its_way in
    let full = ≢-text_eq r.code "" r.not_empty in
    let dated = r.is_dated in
    let fresh = r.not_verified in
    let given = given-accepts c r.code provided r.is_given in
    rw (out, own, full, dated, fresh, given) refl

pub can_verify-IsRightCode :
    (c : OtpConfig) (provided : String) (o : Order)
    → can_verify c provided o ≡ true
    → IsRightCode c provided o
unfolding can_verify
can_verify-IsRightCode c provided o h = elim (Option-cases o.delivery_otp) [
  | inl n ↦ absurd (ground arith)
  | inr (code, own) ↦
      let out : is_out o.status ≡ true = ground arith in
      let full : text_eq code "" ≡ false = ground arith in
      let given : accepts c (some code) provided ≡ true = ground arith in
      record {
        code = code;
        is_own = own;
        not_empty = text_eq-≢ code "" full;
        is_dated = ground arith;
        is_on_its_way = is_out-cases o.status out;
        not_verified = ground arith;
        is_given = accepts-given c code provided given;
      }
]
