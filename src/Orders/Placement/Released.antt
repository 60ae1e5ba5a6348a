-- ===== src/Orders/Placement/Released.antt =====
-- The release of the unpaid online orders before an order is placed (`releaseUnpaidOnlineCheckouts` of
-- src/modules/orders/orders.service.ts): what it keeps.
use mathlib.Core.Option.{some-injective}
use vikram_backend.Prelude.{
  ℕ, ◌≡◌, refl, ap, ◌∙◌, Bool, true, false, not, ◌&&◌, Option, none, some, if_either, Bool-cases,
  Option-cases, Result-cases, inl, inr, filter_if, Result, ok, ◌==◌,
}
use vikram_backend.Prelude.Handlers.{
  IsPreorder, if-Respects, continue-Respects, for_each-Respects, write, return,
}
use vikram_backend.Orders.World.{
  World, Order, OrderError, find_live, put, is_razorpay, Handler, update_order, add_timeline,
  PaymentStatus,
}
use vikram_backend.Orders.Status.{OrderStatus}
use vikram_backend.Orders.Effects.{
  items_of, release_reserved_stock, restore_benefit, release_slot, refund_redemption,
}
use vikram_backend.Orders.Inventory.{units, change_items-units}
use vikram_backend.Orders.Customer.{
  release_at, release_checkout, release_found, release_unpaid_online_order, is_unpaid_checkout,
}
use vikram_backend.Orders.Shop.{is_owned_live}
use vikram_backend.Orders.Placement.{
  Request, release_one, release_unpaid_online_checkouts, released_first, is_open_checkout,
}

abbrev pub Owner : Type 0
Owner = Option (ℕ × Bool)

abbrev pub owner : Option Order → Owner
owner none = none
owner (some o) = some (o.customer_id, o.deleted)

-- No order changes hands, is deleted, or is added, and no units of stock are made or lost.
pub record Kept (w v : World) : Type 0 where
  pub ids : v.order_ids ≡ w.order_ids
  pub owners : (j : ℕ) → owner (v.order j) ≡ owner (w.order j)
  pub stock : (h k : ℕ) → units (v.inventory h k) ≡ units (w.inventory h k)

Kept-IsPreorder : IsPreorder Kept
Kept-IsPreorder = record {
  reflexive = λ w. record { ids = refl; owners = λ j. refl; stock = λ h k. refl };
  transitive = λ a b. record {
    ids = b.ids ∙ a.ids;
    owners = λ j. b.owners j ∙ a.owners j;
    stock = λ h k. b.stock h k ∙ a.stock h k;
  };
}

Kept-trans : {a b c : World} → Kept a b → Kept b c → Kept a c
Kept-trans h k = Kept-IsPreorder.transitive h k

put-owner :
    (i : ℕ) (f : Order → Order) (t : ℕ → Option Order) (j : ℕ)
    → ((o : Order) → owner (some (f o)) ≡ owner (some o))
    → owner (put i f t j) ≡ owner (t j)
put-owner i f t j h = elim (Bool-cases (i == j)) [
  | inr b ↦ rw b refl
  | inl b ↦ elim (Option-cases (t j)) [ inl e ↦ rw (b, e) refl | inr (o, e) ↦ rw (b, e) (h o) ]
]

update-Kept :
    (i : ℕ) (f : Order → Order) (w : World)
    → ((o : Order) → owner (some (f o)) ≡ owner (some o))
    → Kept w (update_order i f w)
update-Kept i f w h = record {
  ids = refl;
  owners = λ j. put-owner i f w.order j h;
  stock = λ h k. refl;
}

release_at-Kept : (hub : Option ℕ) (i : ℕ) (w : World) → Kept w (release_at hub i w)
unfolding release_reserved_stock
release_at-Kept none i w = Kept-IsPreorder.reflexive w
release_at-Kept (some hub) i w = record {
  ids = refl;
  owners = λ j. refl;
  stock = λ h k. change_items-units hub (items_of (w.order i)) w.inventory h k;
}

release_slot-Kept : (i : ℕ) (w : World) → Kept w (release_slot i w)
unfolding release_slot
release_slot-Kept i w = record { ids = refl; owners = λ j. refl; stock = λ h k. refl }

restore_benefit-Kept : (i : ℕ) (w : World) → Kept w (restore_benefit i w)
unfolding restore_benefit
restore_benefit-Kept i w = elim (Option-cases (w.order i)) [
  | inl e ↦ rw (e, restore_benefit) (Kept-IsPreorder.reflexive w)
  | inr (o, e) ↦
      rw (e, restore_benefit) (record { ids = refl; owners = λ j. refl; stock = λ h k. refl })
]

pub is_owned_live-owner :
    (c : ℕ) (a b : Option Order) → owner a ≡ owner b → is_owned_live c a ≡ is_owned_live c b
is_owned_live-owner c none none e = refl
is_owned_live-owner c none (some b) e = cc
is_owned_live-owner c (some a) none e = cc
is_owned_live-owner c (some a) (some b) e =
    let same : (a.customer_id, a.deleted) ≡ (b.customer_id, b.deleted) =
      some-injective (a.customer_id, a.deleted) (b.customer_id, b.deleted) e in
    ap (λ (x : ℕ × Bool). x.0 == c && not x.1) same

module _ (am : ℕ → ℕ → ℕ) where
  refund-Kept : (now i : ℕ) (w : World) → Kept w (refund_redemption am now i w).0
  unfolding refund_redemption
  refund-Kept now i w = elim (Option-cases (find_live w i)) [
    | inl e ↦ rw (e, refund_redemption) (Kept-IsPreorder.reflexive w)
    | inr (o, e) ↦
        rw (e, refund_redemption) (record { ids = refl; owners = λ j. refl; stock = λ h k. refl })
  ]

  abbrev AllKept {ℓ} : {A : Type ℓ} → Handler A → Type 0
  AllKept m = (w : World) → Kept w (m w).0

  write-Kept : (f : World → World) → ((w : World) → Kept w (f w)) → AllKept (write f)
  write-Kept f h w = h w

  release_checkout-Kept : (now i : ℕ) (hub : Option ℕ) → AllKept (release_checkout am now i hub)
  unfolding release_checkout
  release_checkout-Kept now i hub w =
      let v1 =
        update_order i
          (λ x. record x {
            status = OrderStatus.cancelled;
            payment_status = PaymentStatus.cancelled;
            cancelled_at = some now;
          })
          w in
      let v2 = release_at hub i v1 in
      let v3 = release_slot i v2 in
      let v4 = add_timeline i OrderStatus.cancelled v3 in
      Kept-trans (update-Kept i _ w (λ o. refl)) (
        Kept-trans (release_at-Kept hub i v1) (
          Kept-trans (release_slot-Kept i v2) (
            Kept-trans (record { ids = refl; owners = λ j. refl; stock = λ h k. refl })
              (continue-Respects {0, 0} Kept Kept-IsPreorder v4 (refund_redemption am now i v4)
                (λ (_ : Unit {0}) (v : World). (restore_benefit i v, ok true))
                (refund-Kept now i v4)
                (λ _. restore_benefit-Kept i (refund_redemption am now i v4).0)))))

  release_found-Kept : (now i : ℕ) (r : Option Order) → AllKept (release_found am now i r)
  release_found-Kept now i none w = Kept-IsPreorder.reflexive w
  release_found-Kept now i (some o) w =
      if-Respects Kept Kept-IsPreorder (is_unpaid_checkout o) (release_checkout am now i o.hub_id)
        (return false) w (release_checkout-Kept now i o.hub_id w) (Kept-IsPreorder.reflexive w)

  release-Kept : (now i : ℕ) → AllKept (release_unpaid_online_order am now i)
  unfolding release_unpaid_online_order
  release-Kept now i w = release_found-Kept now i (find_live w i) w

  release_one-Kept : (now j : ℕ) → AllKept (release_one am now j)
  release_one-Kept now j w = elim (Result-cases (release_unpaid_online_order am now j w).1) [
    | inl (b, e) ↦ rw (e, release_one) (release-Kept now j w)
    | inr (x, e) ↦ rw (e, release_one) (release-Kept now j w)
  ]

  checkouts-Kept : (now customer : ℕ) → AllKept (release_unpaid_online_checkouts am now customer)
  unfolding release_unpaid_online_checkouts
  checkouts-Kept now customer w =
      for_each-Respects Kept Kept-IsPreorder (release_one am now)
        (filter_if (λ j. is_open_checkout customer (w.order j)) w.order_ids) (release_one-Kept now)
        w

  pub released_first-Kept :
      (now customer : ℕ) (r : Request) → AllKept (released_first am now customer r)
  released_first-Kept now customer r w =
      if_either (λ (x : World × Result OrderError (Unit {0})). Kept w x.0)
        (is_razorpay r.payment_method) (λ _. Kept-IsPreorder.reflexive w)
        (λ _. checkouts-Kept now customer w)
