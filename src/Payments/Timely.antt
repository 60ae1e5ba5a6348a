-- ===== src/Payments/Timely.antt =====
-- Reconciliation and the release of what was not paid in time
-- (src/modules/payments/payments.service.ts).
use vikram_backend.Prelude.{
  ℕ, ◌≡◌, refl, sym, ap, find?, is_some, subst, ◌∙◌, Bool, true, false, Option, some, none, List,
  arith, Bool-cases, inl, inr, Result, ok, err,
}
use vikram_backend.Prelude.Handlers.{
  IsPreorder, bind-Respects, if-Respects, for_each-Respects, continue, ◌>>=◌, ◌>>◌, return,
}
use vikram_backend.Orders.World.{World, Order, OrderError, find_live}
use vikram_backend.Orders.Customer.{release_unpaid_online_order}
use vikram_backend.Payments.Gateway.{
  Gateway, GatewayPaymentStatus, RazorpayPaymentRecord, same_gateway, pick_authoritative_payment,
}
use vikram_backend.Payments.Rows.{
  Payment, Cashier, PaymentError, confirm_order_for_payment, is_money, assert_remote_matches,
}
use vikram_backend.Payments.Remote.{apply_remote_payment}
use vikram_backend.Payments.Statuses.{AllFollow, AllFollow-refl, AllFollow-trans}
use vikram_backend.Payments.Sync.{
  call, attempt, in_world, reconcile_payment, reconcile_with, reconcile_settled, is_settled_gateway,
  assert_if_money, money_moved, is_expired, release_rows, release_expired, reconcile_all,
  sync_order_payment, is_synced, payments_of, reconcile_stale_pending_orders, candidates, is_moving,
  get_status, owned_live,
}
use vikram_backend.Payments.Releases.{release_rows-events, release_rows-follow, release_rows-moved}
use vikram_backend.Payments.Keeps.{
  Safe, Sound, Safe-refl, Safe-IsPreorder, confirm-Sound, assert-Sound, apply-Sound, IsLive,
}

module _ (j : ℕ) where
  pub call-Sound {ℓ} : {A : Type ℓ} (r : Result (Unit {0}) A) → Sound j (call r)
  call-Sound (ok a) c = Safe-refl j c
  call-Sound (err e) c = Safe-refl j c

  pub checked-Sound :
      (g : Gateway) (now : ℕ) (p : Payment) (r : RazorpayPaymentRecord)
      → Sound j (assert_remote_matches g.to_upper now p r >> apply_remote_payment g now p.id r)
  checked-Sound g now p r =
      bind-Respects (Safe j) (Safe-IsPreorder j) (assert_remote_matches g.to_upper now p r)
        (λ _. apply_remote_payment g now p.id r) (assert-Sound j g.to_upper now p r)
        (λ _. apply-Sound j g now p.id r)

  reconcile_with-Sound :
      (g : Gateway) (now : ℕ) (p : Payment) (r : Option RazorpayPaymentRecord)
      → Sound j (reconcile_with g now p r)
  reconcile_with-Sound g now p none c = Safe-refl j c
  reconcile_with-Sound g now p (some r) c =
      bind-Respects (Safe j) (Safe-IsPreorder j) (assert_if_money g now p r)
        (λ _. apply_remote_payment g now p.id r)
        (λ c.
          if-Respects (Safe j) (Safe-IsPreorder j) (is_money r.status)
            (assert_remote_matches g.to_upper now p r) (return tt) c
            (assert-Sound j g.to_upper now p r c) (Safe-refl j c))
        (λ _. apply-Sound j g now p.id r) c

  pub reconcile-Sound : (g : Gateway) (now : ℕ) (p : Payment) → Sound j (reconcile_payment g now p)
  unfolding reconcile_payment
  reconcile-Sound g now p c =
      if-Respects (Safe j) (Safe-IsPreorder j) (is_settled_gateway p.status)
        (reconcile_settled now p)
        (call (g.fetch_order_payments p.provider_order_id) >>= λ rs.
          reconcile_with g now p (pick_authoritative_payment rs))
        c
        (if-Respects (Safe j) (Safe-IsPreorder j)
          (same_gateway p.status GatewayPaymentStatus.captured) (confirm_order_for_payment now p.id)
          (return tt) c (confirm-Sound j now p.id c) (Safe-refl j c))
        (bind-Respects (Safe j) (Safe-IsPreorder j)
          (call (g.fetch_order_payments p.provider_order_id))
          (λ rs. reconcile_with g now p (pick_authoritative_payment rs))
          (call-Sound (g.fetch_order_payments p.provider_order_id))
          (λ rs. reconcile_with-Sound g now p (pick_authoritative_payment rs)) c)

  pub reconcile_all-Sound :
      (g : Gateway) (now : ℕ) (ps : List Payment) → Sound j (reconcile_all g now ps)
  unfolding reconcile_all
  reconcile_all-Sound g now ps =
      for_each-Respects (Safe j) (Safe-IsPreorder j) (reconcile_payment g now) ps
        (reconcile-Sound g now)

-- The rows follow the table, and the events of the webhook are left alone.
pub record Rows (c d : Cashier) : Type 0 where
  pub rows : AllFollow c.payments d.payments
  pub events : d.events ≡ c.events

pub Rows-refl : (c : Cashier) → Rows c c
Rows-refl c = record { rows = AllFollow-refl c.payments; events = refl }

pub Rows-trans : {c d e : Cashier} → Rows c d → Rows d e → Rows c e
Rows-trans h k = record { rows = AllFollow-trans h.rows k.rows; events = k.events ∙ h.events }

pub Rows-IsPreorder : IsPreorder Rows
Rows-IsPreorder = record { reflexive = Rows-refl; transitive = Rows-trans }

pub Safe-Rows : {j : ℕ} {c d : Cashier} → Safe j c d → Rows c d
Safe-Rows h = record { rows = h.rows; events = h.events }

in_world-payments :
    {A : Type 0} (c : Cashier) (r : World × Result OrderError A)
    → (in_world c r).0.payments ≡ c.payments
in_world-payments c (w, ok a) = refl
in_world-payments c (w, err e) = refl

in_world-events :
    {A : Type 0} (c : Cashier) (r : World × Result OrderError A)
    → (in_world c r).0.events ≡ c.events
in_world-events c (w, ok a) = refl
in_world-events c (w, err e) = refl

release_rest :
    (ps : List Payment) (r : Cashier × Result PaymentError Bool)
    → r.0.payments ≡ ps
    → (continue {0, 0} r (λ _. return tt)).0.payments ≡ ps
release_rest ps (d, ok a) h = h
release_rest ps (d, err e) h = h

release_rest-Rows :
    (c : Cashier) (r : Cashier × Result PaymentError Bool)
    → Rows c r.0
    → Rows c (continue {0, 0} r (λ _. return tt)).0
release_rest-Rows c (d, ok a) h = h
release_rest-Rows c (d, err e) h = h

-- A release changes the rows that it cancels, and no others.
release_expired-payments :
    (am : ℕ → ℕ → ℕ) (g : Gateway) (now i : ℕ) (c : Cashier)
    → is_expired g now i (c.world.order i) c ≡ true
    → (release_expired am g now i c).0.payments ≡ (release_rows i c).payments
unfolding release_expired
release_expired-payments am g now i c b =
    let r = release_unpaid_online_order am now i c.world in
    let d = release_rows i c in
    rw b (release_rest d.payments (in_world d r) (in_world-payments d r))

release_expired-Rows :
    (am : ℕ → ℕ → ℕ) (g : Gateway) (now i : ℕ) (c : Cashier)
    → Rows c (release_expired am g now i c).0
unfolding release_expired
release_expired-Rows am g now i c = elim (Bool-cases (is_expired g now i (c.world.order i) c)) [
  | inl b ↦
      let r = release_unpaid_online_order am now i c.world in
      let d = release_rows i c in
      let follow : AllFollow c.payments (in_world d r).0.payments =
        subst (λ (ps : List Payment). AllFollow c.payments ps) (sym (in_world-payments d r))
          (release_rows-follow i c) in
      rw b (
        release_rest-Rows c (in_world d r)
          (record { rows = follow; events = in_world-events d r ∙ release_rows-events i c }))
  | inr b ↦ rw b (Rows-refl c)
]

pub sync-Rows :
    (am : ℕ → ℕ → ℕ) (g : Gateway) (now i : ℕ) (c : Cashier)
    → Rows c (sync_order_payment am g now i c).0
unfolding sync_order_payment
sync-Rows am g now i c = elim (Bool-cases (is_synced g (find_live c.world i))) [
  | inl b ↦ rw b (
      bind-Respects Rows Rows-IsPreorder (reconcile_all g now (payments_of i c))
        (λ _. release_expired am g now i)
        (λ d. (Safe-Rows (reconcile_all-Sound 0 g now (payments_of i c) d)))
        (λ _. release_expired-Rows am g now i) c)
  | inr b ↦ rw b (Rows-refl c)
]

pub stale-Rows :
    (am : ℕ → ℕ → ℕ) (g : Gateway) (now : ℕ) (c : Cashier)
    → Rows c (reconcile_stale_pending_orders am g now c).0
unfolding reconcile_stale_pending_orders
stale-Rows am g now c =
    for_each-Respects Rows Rows-IsPreorder (λ i. attempt (sync_order_payment am g now i))
      (candidates am g now c) (λ i. sync-Rows am g now i) c

pub get_status-Rows :
    (am : ℕ → ℕ → ℕ) (g : Gateway) (now customer i : ℕ) (b : Bool) (c : Cashier)
    → Rows c (get_status am g now customer i b c).0
unfolding get_status
get_status-Rows am g now customer i b c =
    elim (Bool-cases (owned_live customer (find_live c.world i))) [
      | inr e ↦ rw e (Rows-refl c)
      | inl e ↦ elim (Bool-cases b) [
        | inl h ↦ rw (e, h) (sync-Rows am g now i c)
        | inr h ↦ rw (e, h) (Rows-refl c)
      ]
    ]

-- No payment of the order is under way: none of its rows is authorized or captured.
expired-money_moved :
    (g : Gateway) (now i : ℕ) (o : Option Order) (c : Cashier)
    → is_expired g now i o c ≡ true
    → money_moved i c ≡ false
expired-money_moved g now i none c h = cc
expired-money_moved g now i (some o) c h = ground arith

-- The release follows rows that say that no money moved.
release_expired-IsLive :
    (am : ℕ → ℕ → ℕ) (g : Gateway) (now i : ℕ) (c : Cashier)
    → money_moved i (release_expired am g now i c).0 ≡ true
    → IsLive i c.world
    → IsLive i (release_expired am g now i c).0.world
unfolding release_expired
release_expired-IsLive am g now i c m l =
    elim (Bool-cases (is_expired g now i (c.world.order i) c)) [
      | inl b ↦
          let same : money_moved i (release_expired am g now i c).0 ≡ money_moved i c =
            ap (λ (ps : List Payment). is_some (find? (is_moving i) ps))
              (release_expired-payments am g now i c b)
            ∙ release_rows-moved i c in
          absurd (cc (m, same, expired-money_moved g now i (c.world.order i) c b))
      | inr b ↦ rw b l
    ]

continue-IsLive :
    (am : ℕ → ℕ → ℕ) (g : Gateway) (now i : ℕ) (c : Cashier)
    (r : Cashier × Result PaymentError (Unit {0}))
    → Safe i c r.0
    → money_moved i (continue {0, 0} r (λ _. release_expired am g now i)).0 ≡ true
    → IsLive i c.world
    → IsLive i (continue {0, 0} r (λ _. release_expired am g now i)).0.world
continue-IsLive am g now i c (d, ok a) h m l = release_expired-IsLive am g now i d m (h.orders l)
continue-IsLive am g now i c (d, err e) h m l = h.orders l

-- An order that is not cancelled is not cancelled by bringing it in line with the gateway, if one of
-- its payments is authorized or captured when that is done, whatever the gateway answered.
pub sync_in_flight :
    (am : ℕ → ℕ → ℕ) (g : Gateway) (now i : ℕ) (c : Cashier)
    → money_moved i (sync_order_payment am g now i c).0 ≡ true
    → IsLive i c.world
    → IsLive i (sync_order_payment am g now i c).0.world
unfolding sync_order_payment
sync_in_flight am g now i c m l = elim (Bool-cases (is_synced g (find_live c.world i))) [
  | inr b ↦ rw b l
  | inl b ↦
      let ps = payments_of i c in
      let done = reconcile_all g now ps c in
      let moved : money_moved i (continue {0, 0} done (λ _. release_expired am g now i)).0 ≡ true =
        rw b at m in
      rw b (continue-IsLive am g now i c done (reconcile_all-Sound i g now ps c) moved l)
]
