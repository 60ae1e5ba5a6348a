-- ===== src/Orders/Placement/Repeating.antt =====
-- A request to place an order that is sent again, and the stock under all its outcomes (`placeOrder` and
-- `releaseUnpaidOnlineCheckouts` of src/modules/orders/orders.service.ts).
use Prim.Native.String.{String}
use text.Mathlib.TextEquality.{eq_iff}
use vikram_backend.Prelude.{
  ℕ, ◌≡◌, refl, sym, ap, subst, ◌∙◌, Bool, true, false, ◌&&◌, Option, none, some, List, [], ◌∷◌,
  ◌++◌, map, arith, ==_iff, Bool-cases, Option-cases, Result-cases, inl, inr, find?, Result, ok,
  err, if◌then◌else◌, ◌==◌,
}
use vikram_backend.Delivery.Benefit.{BenefitConfig}
use vikram_backend.Orders.World.{World, OrderError}
use vikram_backend.Orders.Status.{text_eq}
use vikram_backend.Orders.Placement.Released.{Kept, is_owned_live-owner, released_first-Kept}
use vikram_backend.Orders.Placement.Placed.{
  Core, core, place_rest-core, place_in_transaction-Moved, taken_by,
}
use vikram_backend.Orders.Placement.Reserving.{bind-ok, ok-injective, err_not_ok, Moved-units}
use vikram_backend.Orders.Inventory.{units}
use vikram_backend.Orders.Shop.{Shop, find_by_key, is_owned_live, is_key, set_at}
use vikram_backend.Orders.Placement.{
  to_item, CheckoutItem, reserve_stock, reserve_items, with_inventory, place_rest, Request,
  Prepared, released_first, place_order, commit, created, new_order, place_in_transaction,
  prepared_then, released_then, on_world,
}

some_not_none : {A : Type 0} {x : A} → Path (Option A) (some x) none → ⊥
some_not_none h = cc

find?-same : (q q' : ℕ → Bool) (ids : List ℕ) → ((j : ℕ) → q' j ≡ q j) → find? q' ids ≡ find? q ids
find?-same q q' [] h = refl
find?-same q q' (j ∷ ids) h =
    rw (h j) (ap (λ (o : Option ℕ). if q j then some j else o) (find?-same q q' ids h))

-- A test that only the new row passes finds it.
find?-new :
    (q q' : ℕ → Bool) (i : ℕ) (ids : List ℕ)
    → ((j : ℕ) → (j == i) ≡ false → q' j ≡ q j)
    → q' i ≡ true
    → find? q ids ≡ none
    → find? q' (ids ++ (i ∷ [])) ≡ some i
find?-new q q' i [] h t n = rw t refl
find?-new q q' i (j ∷ ids) h t n = elim (Bool-cases (j == i)) [
  | inl b ↦
      let same : j ≡ i = (==_iff j i).0 b in
      let passes : q' j ≡ true = rw same t in rw passes (ap some same)
  | inr b ↦ elim (Bool-cases (q j)) [
    | inl k ↦ absurd (some_not_none (rw k at n))
    | inr k ↦
        let fails : q' j ≡ false = h j b ∙ k in rw fails (find?-new q q' i ids h t (rw k at n))
  ]
]

-- The lookup of a key reads the orders and their keys only.
abbrev found_in : ℕ → String → Core → Option ℕ
found_in c k x =
    find? (λ j. is_owned_live c (x.order j) && is_key k (x.idempotency_key j)) x.order_ids

on_world-found :
    (c : ℕ) (k : String) (s : Shop) (w : World)
    → Kept s.world w
    → found_in c k (core (on_world s w)) ≡ found_in c k (core s)
on_world-found c k s w h = rw (h.ids) (
    find?-same (λ j. is_owned_live c (s.world.order j) && is_key k (s.idempotency_key j))
      (λ j. is_owned_live c (w.order j) && is_key k (s.idempotency_key j)) s.world.order_ids
      λ j.
        ap (λ (b : Bool). b && is_key k (s.idempotency_key j))
          (is_owned_live-owner c (w.order j) (s.world.order j) (h.owners j)))

pub text_eq_self : (s : String) → text_eq s s ≡ true
text_eq_self s = (eq_iff s s).1 refl

is_new :
    (c i : ℕ) (k : String) (r : Request) (p : Prepared) (s : Shop)
    → r.idempotency_key ≡ some k
    → (is_owned_live c (set_at i (some (new_order c r p)) s.world.order i)
        && is_key k (set_at i r.idempotency_key s.idempotency_key i))
      ≡ true
is_new c i k r p s e =
    let same : (i == i) ≡ true = ground arith in
    let mine : (c == c) ≡ true = ground arith in rw (same, mine, e) (text_eq_self k)

created-found :
    (c i : ℕ) (k : String) (r : Request) (p : Prepared) (s : Shop)
    → r.idempotency_key ≡ some k
    → found_in c k (core s) ≡ none
    → found_in c k (core (created c i r p s)) ≡ some i
created-found c i k r p s e n =
    find?-new (λ j. is_owned_live c (s.world.order j) && is_key k (s.idempotency_key j))
      (λ j.
        is_owned_live c (set_at i (some (new_order c r p)) s.world.order j)
        && is_key k (set_at i r.idempotency_key s.idempotency_key j))
      i s.world.order_ids (λ j b. rw b refl) (is_new c i k r p s e) n

module _ (am : ℕ → ℕ → ℕ) where
  -- A transaction that places an order under a key makes the key find it.
  reserve_stock-core :
      (hub : Option ℕ) (items : List CheckoutItem) (s u : Shop)
      → reserve_stock hub items s ≡ ok u
      → core u ≡ record (core s) { inventory = u.world.inventory }
  unfolding reserve_stock
  reserve_stock-core none items s u e = rw (ok-injective s u e) refl
  reserve_stock-core (some hub) items s u e =
      let (inv, a, b) =
        bind-ok (reserve_items hub items s.world.inventory) (λ inv. ok (with_inventory s inv)) e in
      rw (sym (ok-injective (with_inventory s inv) u b)) refl

  placed-found :
      (now : ℕ) (b : BenefitConfig) (c i : ℕ) (k : String) (r : Request) (p : Prepared) (s t : Shop)
      → r.idempotency_key ≡ some k
      → found_in c k (core s) ≡ none
      → place_in_transaction now b c i r p s ≡ ok t
      → found_in c k (core t) ≡ some i
  unfolding place_in_transaction
  placed-found now b c i k r p s t e n h =
      let (u, x, y) =
        bind-ok (reserve_stock p.assignable_hub p.checkout.items s) (place_rest now b c i r p) h in
      let none_at : found_in c k (core u) ≡ none =
        ap (found_in c k) (reserve_stock-core p.assignable_hub p.checkout.items s u x) ∙ n in
      ap (found_in c k) (place_rest-core now b c i r p u t y) ∙ created-found c i k r p u e none_at

  prepared_then-found :
      (now : ℕ) (b : BenefitConfig) (c i j : ℕ) (k : String) (r : Request) (s t : Shop)
      (x : Result OrderError Prepared)
      → r.idempotency_key ≡ some k
      → found_in c k (core s) ≡ none
      → prepared_then am now b c i r s x ≡ (t, ok j)
      → found_in c k (core t) ≡ some j
  prepared_then-found now b c i j k r s t (err z) e n h =
      absurd (err_not_ok (ap (λ (q : Shop × Result OrderError ℕ). q.1) h))
  prepared_then-found now b c i j k r s t (ok p) e n h =
      elim (Result-cases (place_in_transaction now b c i r p s)) [
        | inr (z, f) ↦
            let g : commit i s (err z) ≡ (t, ok j) =
              subst (λ (q : Result OrderError Shop). commit i s q ≡ (t, ok j)) f h in
            absurd (err_not_ok (ap (λ (q : Shop × Result OrderError ℕ). q.1) g))
        | inl (v, f) ↦
            let g : commit i s (ok v) ≡ (t, ok j) =
              subst (λ (q : Result OrderError Shop). commit i s q ≡ (t, ok j)) f h in
            let same : v ≡ t = ap (λ (q : Shop × Result OrderError ℕ). q.0) g in
            let id : i ≡ j = ok-injective i j (ap (λ (q : Shop × Result OrderError ℕ). q.1) g) in
            subst (λ (q : Shop). found_in c k (core q) ≡ some j) same
              (placed-found now b c i k r p s v e n f ∙ ap some id)
      ]

  released_then-found :
      (now : ℕ) (b : BenefitConfig) (c i j : ℕ) (k : String) (r : Request) (s t : Shop)
      (x : World × Result OrderError (Unit {0}))
      → r.idempotency_key ≡ some k
      → found_in c k (core s) ≡ none
      → Kept s.world x.0
      → released_then am now b c i r s x ≡ (t, ok j)
      → found_in c k (core t) ≡ some j
  released_then-found now b c i j k r s t (w, err z) e n kept h =
      absurd (err_not_ok (ap (λ (q : Shop × Result OrderError ℕ). q.1) h))
  released_then-found now b c i j k r s t (w, ok a) e n kept h =
      prepared_then-found now b c i j k r (on_world s w) t (r.prepare (on_world s w)) e
        (on_world-found c k s w kept ∙ n) h

  -- Once a request with an idempotency key has placed an order, every later request of the customer with
  -- that key, whatever else it asks for and whenever it comes, returns the same order and changes
  -- nothing, as long as nothing else happened in between.
  pub place_order-again :
      (now later : ℕ) (b d : BenefitConfig) (c i i' j : ℕ) (k : String) (r r' : Request)
      (s t : Shop)
      → r.idempotency_key ≡ some k
      → r'.idempotency_key ≡ some k
      → place_order am now b c i r s ≡ (t, ok j)
      → place_order am later d c i' r' t ≡ (t, ok j)
  unfolding place_order
  place_order-again now later b d c i i' j k r r' s t e e' h =
      let found : found_in c k (core t) ≡ some j = elim (Option-cases (found_in c k (core s))) [
        | inl n ↦
            let look : find_by_key c r.idempotency_key s ≡ none =
              subst (λ (q : Option String). find_by_key c q s ≡ none) (sym e) n in
            released_then-found now b c i j k r s t (released_first am now c r s.world) e n
              (released_first-Kept am now c r s.world) (rw look at h)
        | inr (l, f) ↦
            let look : find_by_key c r.idempotency_key s ≡ some l =
              subst (λ (q : Option String). find_by_key c q s ≡ some l) (sym e) f in
            let g : (s, ok l) ≡ (t, ok j) = rw look at h in
            let same : s ≡ t = ap (λ (q : Shop × Result OrderError ℕ). q.0) g in
            let id : l ≡ j = ok-injective l j (ap (λ (q : Shop × Result OrderError ℕ). q.1) g) in
            subst (λ (q : Shop). found_in c k (core q) ≡ some j) same (f ∙ ap some id)
      ] in
      rw (e', found) refl

  prepared_then-units :
      (now : ℕ) (b : BenefitConfig) (c i : ℕ) (r : Request) (s : Shop)
      (x : Result OrderError Prepared) (h k : ℕ)
      → units ((prepared_then am now b c i r s x).0.world.inventory h k)
        ≡ units (s.world.inventory h k)
  prepared_then-units now b c i r s (err z) h k = refl
  prepared_then-units now b c i r s (ok p) h k =
      elim (Result-cases (place_in_transaction now b c i r p s)) [
        | inr (z, f) ↦
            ap (λ (q : Result OrderError Shop). units ((commit i s q).0.world.inventory h k)) f
        | inl (t, f) ↦
            ap (λ (q : Result OrderError Shop). units ((commit i s q).0.world.inventory h k)) f
            ∙ Moved-units (taken_by p.assignable_hub h k (map to_item p.checkout.items))
                (s.world.inventory h k) (t.world.inventory h k)
                (place_in_transaction-Moved now b c i r p s t h k f)
      ]

  released_then-units :
      (now : ℕ) (b : BenefitConfig) (c i : ℕ) (r : Request) (s : Shop)
      (x : World × Result OrderError (Unit {0})) (h k : ℕ)
      → Kept s.world x.0
      → units ((released_then am now b c i r s x).0.world.inventory h k)
        ≡ units (s.world.inventory h k)
  released_then-units now b c i r s (w, err z) h k kept = kept.stock h k
  released_then-units now b c i r s (w, ok a) h k kept =
      prepared_then-units now b c i r (on_world s w) (r.prepare (on_world s w)) h k ∙ kept.stock h k

  -- Placing an order, with the release of the customer's unpaid online orders before it and whether it
  -- succeeds or fails, neither makes nor loses units of any product at any hub.
  pub place_order-units :
      (now : ℕ) (b : BenefitConfig) (c i : ℕ) (r : Request) (s : Shop) (h k : ℕ)
      → units ((place_order am now b c i r s).0.world.inventory h k) ≡ units (s.world.inventory h k)
  unfolding place_order
  place_order-units now b c i r s h k = elim (Option-cases (find_by_key c r.idempotency_key s)) [
    | inr (j, f) ↦ rw (f, place_order) refl
    | inl n ↦
        rw (n, place_order)
          (released_then-units now b c i r s (released_first am now c r s.world) h k
            (released_first-Kept am now c r s.world))
  ]
