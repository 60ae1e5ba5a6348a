-- ===== src/Requisitions/Receipts.antt =====
-- What `receive` takes out of the transit goes to the hub (src/modules/requisitions/requisitions.service.ts).
use vikram_backend.Prelude.{
  ℕ, ◌+◌, ◌≤◌, ◌≡◌, refl, sym, subst, ◌∙◌, Bool, true, false, Option, some, none, List, [], ◌∷◌,
  arith, ltb, ◌==◌, if◌then◌else◌, find?, sum_of, Bool-cases, Option-cases, inl, inr,
}
use vikram_backend.Orders.World.{Stock}
use vikram_backend.Orders.Inventory.{units}
use vikram_backend.Requisitions.Table.{Item, has_id, update_item, remaining_qty}
use vikram_backend.Requisitions.Ops.{Writes}
use vikram_backend.Requisitions.Shipping.{
  Receipt, receipt_ok, receipts_ok, receive_item, receive_line, receive_lines, add_stock,
}
use vikram_backend.Requisitions.Sums.{sum_of-update_item, find?-update_item}

-- The units of a product that an item still waits for.
abbrev pub transit : ℕ → Item → ℕ
transit p x = if x.product == p then remaining_qty x else 0

-- No item is named twice.
abbrev pub AreDistinct : List Receipt → Type 0
AreDistinct [] = Unit
AreDistinct (r ∷ rs) = (find? (λ s. s.item == r.item) rs ≡ none) × AreDistinct rs

-- The items that the lines name are as they were read.
abbrev pub AsRead : List Item → List Item → List Receipt → Type 0
AsRead old items [] = Unit
AsRead old items (r ∷ rs) =
    (find? (has_id r.item) items ≡ find? (has_id r.item) old) × AsRead old items rs

units-add_stock : (q : ℕ) (s : Option Stock) → units (some (add_stock q s)) ≡ units s + q
units-add_stock q none = omega arith
units-add_stock q (some s) = omega arith

-- The units of a product in a row that is put, or in the row that stays.
row_put :
    (b : Bool) (q : ℕ) (s t : Option Stock)
    → (b ≡ true → t ≡ s)
    → units (if b then some (add_stock q s) else t) ≡ units t + (if b then q else 0)
row_put true q s t h = ground (arith, h refl, units-add_stock q s)
row_put false q s t h = omega arith

same-swap : (a b : ℕ) → (a == b) ≡ (b == a)
same-swap a b = ground arith

-- The hub's units after a line.
line-units :
    (hub p : ℕ) (r : Receipt) (row : Item) (w : Writes)
    → units ((receive_line hub r (some row) w).stock hub p)
      ≡ units (w.stock hub p) + (if row.product == p then r.qty else 0)
line-units hub p r row w = elim (Bool-cases (ltb 0 r.qty)) [
  | inr z ↦ rw z (ground arith)
  | inl z ↦
      let here : (hub == hub) ≡ true = ground arith in
      rw (z, here, same-swap row.product p)
        (row_put (p == row.product) r.qty (w.stock hub row.product) (w.stock hub p)
          (λ e. ground arith))
]

-- The items after a line.
pub line-items :
    (hub : ℕ) (r : Receipt) (row : Item) (w : Writes)
    → (receive_line hub r (some row) w).items ≡ update_item r.item (receive_item r row) w.items
line-items hub r row w = elim (Bool-cases (ltb 0 r.qty)) [ inl z ↦ rw z refl | inr z ↦ rw z refl ]

-- What is left of an item after a receipt of no more than what was left of it.
transit-receive_item :
    (p : ℕ) (r : Receipt) (row : Item)
    → r.qty ≤ remaining_qty row
    → transit p (receive_item r row row) + (if row.product == p then r.qty else 0) ≡ transit p row
transit-receive_item p r row b = elim (Bool-cases (row.product == p)) [
  | inl e ↦ rw e (omega arith)
  | inr e ↦ rw e (omega arith)
]

-- A line moves units from the transit to the hub.
line-conserves :
    (hub p : ℕ) (r : Receipt) (row : Item) (w : Writes)
    → find? (has_id r.item) w.items ≡ some row
    → r.qty ≤ remaining_qty row
    → sum_of (transit p) (receive_line hub r (some row) w).items
        + units ((receive_line hub r (some row) w).stock hub p)
      ≡ sum_of (transit p) w.items + units (w.stock hub p)
line-conserves hub p r row w e b =
    let moved = sum_of-update_item (transit p) r.item (receive_item r row) w.items row e in
    let kept = line-items hub r row w in
    let units_line = line-units hub p r row w in rw kept (ground (arith, moved, units_line))

pub receipt_ok-le :
    (r : Receipt) (x : Item) → receipt_ok r (some x) ≡ true → r.qty ≤ remaining_qty x
receipt_ok-le r x h = ground arith

-- A line leaves every item that another line names as it was.
pub line-AsRead :
    (hub : ℕ) (r : Receipt) (row : Item) (w : Writes) (old : List Item) (rs : List Receipt)
    → find? (λ s. s.item == r.item) rs ≡ none
    → AsRead old w.items rs
    → AsRead old (receive_line hub r (some row) w).items rs
line-AsRead hub r row w old [] d a = a
line-AsRead hub r row w old (s ∷ rs) d a =
    let other : (r.item == s.item) ≡ false = ground (arith) in
    let kept = find?-update_item r.item s.item (receive_item r row) w.items (λ x. refl) other in
    (rw (line-items hub r row w) (kept ∙ a.0), line-AsRead hub r row w old rs (ground arith) a.1)

pub AsRead-self : (old : List Item) (rs : List Receipt) → AsRead old old rs
AsRead-self old [] = tt
AsRead-self old (r ∷ rs) = (refl, AsRead-self old rs)

-- The second loop of `receive` keeps the units in transit and at the hub together.
pub lines-conserve :
    (hub p : ℕ) (old : List Item) (rs : List Receipt) (w : Writes)
    → AreDistinct rs
    → AsRead old w.items rs
    → receipts_ok old rs ≡ true
    → sum_of (transit p) (receive_lines hub old rs w).items
        + units ((receive_lines hub old rs w).stock hub p)
      ≡ sum_of (transit p) w.items + units (w.stock hub p)
unfolding receive_lines
lines-conserve hub p old [] w d a h = refl
lines-conserve hub p old (r ∷ rs) w d a h = elim (Option-cases (find? (has_id r.item) old)) [
  | inl n ↦ absurd (ground (arith))
  | inr (row, n) ↦
      let first : receipt_ok r (some row) ≡ true = ground arith in
      let rest : receipts_ok old rs ≡ true = ground arith in
      let w' = receive_line hub r (some row) w in
      subst
        (λ (o : Option Item).
          sum_of (transit p) (receive_lines hub old rs (receive_line hub r o w)).items
            + units ((receive_lines hub old rs (receive_line hub r o w)).stock hub p)
          ≡ sum_of (transit p) w.items + units (w.stock hub p))
        (sym n)
        (lines-conserve hub p old rs w' d.1 (line-AsRead hub r row w old rs d.0 a.1) rest
          ∙ line-conserves hub p r row w (a.0 ∙ n) (receipt_ok-le r row first))
]

line-elsewhere :
    (hub h p : ℕ) (r : Receipt) (o : Option Item) (w : Writes)
    → (h == hub) ≡ false
    → (receive_line hub r o w).stock h p ≡ w.stock h p
line-elsewhere hub h p r none w n = refl
line-elsewhere hub h p r (some row) w n = elim (Bool-cases (ltb 0 r.qty)) [
  | inl z ↦ rw (z, n) refl
  | inr z ↦ rw z refl
]

-- A receipt at a hub leaves the stock of every other hub.
pub lines-elsewhere :
    (hub h p : ℕ) (old : List Item) (rs : List Receipt) (w : Writes)
    → (h == hub) ≡ false
    → (receive_lines hub old rs w).stock h p ≡ w.stock h p
unfolding receive_lines
lines-elsewhere hub h p old [] w n = refl
lines-elsewhere hub h p old (r ∷ rs) w n =
    lines-elsewhere hub h p old rs (receive_line hub r (find? (has_id r.item) old) w) n
    ∙ line-elsewhere hub h p r (find? (has_id r.item) old) w n
