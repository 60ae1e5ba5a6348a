-- ===== src/Requisitions/Moves.antt =====
-- What allocation and dispatch do to the stock of the warehouse
-- (src/modules/requisitions/requisitions.service.ts).
use vikram_backend.Prelude.{
  ℕ, ◌+◌, ◌≡◌, refl, sym, ◌∙◌, false, ◌&&◌, Option, some, none, List, [], ◌∷◌, arith, leb, ltb,
  ◌==◌, if◌then◌else◌, find?, sum_of, All, Bool-cases, Option-cases, inl, inr, ok, Result-cases,
}
use vikram_backend.Orders.Inventory.{units}
use vikram_backend.Requisitions.Table.{
  ItemStatus, Item, has_id, update_item, dispatched_qty, max_allowed,
}
use vikram_backend.Requisitions.Ops.{
  Line, Writes, allocate_from, allocate_line, allocate_lines, approve_lines, approve_item,
}
use vikram_backend.Requisitions.Shipping.{ship_item, ship_items, ship_from, ship_writes}
use vikram_backend.Requisitions.Receipts.{transit}
use vikram_backend.Requisitions.Sums.{sum_of-update_item_same, All-update_item}

-- Nothing of the item has been received.
abbrev pub NotReceived : Item → Type 0
NotReceived x = x.received ≡ 0

-- The units of a product that an item takes out of the warehouse.
abbrev pub outgoing : ℕ → Item → ℕ
outgoing p x = if x.product == p then dispatched_qty x else 0

pub transit-outgoing :
    (p : ℕ) (xs : List Item) → All NotReceived xs → sum_of (transit p) xs ≡ sum_of (outgoing p) xs
transit-outgoing p [] a = refl
transit-outgoing p (x ∷ xs) a = ground (arith, transit-outgoing p xs a.1)

ship-units :
    (wh p h : ℕ) (x : Item) (q : ℕ) (w w' : Writes)
    → ship_from wh x q (w.stock wh x.product) w ≡ ok w'
    → units (w'.stock h p) + (if h == wh && p == x.product then q else 0) ≡ units (w.stock h p)
ship-units wh p h x q w w' e = elim (Option-cases (w.stock wh x.product)) [
  | inl n ↦ ground arith
  | inr (s, n) ↦ elim (Bool-cases (ltb s.reserved q)) [
    | inl b ↦ ground arith
    | inr b ↦ elim (Bool-cases (h == wh && p == x.product)) [
      | inl c ↦ ground arith
      | inr c ↦ ground arith
    ]
  ]
]

-- What an item takes out of the row of a hub and a product.
abbrev outgoing_at : ℕ → ℕ → ℕ → Item → ℕ
outgoing_at wh h p x = if h == wh && p == x.product then dispatched_qty x else 0

item-units :
    (wh p h : ℕ) (x : Item) (w w' : Writes)
    → ship_item wh x w ≡ ok w'
    → units (w'.stock h p) + outgoing_at wh h p x ≡ units (w.stock h p)
item-units wh p h x w w' e = elim (Bool-cases (leb (dispatched_qty x) 0)) [
  | inl b ↦ ground arith
  | inr b ↦
      let sent : ship_from wh x (dispatched_qty x) (w.stock wh x.product) w ≡ ok w' =
        ground arith in
      ship-units wh p h x (dispatched_qty x) w w' sent
]

item-transit :
    (wh p : ℕ) (x : Item) (w w' : Writes)
    → ship_item wh x w ≡ ok w'
    → sum_of (transit p) w'.items ≡ sum_of (transit p) w.items
item-transit wh p x w w' e = elim (Bool-cases (leb (dispatched_qty x) 0)) [
  | inl b ↦ ground arith
  | inr b ↦ elim (Option-cases (w.stock wh x.product)) [
    | inl n ↦ ground arith
    | inr (s, n) ↦ elim (Bool-cases (ltb s.reserved (dispatched_qty x))) [
      | inl c ↦ ground arith
      | inr c ↦
          let done : ship_writes wh x (dispatched_qty x) s w ≡ w' = ground arith in
          rw (sym done) (sum_of-update_item_same (transit p) x.id _ w.items (λ y. refl))
    ]
  ]
]

-- The loop of `dispatch`.
pub items-units :
    (wh p h : ℕ) (xs : List Item) (w w' : Writes)
    → ship_items wh xs w ≡ ok w'
    → (units (w'.stock h p) + sum_of (outgoing_at wh h p) xs ≡ units (w.stock h p))
      × (sum_of (transit p) w'.items ≡ sum_of (transit p) w.items)
unfolding ship_items
items-units wh p h [] w w' e = (ground arith, ground arith)
items-units wh p h (x ∷ xs) w w' e = elim (Result-cases (ship_item wh x w)) [
  | inr (y, n) ↦ absurd (ground arith)
  | inl (v, n) ↦
      let rest : ship_items wh xs v ≡ ok w' = rw n at e in
      let (a, b) = items-units wh p h xs v w' rest in
      (omega (arith, a, item-units wh p h x w v n), b ∙ item-transit wh p x w v n)
]

outgoing-at : (wh p : ℕ) (xs : List Item) → sum_of (outgoing_at wh wh p) xs ≡ sum_of (outgoing p) xs
outgoing-at wh p [] = refl
outgoing-at wh p (x ∷ xs) = ground (arith, outgoing-at wh p xs)

outgoing-elsewhere :
    (wh h p : ℕ) (xs : List Item) → (h == wh) ≡ false → sum_of (outgoing_at wh h p) xs ≡ 0
outgoing-elsewhere wh h p [] n = refl
outgoing-elsewhere wh h p (x ∷ xs) n = ground (arith, outgoing-elsewhere wh h p xs n)

-- The loop of `dispatch` at the warehouse, at another hub and on the items.
pub ship_items-units :
    (wh hub p : ℕ) (xs : List Item) (w w' : Writes)
    → (hub == wh) ≡ false
    → ship_items wh xs w ≡ ok w'
    → (units (w'.stock wh p) + sum_of (outgoing p) xs ≡ units (w.stock wh p))
      × (units (w'.stock hub p) ≡ units (w.stock hub p))
      × (sum_of (transit p) w'.items ≡ sum_of (transit p) w.items)
ship_items-units wh hub p xs w w' n e =
    let (a, b) = items-units wh p wh xs w w' e in
    let (c, d) = items-units wh p hub xs w w' e in
    (omega (arith, a, outgoing-at wh p xs), omega (arith, c, outgoing-elsewhere wh hub p xs n), b)

-- The row that an allocation changes keeps its units.
from-units :
    (wh p h : ℕ) (l : Line) (x : Item) (w w' : Writes)
    → allocate_from wh l x (w.stock wh x.product) w ≡ ok w'
    → units (w'.stock h p) ≡ units (w.stock h p)
from-units wh p h l x w w' e = elim (Option-cases (w.stock wh x.product)) [
  | inl n ↦ ground arith
  | inr (s, n) ↦ elim (Bool-cases (ltb s.available l.qty)) [
    | inl b ↦ ground arith
    | inr b ↦ elim (Bool-cases (h == wh && p == x.product)) [
      | inl c ↦ ground arith
      | inr c ↦ ground arith
    ]
  ]
]

line-units :
    (wh p h : ℕ) (l : Line) (o : Option Item) (w w' : Writes)
    → allocate_line wh l o w ≡ ok w'
    → units (w'.stock h p) ≡ units (w.stock h p)
line-units wh p h l none w w' e = ground arith
line-units wh p h l (some x) w w' e = elim (Bool-cases (ltb (max_allowed x) l.qty)) [
  | inl b ↦ ground arith
  | inr b ↦
      let done : allocate_from wh l x (w.stock wh x.product) w ≡ ok w' = rw b at e in
      from-units wh p h l x w w' done
]

line-NotReceived :
    (wh : ℕ) (l : Line) (o : Option Item) (w w' : Writes)
    → allocate_line wh l o w ≡ ok w'
    → All NotReceived w.items
    → All NotReceived w'.items
line-NotReceived wh l none w w' e a = ground arith
line-NotReceived wh l (some x) w w' e a = elim (Option-cases (w.stock wh x.product)) [
  | inl n ↦ absurd (ground arith)
  | inr (s, n) ↦
      let done : w'.items
          ≡ update_item l.item
              (λ y. record y { allocated = some l.qty; status = ItemStatus.allocated }) w.items =
        ground arith in
      rw done (All-update_item NotReceived l.item _ w.items (λ y k. k) a)
]

-- The loop of `allocate`: no units come or go, anywhere.
pub allocate_lines-units :
    (wh p h : ℕ) (old : List Item) (ls : List Line) (w w' : Writes)
    → allocate_lines wh old ls w ≡ ok w'
    → units (w'.stock h p) ≡ units (w.stock h p)
unfolding allocate_lines
allocate_lines-units wh p h old [] w w' e = ground arith
allocate_lines-units wh p h old (l ∷ ls) w w' e =
    elim (Result-cases (allocate_line wh l (find? (has_id l.item) old) w)) [
      | inr (y, n) ↦ absurd (ground arith)
      | inl (v, n) ↦
          let rest : allocate_lines wh old ls v ≡ ok w' = rw n at e in
          allocate_lines-units wh p h old ls v w' rest
          ∙ line-units wh p h l (find? (has_id l.item) old) w v n
    ]

pub allocate_lines-NotReceived :
    (wh : ℕ) (old : List Item) (ls : List Line) (w w' : Writes)
    → allocate_lines wh old ls w ≡ ok w'
    → All NotReceived w.items
    → All NotReceived w'.items
unfolding allocate_lines
allocate_lines-NotReceived wh old [] w w' e a = ground arith
allocate_lines-NotReceived wh old (l ∷ ls) w w' e a =
    elim (Result-cases (allocate_line wh l (find? (has_id l.item) old) w)) [
      | inr (y, n) ↦ absurd (ground arith)
      | inl (v, n) ↦
          let rest : allocate_lines wh old ls v ≡ ok w' = rw n at e in
          allocate_lines-NotReceived wh old ls v w' rest
            (line-NotReceived wh l (find? (has_id l.item) old) w v n a)
    ]

pub approve_lines-NotReceived :
    (old : List Item) (ls : List Line) (items : List Item)
    → All NotReceived items
    → All NotReceived (approve_lines old ls items)
approve_lines-NotReceived old [] items a = a
approve_lines-NotReceived old (l ∷ ls) items a = elim (Option-cases (find? (has_id l.item) old)) [
  | inl n ↦ rw n (approve_lines-NotReceived old ls items a)
  | inr (x, n) ↦ rw n (
      approve_lines-NotReceived old ls (update_item l.item (approve_item l) items)
        (All-update_item NotReceived l.item (approve_item l) items (λ y k. k) a))
]
