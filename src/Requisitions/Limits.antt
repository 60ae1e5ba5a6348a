-- ===== src/Requisitions/Limits.antt =====
-- Receipts against what was dispatched (`receive` of src/modules/requisitions/requisitions.service.ts).
use vikram_backend.Prelude.{
  ℕ, ◌≤◌, ◌≡◌, refl, sym, subst, ◌∙◌, Bool, true, false, Option, some, List, [], ◌∷◌, arith, leb,
  ltb, ◌==◌, find?, All, All-find?, Bool-cases, Option-cases, inl, inr, ok, Result-cases,
}
use vikram_backend.Requisitions.Table.{
  Item, Depot, dispatched_qty, remaining_qty, has_id, update_item,
}
use vikram_backend.Requisitions.Ops.{
  ItemInput, Writes, writes_of, create, update_items, submit, approve, reject, assign_logistics,
}
use vikram_backend.Requisitions.Shipping.{
  Receipt, ship_items, ship_item, ship_writes, receive_lines, receive_line, receive_item,
  receipts_ok,
}
use vikram_backend.Requisitions.Sums.{All-update_item, All-update_item_found}
use vikram_backend.Requisitions.Receipts.{
  AreDistinct, AsRead, AsRead-self, line-AsRead, line-items, receipt_ok-le,
}
use vikram_backend.Requisitions.Moves.{NotReceived}
use vikram_backend.Requisitions.Conservation.{
  IsSound, has_left, Step, History, updates, submits, approves, rejects, allocates, assigns,
  dispatches, receives, start, later, allocate-eq_ok, dispatch-eq_ok, receive-eq_ok, History-Kept,
  created,
}

abbrev pub IsWithin : Item → Type 0
IsWithin x = x.received ≤ dispatched_qty x

fresh-IsWithin : (xs : List Item) → All NotReceived xs → All IsWithin xs
fresh-IsWithin [] a = a
fresh-IsWithin (x ∷ xs) a = (omega (arith, a.0), fresh-IsWithin xs a.1)

ship_item-IsWithin :
    (wh : ℕ) (x : Item) (w w' : Writes)
    → ship_item wh x w ≡ ok w'
    → All IsWithin w.items
    → All IsWithin w'.items
ship_item-IsWithin wh x w w' e a = elim (Bool-cases (leb (dispatched_qty x) 0)) [
  | inl b ↦ ground arith
  | inr b ↦ elim (Option-cases (w.stock wh x.product)) [
    | inl n ↦ absurd (ground arith)
    | inr (s, n) ↦ elim (Bool-cases (ltb s.reserved (dispatched_qty x))) [
      | inl c ↦ absurd (ground arith)
      | inr c ↦
          let done : ship_writes wh x (dispatched_qty x) s w ≡ w' = ground arith in
          rw (sym done) (All-update_item IsWithin x.id _ w.items (λ y k. k) a)
    ]
  ]
]

ship_items-IsWithin :
    (wh : ℕ) (xs : List Item) (w w' : Writes)
    → ship_items wh xs w ≡ ok w'
    → All IsWithin w.items
    → All IsWithin w'.items
unfolding ship_items
ship_items-IsWithin wh [] w w' e a = ground arith
ship_items-IsWithin wh (x ∷ xs) w w' e a = elim (Result-cases (ship_item wh x w)) [
  | inr (y, n) ↦ absurd (ground arith)
  | inl (v, n) ↦
      let rest : ship_items wh xs v ≡ ok w' = rw n at e in
      ship_items-IsWithin wh xs v w' rest (ship_item-IsWithin wh x w v n a)
]

some-inj : {x y : Item} → some x ≡ some y → x ≡ y
some-inj {x} {y} e = cc

-- A receipt of no more than what is left.
received-IsWithin :
    (r : Receipt) (row x : Item)
    → r.qty ≤ remaining_qty row
    → row ≡ x
    → IsWithin row
    → IsWithin (receive_item r row x)
received-IsWithin r row x fits e k =
    subst (λ (y : Item). IsWithin (receive_item r row y)) e (omega (arith, fits, k))

receive_lines-IsWithin :
    (hub : ℕ) (old : List Item) (rs : List Receipt) (w : Writes)
    → AreDistinct rs
    → AsRead old w.items rs
    → receipts_ok old rs ≡ true
    → All IsWithin w.items
    → All IsWithin (receive_lines hub old rs w).items
unfolding receive_lines
receive_lines-IsWithin hub old [] w d a h k = k
receive_lines-IsWithin hub old (r ∷ rs) w d a h k =
    elim (Option-cases (find? (has_id r.item) old)) [
      | inl n ↦ absurd (ground arith)
      | inr (row, n) ↦
          let fits : r.qty ≤ remaining_qty row = receipt_ok-le r row (ground arith) in
          let rest : receipts_ok old rs ≡ true = ground arith in
          let w' = receive_line hub r (some row) w in
          let read : find? (has_id r.item) w.items ≡ some row = a.0 ∙ n in
          let within : All IsWithin (update_item r.item (receive_item r row) w.items) =
            All-update_item_found IsWithin r.item (receive_item r row) w.items
              (λ x e.
                received-IsWithin r row x fits (some-inj (sym read ∙ e))
                  (All-find? IsWithin (has_id r.item) w.items {x = row} k read))
              k in
          subst
            (λ (o : Option Item).
              All IsWithin (receive_lines hub old rs (receive_line hub r o w)).items)
            (sym n)
            (receive_lines-IsWithin hub old rs w' d.1 (line-AsRead hub r row w old rs d.0 a.1) rest
              (rw (line-items hub r row w) within))
    ]

Step-IsWithin :
    (wh : ℕ) (known : ℕ → Bool) {d d' : Depot}
    → Step wh known d d'
    → has_left d'.row.status ≡ true
    → All IsWithin d.row.items
    → All IsWithin d'.row.items
unfolding update_items submit approve reject assign_logistics
Step-IsWithin wh known (updates i e) b a = absurd (ground arith)
Step-IsWithin wh known (submits e) b a = absurd (ground arith)
Step-IsWithin wh known (approves l e) b a = absurd (ground arith)
Step-IsWithin wh known (rejects e) b a = absurd (ground arith)
Step-IsWithin wh known {d} {d'} (allocates l v k e) b a =
    let (w, done, before, after) = allocate-eq_ok wh d d' l v k e in
    let early : has_left d'.row.status ≡ false = rw after refl in absurd (ground arith)
Step-IsWithin wh known (assigns v k c e) b a = ground arith
Step-IsWithin wh known {d} {d'} (dispatches v k e) b a =
    let (w, done, before, after) = dispatch-eq_ok wh d d' v k e in
    rw after (ship_items-IsWithin wh d.row.items (writes_of d) w done a)
Step-IsWithin wh known {d} {d'} (receives hub r once e) b a =
    let (fine, moving, here, after) = receive-eq_ok wh d d' hub r e in
    rw after (
      receive_lines-IsWithin hub d.row.items r (writes_of d) once (AsRead-self d.row.items r) fine
        a)

History-IsWithin :
    (wh : ℕ) (known : ℕ → Bool) {d d' : Depot}
    → History wh known d d'
    → (wh == d.row.hub) ≡ false
    → IsSound d
    → All IsWithin d.row.items
    → All IsWithin d'.row.items
History-IsWithin wh known start far s a = a
History-IsWithin wh known (later {d = d} {e = e} {f = f} h t) far s a =
    elim (Bool-cases (has_left f.row.status)) [
      | inl left ↦ Step-IsWithin wh known t left (History-IsWithin wh known h far s a)
      | inr early ↦
          let (sound, hub_same, total) = History-Kept wh 0 known (later h t) far s in
          fresh-IsWithin f.row.items (sound early)
    ]

-- From the creation of a requisition on, whatever operations succeed on it: no item has received more
-- than what was dispatched of it. The warehouse is another hub, and no receipt names an item twice.
pub received_within :
    (wh : ℕ) (known : ℕ → Bool) (hub : ℕ) (submitting : Bool) (i : List ItemInput) (d0 d d' : Depot)
    → (wh == hub) ≡ false
    → create known hub submitting i d0 ≡ ok d
    → History wh known d d'
    → All (λ x. x.received ≤ dispatched_qty x) d'.row.items
received_within wh known hub submitting i d0 d d' far c h =
    let (sound, here, same, none_away, early) = created wh 0 known hub submitting i d0 d c in
    History-IsWithin wh known h (rw here far) sound (fresh-IsWithin d.row.items (sound early))
