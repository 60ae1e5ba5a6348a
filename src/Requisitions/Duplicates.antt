-- ===== src/Requisitions/Duplicates.antt =====
-- A receipt with an item on two lines (`receive` of src/modules/requisitions/requisitions.service.ts).
use vikram_backend.Prelude.{ℕ, ◌+◌, ◌<◌, ◌≡◌, true, false, some, none, [], ◌∷◌, arith, ◌==◌, ok}
use vikram_backend.Orders.World.{Stock}
use vikram_backend.Requisitions.Table.{RequisitionStatus, Item, Depot, remaining_qty}
use vikram_backend.Requisitions.Ops.{writes_of}
use vikram_backend.Requisitions.Shipping.{received_depot, Receipt, receive, receive_lines}

-- Of a requisition of one item that is in transit to a working hub, a receipt that names the item twice,
-- each time with all that is left of it, is accepted, and the hub's stock grows by twice that quantity
-- although it was sent once.
pub receive_twice :
    (hub : ℕ) (x : Item) (s : Stock) (d : Depot)
    → d.operational hub ≡ true
    → d.row.hub ≡ hub
    → d.row.status ≡ RequisitionStatus.in_transit
    → d.row.items ≡ x ∷ []
    → d.stock hub x.product ≡ some s
    → 0 < remaining_qty x
    → let line : Receipt = record {
      item = x.id;
      qty = remaining_qty x;
      shortage = none;
      damage = 0;
      missing = 0;
      remarked = false;
    } in
      (d' : Depot) × (receive hub (line ∷ line ∷ []) d ≡ ok d')
      × (d'.stock hub x.product
          ≡ some (record s { available = s.available + remaining_qty x + remaining_qty x }))
unfolding receive receive_lines
receive_twice hub x s d o h t one here more =
    let line : Receipt = record {
      item = x.id;
      qty = remaining_qty x;
      shortage = none;
      damage = 0;
      missing = 0;
      remarked = false;
    } in
    let self : (x.id == x.id) ≡ true = ground arith in
    let d' = received_depot (receive_lines hub d.row.items (line ∷ line ∷ []) (writes_of d)) d in
    (d', rw (one, self) (ground arith), rw (one, self) (ground arith))
