-- ===== src/Requisitions/Conservation.antt =====
-- The stock of a product over the whole life of a requisition: at the warehouse, on the way, and at
-- the hub (src/modules/requisitions/requisitions.service.ts).
use vikram_backend.Prelude.{
  ℕ, ◌+◌, ◌≡◌, refl, ◌∙◌, Bool, true, false, Option, none, List, [], ◌∷◌, arith, ◌==◌,
  if◌then◌else◌, sum_of, All, inl, inr, map, ok, Result-cases, filter_if,
}
use vikram_backend.Orders.Inventory.{units}
use vikram_backend.Requisitions.Table.{RequisitionStatus, Item, Depot, one_of}
use vikram_backend.Requisitions.Ops.{
  ItemInput, Line, Writes, writes_of, written, new_item, is_positive, create, update_items, submit,
  approve, reject, allocate, assign_logistics, allocate_lines,
}
use vikram_backend.Requisitions.Shipping.{
  Receipt, dispatch, receive, ship_items, receive_lines, receipts_ok, final_status,
}
use vikram_backend.Requisitions.Receipts.{
  transit, AreDistinct, AsRead-self, lines-conserve, lines-elsewhere,
}
use vikram_backend.Requisitions.Moves.{
  NotReceived, transit-outgoing, ship_items-units, allocate_lines-units, allocate_lines-NotReceived,
  approve_lines-NotReceived,
}

-- The goods have left the warehouse.
abbrev pub has_left : RequisitionStatus → Bool
has_left = one_of (
    RequisitionStatus.dispatched ∷ RequisitionStatus.in_transit ∷ RequisitionStatus.received
    ∷ RequisitionStatus.completed ∷ [])

-- The units of a product that are on the way.
abbrev pub on_the_way : ℕ → Depot → ℕ
on_the_way p d = if has_left d.row.status then sum_of (transit p) d.row.items else 0

abbrev pub total_units : ℕ → ℕ → Depot → ℕ
total_units wh p d = units (d.stock wh p) + units (d.stock d.row.hub p) + on_the_way p d

-- Until the goods leave, nothing is received.
abbrev pub IsSound : Depot → Type 0
IsSound d = has_left d.row.status ≡ false → All NotReceived d.row.items

module _ (wh : ℕ) (known : ℕ → Bool) where
  -- One operation that succeeds. A receipt names no item twice.
  pub data Step : Depot → Depot → Type 0 where
    updates : {d d' : Depot} (i : List ItemInput) → update_items known i d ≡ ok d' → Step d d'
    submits : {d d' : Depot} → submit d ≡ ok d' → Step d d'
    approves : {d d' : Depot} (l : List Line) → approve l d ≡ ok d' → Step d d'
    rejects : {d d' : Depot} → reject d ≡ ok d' → Step d d'
    allocates :
        {d d' : Depot} (l : List Line) (v k : Option ℕ) → allocate wh l v k d ≡ ok d' → Step d d'
    assigns :
        {d d' : Depot} (v k : Option ℕ) (b : Bool) → assign_logistics v k b d ≡ ok d' → Step d d'
    dispatches : {d d' : Depot} (v k : Option ℕ) → dispatch wh v k d ≡ ok d' → Step d d'
    receives :
        {d d' : Depot} (hub : ℕ) (r : List Receipt)
        → AreDistinct r
        → receive hub r d ≡ ok d'
        → Step d d'

  pub data History : Depot → Depot → Type 0 where
    start : {d : Depot} → History d d
    later : {d e f : Depot} → History d e → Step e f → History d f

-- What a step keeps.
abbrev pub Kept : ℕ → ℕ → Depot → Depot → Type 0
Kept wh p d d' = IsSound d' × (d'.row.hub ≡ d.row.hub) × (total_units wh p d' ≡ total_units wh p d)

new_items-NotReceived : (i : List ItemInput) → All NotReceived (map new_item i)
new_items-NotReceived [] = tt
new_items-NotReceived (x ∷ xs) = (refl, new_items-NotReceived xs)

module _ (wh : ℕ) (d d' : Depot) where
  -- What a successful allocation was.
  pub allocate-eq_ok :
      (l : List Line) (v k : Option ℕ)
      → allocate wh l v k d ≡ ok d'
      → (w : Writes) × (allocate_lines wh d.row.items l (writes_of d) ≡ ok w)
        × (has_left d.row.status ≡ false)
        × (d' ≡ written w RequisitionStatus.allocated v k d)
  unfolding allocate
  allocate-eq_ok l v k e = elim (Result-cases (allocate_lines wh d.row.items l (writes_of d))) [
    | inr (y, n) ↦ absurd (ground arith)
    | inl (w, n) ↦ (w, n, ground arith, ground arith)
  ]

  pub dispatch-eq_ok :
      (v k : Option ℕ)
      → dispatch wh v k d ≡ ok d'
      → (w : Writes) × (ship_items wh d.row.items (writes_of d) ≡ ok w)
        × (has_left d.row.status ≡ false)
        × (d' ≡ written w RequisitionStatus.in_transit v k d)
  unfolding dispatch
  dispatch-eq_ok v k e = elim (Result-cases (ship_items wh d.row.items (writes_of d))) [
    | inr (y, n) ↦ absurd (ground arith)
    | inl (w, n) ↦ (w, n, ground arith, ground arith)
  ]

  pub receive-eq_ok :
      (hub : ℕ) (r : List Receipt)
      → receive hub r d ≡ ok d'
      → let w = receive_lines hub d.row.items r (writes_of d) in
        (receipts_ok d.row.items r ≡ true)
        × (has_left d.row.status ≡ true)
        × (d.row.hub ≡ hub)
        × (d' ≡ written w (final_status w.items) none none d)
  unfolding receive
  receive-eq_ok hub r e = (ground arith, ground arith, ground arith, ground arith)

module _ (wh p : ℕ) (known : ℕ → Bool) (d d' : Depot) (sound : IsSound d) where
  updates-Kept : (i : List ItemInput) → update_items known i d ≡ ok d' → Kept wh p d d'
  unfolding update_items
  updates-Kept i e = (λ n. ground (arith, new_items-NotReceived i), ground arith, ground arith)

  submits-Kept : submit d ≡ ok d' → Kept wh p d d'
  unfolding submit
  submits-Kept e = (λ n. ground arith, ground arith, ground arith)

  rejects-Kept : reject d ≡ ok d' → Kept wh p d d'
  unfolding reject
  rejects-Kept e = (λ n. ground arith, ground arith, ground arith)

  approves-Kept : (l : List Line) → approve l d ≡ ok d' → Kept wh p d d'
  unfolding approve
  approves-Kept l e = (
    λ n. ground (arith, approve_lines-NotReceived d.row.items l d.row.items),
    ground arith,
    ground arith,
  )

  assigns-Kept : (v k : Option ℕ) (b : Bool) → assign_logistics v k b d ≡ ok d' → Kept wh p d d'
  unfolding assign_logistics
  assigns-Kept v k b e = (λ n. ground arith, ground arith, ground arith)

  allocates-Kept : (l : List Line) (v k : Option ℕ) → allocate wh l v k d ≡ ok d' → Kept wh p d d'
  allocates-Kept l v k e =
      let (w, done, before, after) = allocate-eq_ok wh d d' l v k e in
      let here = allocate_lines-units wh p wh d.row.items l (writes_of d) w done in
      let there = allocate_lines-units wh p d.row.hub d.row.items l (writes_of d) w done in
      let fresh = allocate_lines-NotReceived wh d.row.items l (writes_of d) w done (sound before) in
      rw after (λ n. fresh, refl, ground (arith, here, there, before))

  dispatches-Kept :
      (v k : Option ℕ) → (d.row.hub == wh) ≡ false → dispatch wh v k d ≡ ok d' → Kept wh p d d'
  dispatches-Kept v k far e =
      let (w, done, before, after) = dispatch-eq_ok wh d d' v k e in
      let (here, there, same) =
        ship_items-units wh d.row.hub p d.row.items (writes_of d) w far done in
      let all = transit-outgoing p d.row.items (sound before) in
      rw after (λ n. absurd (ground arith), refl, ground (arith, here, there, same, all, before))

  final_status-has_left : (items : List Item) → has_left (final_status items) ≡ true
  final_status-has_left items = ground arith

  receives-Kept :
      (hub : ℕ) (r : List Receipt)
      → (wh == d.row.hub) ≡ false
      → AreDistinct r
      → receive hub r d ≡ ok d'
      → Kept wh p d d'
  receives-Kept hub r far once e =
      let (fine, moving, here, after) = receive-eq_ok wh d d' hub r e in
      let w = receive_lines hub d.row.items r (writes_of d) in
      let conserved =
        lines-conserve hub p d.row.items r (writes_of d) once (AsRead-self d.row.items r) fine in
      let apart = lines-elsewhere hub wh p d.row.items r (writes_of d) (rw here at far) in
      let left = final_status-has_left w.items in
      rw after (
        λ n. absurd (ground arith),
        refl,
        rw here (rw (left, moving, apart) (omega (arith, conserved))),
      )

Step-Kept :
    (wh p : ℕ) (known : ℕ → Bool) {d d' : Depot}
    → Step wh known d d'
    → (wh == d.row.hub) ≡ false
    → IsSound d
    → Kept wh p d d'
Step-Kept wh p known {d} {d'} (updates i e) far s = updates-Kept wh p known d d' s i e
Step-Kept wh p known {d} {d'} (submits e) far s = submits-Kept wh p known d d' s e
Step-Kept wh p known {d} {d'} (approves l e) far s = approves-Kept wh p known d d' s l e
Step-Kept wh p known {d} {d'} (rejects e) far s = rejects-Kept wh p known d d' s e
Step-Kept wh p known {d} {d'} (allocates l v k e) far s = allocates-Kept wh p known d d' s l v k e
Step-Kept wh p known {d} {d'} (assigns v k b e) far s = assigns-Kept wh p known d d' s v k b e
Step-Kept wh p known {d} {d'} (dispatches v k e) far s =
    dispatches-Kept wh p known d d' s v k (ground arith) e
Step-Kept wh p known {d} {d'} (receives hub r once e) far s =
    receives-Kept wh p known d d' s hub r far once e

pub History-Kept :
    (wh p : ℕ) (known : ℕ → Bool) {d d' : Depot}
    → History wh known d d'
    → (wh == d.row.hub) ≡ false
    → IsSound d
    → Kept wh p d d'
History-Kept wh p known start far s = (s, refl, refl)
History-Kept wh p known (later {d = d} {e = e} {f = f} h t) far s =
    let (sound, same, total) = History-Kept wh p known h far s in
    let (sound', same', total') = Step-Kept wh p known t (rw same far) sound in
    (sound', same' ∙ same, total' ∙ total)

pub created :
    (wh p : ℕ) (known : ℕ → Bool) (hub : ℕ) (submitting : Bool) (i : List ItemInput) (d0 d : Depot)
    → create known hub submitting i d0 ≡ ok d
    → IsSound d
      × (d.row.hub ≡ hub)
      × (d.stock ≡ d0.stock)
      × (on_the_way p d ≡ 0)
      × (has_left d.row.status ≡ false)
unfolding create
created wh p known hub submitting i d0 d e = (
  λ n. ground (arith, new_items-NotReceived (filter_if is_positive i)),
  ground arith,
  ground arith,
  ground arith,
  ground arith,
)

-- From the creation of a requisition on, whatever operations succeed on it and in whatever order: the
-- units of a product at the warehouse, on the way, and at the hub are together as many as there were
-- at the two places before. The warehouse is another hub, and no receipt names an item twice.
pub stock_conserved :
    (wh p : ℕ) (known : ℕ → Bool) (hub : ℕ) (submitting : Bool) (i : List ItemInput)
    (d0 d d' : Depot)
    → (wh == hub) ≡ false
    → create known hub submitting i d0 ≡ ok d
    → History wh known d d'
    → units (d'.stock wh p) + units (d'.stock hub p) + on_the_way p d'
      ≡ units (d0.stock wh p) + units (d0.stock hub p)
stock_conserved wh p known hub submitting i d0 d d' far c h =
    let (sound, here, same, none_away, early) = created wh p known hub submitting i d0 d c in
    let (s, here', total) = History-Kept wh p known h (rw here far) sound in
    let at : d'.row.hub ≡ hub = here' ∙ here in ground (arith, total, same, none_away, at, here)
