-- ===== src/Requisitions/Stages.antt =====
-- The stages of a requisition are passed in order, and stock leaves the warehouse once
-- (src/modules/requisitions/requisitions.service.ts).
use vikram_backend.Prelude.{ℕ, ◌≤◌, ◌≡◌, Bool, Option, List, arith, inl, inr, ok, err, Result-cases}
use vikram_backend.Requisitions.Table.{Depot, status_code, bad_request}
use vikram_backend.Requisitions.Ops.{
  Line, writes_of, update_items, submit, approve, reject, allocate, assign_logistics,
  allocate_lines,
}
use vikram_backend.Requisitions.Shipping.{Receipt, dispatch, receive, ship_items}
use vikram_backend.Requisitions.Conservation.{
  Step, History, updates, submits, approves, rejects, allocates, assigns, dispatches, receives,
  start, later,
}

abbrev pub stage : Depot → ℕ
stage d = status_code d.row.status

dispatch-stage :
    (wh : ℕ) (v k : Option ℕ) (d d' : Depot)
    → dispatch wh v k d ≡ ok d'
    → (stage d ≡ 5) × (stage d' ≡ 7)
unfolding dispatch
dispatch-stage wh v k d d' e = elim (Result-cases (ship_items wh d.row.items (writes_of d))) [
  | inr (y, n) ↦ absurd (ground arith)
  | inl (w, n) ↦ (ground arith, ground arith)
]

allocate-stage :
    (wh : ℕ) (l : List Line) (v k : Option ℕ) (d d' : Depot)
    → allocate wh l v k d ≡ ok d'
    → (stage d ≡ 3) × (stage d' ≡ 5)
unfolding allocate
allocate-stage wh l v k d d' e =
    elim (Result-cases (allocate_lines wh d.row.items l (writes_of d))) [
      | inr (y, n) ↦ absurd (ground arith)
      | inl (w, n) ↦ (ground arith, ground arith)
    ]

receive-stage :
    (hub : ℕ) (r : List Receipt) (d d' : Depot)
    → receive hub r d ≡ ok d'
    → (stage d ≤ 8) × (8 ≤ stage d')
unfolding receive
receive-stage hub r d d' e = (ground arith, ground arith)

Step-stage : (wh : ℕ) (known : ℕ → Bool) {d d' : Depot} → Step wh known d d' → stage d ≤ stage d'
unfolding update_items submit approve reject assign_logistics
Step-stage wh known (updates i e) = ground arith
Step-stage wh known (submits e) = ground arith
Step-stage wh known (approves l e) = ground arith
Step-stage wh known (rejects e) = ground arith
Step-stage wh known {d} {d'} (allocates l v k e) = omega (arith, allocate-stage wh l v k d d' e)
Step-stage wh known (assigns v k b e) = ground arith
Step-stage wh known {d} {d'} (dispatches v k e) = omega (arith, dispatch-stage wh v k d d' e)
Step-stage wh known {d} {d'} (receives hub r once e) = omega (arith, receive-stage hub r d d' e)

History-stage :
    (wh : ℕ) (known : ℕ → Bool) {d d' : Depot} → History wh known d d' → stage d ≤ stage d'
History-stage wh known start = omega arith
History-stage wh known (later h s) = omega (arith, History-stage wh known h, Step-stage wh known s)

late_dispatch :
    (wh : ℕ) (v k : Option ℕ) (d : Depot) → 6 ≤ stage d → dispatch wh v k d ≡ err bad_request
unfolding dispatch
late_dispatch wh v k d h = ground arith

late_allocate :
    (wh : ℕ) (l : List Line) (v k : Option ℕ) (d : Depot)
    → 6 ≤ stage d
    → allocate wh l v k d ≡ err bad_request
unfolding allocate
late_allocate wh l v k d h = ground arith

-- Once a requisition has been dispatched, no later call of allocate, of dispatch or of reject does
-- anything, whatever happened to it in between, if each receipt in between names no item twice: the
-- stock leaves the warehouse once.
pub dispatch_once :
    (wh : ℕ) (known : ℕ → Bool) (v k : Option ℕ) (d d1 d2 : Depot)
    → dispatch wh v k d ≡ ok d1
    → History wh known d1 d2
    → ((u m : Option ℕ) → dispatch wh u m d2 ≡ err bad_request)
      × ((l : List Line) (u m : Option ℕ) → allocate wh l u m d2 ≡ err bad_request)
      × (reject d2 ≡ err bad_request)
unfolding reject
dispatch_once wh known v k d d1 d2 e h =
    let gone : 6 ≤ stage d2 =
      omega (arith, dispatch-stage wh v k d d1 e, History-stage wh known h) in
    (λ u m. late_dispatch wh u m d2 gone, λ l u m. late_allocate wh l u m d2 gone, ground arith)
