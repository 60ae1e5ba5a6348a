-- ===== src/Payments/Reads.antt =====
-- Rows that have distinct ids, and handlers that read a row, an order or a condition first
-- (src/modules/payments/payments.service.ts).
use vikram_backend.Prelude.{
  ℕ, ◌≡◌, refl, sym, subst, Bool, true, false, Option, some, none, List, [], ◌∷◌, arith, find?,
  Option-cases, inl, inr,
}
use vikram_backend.Prelude.Handlers.{continue, ◌>>=◌, ◌>>◌, require}
use vikram_backend.Orders.World.{Order}
use vikram_backend.Payments.Rows.{Payment, Cashier, PaymentError, Till, has_id, found_payment}
use vikram_backend.Payments.Statuses.{AllFollow, row_follows, none_left}
use vikram_backend.Payments.Sync.{find_order}
use vikram_backend.Payments.Timely.{Rows, Rows-refl}

-- The primary key: no two rows have one id.
abbrev pub Distinct : List Payment → Type 0
Distinct [] = Unit
Distinct (p ∷ ps) = (find? (has_id p.id) ps ≡ none) × Distinct ps

-- Whatever a row is found by, its own id finds it.
pub find?-Distinct :
    (q : Payment → Bool) (ps : List Payment) (p : Payment)
    → Distinct ps
    → find? q ps ≡ some p
    → find? (has_id p.id) ps ≡ some p
find?-Distinct q [] p h e = cc
find?-Distinct q (x ∷ ps) p h e = ground (arith, find?-Distinct q ps p h.1)

find?-AllFollow :
    (i : ℕ) {ps qs : List Payment}
    → AllFollow ps qs
    → find? (has_id i) ps ≡ none
    → find? (has_id i) qs ≡ none
find?-AllFollow i none_left e = refl
find?-AllFollow i (row_follows h k) e = ground (arith, find?-AllFollow i k, h.same_id)

pub AllFollow-Distinct : {ps qs : List Payment} → AllFollow ps qs → Distinct ps → Distinct qs
AllFollow-Distinct none_left d = d
AllFollow-Distinct (row_follows {p} {q} {ps} {qs} h k) d = (
  subst (λ (i : ℕ). find? (has_id i) qs ≡ none) (sym h.same_id) (find?-AllFollow p.id k d.0),
  AllFollow-Distinct k d.1,
)

-- A row that is read by any search.
pub read-Rows {ℓ} :
    {B : Type ℓ} (o : Option Payment) (f : Payment → Till B) (c : Cashier)
    → ((p : Payment) → o ≡ some p → Rows c (f p c).0)
    → Rows c (continue (found_payment c o) f).0
read-Rows none f c h = Rows-refl c
read-Rows (some p) f c h = h p refl

pub order-Rows {ℓ} :
    {B : Type ℓ} (i : ℕ) (f : Order → Till B) (c : Cashier)
    → ((o : Order) → Rows c (f o c).0)
    → Rows c ((find_order i >>= f) c).0
order-Rows i f c h = elim (Option-cases (c.world.order i)) [
  | inl n ↦ rw n (Rows-refl c)
  | inr (o, n) ↦ rw n (h o)
]

pub require-Rows {ℓ} :
    {B : Type ℓ} (b : Bool) (e : PaymentError) (k : Till B) (c : Cashier)
    → Rows c (k c).0
    → Rows c ((require b e >> k) c).0
require-Rows true e k c h = h
require-Rows false e k c h = Rows-refl c

pub passed-Rows : (b : Bool) (e : PaymentError) (c : Cashier) → Rows c (require b e c).0
passed-Rows true e c = Rows-refl c
passed-Rows false e c = Rows-refl c
