-- ===== src/Loyalty/Lots.antt =====
-- What consuming points does to the lots: the oldest first, and exactly as many as asked.
use vikram_backend.Prelude.{
  ℕ, zero, suc, ◌+◌, ◌-◌, ◌≤◌, ◌≡◌, min, Bool, some, none, List, [], ◌∷◌, arith, if◌then◌else◌,
  sum_of, find?, ok, take, Option,
}
use vikram_backend.Loyalty.Ledger.{
  Entry, or_zero, is_credit_lot, non_expired_balance, consume_lots, consume_points_from_lots,
  debit_lots,
}

-- All the points that the lots still hold, run out or not.
abbrev pub total_remaining : List Entry → ℕ
total_remaining = sum_of (λ e. or_zero e.remaining)

-- What is left to consume is what the live lots do not cover.
pub consume_lots-left :
    (now need : ℕ) (es : List Entry)
    → (consume_lots now need es).1 ≡ need - non_expired_balance now es
unfolding consume_lots
consume_lots-left now need [] = omega arith
consume_lots-left now need (e ∷ es) =
    let deduct = if is_credit_lot now e then min (or_zero e.remaining) need else 0 in
    ground (arith, consume_lots-left now (need - deduct) es)

pub consume_lots-total :
    (now need : ℕ) (es : List Entry)
    → total_remaining (consume_lots now need es).0 + need
      ≡ total_remaining es + (consume_lots now need es).1
unfolding consume_lots
consume_lots-total now need [] = omega arith
consume_lots-total now need (e ∷ es) =
    let deduct = if is_credit_lot now e then min (or_zero e.remaining) need else 0 in
    ground (arith, consume_lots-total now (need - deduct) es)

-- First in, first out: of the k oldest entries, the redeemable points fall by all the points asked
-- for, or to nothing, whatever k is.
consume_lots-take :
    (now need k : ℕ) (es : List Entry)
    → non_expired_balance now (take k (consume_lots now need es).0)
      ≡ non_expired_balance now (take k es) - need
unfolding consume_lots
consume_lots-take now need zero es = omega arith
consume_lots-take now need (suc k) [] = omega arith
consume_lots-take now need (suc k) (e ∷ es) =
    let deduct = if is_credit_lot now e then min (or_zero e.remaining) need else 0 in
    ground (arith, consume_lots-take now (need - deduct) k es)

-- If the live lots cover the points, consuming them takes exactly these points, and takes them
-- from the oldest entries: the k oldest lose all the points asked for, or all that they had.
pub consume_lots_fifo :
    (now points : ℕ) (es : List Entry)
    → points ≤ non_expired_balance now es
    → (es' : List Entry) × (consume_points_from_lots now points es ≡ ok es')
      × (total_remaining es' + points ≡ total_remaining es)
      × ((k : ℕ)
          → non_expired_balance now (take k es') ≡ non_expired_balance now (take k es) - points)
unfolding consume_points_from_lots
consume_lots_fifo now points es h = (
  (consume_lots now points es).0,
  ground (arith, consume_lots-left now points es),
  ground (arith, consume_lots-left now points es, consume_lots-total now points es),
  λ k. consume_lots-take now points k es,
)

-- A search that does not look at the remaining points finds nothing new in the lots.
pub consume_lots-find :
    (q : Entry → Bool) (now need : ℕ) (es : List Entry)
    → ((e : Entry) (r : Option ℕ) → q (record e { remaining = r }) ≡ q e)
    → find? q es ≡ none
    → find? q (consume_lots now need es).0 ≡ none
unfolding consume_lots
consume_lots-find q now need [] same h = h
consume_lots-find q now need (e ∷ es) same h =
    let deduct = if is_credit_lot now e then min (or_zero e.remaining) need else 0 in
    ground (
      arith,
      same e (some (or_zero e.remaining - deduct)),
      consume_lots-find q now (need - deduct) es same,
    )

-- A debit of the lots that goes through is a run of the loop.
pub debit_lots-eq_ok :
    (now points : ℕ) (es : List Entry) {es' : List Entry}
    → debit_lots now points es ≡ ok es'
    → (es' ≡ (consume_lots now points es).0) × (total_remaining es' + points ≡ total_remaining es)
unfolding debit_lots
debit_lots-eq_ok now points es h =
    ground (arith, consume_lots-left now points es, consume_lots-total now points es)
