-- ===== src/Loyalty/Balance.antt =====
-- The invariant of a ledger, kept by every entry that the code records.
use vikram_backend.Prelude.{
  ℕ, ◌+◌, ◌-◌, ◌≤◌, ◌≡◌, ◌≢◌, refl, inl, inr, true, false, some, List, [], ◌∷◌, ◌++◌, arith, leb,
  min, if◌then◌else◌, sum_of-append, ◌⊎◌, ap, Result-cases, ok, Option-cases, Bool-cases,
}
use vikram_backend.Prelude.Int.{abs}
use vikram_backend.Loyalty.Ledger.{
  expire, Entry, Account, Ledger, Input, or_zero, is_credit_lot, consume_lots, debit_lots,
  debited_lots, is_credit, ensure_account, credit_account, debit_account, find_existing, new_entry,
  post, record_new, record_entry,
}
use vikram_backend.Loyalty.Lots.{total_remaining, debit_lots-eq_ok}

-- Each entry opens where the one before it closed.
abbrev pub Chained : ℕ → List Entry → ℕ → Type 0
Chained from [] to = from ≡ to
Chained from (e ∷ es) to = (e.opening ≡ from) × Chained e.closing es to

-- The lifetime points are those available and those redeemed; the lots hold no more than is
-- available; and the entries lead from nothing to the available points.
pub record IsBalancedAt (a : Account) (es : List Entry) : Type 0 where
  pub split : a.current ≡ a.available + a.redeemed_points
  pub covered : total_remaining es ≤ a.available
  pub chained : Chained 0 es a.available

abbrev pub IsBalanced : Ledger → Type 0
IsBalanced l = IsBalancedAt (ensure_account l) l.entries

pub Chained-append :
    (from mid : ℕ) (es : List Entry) (e : Entry)
    → Chained from es mid
    → e.opening ≡ mid
    → Chained from (es ++ (e ∷ [])) e.closing
Chained-append from mid [] e c o = ground arith
Chained-append from mid (x ∷ es) e c o = (c.0, Chained-append x.closing mid es e c.1 o)

pub Chained-consume :
    (now need from to : ℕ) (es : List Entry)
    → Chained from es to
    → Chained from (consume_lots now need es).0 to
unfolding consume_lots
Chained-consume now need from to [] c = c
Chained-consume now need from to (e ∷ es) c =
    let deduct = if is_credit_lot now e then min (or_zero e.remaining) need else 0 in
    ground (arith, Chained-consume now (need - deduct) e.closing to es c.1)

-- A new entry on lots that lost `taken` points.
post-IsBalanced :
    (l : Ledger) (i : Input) (p : ℕ) (after : Account) (lots : List Entry)
    → after.current ≡ after.available + after.redeemed_points
    → total_remaining lots + or_zero (new_entry l i p 0 0).remaining ≤ after.available
    → Chained 0 lots (ensure_account l).available
    → IsBalanced (post l i p (ensure_account l) after lots).0
post-IsBalanced l i p after lots s t c =
    let e = new_entry l i p (ensure_account l).available after.available in
    record {
      split = s;
      covered = ground (arith, sum_of-append (λ (x : Entry). or_zero x.remaining) lots (e ∷ []));
      chained = Chained-append 0 (ensure_account l).available lots e c refl;
    }

-- What a new entry does, when it goes through.
pub record_new-eq_ok :
    (now p : ℕ) (i : Input) (l l' : Ledger) (e : Entry)
    → record_new now i p l ≡ ok (l', e)
    → let a = ensure_account l in
      ((is_credit i.type i.direction ≡ true)
        × ((l', e) ≡ post l i p a (credit_account p a) l.entries))
      ⊎ ((lots : List Entry) × (is_credit i.type i.direction ≡ false)
          × (p ≤ a.available)
          × (debited_lots now i p l.entries ≡ ok lots)
          × ((l', e) ≡ post l i p a (debit_account i.type p a) lots))
unfolding record_new
record_new-eq_ok now p i l l' e h = elim (Bool-cases (is_credit i.type i.direction)) [
  | inl c ↦ inl (c, ground arith)
  | inr d ↦ elim (Result-cases (debited_lots now i p l.entries)) [
    | inl (lots, took) ↦ inr (lots, d, ground arith, took, ground arith)
    | inr (x, failed) ↦ absurd (ground arith)
  ]
]

-- The lots that a debit leaves, other than an expiry's: chained as before, and less by the points.
debited_lots-eq_ok :
    (now p to : ℕ) (i : Input) (es lots : List Entry)
    → i.type ≢ expire
    → is_credit i.type i.direction ≡ false
    → debited_lots now i p es ≡ ok lots
    → Chained 0 es to
    → (total_remaining lots + p ≡ total_remaining es) × Chained 0 lots to
unfolding debited_lots
debited_lots-eq_ok now p to i es lots ne d h c =
    let took : debit_lots now p es ≡ ok lots = ground arith in
    let (run, total) = debit_lots-eq_ok now p es took in
    (total, rw run (Chained-consume now p 0 to es c))

-- What every caller of `recordEntry` keeps: expiry goes another way, and a debit opens no lot.
pub record IsRegular (i : Input) : Type 0 where
  pub no_expiry : i.type ≢ expire
  pub no_lot : is_credit i.type i.direction ≡ false → i.track_lot ≡ false

record_new-IsBalanced :
    (now p : ℕ) (i : Input) (l l' : Ledger) (e : Entry)
    → IsRegular i
    → IsBalanced l
    → record_new now i p l ≡ ok (l', e)
    → IsBalanced l'
record_new-IsBalanced now p i l l' e u b h =
    let a = ensure_account l in
    elim (record_new-eq_ok now p i l l' e h) [
      | inl (c, done) ↦ rw (ap (λ (r : Ledger × Entry). r.0) done) (
          post-IsBalanced l i p (credit_account p a) l.entries (ground (arith, b.split))
            (ground (arith, b.covered)) b.chained)
      | inr (lots, d, enough, took, done) ↦
          let (total, chained) =
            debited_lots-eq_ok now p a.available i l.entries lots u.no_expiry d took b.chained in
          rw (ap (λ (r : Ledger × Entry). r.0) done) (
            post-IsBalanced l i p (debit_account i.type p a) lots
              (ground (arith, b.split, b.covered)) (ground (arith, b.covered, total, u.no_lot d))
              chained)
    ]

-- Every entry that `recordEntryInTx` records, or finds recorded, leaves a balanced ledger balanced:
-- for any input but an expiry and a debit that asks for a lot, which no caller sends.
pub record_entry-IsBalanced :
    (now : ℕ) (i : Input) (l l' : Ledger) (e : Entry)
    → IsRegular i
    → IsBalanced l
    → record_entry now i l ≡ ok (l', e)
    → IsBalanced l'
unfolding record_entry
record_entry-IsBalanced now i l l' e u b h = elim (Bool-cases (leb (abs i.points) 0)) [
  | inl z ↦ absurd (ground arith)
  | inr pos ↦ elim (Option-cases (find_existing i.reference l.entries)) [
    | inl new ↦ record_new-IsBalanced now (abs i.points) i l l' e u b (ground arith)
    | inr (x, old) ↦
        let same : record l { account = some (ensure_account l) } ≡ l' = ground arith in
        rw (← same) b
  ]
]
