-- ===== src/Loyalty/Once.antt =====
-- Entries with a reference are recorded once (`recordEntryInTx` of
-- src/modules/loyalty/loyalty-transaction.service.ts).
use vikram_backend.Prelude.{
  ℕ, ◌<◌, ◌≡◌, refl, inl, inr, Bool, true, Option, some, none, List, [], ◌∷◌, ◌++◌, arith, leb,
  find?, update_first, ap, ok, Option-cases, Bool-cases,
}
use vikram_backend.Prelude.Int.{abs}
use vikram_backend.Loyalty.Ledger.{
  Reference, Entry, Ledger, Input, same_reference, has_reference, debit_lots, takes_lots,
  debited_lots, ensure_account, find_existing, record_new, record_entry,
}
use vikram_backend.Loyalty.Lots.{consume_lots-find, debit_lots-eq_ok}
use vikram_backend.Loyalty.Balance.{record_new-eq_ok}
use vikram_backend.Loyalty.Expiry.{expire_lot, points_to_expire, expire_entry, has_id, emptied}
use vikram_backend.Loyalty.Kept.{Finds, consume_lots-Finds, emptied-Finds, append-Finds}

find_existing-append :
    (r : Option Reference) (es : List Entry) (e : Entry)
    → find_existing r es ≡ none
    → has_reference r e ≡ true
    → find_existing r (es ++ (e ∷ [])) ≡ some e
find_existing-append r [] e n h = ground arith
find_existing-append r (x ∷ es) e n h = ground (arith, find_existing-append r es e)

same_reference_self : (r : Reference) → same_reference r r ≡ true
same_reference_self r = ground arith

-- A search that does not look at the remaining points finds nothing new in the lots of a debit.
pub debited_lots-find :
    (q : Entry → Bool) (now p : ℕ) (i : Input) (es lots : List Entry)
    → ((e : Entry) (r : Option ℕ) → q (record e { remaining = r }) ≡ q e)
    → debited_lots now i p es ≡ ok lots
    → find? q es ≡ none
    → find? q lots ≡ none
unfolding debited_lots
debited_lots-find q now p i es lots same h n = elim (Bool-cases (takes_lots i.type i.direction)) [
  | inl t ↦
      let took : debit_lots now p es ≡ ok lots = ground arith in
      rw (debit_lots-eq_ok now p es took).0 (consume_lots-find q now p es same n)
  | inr f ↦ let eq : es ≡ lots = ground arith in rw (← eq) n
]

-- A new entry is found under its reference, and it is the first.
record_new-find :
    (now p : ℕ) (i : Input) (r : Reference) (l l' : Ledger) (e : Entry)
    → i.reference ≡ some r
    → find_existing (some r) l.entries ≡ none
    → record_new now i p l ≡ ok (l', e)
    → (find_existing (some r) l'.entries ≡ some e) × (some (ensure_account l') ≡ l'.account)
record_new-find now p i r l l' e hi n h = elim (record_new-eq_ok now p i l l' e h) [
  | inl (c, done) ↦
      ground (arith, same_reference_self r, find_existing-append (some r) l.entries e n)
  | inr (lots, d, enough, took, done) ↦ ground (
    arith,
    same_reference_self r,
    find_existing-append (some r) lots e
        (debited_lots-find (has_reference (some r)) now p i l.entries lots (λ x k. refl) took n),
  )
]

-- The next input with the reference finds the entry.
pub record_entry_again :
    (now later : ℕ) (i j : Input) (r : Reference) (l l' : Ledger) (e : Entry)
    → i.reference ≡ some r
    → j.reference ≡ some r
    → 0 < abs j.points
    → record_entry now i l ≡ ok (l', e)
    → record_entry later j l' ≡ ok (l', e)
unfolding record_entry
record_entry_again now later i j r l l' e hi hj pos h = elim (Bool-cases (leb (abs i.points) 0)) [
  | inl z ↦ absurd (ground arith)
  | inr p ↦ elim (Option-cases (find_existing (some r) l.entries)) [
    | inl new ↦
        let made : record_new now i (abs i.points) l ≡ ok (l', e) = ground arith in
        let (found, account) = record_new-find now (abs i.points) i r l l' e hi new made in
        ground (arith, found, account)
    | inr (x, old) ↦ ground arith
  ]
]

-- What may be done to a ledger: entries of any kind are recorded, and lots are expired.
pub data Later (l : Ledger) : Ledger → Type 0 where
  unchanged : Later l l
  has_recorded :
      {m n : Ledger} (now : ℕ) (i : Input) (e : Entry)
      → Later l m
      → record_entry now i m ≡ ok (n, e)
      → Later l n
  has_expired : {m : Ledger} (lot : Entry) → Later l m → Later l (expire_lot lot m)

-- The entry but for the points that are left of it.
abbrev pub IsSameEntry : Entry → Entry → Type 0
IsSameEntry e x = x ≡ record e { remaining = x.remaining }

-- The ledger has its account and the entry under the reference.
abbrev IsKept : Reference → Entry → Ledger → Type 0
IsKept r e l = Finds (has_reference (some r)) e l.entries × (some (ensure_account l) ≡ l.account)

debited_lots-Finds :
    (now p : ℕ) (i : Input) (r : Reference) (e : Entry) (es lots : List Entry)
    → debited_lots now i p es ≡ ok lots
    → Finds (has_reference (some r)) e es
    → Finds (has_reference (some r)) e lots
unfolding debited_lots
debited_lots-Finds now p i r e es lots h f = elim (Bool-cases (takes_lots i.type i.direction)) [
  | inl t ↦
      let took : debit_lots now p es ≡ ok lots = ground arith in
      rw (debit_lots-eq_ok now p es took).0
        (consume_lots-Finds (has_reference (some r)) e now p es (λ x k. refl) f)
  | inr n ↦ let eq : es ≡ lots = ground arith in rw (← eq) f
]

record_new-IsKept :
    (now p : ℕ) (i : Input) (r : Reference) (e x : Entry) (l l' : Ledger)
    → record_new now i p l ≡ ok (l', x)
    → IsKept r e l
    → IsKept r e l'
record_new-IsKept now p i r e x l l' h k =
    let q = has_reference (some r) in
    elim (record_new-eq_ok now p i l l' x h) [
      | inl (c, done) ↦
          rw (ap (λ (y : Ledger × Entry). y.0) done) (append-Finds q e l.entries _ k.0, refl)
      | inr (lots, d, enough, took, done) ↦
          rw (ap (λ (y : Ledger × Entry). y.0) done)
            (append-Finds q e lots _ (debited_lots-Finds now p i r e l.entries lots took k.0), refl)
    ]

record_entry-IsKept :
    (now : ℕ) (i : Input) (r : Reference) (e x : Entry) (l l' : Ledger)
    → record_entry now i l ≡ ok (l', x)
    → IsKept r e l
    → IsKept r e l'
unfolding record_entry
record_entry-IsKept now i r e x l l' h k = elim (Bool-cases (leb (abs i.points) 0)) [
  | inl z ↦ absurd (ground arith)
  | inr p ↦ elim (Option-cases (find_existing i.reference l.entries)) [
    | inl new ↦ record_new-IsKept now (abs i.points) i r e x l l' (ground arith) k
    | inr (y, old) ↦
        let same : record l { account = some (ensure_account l) } ≡ l' = ground arith in
        rw (← same) (k.0, refl)
  ]
]

expire_lot-IsKept :
    (r : Reference) (e lot : Entry) (l : Ledger) → IsKept r e l → IsKept r e (expire_lot lot l)
unfolding expire_lot
expire_lot-IsKept r e lot l k =
    let q = has_reference (some r) in
    let found = emptied-Finds q e lot.id l.entries (λ x s. refl) k.0 in
    elim (Bool-cases (leb (points_to_expire lot) 0)) [
      | inl z ↦ rw z k
      | inr p ↦ elim (Option-cases l.account) [
        | inl n ↦ absurd (cc (k.1, n))
        | inr (a, n) ↦
            let lots = update_first (has_id lot.id) emptied l.entries in
            let tail = expire_entry l.next_id lot a (points_to_expire lot) ∷ [] in
            rw (p, n) (append-Finds q e lots tail found, refl)
      ]
    ]

IsKept-Later : (r : Reference) (e : Entry) {l m : Ledger} → Later l m → IsKept r e l → IsKept r e m
IsKept-Later r e unchanged k = k
IsKept-Later r e (has_recorded now i x t h) k =
    record_entry-IsKept now i r e x _ _ h (IsKept-Later r e t k)
IsKept-Later r e (has_expired lot t) k = expire_lot-IsKept r e lot _ (IsKept-Later r e t k)

-- Whatever is recorded under a reference, and whatever entries are recorded and lots are expired after
-- that, an input with that reference, of whatever points but none, finds the entry, in which only the
-- remaining points may have changed, and changes nothing.
pub record_entry_once :
    (now later : ℕ) (i j : Input) (r : Reference) (l l' m : Ledger) (e : Entry)
    → i.reference ≡ some r
    → j.reference ≡ some r
    → 0 < abs j.points
    → record_entry now i l ≡ ok (l', e)
    → Later l' m
    → (x : Entry) × (record_entry later j m ≡ ok (m, x)) × IsSameEntry e x
unfolding record_entry
record_entry_once now later i j r l l' m e hi hj pos h t =
    let recorded : (find_existing (some r) l'.entries ≡ some e)
        × (some (ensure_account l') ≡ l'.account) =
      elim (Bool-cases (leb (abs i.points) 0)) [
        | inl z ↦ absurd (ground arith)
        | inr p ↦ elim (Option-cases (find_existing (some r) l.entries)) [
          | inl new ↦
              let made : record_new now i (abs i.points) l ≡ ok (l', e) = ground arith in
              record_new-find now (abs i.points) i r l l' e hi new made
          | inr (x, old) ↦ ground arith
        ]
      ] in
    let ((s, found), account) = IsKept-Later r e t ((e.remaining, recorded.0), recorded.1) in
    (record e { remaining = s }, ground (arith, found, account), refl)
