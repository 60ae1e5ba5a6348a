-- ===== src/Loyalty/Expiry.antt =====
-- The transactions of the nightly expiry (src/modules/scheduler/services/loyalty.service.ts) at one
-- account: lots that were read, each expired in a transaction of its own.
use vikram_backend.Prelude.{
  ℕ, suc, ◌+◌, ◌-◌, ◌<◌, ◌≡◌, ◌≢◌, refl, Bool, true, false, ◌&&◌, Option, some, none, List, [], ◌∷◌,
  ◌++◌, arith, ltb, leb, ◌==◌, if◌then◌else◌, find?, update_first, sum_of-append, All, Option-cases,
  inl, inr,
}
use vikram_backend.Loyalty.Ledger.{
  EntryType, earn, expire, expired_lot, Entry, Account, Ledger, or_zero, ensure_account,
}
use vikram_backend.Loyalty.Lots.{total_remaining}
use vikram_backend.Loyalty.Balance.{Chained, Chained-append, IsBalanced}

abbrev is_earn : EntryType → Bool
is_earn earn = true
is_earn _ = false

abbrev past : ℕ → Option ℕ → Bool
past now none = false
past now (some t) = leb t now

-- The `where` of the job: EARN lots alone.
abbrev pub is_expired_earn : ℕ → Entry → Bool
is_expired_earn now e = is_earn e.type && past now e.expires_at && ltb 0 (or_zero e.remaining)

-- `lot.remainingPoints ?? lot.points`.
abbrev pub points_to_expire : Entry → ℕ
points_to_expire e = elim e.remaining [ none ↦ e.points | some n ↦ n ]

abbrev pub has_id : ℕ → Entry → Bool
has_id i e = e.id == i

abbrev pub emptied : Entry → Entry
emptied e = record e { remaining = some 0 }

abbrev pub expire_entry : ℕ → Entry → Account → ℕ → Entry
expire_entry id lot a p = record {
  id = id;
  type = expire;
  points = p;
  reference = some (expired_lot lot.id);
  order = none;
  opening = a.available;
  closing = a.available - p;
  expires_at = none;
  remaining = none;
}

abbrev expired_from : Entry → Ledger → Account → List Entry → Ledger
expired_from lot l a lots =
    let p = points_to_expire lot in
    record {
      account = some (record a { current = a.current - p; available = a.available - p });
      entries = lots ++ (expire_entry l.next_id lot a p ∷ []);
      next_id = suc l.next_id;
    }

-- The transaction of one lot; `Math.max(0, …)` is subtraction on ℕ.
unfoldable pub expire_lot : Entry → Ledger → Ledger
expire_lot lot l =
    let p = points_to_expire lot in
    let lots = update_first (has_id lot.id) emptied l.entries in
    if leb p 0
    then l
    else elim l.account [ none ↦ record l { entries = lots } | some a ↦ expired_from lot l a lots ]

unfoldable pub expire_lots : List Entry → Ledger → Ledger
unfolding expire_lot
expire_lots [] l = l
expire_lots (lot ∷ lots) l = expire_lots lots (expire_lot lot l)

total-emptied :
    (i : ℕ) (es : List Entry) (x : Entry)
    → find? (has_id i) es ≡ some x
    → total_remaining (update_first (has_id i) emptied es) + or_zero x.remaining
      ≡ total_remaining es
total-emptied i [] x h = cc
total-emptied i (e ∷ es) x h = ground (arith, total-emptied i es x)

Chained-emptied :
    (i from to : ℕ) (es : List Entry)
    → Chained from es to
    → Chained from (update_first (has_id i) emptied es) to
Chained-emptied i from to [] c = c
Chained-emptied i from to (e ∷ es) c = ground (arith, Chained-emptied i e.closing to es c.1)

-- The lot as it was read is still in the table.
abbrev pub Holds : List Entry → Entry → Type 0
Holds es lot = (find? (has_id lot.id) es ≡ some lot) × (0 < or_zero lot.remaining)

-- On a balanced ledger the account is there, and the lot is expired from it.
expire_lot-eq :
    (lot : Entry) (l : Ledger)
    → Holds l.entries lot
    → IsBalanced l
    → (a : Account) × (l.account ≡ some a)
      × (expire_lot lot l ≡ expired_from lot l a (update_first (has_id lot.id) emptied l.entries))
unfolding expire_lot
expire_lot-eq lot l (h, pos) b = elim (Option-cases l.account) [
  | inl e ↦ absurd (ground (arith, b.covered, total-emptied lot.id l.entries lot h))
  | inr (a, e) ↦ (a, e, ground arith)
]

-- It takes the lot's points out of the lots and out of the account, and keeps the balance.
expire_lot-IsBalanced :
    (lot : Entry) (l : Ledger)
    → Holds l.entries lot
    → IsBalanced l
    → IsBalanced (expire_lot lot l)
      × ((ensure_account (expire_lot lot l)).available + or_zero lot.remaining
          ≡ (ensure_account l).available)
expire_lot-IsBalanced lot l (h, pos) b =
    let (a, e, done) = expire_lot-eq lot l (h, pos) b in
    let lots = update_first (has_id lot.id) emptied l.entries in
    let total = total-emptied lot.id l.entries lot h in
    let p = points_to_expire lot in
    let same : ensure_account l ≡ a = ground arith in
    let chained : Chained 0 lots a.available =
      Chained-emptied lot.id 0 a.available l.entries (rw same at b.chained) in
    rw done (
      record {
        split = ground (arith, b.split, b.covered, total);
        covered = ground (
          arith,
          b.covered,
          total,
          sum_of-append (λ (x : Entry). or_zero x.remaining) lots
              (expire_entry l.next_id lot a p ∷ []),
        );
        chained = Chained-append 0 a.available lots (expire_entry l.next_id lot a p) chained refl;
      },
      ground (arith, b.covered, total),
    )

find-update_first :
    (i j : ℕ) (es : List Entry) (x : Entry)
    → i ≢ j
    → find? (has_id j) es ≡ some x
    → find? (has_id j) (update_first (has_id i) emptied es) ≡ some x
find-update_first i j [] x ne h = cc
find-update_first i j (e ∷ es) x ne h = ground (arith, find-update_first i j es x ne)

find-append :
    (j : ℕ) (es tail : List Entry) (x : Entry)
    → find? (has_id j) es ≡ some x
    → find? (has_id j) (es ++ tail) ≡ some x
find-append j [] tail x h = cc
find-append j (e ∷ es) tail x h = ground (arith, find-append j es tail x)

expire_lot-Holds :
    (lot other : Entry) (l : Ledger)
    → Holds l.entries lot
    → IsBalanced l
    → lot.id ≢ other.id
    → Holds l.entries other
    → Holds (expire_lot lot l).entries other
expire_lot-Holds lot other l h b ne (found, pos) =
    let (a, e, done) = expire_lot-eq lot l h b in
    let lots = update_first (has_id lot.id) emptied l.entries in
    rw done (
      find-append other.id lots (expire_entry l.next_id lot a (points_to_expire lot) ∷ []) other
          (find-update_first lot.id other.id l.entries other ne found),
      pos,
    )

-- Primary keys: no two rows have one id.
abbrev pub Keys : List Entry → Type 0
Keys [] = Unit {0}
Keys (e ∷ es) = All (λ x. e.id ≢ x.id) es × Keys es

All-Holds :
    (lot : Entry) (rest : List Entry) (l : Ledger)
    → Holds l.entries lot
    → IsBalanced l
    → All (λ x. lot.id ≢ x.id) rest
    → All (Holds l.entries) rest
    → All (Holds (expire_lot lot l).entries) rest
All-Holds lot [] l h b ne a = tt
All-Holds lot (x ∷ rest) l h b ne a =
    (expire_lot-Holds lot x l h b ne.0 a.0, All-Holds lot rest l h b ne.1 a.1)

pub expire_lots-IsBalanced :
    (lots : List Entry) (l : Ledger)
    → Keys lots
    → All (Holds l.entries) lots
    → IsBalanced l
    → IsBalanced (expire_lots lots l)
      × ((ensure_account (expire_lots lots l)).available + total_remaining lots
          ≡ (ensure_account l).available)
unfolding expire_lots
expire_lots-IsBalanced [] l k a b = (b, omega arith)
expire_lots-IsBalanced (lot ∷ lots) l k a b =
    let (b', fell) = expire_lot-IsBalanced lot l a.0 b in
    let (b'', rest) =
      expire_lots-IsBalanced lots (expire_lot lot l) k.1 (All-Holds lot lots l a.0 b k.0 a.1) b' in
    (b'', omega (arith, fell, rest))
