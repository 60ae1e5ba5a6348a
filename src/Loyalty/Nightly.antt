-- ===== src/Loyalty/Nightly.antt =====
-- The nightly expiry over all accounts (src/modules/scheduler/services/loyalty.service.ts): 500 lots at
-- most are read, then each is expired at its own account. Notifications, the cache and failures of the database are left out.
use vikram_backend.Prelude.{
  ℕ, zero, suc, ◌+◌, ◌≡◌, ◌≢◌, refl, Bool, some, List, [], ◌∷◌, arith, ◌==◌, if◌then◌else◌, find?,
  filter_if, take, All, Bool-cases, inl, inr, ◌∙◌, ap,
}
use vikram_backend.Loyalty.Ledger.{Entry, Ledger, ensure_account}
use vikram_backend.Loyalty.Lots.{total_remaining}
use vikram_backend.Loyalty.Balance.{IsBalanced}
use vikram_backend.Loyalty.Expiry.{
  is_expired_earn, expire_lot, expire_lots, Keys, Holds, has_id, expire_lots-IsBalanced,
}

-- The ledger of each account.
abbrev pub Ledgers : Type 0
Ledgers = ℕ → Ledger

-- A lot and its account.
abbrev pub Row : Type 0
Row = ℕ × Entry

abbrev pub is_due : ℕ → Row → Bool
is_due now r = is_expired_earn now r.1

-- `findMany` with `take: 500`, of the table of the entries of all accounts.
unfoldable pub expired_batch : ℕ → List Row → List Row
expired_batch now table = take 500 (filter_if (is_due now) table)

abbrev pub expire_at : Row → Ledgers → Ledgers
expire_at r t k = if r.0 == k then expire_lot r.1 (t k) else t k

-- The loop over the batch.
unfoldable pub expire_batch : List Row → Ledgers → Ledgers
unfolding expire_lot
expire_batch [] t = t
expire_batch (r ∷ rs) t = expire_batch rs (expire_at r t)

-- `expireLoyaltyPoints`; the table is read once, before the loop.
unfoldable pub expire_loyalty_points : ℕ → List Row → Ledgers → Ledgers
unfolding expired_batch expire_batch
expire_loyalty_points now table t = expire_batch (expired_batch now table) t

-- The entries of one account.
abbrev pub own : ℕ → List Row → List Entry
own k [] = []
own k (r ∷ rs) = if r.0 == k then r.1 ∷ own k rs else own k rs

-- The batch acts at each account as the account's own lots in it.
expire_batch-own :
    (k : ℕ) (rs : List Row) (t : Ledgers) → expire_batch rs t k ≡ expire_lots (own k rs) (t k)
unfolding expire_batch expire_lots
expire_batch-own k [] t = refl
expire_batch-own k (r ∷ rs) t = elim (Bool-cases (r.0 == k)) [
  | inl b ↦ expire_batch-own k rs (expire_at r t) ∙ rw b refl
  | inr b ↦ expire_batch-own k rs (expire_at r t) ∙ rw b refl
]

own-take : (k n : ℕ) (rs : List Row) → (m : ℕ) × (own k (take n rs) ≡ take m (own k rs))
own-take k zero rs = (0, refl)
own-take k (suc n) [] = (0, refl)
own-take k (suc n) (r ∷ rs) =
    let (m, e) = own-take k n rs in
    elim (Bool-cases (r.0 == k)) [
      | inl b ↦ (suc m, rw b (ap (λ (es : List Entry). r.1 ∷ es) e))
      | inr b ↦ (m, rw b e)
    ]

own-filter :
    (k : ℕ) (q : Entry → Bool) (rs : List Row)
    → own k (filter_if (λ r. q r.1) rs) ≡ filter_if q (own k rs)
own-filter k q [] = refl
own-filter k q (r ∷ rs) = ground (arith, own-filter k q rs)

All-found :
    (x : Entry) (es rest : List Entry)
    → All (λ e. x.id ≢ e.id) rest
    → All (λ e. find? (has_id e.id) es ≡ some e) rest
    → All (λ e. find? (has_id e.id) (x ∷ es) ≡ some e) rest
All-found x es [] ne a = tt
All-found x es (e ∷ rest) ne a = (ground (arith, ne.0, a.0), All-found x es rest ne.1 a.1)

Keys-found : (es : List Entry) → Keys es → All (λ e. find? (has_id e.id) es ≡ some e) es
Keys-found [] k = tt
Keys-found (e ∷ es) k = (ground arith, All-found e es es k.0 (Keys-found es k.1))

module _ {κ} (P : Entry → Type κ) where
  All-take : (n : ℕ) (es : List Entry) → All P es → All P (take n es)
  All-take zero es a = tt
  All-take (suc n) [] a = tt
  All-take (suc n) (e ∷ es) a = (a.0, All-take n es a.1)

  All-filter : (q : Entry → Bool) (es : List Entry) → All P es → All P (filter_if q es)
  All-filter q [] a = tt
  All-filter q (e ∷ es) a = ground (arith, All-filter q es a.1)

Keys-take : (n : ℕ) (es : List Entry) → Keys es → Keys (take n es)
Keys-take zero es k = tt
Keys-take (suc n) [] k = tt
Keys-take (suc n) (e ∷ es) k = (All-take (λ x. e.id ≢ x.id) n es k.0, Keys-take n es k.1)

Keys-filter : (q : Entry → Bool) (es : List Entry) → Keys es → Keys (filter_if q es)
Keys-filter q [] k = tt
Keys-filter q (e ∷ es) k =
    let kept : All (λ x. e.id ≢ x.id) (filter_if q es) = All-filter (λ x. e.id ≢ x.id) q es k.0 in
    ground (arith, kept, Keys-filter q es k.1)

Holds-filter :
    (now : ℕ) (table es : List Entry)
    → All (λ e. find? (has_id e.id) table ≡ some e) es
    → All (Holds table) (filter_if (is_expired_earn now) es)
Holds-filter now table [] a = tt
Holds-filter now table (e ∷ es) a = ground (arith, a.0, Holds-filter now table es a.1)

-- The table holds the entries of the ledgers, those of different accounts in any order.
abbrev pub IsTable : List Row → Ledgers → Type 0
IsTable table t = (k : ℕ) → own k table ≡ (t k).entries

-- The lots of an account in the batch are rows of its ledger, each once.
batch-Holds :
    (now : ℕ) (table : List Row) (t : Ledgers) (k : ℕ)
    → IsTable table t
    → Keys (t k).entries
    → let lots = own k (expired_batch now table) in Keys lots × All (Holds (t k).entries) lots
unfolding expired_batch
batch-Holds now table t k d u =
    let es = (t k).entries in
    let due = filter_if (is_expired_earn now) es in
    let (m, taken) = own-take k 500 (filter_if (is_due now) table) in
    let lots : own k (expired_batch now table) ≡ take m due =
      taken
      ∙ ap (take m)
          (own-filter k (is_expired_earn now) table ∙ ap (filter_if (is_expired_earn now)) (d k)) in
    rw lots (
      Keys-take m due (Keys-filter (is_expired_earn now) es u),
      All-take (Holds es) m due (Holds-filter now es es (Keys-found es u)),
    )

-- The job keeps every balanced ledger balanced, and takes out of the available points of each account
-- exactly what the account's own lots in the batch held. The batch is of 500 EARN lots at most, those
-- that have run out, of all accounts, whose entries stand in the table in any order between accounts
-- and in that of the ledger within one; no two entries of the account have one id.
pub expire_loyalty_points_lem :
    (now : ℕ) (table : List Row) (t : Ledgers) (k : ℕ)
    → IsTable table t
    → Keys (t k).entries
    → IsBalanced (t k)
    → let l = expire_loyalty_points now table t k in
      IsBalanced l
      × ((ensure_account l).available + total_remaining (own k (expired_batch now table))
          ≡ (ensure_account (t k)).available)
unfolding expire_loyalty_points
expire_loyalty_points_lem now table t k d u b =
    let batch = expired_batch now table in
    let (keys, held) = batch-Holds now table t k d u in
    rw (expire_batch-own k batch t) (expire_lots-IsBalanced (own k batch) (t k) keys held b)
