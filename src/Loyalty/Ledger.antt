-- ===== src/Loyalty/Ledger.antt =====
-- The points ledger (src/modules/loyalty/loyalty-transaction.service.ts): the account, its entries
-- with their remaining points as lots, and `recordEntryInTx`. The free text of an entry is left out.
use vikram_backend.Prelude.{
  ℕ, suc, ◌+◌, ◌-◌, min, Bool, true, false, ◌&&◌, Option, none, some, List, [], ◌∷◌, ◌++◌, ltb, leb,
  ◌==◌, if◌then◌else◌, find?, sum_of, Result, ok, err, ◌>>=◌, ◌>>◌, guard,
}
use vikram_backend.Prelude.Int.{ℤ, abs}

-- LoyaltyTransactionType (prisma/schema.prisma).
pub data EntryType : Type 0 where
  earn redeem expire admin adjustment : EntryType

pub data Direction : Type 0 where
  credit debit : Direction

-- The values of `referenceId`: LOYALTY_REF, the id of an expired lot, and any other text.
pub data Reference : Type 0 where
  welcome_bonus first_order_bonus : Reference
  order_earned redeemed refund_restore earn_reversal first_order_reversal : ℕ → Reference
  expired_lot : ℕ → Reference
  other : ℕ → Reference

abbrev pub tag : Reference → ℕ × ℕ
tag welcome_bonus = (0, 0)
tag first_order_bonus = (1, 0)
tag (order_earned o) = (2, o)
tag (redeemed o) = (3, o)
tag (refund_restore o) = (4, o)
tag (earn_reversal o) = (5, o)
tag (first_order_reversal o) = (6, o)
tag (expired_lot i) = (7, i)
tag (other i) = (8, i)

abbrev pub same_reference : Reference → Reference → Bool
same_reference a b = (tag a).0 == (tag b).0 && (tag a).1 == (tag b).1

pub record Entry : Type 0 where
  pub id : ℕ
  pub type : EntryType
  pub points : ℕ
  pub reference : Option Reference
  pub order : Option ℕ
  pub opening : ℕ
  pub closing : ℕ
  pub expires_at : Option ℕ
  pub remaining : Option ℕ

pub record Account : Type 0 where
  pub current : ℕ
  pub redeemed_points : ℕ
  pub available : ℕ

-- The account row, which `ensureAccount` creates, and the entries, oldest first.
pub record Ledger : Type 0 where
  pub account : Option Account
  pub entries : List Entry
  pub next_id : ℕ

abbrev pub empty_ledger : Ledger
empty_ledger = record { account = none; entries = []; next_id = 0 }

pub record Input : Type 0 where
  pub type : EntryType
  pub points : ℤ
  pub reference : Option Reference
  pub order : Option ℕ
  pub expires_at : Option ℕ
  pub track_lot : Bool
  pub direction : Direction

pub data LoyaltyError : Type 0 where
  -- 'Points must be greater than zero'
  no_points : LoyaltyError
  -- 'Insufficient loyalty points'
  insufficient : LoyaltyError
  -- 'Insufficient non-expired loyalty points to redeem', '... for debit'
  insufficient_lots : LoyaltyError

-- `upsert` of `ensureAccount`.
abbrev pub ensure_account : Ledger → Account
ensure_account l = elim l.account [
  | none ↦ record { current = 0; redeemed_points = 0; available = 0 }
  | some a ↦ a
]

-- EARN, ADJUSTMENT or ADMIN.
abbrev pub holds_lots : EntryType → Bool
holds_lots earn = true
holds_lots adjustment = true
holds_lots admin = true
holds_lots _ = false

abbrev pub or_zero : Option ℕ → ℕ
or_zero none = 0
or_zero (some n) = n

abbrev pub not_expired : ℕ → Option ℕ → Bool
not_expired now none = true
not_expired now (some t) = ltb now t

-- `creditLotWhere`.
abbrev pub is_credit_lot : ℕ → Entry → Bool
is_credit_lot now e =
    ltb 0 (or_zero e.remaining) && holds_lots e.type && not_expired now e.expires_at

-- What an entry adds to the redeemable balance.
abbrev pub lot_points : ℕ → Entry → ℕ
lot_points now e = if is_credit_lot now e then or_zero e.remaining else 0

-- `getNonExpiredBalance`, `getNonExpiredBalanceInTx`.
abbrev pub non_expired_balance : ℕ → List Entry → ℕ
non_expired_balance now = sum_of (lot_points now)

-- The loop of `consumePointsFromLots`, and what is left to consume at its end.
unfoldable pub consume_lots : ℕ → ℕ → List Entry → List Entry × ℕ
consume_lots now need [] = ([], need)
consume_lots now need (e ∷ es) =
    let deduct = if is_credit_lot now e then min (or_zero e.remaining) need else 0 in
    let (rest, left) = consume_lots now (need - deduct) es in
    (
      (if is_credit_lot now e && ltb 0 need
            then record e { remaining = some (or_zero e.remaining - deduct) }
            else e)
          ∷ rest,
      left,
    )

unfoldable pub consume_points_from_lots : ℕ → ℕ → List Entry → Result LoyaltyError (List Entry)
unfolding consume_lots
consume_points_from_lots now points es =
    let (es', left) = consume_lots now points es in
    if ltb 0 left then err insufficient_lots else ok es'

abbrev pub has_reference : Option Reference → Entry → Bool
has_reference none e = false
has_reference (some r) e = elim e.reference [ none ↦ false | some q ↦ same_reference q r ]

-- The entry with the input's reference, if it has one.
abbrev pub find_existing : Option Reference → List Entry → Option Entry
find_existing r = find? (has_reference r)

abbrev pub is_credit : EntryType → Direction → Bool
is_credit earn d = true
is_credit admin d = true
is_credit adjustment credit = true
is_credit _ _ = false

-- REDEEM, and ADJUSTMENT with direction DEBIT, take points out of the lots.
abbrev pub takes_lots : EntryType → Direction → Bool
takes_lots redeem d = true
takes_lots adjustment debit = true
takes_lots _ _ = false

-- The lots before the new entry.
unfoldable pub debit_lots : ℕ → ℕ → List Entry → Result LoyaltyError (List Entry)
unfolding consume_points_from_lots
debit_lots now points es = do
  guard (leb points (non_expired_balance now es)) insufficient_lots
  consume_points_from_lots now points es

-- The lots that a debit leaves: an expiry takes none.
unfoldable pub debited_lots : ℕ → Input → ℕ → List Entry → Result LoyaltyError (List Entry)
unfolding debit_lots
debited_lots now i p es = if takes_lots i.type i.direction then debit_lots now p es else ok es

-- The account after an entry. A debit of the current points does not go below zero on a ledger that
-- is balanced (`Balance`), so subtraction on ℕ is the decrement.
abbrev pub credit_account : ℕ → Account → Account
credit_account p a = record a { available = a.available + p; current = a.current + p }

abbrev pub debit_account : EntryType → ℕ → Account → Account
debit_account redeem p a = record a {
  available = a.available - p;
  redeemed_points = a.redeemed_points + p;
}
debit_account _ p a = record a { available = a.available - p; current = a.current - p }

abbrev pub new_entry : Ledger → Input → ℕ → ℕ → ℕ → Entry
new_entry l i p opening closing = record {
  id = l.next_id;
  type = i.type;
  points = p;
  reference = i.reference;
  order = i.order;
  opening = opening;
  closing = closing;
  expires_at = i.expires_at;
  remaining = if i.track_lot && holds_lots i.type then some p else none;
}

abbrev pub post : Ledger → Input → ℕ → Account → Account → List Entry → Ledger × Entry
post l i p before after lots =
    let e = new_entry l i p before.available after.available in
    (record { account = some after; entries = lots ++ (e ∷ []); next_id = suc l.next_id }, e)

-- `recordEntryInTx` from the lock on, for an entry that is new. Every type is a credit or a debit.
unfoldable pub record_new : ℕ → Input → ℕ → Ledger → Result LoyaltyError (Ledger × Entry)
unfolding debited_lots
record_new now i p l =
    let a = ensure_account l in
    if is_credit i.type i.direction then ok (post l i p a (credit_account p a) l.entries) else do
      guard (leb p a.available) insufficient
      lots ← debited_lots now i p l.entries
      ok (post l i p a (debit_account i.type p a) lots)

-- `recordEntryInTx`. An error rolls the transaction back: no ledger is returned.
unfoldable pub record_entry : ℕ → Input → Ledger → Result LoyaltyError (Ledger × Entry)
unfolding record_new
record_entry now i l =
    if leb (abs i.points) 0 then err no_points else elim (find_existing i.reference l.entries) [
      | some e ↦ ok (record l { account = some (ensure_account l) }, e)
      | none ↦ record_new now i (abs i.points) l
    ]
