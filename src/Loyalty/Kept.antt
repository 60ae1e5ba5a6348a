-- ===== src/Loyalty/Kept.antt =====
-- An entry is found again, but for its remaining points, after lots were consumed or expired.
use vikram_backend.Prelude.{
  ℕ, ◌-◌, ◌≡◌, refl, ap, ◌∙◌, Bool, ◌&&◌, Option, some, List, [], ◌∷◌, ◌++◌, ltb, min,
  if◌then◌else◌, find?, update_first, Bool-cases, inl, inr,
}
use vikram_backend.Loyalty.Ledger.{Entry, consume_lots, is_credit_lot, or_zero}
use vikram_backend.Loyalty.Expiry.{emptied, has_id}

some-inj : {x y : Entry} → some x ≡ some y → x ≡ y
some-inj {x} {y} e = cc

-- A search that does not look at the remaining points finds the entry.
abbrev pub Finds : (Entry → Bool) → Entry → List Entry → Type 0
Finds q e es = (r : Option ℕ) × (find? q es ≡ some (record e { remaining = r }))

abbrev pub IsBlind : (Entry → Bool) → Type 0
IsBlind q = (e : Entry) (r : Option ℕ) → q (record e { remaining = r }) ≡ q e

-- An entry that changed in its remaining points, before others that did.
Finds-cons :
    (q : Entry → Bool) (e x y : Entry) (xs ys : List Entry) (s : Option ℕ)
    → IsBlind q
    → y ≡ record x { remaining = s }
    → (Finds q e xs → Finds q e ys)
    → Finds q e (x ∷ xs)
    → Finds q e (y ∷ ys)
Finds-cons q e x y xs ys s blind same next (r, h) =
    let seen : q y ≡ q x = ap q same ∙ blind x s in
    elim (Bool-cases (q x)) [
      | inl b ↦
          let first : x ≡ record e { remaining = r } = some-inj (rw b at h) in
          (
            s,
            rw (seen ∙ b) (
                ap (λ (z : Entry). some z)
                  (same ∙ ap (λ (z : Entry). record z { remaining = s }) first)),
          )
      | inr b ↦ let (r', k) = next (r, rw b at h) in (r', rw (seen ∙ b) k)
    ]

pub consume_lots-Finds :
    (q : Entry → Bool) (e : Entry) (now need : ℕ) (es : List Entry)
    → IsBlind q
    → Finds q e es
    → Finds q e (consume_lots now need es).0
unfolding consume_lots
consume_lots-Finds q e now need [] blind h = h
consume_lots-Finds q e now need (x ∷ es) blind h =
    let deduct = if is_credit_lot now x then min (or_zero x.remaining) need else 0 in
    let rest = (consume_lots now (need - deduct) es).0 in
    let next = consume_lots-Finds q e now (need - deduct) es blind in
    elim (Bool-cases (is_credit_lot now x && ltb 0 need)) [
      | inl b ↦ rw b (
          Finds-cons q e x (record x { remaining = some (or_zero x.remaining - deduct) }) es rest
            (some (or_zero x.remaining - deduct)) blind refl next h)
      | inr b ↦ rw b (Finds-cons q e x x es rest x.remaining blind refl next h)
    ]

pub emptied-Finds :
    (q : Entry → Bool) (e : Entry) (i : ℕ) (es : List Entry)
    → IsBlind q
    → Finds q e es
    → Finds q e (update_first (has_id i) emptied es)
emptied-Finds q e i [] blind h = h
emptied-Finds q e i (x ∷ es) blind h = elim (Bool-cases (has_id i x)) [
  | inl b ↦ rw b (Finds-cons q e x (emptied x) es es (some 0) blind refl (λ k. k) h)
  | inr b ↦ rw b (
      Finds-cons q e x x es (update_first (has_id i) emptied es) x.remaining blind refl
        (emptied-Finds q e i es blind) h)
]

pub append-Finds :
    (q : Entry → Bool) (e : Entry) (es tail : List Entry) → Finds q e es → Finds q e (es ++ tail)
append-Finds q e [] tail (r, h) = absurd (cc h)
append-Finds q e (x ∷ es) tail (r, h) = elim (Bool-cases (q x)) [
  | inl b ↦ (r, rw b (rw b at h))
  | inr b ↦ let (s, k) = append-Finds q e es tail (r, rw b at h) in (s, rw b k)
]
