-- ===== src/Payments/Attempts.antt =====
-- Which attempt decides on a payment (src/modules/payments/razorpay.crypto.ts).
use mathlib.Core.List.{Memᴰ}
use mathlib.Core.List.Memᴰ.{head, tail}
use vikram_backend.Prelude.{
  Option, none, some, if_either, ◌≤◌, ◌<◌, ◌≡◌, refl, true, false, some, none, List, [], ◌∷◌, arith,
  All, Bool-cases, inl, inr,
}
use vikram_backend.Payments.Gateway.{
  RazorpayPaymentRecord, rank, made_at, replaces, pick_from, pick_authoritative_payment,
}

-- No attempt r speaks against b: where the money of b moved, that of r moved no further, and where it
-- did not, that of r did not either, and r is not later.
pub record Yields (b r : RazorpayPaymentRecord) : Type 0 where
  pub money : 3 ≤ rank b → rank r ≤ rank b
  pub time : rank b < 3 → (rank r < 3) × (made_at r ≤ made_at b)

Yields-refl : (b : RazorpayPaymentRecord) → Yields b b
Yields-refl b = record { money = λ h. omega arith; time = λ h. (h, omega arith) }

Yields-kept : (b r : RazorpayPaymentRecord) → replaces r b ≡ false → Yields b r
Yields-kept b r e = record { money = λ h. ground arith; time = λ h. (ground arith, ground arith) }

Yields-replaced : (b x r : RazorpayPaymentRecord) → replaces x b ≡ true → Yields b r → Yields x r
Yields-replaced b x r e h =
    let m = h.money in
    let t = h.time in record { money = λ k. ground arith; time = λ k. (ground arith, ground arith) }

-- What yields to the best so far yields to the one that is picked.
pick_from-Yields :
    (best z : RazorpayPaymentRecord) (rs : List RazorpayPaymentRecord)
    → Yields best z
    → Yields (pick_from best rs) z
pick_from-Yields best z [] h = h
pick_from-Yields best z (r ∷ rs) h = elim (Bool-cases (replaces r best)) [
  | inl e ↦ rw e (pick_from-Yields r z rs (Yields-replaced best r z e h))
  | inr e ↦ rw e (pick_from-Yields best z rs h)
]

pick_from-All :
    (best : RazorpayPaymentRecord) (rs : List RazorpayPaymentRecord)
    → All (Yields (pick_from best rs)) rs
pick_from-All best [] = tt
pick_from-All best (r ∷ rs) =
    if_either (λ (x : RazorpayPaymentRecord). All (Yields (pick_from x rs)) (r ∷ rs))
      (replaces r best) (λ e. (pick_from-Yields r r rs (Yields-refl r), pick_from-All r rs))
      (λ e. (pick_from-Yields best r rs (Yields-kept best r e), pick_from-All best rs))

pick_from-Memᴰ :
    (best : RazorpayPaymentRecord) (rs : List RazorpayPaymentRecord)
    → Memᴰ (pick_from best rs) (best ∷ rs)
pick_from-Memᴰ best [] = head refl
pick_from-Memᴰ best (r ∷ rs) = elim (Bool-cases (replaces r best)) [
  | inl e ↦ rw e (tail (pick_from-Memᴰ r rs))
  | inr e ↦ rw e (skip_second best r rs (pick_from-Memᴰ best rs))
]
  where
    skip_second :
        (b r : RazorpayPaymentRecord) (rs : List RazorpayPaymentRecord) {x : RazorpayPaymentRecord}
        → Memᴰ x (b ∷ rs)
        → Memᴰ x (b ∷ (r ∷ rs))
    skip_second b r rs (head e) = head e
    skip_second b r rs (tail m) = tail (tail m)

-- A pick among attempts: one of them that every attempt yields to, and none where there is none.
abbrev pub IsPickOf : List RazorpayPaymentRecord → Option RazorpayPaymentRecord → Type 0
IsPickOf rs none = rs ≡ []
IsPickOf rs (some b) = Memᴰ b rs × All (Yields b) rs

-- The attempt that is picked is one of the attempts, and every attempt yields to it: an attempt whose
-- money moved is picked over all that moved less, and otherwise none is later. None is picked of no
-- attempts only.
pub pick_authoritative_payment_lem :
    (rs : List RazorpayPaymentRecord) → IsPickOf rs (pick_authoritative_payment rs)
unfolding pick_authoritative_payment
pick_authoritative_payment_lem [] = refl
pick_authoritative_payment_lem (r ∷ rs) =
    (pick_from-Memᴰ r rs, (pick_from-Yields r r rs (Yields-refl r), pick_from-All r rs))
