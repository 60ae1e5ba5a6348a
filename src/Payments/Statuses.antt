-- ===== src/Payments/Statuses.antt =====
-- The statuses that a payment may pass through, and lists of rows that follow them.
use vikram_backend.Prelude.{
  ℕ, ◌≡◌, refl, sym, subst, ◌∙◌, true, some, List, [], ◌∷◌, arith, ==_iff, find?, find?-holds,
  update_first, Bool-cases, inl, inr,
}
use vikram_backend.Payments.Gateway.{GatewayPaymentStatus, can_transition_gateway_status}
use vikram_backend.Payments.Rows.{Payment, has_id}

-- A way through the table of the transitions.
pub data Leads : GatewayPaymentStatus → GatewayPaymentStatus → Type 0 where
  stay : {s : GatewayPaymentStatus} → Leads s s
  go :
      {s t u : GatewayPaymentStatus}
      → can_transition_gateway_status s t ≡ true
      → Leads t u
      → Leads s u

pub Leads-trans : {s t u : GatewayPaymentStatus} → Leads s t → Leads t u → Leads s u
Leads-trans stay k = k
Leads-trans (go e h) k = go e (Leads-trans h k)

-- What a row keeps, and how its status goes on.
pub record Follows (p q : Payment) : Type 0 where
  pub same_id : q.id ≡ p.id
  pub same_order : q.order_id ≡ p.order_id
  pub same_amount : q.amount_paise ≡ p.amount_paise
  pub leads : Leads p.status q.status

-- Row by row: no row is made, lost or moved.
pub data AllFollow : List Payment → List Payment → Type 0 where
  none_left : AllFollow [] []
  row_follows :
      {p q : Payment} {ps qs : List Payment}
      → Follows p q
      → AllFollow ps qs
      → AllFollow (p ∷ ps) (q ∷ qs)

pub Follows-refl : (p : Payment) → Follows p p
Follows-refl p = record { same_id = refl; same_order = refl; same_amount = refl; leads = stay }

Follows-trans : {p q r : Payment} → Follows p q → Follows q r → Follows p r
Follows-trans h k = record {
  same_id = k.same_id ∙ h.same_id;
  same_order = k.same_order ∙ h.same_order;
  same_amount = k.same_amount ∙ h.same_amount;
  leads = Leads-trans h.leads k.leads;
}

pub AllFollow-refl : (ps : List Payment) → AllFollow ps ps
AllFollow-refl [] = none_left
AllFollow-refl (p ∷ ps) = row_follows (Follows-refl p) (AllFollow-refl ps)

pub AllFollow-trans :
    {ps qs rs : List Payment} → AllFollow ps qs → AllFollow qs rs → AllFollow ps rs
AllFollow-trans none_left k = k
AllFollow-trans (row_follows h hs) (row_follows k ks) =
    row_follows (Follows-trans h k) (AllFollow-trans hs ks)

-- The row that a key finds is found by its own key.
pub found_self :
    (i : ℕ) (ps : List Payment) (p : Payment)
    → find? (has_id i) ps ≡ some p
    → find? (has_id p.id) ps ≡ some p
found_self i ps p e =
    subst (λ (k : ℕ). find? (has_id k) ps ≡ some p)
      ((==_iff i p.id).0 (find?-holds (has_id i) ps e)) e

-- The update of the row that was found.
pub update-AllFollow :
    (i : ℕ) (f : Payment → Payment) (ps : List Payment) (p : Payment)
    → find? (has_id i) ps ≡ some p
    → Follows p (f p)
    → AllFollow ps (update_first (has_id i) f ps)
update-AllFollow i f [] p e h = none_left
update-AllFollow i f (q ∷ ps) p e h = elim (Bool-cases (has_id i q)) [
  | inl b ↦
      let same : q ≡ p = ground arith in
      rw b (row_follows (subst (λ (r : Payment). Follows r (f r)) (sym same) h) (AllFollow-refl ps))
  | inr b ↦
      let rest : find? (has_id i) ps ≡ some p = ground arith in
      rw b (row_follows (Follows-refl q) (update-AllFollow i f ps p rest h))
]
