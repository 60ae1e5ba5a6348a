-- ===== src/Requisitions/Sums.antt =====
-- Sums and searches over items when one item is updated.
use vikram_backend.Prelude.{
  ℕ, ◌+◌, ◌≡◌, refl, false, some, List, [], ◌∷◌, arith, ◌==◌, find?, sum_of, All, Bool-cases, inl,
  inr,
}
use vikram_backend.Requisitions.Table.{Item, has_id, update_item}

pub sum_of-update_item :
    (g : Item → ℕ) (i : ℕ) (f : Item → Item) (xs : List Item) (r : Item)
    → find? (has_id i) xs ≡ some r
    → sum_of g (update_item i f xs) + g r ≡ sum_of g xs + g (f r)
sum_of-update_item g i f [] r h = cc
sum_of-update_item g i f (x ∷ xs) r h = ground (arith, sum_of-update_item g i f xs r)

pub sum_of-update_item_same :
    (g : Item → ℕ) (i : ℕ) (f : Item → Item) (xs : List Item)
    → ((x : Item) → g (f x) ≡ g x)
    → sum_of g (update_item i f xs) ≡ sum_of g xs
sum_of-update_item_same g i f [] h = refl
sum_of-update_item_same g i f (x ∷ xs) h = ground (arith, h x, sum_of-update_item_same g i f xs h)

-- Another item is found as before.
pub find?-update_item :
    (i j : ℕ) (f : Item → Item) (xs : List Item)
    → ((x : Item) → (f x).id ≡ x.id)
    → (i == j) ≡ false
    → find? (has_id j) (update_item i f xs) ≡ find? (has_id j) xs
find?-update_item i j f [] h n = refl
find?-update_item i j f (x ∷ xs) h n = ground (arith, h x, find?-update_item i j f xs h n)

pub All-update_item {κ} :
    (P : Item → Type κ) (i : ℕ) (f : Item → Item) (xs : List Item)
    → ((x : Item) → P x → P (f x))
    → All P xs
    → All P (update_item i f xs)
All-update_item P i f [] h a = a
All-update_item P i f (x ∷ xs) h a = ground (arith, h x a.0, All-update_item P i f xs h a.1)

-- What holds of every item, and of the new value of the item that is found, holds after the update.
pub All-update_item_found {κ} :
    (P : Item → Type κ) (i : ℕ) (f : Item → Item) (xs : List Item)
    → ((r : Item) → find? (has_id i) xs ≡ some r → P (f r))
    → All P xs
    → All P (update_item i f xs)
All-update_item_found P i f [] h a = a
All-update_item_found P i f (x ∷ xs) h a = elim (Bool-cases (x.id == i)) [
  | inl e ↦ let hit : find? (has_id i) (x ∷ xs) ≡ some x = rw e refl in rw e (h x hit, a.1)
  | inr e ↦ rw e (a.0, All-update_item_found P i f xs (λ r g. h r (rw e g)) a.1)
]
