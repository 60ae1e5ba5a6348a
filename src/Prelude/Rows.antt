-- ===== src/Prelude/Rows.antt =====
-- How `update_first` and `update_where` change counts over the rows.
use Prim.Native.Nat.{◌+◌, ◌≤◌}
use mathlib.Core.Path.{◌≡◌, refl}
use mathlib.Core.Logic.{inl, inr}
use mathlib.Core.Bool.{Bool, true, false}
use mathlib.Core.Option.{some}
use mathlib.Core.List.{List, [], ◌∷◌}
use native.Mathlib.Omega.{arith}
use vikram_backend.Prelude.Tests.{if◌then◌else◌, Bool-cases}
use vikram_backend.Prelude.Lists.{count_if, find?, update_where, update_first, All}

module _ {ℓ} {A : Type ℓ} (p q : A → Bool) (f : A → A) where
  -- A rewrite that keeps the test keeps the count.
  pub count_if-update_first :
      (xs : List A)
      → ((x : A) → p x ≡ true → q (f x) ≡ q x)
      → count_if q (update_first p f xs) ≡ count_if q xs
  count_if-update_first [] h = refl
  count_if-update_first (x ∷ xs) h = ground (arith, h x, count_if-update_first xs h)

  -- A rewrite that leaves the test takes the row that was found out of the count.
  pub count_if-update_first_drop :
      (xs : List A) (r : A)
      → ((x : A) → q (f x) ≡ false)
      → find? p xs ≡ some r
      → count_if q (update_first p f xs) + (if q r then 1 else 0) ≡ count_if q xs
  count_if-update_first_drop [] r h e = cc
  count_if-update_first_drop (x ∷ xs) r h e = ground (arith, h x, count_if-update_first_drop xs r h)

module _ {ℓ κ} {A : Type ℓ} (P : A → Type κ) (p : A → Bool) (f : A → A) where
  pub All-update_first :
      (xs : List A) → ((x : A) → P (f x)) → All P xs → All P (update_first p f xs)
  All-update_first [] h a = a
  All-update_first (x ∷ xs) h a = ground (arith, h x, All-update_first xs h a.1)

  pub All-update_where :
      (xs : List A) → ((x : A) → P (f x)) → All P xs → All P (update_where p f xs)
  All-update_where [] h a = a
  All-update_where (x ∷ xs) h a = ground (arith, h x, All-update_where xs h a.1)

module _ {ℓ} {A : Type ℓ} (p q : A → Bool) (f : A → A) where
  -- The row that was found and rewritten counts under every test that its new value passes.
  pub count_if-update_first_found :
      (xs : List A) (r : A)
      → find? p xs ≡ some r
      → q (f r) ≡ true
      → 1 ≤ count_if q (update_first p f xs)
  count_if-update_first_found [] r e h = cc
  count_if-update_first_found (x ∷ xs) r e h = ground (arith, count_if-update_first_found xs r)

  -- The row that was found and rewritten is found again, when its new value passes the test.
  pub find?-update_first :
      (xs : List A) (r : A)
      → find? p xs ≡ some r
      → p (f r) ≡ true
      → find? p (update_first p f xs) ≡ some (f r)
  find?-update_first [] r e h = cc
  find?-update_first (x ∷ xs) r e h = ground (arith, find?-update_first xs r)

  -- Rows that pass no test before or after the rewrite play no part in it.
  pub find?-update_where :
      (xs : List A)
      → ((x : A) → p x ≡ true → q x ≡ false)
      → ((x : A) → p x ≡ true → q (f x) ≡ false)
      → find? q (update_where p f xs) ≡ find? q xs
  find?-update_where [] h k = refl
  find?-update_where (x ∷ xs) h k = ground (arith, h x, k x, find?-update_where xs h k)

  pub count_if-update_where :
      (xs : List A)
      → ((x : A) → p x ≡ true → q (f x) ≡ q x)
      → count_if q (update_where p f xs) ≡ count_if q xs
  count_if-update_where [] h = refl
  count_if-update_where (x ∷ xs) h = ground (arith, h x, count_if-update_where xs h)

module _ {ℓ} {A : Type ℓ} (q : A → Bool) where
  pub find?-of_count : (xs : List A) → 1 ≤ count_if q xs → (r : A) × (find? q xs ≡ some r)
  find?-of_count [] h = absurd (omega arith)
  find?-of_count (x ∷ xs) h = elim (Bool-cases (q x)) [
    | inl e ↦ (x, rw e)
    | inr e ↦ let (r, found) = find?-of_count xs (ground arith) in (r, ground arith)
  ]
