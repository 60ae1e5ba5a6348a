-- ===== src/Prelude/Sorting.antt =====
-- `Array.sort` with a comparison, and what stands in a sorted or filtered list.
use mathlib.Core.List.{Memᴰ}
use mathlib.Core.List.Memᴰ.{head, tail}
use mathlib.Core.Path.{◌≡◌, sym, subst}
use mathlib.Core.Logic.{inl, inr}
use mathlib.Core.Bool.{Bool, true, false}
use mathlib.Core.Option.{some}
use mathlib.Core.List.{List, [], ◌∷◌}
use native.Mathlib.Omega.{arith}
use vikram_backend.Prelude.Tests.{if◌then◌else◌, Bool-cases}
use vikram_backend.Prelude.Lists.{find?, filter_if}

-- `sort`, which keeps the order of what compares equal: `before a b` where a may stand before b.
abbrev pub insert_by {ℓ} : {A : Type ℓ} → (A → A → Bool) → A → List A → List A
insert_by before x [] = x ∷ []
insert_by before x (y ∷ ys) = if before x y then x ∷ (y ∷ ys) else y ∷ insert_by before x ys

abbrev pub sort_by {ℓ} : {A : Type ℓ} → (A → A → Bool) → List A → List A
sort_by before [] = []
sort_by before (x ∷ xs) = insert_by before x (sort_by before xs)

module _ {A : Type 0} where
  pub mem-filter_if :
      (q : A → Bool) (xs : List A) {x : A} → Memᴰ x (filter_if q xs) → Memᴰ x xs × (q x ≡ true)
  mem-filter_if q [] m = elim m [ ]
  mem-filter_if q (y ∷ ys) m = elim (Bool-cases (q y)) [
    | inr b ↦ let (k, e) = mem-filter_if q ys (rw b at m) in (tail k, e)
    | inl b ↦ keep y (filter_if q ys) b (rw b at m) (mem-filter_if q ys)
  ]
    where
      keep :
          {x : A} (y : A) (zs : List A)
          → q y ≡ true
          → Memᴰ x (y ∷ zs)
          → (Memᴰ x zs → Memᴰ x ys × (q x ≡ true))
          → Memᴰ x (y ∷ ys) × (q x ≡ true)
      keep y zs b (head e) k = (head e, subst (λ (z : A). q z ≡ true) (sym e) b)
      keep y zs b (tail m) k = (tail (k m).0, (k m).1)

  pub mem-insert_by :
      (f : A → A → Bool) (y : A) (ys : List A) {x : A} → Memᴰ x (insert_by f y ys) → Memᴰ x (y ∷ ys)
  mem-insert_by f y [] m = m
  mem-insert_by f y (z ∷ zs) m = elim (Bool-cases (f y z)) [
    | inl b ↦ rw b at m
    | inr b ↦ later (rw b at m) (mem-insert_by f y zs)
  ]
    where
      later :
          {x : A}
          → Memᴰ x (z ∷ insert_by f y zs)
          → (Memᴰ x (insert_by f y zs) → Memᴰ x (y ∷ zs))
          → Memᴰ x (y ∷ (z ∷ zs))
      later (head e) k = tail (head e)
      later (tail m) k = elim (k m) [ head e ↦ head e | tail h ↦ tail (tail h) ]

  pub mem-sort_by : (f : A → A → Bool) (xs : List A) {x : A} → Memᴰ x (sort_by f xs) → Memᴰ x xs
  mem-sort_by f [] m = m
  mem-sort_by f (y ∷ ys) m = elim (mem-insert_by f y (sort_by f ys) m) [
    | head e ↦ head e
    | tail k ↦ tail (mem-sort_by f ys k)
  ]

-- A row that is found is a row of the list.
pub mem-find? : {A : Type 0} (p : A → Bool) (xs : List A) {x : A} → find? p xs ≡ some x → Memᴰ x xs
mem-find? p [] h = cc
mem-find? p (y ∷ ys) {x} h = elim (Bool-cases (p y)) [
  | inl b ↦ head (ground arith)
  | inr b ↦ tail (mem-find? p ys (rw b at h))
]

module _ {A : Type 0} where
  pub mem-filter_if_of :
      (q : A → Bool) (xs : List A) {x : A} → Memᴰ x xs → q x ≡ true → Memᴰ x (filter_if q xs)
  mem-filter_if_of q [] m h = elim m [ ]
  mem-filter_if_of q (y ∷ ys) (head e) h =
      let b : q y ≡ true = subst (λ (z : A). q z ≡ true) e h in rw b (head e)
  mem-filter_if_of q (y ∷ ys) (tail m) h = elim (Bool-cases (q y)) [
    | inl b ↦ rw b (tail (mem-filter_if_of q ys m h))
    | inr b ↦ rw b (mem-filter_if_of q ys m h)
  ]

  mem-insert_by_of :
      (f : A → A → Bool) (y : A) (ys : List A) {x : A} → Memᴰ x (y ∷ ys) → Memᴰ x (insert_by f y ys)
  mem-insert_by_of f y [] m = m
  mem-insert_by_of f y (z ∷ zs) m = elim (Bool-cases (f y z)) [
    | inl b ↦ rw b m
    | inr b ↦ rw b (elim m [
      | head e ↦ tail (mem-insert_by_of f y zs (head e))
      | tail (head e) ↦ head e
      | tail (tail k) ↦ tail (mem-insert_by_of f y zs (tail k))
    ])
  ]

  pub mem-sort_by_of : (f : A → A → Bool) (xs : List A) {x : A} → Memᴰ x xs → Memᴰ x (sort_by f xs)
  mem-sort_by_of f [] m = elim m [ ]
  mem-sort_by_of f (y ∷ ys) (head e) = mem-insert_by_of f y (sort_by f ys) (head e)
  mem-sort_by_of f (y ∷ ys) (tail m) =
      mem-insert_by_of f y (sort_by f ys) (tail (mem-sort_by_of f ys m))

-- A row that passes the test is a reason for one to be found.
pub find?-of_mem :
    {A : Type 0} (p : A → Bool) (xs : List A) {x : A}
    → Memᴰ x xs
    → p x ≡ true
    → (y : A) × (find? p xs ≡ some y)
find?-of_mem p [] m h = elim m [ ]
find?-of_mem {A} p (y ∷ ys) (head e) h =
    let b : p y ≡ true = subst (λ (z : A). p z ≡ true) e h in (y, rw b)
find?-of_mem p (y ∷ ys) (tail m) h = elim (Bool-cases (p y)) [
  | inl b ↦ (y, rw b)
  | inr b ↦ let (z, found) = find?-of_mem p ys m h in (z, ground arith)
]

-- The relation that a comparison decides.
pub record Decides {A : Type 0} (f : A → A → Bool) (R : A → A → Type 0) : Type 0 where
  pub reflexive : (x : A) → R x x
  pub transitive : {x y z : A} → R x y → R y z → R x z
  pub of_true : (x y : A) → f x y ≡ true → R x y
  pub of_false : (x y : A) → f x y ≡ false → R y x

module _ {A : Type 0} (f : A → A → Bool) (R : A → A → Type 0) (d : Decides f R) where
  Sorted : List A → Type 0
  Sorted [] = Unit
  Sorted (x ∷ xs) = ((y : A) → Memᴰ y xs → R x y) × Sorted xs

  insert_by-Sorted : (x : A) (xs : List A) → Sorted xs → Sorted (insert_by f x xs)
  unfolding Sorted
  insert_by-Sorted x [] s = ((λ y m. elim m [ ]), tt)
  insert_by-Sorted x (y ∷ ys) s = elim (Bool-cases (f x y)) [
    | inl b ↦ rw b (first b, s)
    | inr b ↦ rw b (later b, insert_by-Sorted x ys s.1)
  ]
    where
      first : f x y ≡ true → (z : A) → Memᴰ z (y ∷ ys) → R x z
      first b z (head e) = subst (λ (w : A). R x w) (sym e) (d.of_true x y b)
      first b z (tail m) = d.transitive (d.of_true x y b) (s.0 z m)

      later : f x y ≡ false → (z : A) → Memᴰ z (insert_by f x ys) → R y z
      later b z m = elim (mem-insert_by f x ys m) [
        | head e ↦ subst (λ (w : A). R y w) (sym e) (d.of_false x y b)
        | tail k ↦ s.0 z k
      ]

  sort_by-Sorted : (xs : List A) → Sorted (sort_by f xs)
  unfolding Sorted
  sort_by-Sorted [] = tt
  sort_by-Sorted (x ∷ xs) = insert_by-Sorted x (sort_by f xs) (sort_by-Sorted xs)

  find?-first :
      (p : A → Bool) (xs : List A) {x : A}
      → Sorted xs
      → find? p xs ≡ some x
      → (y : A) → Memᴰ y xs
      → p y ≡ true
      → R x y
  unfolding Sorted
  find?-first p [] s h y m k = elim m [ ]
  find?-first p (z ∷ zs) {x} s h y m k = elim (Bool-cases (p z)) [
    | inl b ↦ of_head (ground arith) m
    | inr b ↦ of_tail b m (λ i. find?-first p zs s.1 (rw b at h) y i k)
  ]
    where
      of_head : z ≡ x → Memᴰ y (z ∷ zs) → R x y
      of_head e (head i) =
          subst (λ (w : A). R w y) e (subst (λ (w : A). R z w) (sym i) (d.reflexive z))
      of_head e (tail i) = subst (λ (w : A). R w y) e (s.0 y i)

      of_tail : p z ≡ false → Memᴰ y (z ∷ zs) → (Memᴰ y zs → R x y) → R x y
      of_tail b (head i) g = absurd (subst (λ (w : A). p w ≡ true → ⊥) (sym i) (λ n. cc) k)
      of_tail b (tail i) g = g i

  -- The first row that passes the test, of the rows in order, is before every row that passes it.
  pub find?-sort_by :
      (p : A → Bool) (xs : List A) {x : A}
      → find? p (sort_by f xs) ≡ some x
      → (y : A) → Memᴰ y xs
      → p y ≡ true
      → R x y
  find?-sort_by p xs h y m k =
      find?-first p (sort_by f xs) (sort_by-Sorted xs) h y (mem-sort_by_of f xs m) k
