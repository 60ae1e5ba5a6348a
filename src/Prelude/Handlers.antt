-- ===== src/Prelude/Handlers.antt =====
-- Handlers that keep what they wrote before they throw: a function from a state to a state and a
-- result. Their calls share no transaction.
use mathlib.Core.Bool.{Bool, true, false}
use mathlib.Core.List.{List, [], ◌∷◌}
use vikram_backend.Prelude.Results.{Result, ok, err}
use vikram_backend.Prelude.Tests.{if◌then◌else◌}

module _ {S E : Type 0} where
  abbrev pub continue {ℓ κ} :
      {A : Type ℓ} {B : Type κ} → S × Result E A → (A → S → S × Result E B) → S × Result E B
  continue (s, ok a) f = f a s
  continue (s, err e) f = (s, err e)

  infixl 5 ◌>>=◌ ◌>>◌
  abbrev pub ◌>>=◌ {ℓ κ} :
      {A : Type ℓ} {B : Type κ}
      → (S → S × Result E A)
      → (A → S → S × Result E B)
      → S
      → S × Result E B
  (m >>= f) s = continue (m s) f

  abbrev pub ◌>>◌ {ℓ} :
      {B : Type ℓ} → (S → S × Result E (Unit {0})) → (S → S × Result E B) → S → S × Result E B
  m >> k = m >>= λ _. k

  abbrev pub return {ℓ} : {A : Type ℓ} → A → S → S × Result E A
  return a s = (s, ok a)

  abbrev pub write : (S → S) → S → S × Result E (Unit {0})
  write f s = (f s, ok tt)

  -- `if (!test) throw`.
  abbrev pub require : Bool → E → S → S × Result E (Unit {0})
  require true e s = (s, ok tt)
  require false e s = (s, err e)

  abbrev pub for_each {ℓ} :
      {A : Type ℓ} → (A → S → S × Result E (Unit {0})) → List A → S → S × Result E (Unit {0})
  for_each f [] = return tt
  for_each f (x ∷ xs) = f x >> for_each f xs

pub record IsPreorder {S : Type 0} (R : S → S → Type 0) : Type 0 where
  pub reflexive : (s : S) → R s s
  pub transitive : {s t u : S} → R s t → R t u → R s u

-- A relation between the states before and after that handlers respect.
module _ {S E : Type 0} (R : S → S → Type 0) (o : IsPreorder R) where
  abbrev pub Respects {ℓ} : {A : Type ℓ} → (S → S × Result E A) → Type 0
  Respects m = (s : S) → R s (m s).0

  pub continue-Respects {ℓ κ} :
      {A : Type ℓ} {B : Type κ} (s : S) (r : S × Result E A) (f : A → S → S × Result E B)
      → R s r.0
      → ((a : A) → R r.0 (f a r.0).0)
      → R s (continue r f).0
  continue-Respects s (t, ok a) f h k = o.transitive h (k a)
  continue-Respects s (t, err e) f h k = h

  pub bind-Respects {ℓ κ} :
      {A : Type ℓ} {B : Type κ} (m : S → S × Result E A) (f : A → S → S × Result E B)
      → Respects m
      → ((a : A) → Respects (f a))
      → Respects (m >>= f)
  bind-Respects m f h k s = continue-Respects s (m s) f (h s) (λ a. k a (m s).0)

  pub for_each-Respects {ℓ} :
      {A : Type ℓ} (f : A → S → S × Result E (Unit {0})) (xs : List A)
      → ((x : A) → Respects (f x))
      → Respects (for_each f xs)
  for_each-Respects f [] h s = o.reflexive s
  for_each-Respects f (x ∷ xs) h s =
      bind-Respects (f x) (λ _. for_each f xs) (h x) (λ _. for_each-Respects f xs h) s

  pub if-Respects {ℓ} :
      {A : Type ℓ} (b : Bool) (m k : S → S × Result E A) (s : S)
      → R s (m s).0
      → R s (k s).0
      → R s ((if b then m else k) s).0
  if-Respects true m k s h l = h
  if-Respects false m k s h l = l
