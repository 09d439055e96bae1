-- ===== src/Prelude/Totals.antt =====
-- Totals over a list, and what a change of one element does to them.
use Prim.Native.Nat.{ℕ, zero, suc, ◌+◌, ◌≤◌}
use mathlib.Core.Path.{◌≡◌, refl, ap}
use mathlib.Core.Option.{none, some}
use mathlib.Core.List.{List, [], ◌∷◌, ◌++◌}
use native.Mathlib.Omega.{arith}
use reverse_http.Prelude.Tests.{nat_beq, if◌then◌else◌}
use reverse_http.Prelude.Lists.{get_elem?, length}

module _ {ℓ} {A : Type ℓ} where
  -- A write out of bounds changes nothing.
  abbrev pub set : List A → ℕ → A → List A
  set [] i v = []
  set (x ∷ xs) zero v = v ∷ xs
  set (x ∷ xs) (suc i) v = x ∷ set xs i v

  pub length-set : (xs : List A) (i : ℕ) (v : A) → length (set xs i v) ≡ length xs
  length-set [] i v = refl
  length-set (x ∷ xs) zero v = refl
  length-set (x ∷ xs) (suc i) v = ap suc (length-set xs i v)

  pub get_elem?-set :
      (xs : List A) (i j : ℕ) (x v : A)
      → get_elem? xs i ≡ some x
      → get_elem? (set xs i v) j ≡ (if nat_beq i j then some v else get_elem? xs j)
  get_elem?-set [] i j x v h = cc
  get_elem?-set (y ∷ xs) zero zero x v h = refl
  get_elem?-set (y ∷ xs) zero (suc j) x v h = ground arith
  get_elem?-set (y ∷ xs) (suc i) zero x v h = ground arith
  get_elem?-set (y ∷ xs) (suc i) (suc j) x v h = ground (arith, get_elem?-set xs i j x v h)

  pub get_elem?-snoc :
      (xs : List A) (j : ℕ) (v : A)
      → get_elem? (xs ++ v ∷ []) j ≡ (if nat_beq (length xs) j then some v else get_elem? xs j)
  get_elem?-snoc [] zero v = refl
  get_elem?-snoc [] (suc j) v = ground arith
  get_elem?-snoc (y ∷ xs) zero v = ground arith
  get_elem?-snoc (y ∷ xs) (suc j) v = ground (arith, get_elem?-snoc xs j v)

  pub get_elem?-beyond : (xs : List A) (i : ℕ) → length xs ≤ i → get_elem? xs i ≡ none
  get_elem?-beyond [] i h = refl
  get_elem?-beyond (y ∷ xs) zero h = absurd (omega arith)
  get_elem?-beyond (y ∷ xs) (suc i) h = get_elem?-beyond xs i (omega arith)

  abbrev pub total : (A → ℕ) → List A → ℕ
  total f [] = 0
  total f (x ∷ xs) = f x + total f xs

  pub total-set :
      (f : A → ℕ) (xs : List A) (i : ℕ) (x v : A)
      → get_elem? xs i ≡ some x
      → total f (set xs i v) + f x ≡ total f xs + f v
  total-set f [] i x v h = cc
  total-set f (y ∷ xs) zero x v h = ground arith
  total-set f (y ∷ xs) (suc i) x v h = omega (arith, total-set f xs i x v h)

  pub total-append : (f : A → ℕ) (xs ys : List A) → total f (xs ++ ys) ≡ total f xs + total f ys
  total-append f [] ys = omega arith
  total-append f (x ∷ xs) ys = omega (arith, total-append f xs ys)

  pub total-ge :
      (f : A → ℕ) (xs : List A) (i : ℕ) (x : A) → get_elem? xs i ≡ some x → f x ≤ total f xs
  total-ge f [] i x h = cc
  total-ge f (y ∷ xs) zero x h = ground arith
  total-ge f (y ∷ xs) (suc i) x h = omega (arith, total-ge f xs i x h)

  pub total-zero :
      (f : A → ℕ) (xs : List A)
      → ((i : ℕ) (x : A) → get_elem? xs i ≡ some x → f x ≡ 0)
      → total f xs ≡ 0
  total-zero f [] h = refl
  total-zero f (x ∷ xs) h = omega (arith, h 0 x refl, total-zero f xs (λ i y e. h (suc i) y e))

  pub total-le : (f g : A → ℕ) (xs : List A) → ((y : A) → f y ≤ g y) → total f xs ≤ total g xs
  total-le f g [] le = omega arith
  total-le f g (x ∷ xs) le = omega (arith, le x, total-le f g xs le)

  -- Where `f` is below `g` everywhere, one element's difference bounds that of the totals.
  pub total-gap :
      (f g : A → ℕ) (xs : List A) (i : ℕ) (x : A)
      → ((y : A) → f y ≤ g y)
      → get_elem? xs i ≡ some x
      → total f xs + g x ≤ total g xs + f x
  total-gap f g [] i x le h = cc
  total-gap f g (y ∷ xs) zero x le h = ground (arith, total-le f g xs le)
  total-gap f g (y ∷ xs) (suc i) x le h = omega (arith, total-gap f g xs i x le h, le y)
