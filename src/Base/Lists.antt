-- ===== src/Base/Lists.antt =====
-- Lists over the native numbers.
use Prim.Native.Nat.{ℕ, zero, suc, ◌+◌, ◌≤◌}
use mathlib.Core.Path.{◌≡◌}
use mathlib.Core.Bool.{Bool}
use mathlib.Core.List.{List, [], ◌∷◌, ◌++◌, Mem, mem-cons_self, mem-cons_of_mem}
use native.Mathlib.Omega.{arith}
use arbitrage_station.Base.Tests.{if◌then◌else◌}

module _ {ℓ} {A : Type ℓ} where
  abbrev pub length : List A → ℕ
  length [] = 0
  length (x ∷ xs) = suc (length xs)

  abbrev pub take : ℕ → List A → List A
  take zero xs = []
  take (suc n) [] = []
  take (suc n) (x ∷ xs) = x ∷ take n xs

  abbrev pub All {κ} : (A → Type κ) → List A → Type κ
  All P [] = Unit
  All P (x ∷ xs) = P x × All P xs

  -- `[x for x in xs if p(x)]`
  abbrev pub keep_if : (A → Bool) → List A → List A
  keep_if p [] = []
  keep_if p (x ∷ xs) = let rest = keep_if p xs in if p x then x ∷ rest else rest

  pub length-append : (xs ys : List A) → length (xs ++ ys) ≡ length xs + length ys
  length-append [] ys = omega arith
  length-append (x ∷ xs) ys = omega (arith, length-append xs ys)

  pub length-take-le : (n : ℕ) (xs : List A) → length (take n xs) ≤ n
  length-take-le zero xs = omega arith
  length-take-le (suc n) [] = omega arith
  length-take-le (suc n) (x ∷ xs) = omega (arith, length-take-le n xs)

  pub length-keep_if-le : (p : A → Bool) (xs : List A) → length (keep_if p xs) ≤ length xs
  length-keep_if-le p [] = omega arith
  length-keep_if-le p (x ∷ xs) = ground (arith, length-keep_if-le p xs)

  pub length-keep_if-append :
      (p : A → Bool) (xs : List A) (x : A)
      → length (keep_if p (xs ++ x ∷ [])) ≡ length (keep_if p xs) + (if p x then 1 else 0)
  length-keep_if-append p [] x = ground arith
  length-keep_if-append p (y ∷ xs) x = ground (arith, length-keep_if-append p xs x)

  All-weaken : (x : A) (xs ys : List A) → All (λ y. Mem y xs) ys → All (λ y. Mem y (x ∷ xs)) ys
  All-weaken x xs [] a = tt
  All-weaken x xs (y ∷ ys) a = (mem-cons_of_mem x a.0, All-weaken x xs ys a.1)

  pub All-self : (xs : List A) → All (λ x. Mem x xs) xs
  All-self [] = tt
  All-self (x ∷ xs) = (mem-cons_self, All-weaken x xs xs (All-self xs))
