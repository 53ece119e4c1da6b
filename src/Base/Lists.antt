-- ===== src/Base/Lists.antt =====
-- Lists measured by native numbers, under the library's names, and predicates on their entries.
use Prim.Native.Nat.{ℕ, zero, suc, ◌+◌}
use mathlib.Core.Path.{◌≡◌, refl, ap}
use mathlib.Core.Bool.{Bool, true, false, ◌||◌}
use mathlib.Core.List.{List, [], ◌∷◌, ◌++◌}
use native.Mathlib.Omega.{arith}

module _ {ℓ} {A : Type ℓ} where
  abbrev pub length : List A → ℕ
  length [] = 0
  length (x ∷ xs) = suc (length xs)

  pub length-append : (xs ys : List A) → length (xs ++ ys) ≡ length xs + length ys
  length-append [] ys = omega arith
  length-append (x ∷ xs) ys = omega (arith, length-append xs ys)

  abbrev pub any : List A → (A → Bool) → Bool
  any [] p = false
  any (x ∷ xs) p = p x || any xs p

  abbrev pub All {κ} : (A → Type κ) → List A → Type κ
  All P [] = Unit
  All P (x ∷ xs) = P x × All P xs

  pub All-append {κ} : (P : A → Type κ) (xs ys : List A) → All P xs → All P ys → All P (xs ++ ys)
  All-append P [] ys hx hy = hy
  All-append P (x ∷ xs) ys hx hy = (hx.0, All-append P xs ys hx.1 hy)

  abbrev pub drop : ℕ → List A → List A
  drop zero xs = xs
  drop (suc n) [] = []
  drop (suc n) (x ∷ xs) = drop n xs

  pub any-drop : (n : ℕ) (xs : List A) (p : A → Bool) → any (drop n xs) p ≡ true → any xs p ≡ true
  any-drop zero xs p h = h
  any-drop (suc n) [] p h = h
  any-drop (suc n) (x ∷ xs) p h = ground (arith, any-drop n xs p h)

  abbrev pub take : ℕ → List A → List A
  take zero xs = []
  take (suc n) [] = []
  take (suc n) (x ∷ xs) = x ∷ take n xs

  pub drop-append : (m k : ℕ) (xs ys : List A) → m ≡ length xs + k → drop m (xs ++ ys) ≡ drop k ys
  drop-append m k [] ys h = ap (λ (t : ℕ). drop t ys) (omega (arith, h))
  drop-append zero k (x ∷ xs) ys h = absurd (omega (arith, h))
  drop-append (suc m) k (x ∷ xs) ys h = drop-append m k xs ys (omega (arith, h))

  pub take-append : (n : ℕ) (xs ys : List A) → length xs ≡ n → take n (xs ++ ys) ≡ xs
  take-append zero [] ys h = refl
  take-append zero (x ∷ xs) ys h = absurd (omega (arith, h))
  take-append (suc n) [] ys h = absurd (omega (arith, h))
  take-append (suc n) (x ∷ xs) ys h =
      ap (λ (t : List A). x ∷ t) (take-append n xs ys (omega (arith, h)))

  pub take-append_more :
      (m k : ℕ) (xs ys : List A) → m ≡ length xs + k → take m (xs ++ ys) ≡ xs ++ take k ys
  take-append_more m k [] ys h = ap (λ (t : ℕ). take t ys) (omega (arith, h))
  take-append_more zero k (x ∷ xs) ys h = absurd (omega (arith, h))
  take-append_more (suc m) k (x ∷ xs) ys h =
      ap (λ (t : List A). x ∷ t) (take-append_more m k xs ys (omega (arith, h)))
