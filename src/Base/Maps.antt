-- ===== src/Base/Maps.antt =====
-- Go's maps as association lists: a key is given by the test that it is the one.
use mathlib.Core.Path.{◌≡◌, refl}
use mathlib.Core.Logic.{inl, inr}
use mathlib.Core.Bool.{Bool, true, false}
use mathlib.Core.Option.{Option, none, some}
use mathlib.Core.List.{List, [], ◌∷◌}
use native.Mathlib.Omega.{arith}
use tailscale_derp.Base.Tests.{if◌then◌else◌, Bool-cases, is_empty, is_some}

module _ {K V : Type 0} where
  unfoldable pub find : (K → Bool) → List (K × V) → Option V
  find is [] = none
  find is ((k, v) ∷ xs) = if is k then some v else find is xs

  unfoldable pub remove : (K → Bool) → List (K × V) → List (K × V)
  remove is [] = []
  remove is ((k, v) ∷ xs) = let rest = remove is xs in if is k then rest else (k, v) ∷ rest

  unfoldable pub put : (K → Bool) → K → V → List (K × V) → List (K × V)
  unfolding remove
  put is k v xs = (k, v) ∷ remove is xs

  pub find-remove : (is : K → Bool) (xs : List (K × V)) → find is (remove is xs) ≡ none
  unfolding find remove
  find-remove is [] = refl
  find-remove is ((k, v) ∷ xs) = elim (Bool-cases (is k)) [
    | inl q ↦ simp q (find-remove is xs)
    | inr q ↦ simp (q, find) (find-remove is xs)
  ]

  pub find-remove_other :
      (is other : K → Bool) (xs : List (K × V))
      → ((k : K) → is k ≡ true → other k ≡ false)
      → find other (remove is xs) ≡ find other xs
  unfolding find remove
  find-remove_other is other [] h = refl
  find-remove_other is other ((k, v) ∷ xs) h = elim (Bool-cases (is k)) [
    | inl q ↦ simp (q, h k q) (find-remove_other is other xs h)
    | inr q ↦ simp (q, find, find-remove_other is other xs h) refl
  ]

  pub find-put :
      (is : K → Bool) (k : K) (v : V) (xs : List (K × V))
      → is k ≡ true
      → find is (put is k v xs) ≡ some v
  unfolding find put
  find-put is k v xs q = simp q refl

  pub find-put_other :
      (is other : K → Bool) (k : K) (v : V) (xs : List (K × V))
      → ((k : K) → is k ≡ true → other k ≡ false)
      → is k ≡ true
      → find other (put is k v xs) ≡ find other xs
  unfolding find put
  find-put_other is other k v xs h q = simp (h k q) (find-remove_other is other xs h)

  pub find-filled :
      (is : K → Bool) (xs : List (K × V)) → is_some (find is xs) ≡ true → is_empty xs ≡ false
  unfolding find
  find-filled is [] h = ground arith
  find-filled is (x ∷ xs) h = refl
