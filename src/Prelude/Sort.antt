-- ===== src/Prelude/Sort.antt =====
-- Python's `sorted`, which is stable, as insertion from the right; `precedes x y` is `not key y < key x`.
use Prim.Native.Nat.{ℕ, zero, suc, ◌+◌}
use mathlib.Core.Path.{◌≡◌, refl}
use mathlib.Core.Bool.{Bool, true, false}
use mathlib.Core.Logic.{inl, inr}
use mathlib.Core.List.{List, [], ◌∷◌}
use native.Mathlib.Omega.{arith}
use fund_lok.Prelude.Tests.{if◌then◌else◌, Bool-cases}
use fund_lok.Prelude.Lists.{All, All-map, All-drop, length, take, drop}

module _ {ℓ} {A : Type ℓ} where
  unfoldable pub insert_sorted : (A → A → Bool) → A → List A → List A
  insert_sorted precedes x [] = x ∷ []
  insert_sorted precedes x (y ∷ ys) =
      if precedes x y then x ∷ y ∷ ys else y ∷ insert_sorted precedes x ys

  unfoldable pub sorted : (A → A → Bool) → List A → List A
  unfolding insert_sorted
  sorted precedes [] = []
  sorted precedes (x ∷ xs) = insert_sorted precedes x (sorted precedes xs)

module _ {ℓ} {A : Type ℓ} where
  abbrev pub sum_by : (A → ℕ) → List A → ℕ
  sum_by f [] = 0
  sum_by f (x ∷ xs) = f x + sum_by f xs

module _ {ℓ} {A : Type ℓ} (precedes : A → A → Bool) where
  -- A sum over the items does not depend on their order.
  sum_by-insert_sorted :
      (f : A → ℕ) (x : A) (xs : List A) → sum_by f (insert_sorted precedes x xs) ≡ f x + sum_by f xs
  unfolding insert_sorted
  sum_by-insert_sorted f x [] = refl
  sum_by-insert_sorted f x (y ∷ ys) = elim (Bool-cases (precedes x y)) [
    | inl before ↦ rw before
    | inr after ↦ rw after (omega (arith, sum_by-insert_sorted f x ys))
  ]

  pub sum_by-sorted : (f : A → ℕ) (xs : List A) → sum_by f (sorted precedes xs) ≡ sum_by f xs
  unfolding sorted
  sum_by-sorted f [] = refl
  sum_by-sorted f (x ∷ xs) =
      omega (arith, sum_by-insert_sorted f x (sorted precedes xs), sum_by-sorted f xs)

  length-insert_sorted :
      (x : A) (xs : List A) → length (insert_sorted precedes x xs) ≡ suc (length xs)
  unfolding insert_sorted
  length-insert_sorted x [] = refl
  length-insert_sorted x (y ∷ ys) = elim (Bool-cases (precedes x y)) [
    | inl before ↦ rw before
    | inr after ↦ rw after (omega (arith, length-insert_sorted x ys))
  ]

  pub length-sorted : (xs : List A) → length (sorted precedes xs) ≡ length xs
  unfolding sorted
  length-sorted [] = refl
  length-sorted (x ∷ xs) =
      omega (arith, length-insert_sorted x (sorted precedes xs), length-sorted xs)

  insert_sorted-All {κ} :
      (P : A → Type κ) (x : A) (xs : List A) → P x → All P xs → All P (insert_sorted precedes x xs)
  unfolding insert_sorted
  insert_sorted-All P x [] h k = (h, tt)
  insert_sorted-All P x (y ∷ ys) h k = elim (Bool-cases (precedes x y)) [
    | inl before ↦ rw before (h, k)
    | inr after ↦ rw after (k.0, insert_sorted-All P x ys h k.1)
  ]

  pub sorted-All {κ} : (P : A → Type κ) (xs : List A) → All P xs → All P (sorted precedes xs)
  unfolding sorted
  sorted-All P [] h = tt
  sorted-All P (x ∷ xs) h = insert_sorted-All P x (sorted precedes xs) h.0 (sorted-All P xs h.1)

  -- Each item precedes all that follow it.
  abbrev pub IsSorted : List A → Type 0
  IsSorted [] = Unit
  IsSorted (x ∷ xs) = All (λ y. precedes x y ≡ true) xs × IsSorted xs

  module _ (total : (x y : A) → precedes x y ≡ false → precedes y x ≡ true)
      (trans : (x y z : A) → precedes x y ≡ true → precedes y z ≡ true → precedes x z ≡ true) where
    insert_sorted-IsSorted :
        (x : A) (xs : List A) → IsSorted xs → IsSorted (insert_sorted precedes x xs)
    unfolding insert_sorted
    insert_sorted-IsSorted x [] h = (tt, tt)
    insert_sorted-IsSorted x (y ∷ ys) h = elim (Bool-cases (precedes x y)) [
      | inl before ↦ rw before ((before, All-map (λ z p. trans x y z before p) ys h.0), h)
      | inr after ↦ rw after (
        insert_sorted-All (λ z. precedes y z ≡ true) x ys (total x y after) h.0,
        insert_sorted-IsSorted x ys h.1,
      )
    ]

    pub sorted-IsSorted : (xs : List A) → IsSorted (sorted precedes xs)
    unfolding sorted
    sorted-IsSorted [] = tt
    sorted-IsSorted (x ∷ xs) = insert_sorted-IsSorted x (sorted precedes xs) (sorted-IsSorted xs)

  -- What a slice takes from a sorted list precedes what it leaves.
  pub take-IsSorted-drop :
      (n : ℕ) (xs : List A)
      → IsSorted xs
      → All (λ x. All (λ y. precedes x y ≡ true) (drop n xs)) (take n xs)
  take-IsSorted-drop zero xs h = tt
  take-IsSorted-drop (suc n) [] h = tt
  take-IsSorted-drop (suc n) (x ∷ xs) h =
      (All-drop (λ y. precedes x y ≡ true) n xs h.0, take-IsSorted-drop n xs h.1)
