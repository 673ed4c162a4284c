-- ===== src/Prelude/Sort.antt =====
-- Stable insertion sort by a Boolean comparison, as `sorted` and `ORDER BY` give it.
use Prim.Native.Nat.{ℕ, zero, suc}
use mathlib.Core.Path.{◌≡◌, refl}
use mathlib.Core.Logic.{◌⊎◌, inl, inr}
use mathlib.Core.Bool.{Bool, true, false}
use mathlib.Core.List.{List, [], ◌∷◌}
use native.Mathlib.Omega.{arith}
use gestalt_workframe.Prelude.Tests.{if◌then◌else◌, Bool-cases}
use gestalt_workframe.Prelude.Lists.{length, take, All, All-imp, All-IsIn, IsIn}

module _ {A : Type 0} (before : A → A → Bool) where
  unfoldable pub insert_by : A → List A → List A
  insert_by x [] = x ∷ []
  insert_by x (y ∷ ys) = let rest = insert_by x ys in if before x y then x ∷ y ∷ ys else y ∷ rest

  unfoldable pub sort_by : List A → List A
  unfolding insert_by
  sort_by [] = []
  sort_by (x ∷ xs) = insert_by x (sort_by xs)

  All-insert_by {ℓ} :
      (P : A → Type ℓ) (x : A) (xs : List A) → P x → All P xs → All P (insert_by x xs)
  unfolding insert_by
  All-insert_by P x [] h k = (h, tt)
  All-insert_by P x (y ∷ ys) h k = elim (Bool-cases (before x y)) [
    | inl e ↦ rw e (h, k)
    | inr e ↦ rw e (k.0, All-insert_by P x ys h k.1)
  ]

  pub All-sort_by {ℓ} : (P : A → Type ℓ) (xs : List A) → All P xs → All P (sort_by xs)
  unfolding sort_by
  All-sort_by P [] h = tt
  All-sort_by P (x ∷ xs) h = All-insert_by P x (sort_by xs) h.0 (All-sort_by P xs h.1)

  IsIn-insert_by : (a x : A) (xs : List A) → IsIn a (x ∷ xs) → IsIn a (insert_by x xs)
  unfolding insert_by
  IsIn-insert_by a x [] h = h
  IsIn-insert_by a x (y ∷ ys) h = elim (Bool-cases (before x y)) [
    | inl e ↦ rw e h
    | inr e ↦ rw e (elim h [
      | inl new ↦ inr (IsIn-insert_by a x ys (inl new))
      | inr (inl old) ↦ inl old
      | inr (inr old) ↦ inr (IsIn-insert_by a x ys (inr old))
    ])
  ]

  pub IsIn-sort_by : (a : A) (xs : List A) → IsIn a xs → IsIn a (sort_by xs)
  unfolding sort_by
  IsIn-sort_by a [] i = elim i [ ]
  IsIn-sort_by a (x ∷ xs) (inl e) = IsIn-insert_by a x (sort_by xs) (inl e)
  IsIn-sort_by a (x ∷ xs) (inr i) = IsIn-insert_by a x (sort_by xs) (inr (IsIn-sort_by a xs i))

-- Each element stands in the relation to all that follow it.
abbrev pub IsSortedBy : {A : Type 0} → (A → A → Type 0) → List A → Type 0
IsSortedBy R [] = Unit
IsSortedBy R (x ∷ xs) = All (R x) xs × IsSortedBy R xs

-- A comparison that decides a relation between elements that are fit to be compared.
pub record Ranks {A : Type 0} (before : A → A → Bool) (Fit : A → Type 0) (R : A → A → Type 0)
    : Type 0 where
  pub first : (a b : A) → before a b ≡ true → R a b
  pub later : (a b : A) → before a b ≡ false → R b a
  pub chain : (a b c : A) → Fit b → R a b → R b c → R a c

module _ {A : Type 0} (before : A → A → Bool) (Fit : A → Type 0) (R : A → A → Type 0)
    (r : Ranks before Fit R) where
  insert_by-IsSortedBy :
      (x : A) (xs : List A) → All Fit xs → IsSortedBy R xs → IsSortedBy R (insert_by before x xs)
  unfolding insert_by
  insert_by-IsSortedBy x [] fit h = (tt, tt)
  insert_by-IsSortedBy x (y ∷ ys) fit h = elim (Bool-cases (before x y)) [
    | inl e ↦ rw e (
      (r.first x y e, All-imp (R y) (R x) ys (λ z k. r.chain x y z fit.0 (r.first x y e) k) h.0),
      h,
    )
    | inr e ↦
        rw e
          (All-insert_by before (R y) x ys (r.later x y e) h.0, insert_by-IsSortedBy x ys fit.1 h.1)
  ]

  pub sort_by-IsSortedBy : (xs : List A) → All Fit xs → IsSortedBy R (sort_by before xs)
  unfolding sort_by
  sort_by-IsSortedBy [] fit = tt
  sort_by-IsSortedBy (x ∷ xs) fit =
      insert_by-IsSortedBy x (sort_by before xs) (All-sort_by before Fit xs fit.1)
        (sort_by-IsSortedBy xs fit.1)

-- What a limit cuts off comes after all that it keeps, and is cut off only where the limit is reached.
pub take-IsSortedBy :
    {A : Type 0} (R : A → A → Type 0) (n : ℕ) (a : A) (xs : List A)
    → IsSortedBy R xs
    → IsIn a xs
    → IsIn a (take n xs) ⊎ ((length (take n xs) ≡ n) × All (λ x. R x a) (take n xs))
take-IsSortedBy R n a [] h i = elim i [ ]
take-IsSortedBy R zero a (x ∷ xs) h i = inr (refl, tt)
take-IsSortedBy R (suc n) a (x ∷ xs) h (inl e) = inl (inl e)
take-IsSortedBy R (suc n) a (x ∷ xs) h (inr i) = elim (take-IsSortedBy R n a xs h.1 i) [
  | inl kept ↦ inl (inr kept)
  | inr cut ↦ inr (omega (arith, cut.0), (All-IsIn (R x) a xs h.0 i, cut.1))
]
