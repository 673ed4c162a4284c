-- ===== src/Newsletter/Letters.antt =====
-- The letters of labels, which core/newsletter.py counts with.
use gestalt_workframe.Prelude.{
  ℕ, zero, suc, ◌+◌, ◌-◌, ◌*◌, ◌/◌, ◌%◌, ◌<◌, ◌≡◌, ap, ◌∙◌, refl, List, [], ◌∷◌, arith, All, false,
  inl, inr, Bool-cases, nat_eq, nat_eq_iff,
}
use gestalt_workframe.Newsletter.Labels.{letters, label_letter}

-- What letters count to, after `n`: those of a spreadsheet's columns, from 1 on.
unfoldable pub reading : ℕ → List ℕ → ℕ
reading n [] = n
reading n (d ∷ ds) = reading (26 * n + d + 1) ds

positive : (n : ℕ) → nat_eq n 0 ≡ false → 0 < n
positive zero h = ground arith
positive (suc n) h = omega arith

reading-letters :
    (fuel n : ℕ) (later : List ℕ)
    → n < fuel
    → reading 0 (letters fuel n later) ≡ reading (n + 1) later
unfolding letters reading
reading-letters zero n later h = ground arith
reading-letters (suc fuel) n later h = elim (Bool-cases (nat_eq (n / 26) 0)) [
  | inl e ↦ rw e (ap (λ x. reading x later) (omega (arith, (nat_eq_iff (n / 26) 0).0 e)))
  | inr e ↦ rw e (
      reading-letters fuel (n / 26 - 1) (n % 26 ∷ later) (omega (arith, positive (n / 26) e))
      ∙ ap (λ x. reading x later) (omega (arith, positive (n / 26) e)))
]

letters-digits :
    (fuel n : ℕ) (later : List ℕ)
    → All (λ d. d < 26) later
    → All (λ d. d < 26) (letters fuel n later)
unfolding letters
letters-digits zero n later h = h
letters-digits (suc fuel) n later h = elim (Bool-cases (nat_eq (n / 26) 0)) [
  | inl e ↦ rw e (omega arith, h)
  | inr e ↦ rw e (letters-digits fuel (n / 26 - 1) (n % 26 ∷ later) (omega arith, h))
]

-- The letters of an index, each one of 26, read as a column of a spreadsheet, give the index back, counted
-- from 1.
pub label_letter_counts :
    (n : ℕ) → (reading 0 (label_letter n) ≡ n + 1) × All (λ d. d < 26) (label_letter n)
unfolding label_letter reading
label_letter_counts n = (reading-letters (suc n) n [] (omega arith), letters-digits (suc n) n [] tt)

-- The loop that makes the letters of an index ends after at most one round more than the index: with any
-- two amounts of fuel above the index it gives the same letters.
pub letters_terminate :
    (fuel other n : ℕ) (later : List ℕ)
    → n < fuel
    → n < other
    → letters fuel n later ≡ letters other n later
unfolding letters
letters_terminate zero other n later h k = ground arith
letters_terminate (suc fuel) zero n later h k = ground arith
letters_terminate (suc fuel) (suc other) n later h k = elim (Bool-cases (nat_eq (n / 26) 0)) [
  | inl e ↦ rw e refl
  | inr e ↦
      rw
        (
          e,
          letters_terminate fuel other (n / 26 - 1) (n % 26 ∷ later)
              (omega (arith, positive (n / 26) e)) (omega (arith, positive (n / 26) e)),
        )
        refl
]
