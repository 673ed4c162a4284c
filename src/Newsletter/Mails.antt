-- ===== src/Newsletter/Mails.antt =====
-- The emails that the loop of core/newsletter.py adds.
use gestalt_workframe.Prelude.{
  ℕ, String, List, [], ◌∷◌, ◌≡◌, ◌≢◌, refl, sym, ap, ◌∙◌, inl, inr, text_key, IsIn, All, All-imp,
  ◌⊎◌,
}
use gestalt_workframe.Newsletter.Rows.{Press}
use gestalt_workframe.Newsletter.Dispatch.{Mailing, send_emails}
use gestalt_workframe.Newsletter.Calls.{IsDistinct}

All-intro : {A : Type 0} (P : A → Type 0) (xs : List A) → ((x : A) → IsIn x xs → P x) → All P xs
All-intro P [] h = tt
All-intro P (x ∷ xs) h = (h x (inl refl), All-intro P xs (λ y i. h y (inr i)))

-- the emails of the loop are of its issue, and distinct from each other
module _ (mail : String → Mailing) (now : ℕ) (id : String) where
  pub mails-send_emails :
      (ss : List String) (p : Press) (m : String × String)
      → IsIn m (send_emails mail now id ss p).mails
      → (id ≡ m.0) ⊎ IsIn m p.mails
  unfolding send_emails
  mails-send_emails [] p m i = inr i
  mails-send_emails (s ∷ ss) p m i = elim (mails-send_emails ss _ m i) [
    | inl e ↦ inl e
    | inr (inl e) ↦ inl (sym (ap (λ (k : String × String). k.0) e))
    | inr (inr j) ↦ inr j
  ]

  pub once-send_emails :
      (ss : List String) (p : Press)
      → IsDistinct ss
      → ((m : String × String) → IsIn m p.mails → id ≡ m.0 → All (λ s. s ≢ m.1) ss)
      → IsDistinct p.mails
      → IsDistinct (send_emails mail now id ss p).mails
  unfolding send_emails
  once-send_emails [] p d h o = o
  once-send_emails (s ∷ ss) p d h o =
      once-send_emails ss _ d.1
        (λ m i e. elim i [
          | inl f ↦ All-imp _ _ ss (λ x n k. n (sym (k ∙ ap (λ (k : String × String). k.1) f))) d.0
          | inr j ↦ (h m j e).1
        ])
        (
          All-intro _ p.mails (λ m i f.
              (h m i (ap (λ (k : String × String). k.0) f)).0
                (ap (λ (k : String × String). k.1) f)),
          o,
        )
