-- ===== src/Newsletter/Sent.antt =====
-- The parts of a dispatch of core/newsletter.py on a row that is there.
use gestalt_workframe.Prelude.{
  ℕ, String, Bool, true, false, none, some, List, [], ◌∷◌, ◌≡◌, ◌⊎◌, refl, ◌∙◌, inl, inr, arith,
  Bool-cases, text_key, any, map, IsIn, All, if◌then◌else◌,
}
use gestalt_workframe.Prelude.Assoc.{Assoc, get, put, get-put_self}
use gestalt_workframe.Discovery.Rows.{Find}
use gestalt_workframe.Newsletter.Rows.{Issue, Press, save_issue, is_approved}
use gestalt_workframe.Newsletter.Labels.{max_ship_number, next_ship_number}
use gestalt_workframe.Newsletter.Finds.{is_tagged, live_finds_for_issue}
use gestalt_workframe.Newsletter.Dispatch.{
  sending_row, claim, snapshot_row, snapshot, shipped_row, assign_ship_number, Mailing, send_emails,
  published_row, is_included, published_finds, Post, sent_row, finish_issue,
}

-- the emails of the loop are there
module _ (mail : String → Mailing) (now : ℕ) (id : String) where
  mails-kept :
      (ss : List String) (p : Press) (m : String × String)
      → IsIn m p.mails
      → IsIn m (send_emails mail now id ss p).mails
  unfolding send_emails
  mails-kept [] p m i = i
  mails-kept (s ∷ ss) p m i = mails-kept ss _ m (inr i)

  pub mails-All :
      (ss : List String) (p : Press)
      → All (λ s. IsIn (id, s) (send_emails mail now id ss p).mails) ss
  unfolding send_emails
  mails-All [] p = tt
  mails-All (s ∷ ss) p = (mails-kept ss _ (id, s) (inl refl), mails-All ss _)

  desk-send_emails : (ss : List String) (p : Press) → (send_emails mail now id ss p).desk ≡ p.desk
  unfolding send_emails
  desk-send_emails [] p = refl
  desk-send_emails (s ∷ ss) p = desk-send_emails ss _

if-tagged :
    (b : Bool) (now : ℕ) (id : String) (f : Find)
    → is_tagged id (if b then published_row now f else f) ≡ is_tagged id f
unfolding is_tagged
if-tagged true now id f = refl
if-tagged false now id f = refl

-- a find of an issue that went out, and any other
abbrev pub IsPublished : ℕ → String → String × Find → Type 0
IsPublished now id r =
    (is_tagged id r.1 ≡ false)
    ⊎ ((r.1.newsletter_pending ≡ false) × (r.1.published_in_newsletter_at ≡ some now))

any-none : {A : Type 0} (p : A → Bool) (xs : List A) → any p xs ≡ false → All (λ x. p x ≡ false) xs
any-none p [] h = tt
any-none p (x ∷ xs) h = (ground (arith, h), any-none p xs (ground (arith, h)))

module _ (now : ℕ) (id : String) (snap : List String) where
  row-IsPublished :
      (tags : Bool) (r : String × Find)
      → (tags ≡ true) ⊎ (is_tagged id r.1 ≡ false)
      → IsPublished now id (r.0, if is_included tags id snap r then published_row now r.1 else r.1)
  unfolding is_included is_tagged
  row-IsPublished tags r (inl h) = elim (Bool-cases (is_tagged id r.1)) [
    | inl t ↦ rw (h, t) (inr (refl, refl))
    | inr t ↦ rw (h, t) (inl t)
  ]
  row-IsPublished tags r (inr h) = inl (if-tagged (is_included tags id snap r) now id r.1 ∙ h)

  rows-IsPublished :
      (tags : Bool) (rs : Assoc String Find)
      → (tags ≡ true) ⊎ All (λ r. is_tagged id r.1 ≡ false) rs
      → All
          (IsPublished now id)
          (map (λ r. (r.0, if is_included tags id snap r then published_row now r.1 else r.1)) rs)
  rows-IsPublished tags [] h = tt
  rows-IsPublished tags (r ∷ rs) (inl h) =
      (row-IsPublished tags r (inl h), rows-IsPublished tags rs (inl h))
  rows-IsPublished tags (r ∷ rs) (inr h) =
      (row-IsPublished tags r (inr h.0), rows-IsPublished tags rs (inr h.1))

finds-IsPublished :
    (now : ℕ) (id : String) (snap : List String) (finds : Assoc String Find)
    → All (IsPublished now id) (published_finds now id snap finds)
unfolding published_finds
finds-IsPublished now id snap finds =
    let tagged : String × Find → Bool = λ r. is_tagged id r.1 in
    rows-IsPublished now id snap (any tagged finds) finds (elim (Bool-cases (any tagged finds)) [
      | inl e ↦ inl e
      | inr e ↦ inr (any-none tagged finds e)
    ])

-- a row that keeps its number leaves the greatest number as it is
pub max-put_same :
    (id : String) (i j : Issue) (m : Assoc String Issue)
    → get id m ≡ some i
    → j.ship_number ≡ i.ship_number
    → max_ship_number (put id j m) ≡ max_ship_number m
unfolding max_ship_number get put
max-put_same id i j [] h k = ground (arith, h)
max-put_same id i j ((a, w) ∷ m) h k = ground (arith, h, k, max-put_same id i j m)

-- the parts of a dispatch of a row that is there
module _ (now : ℕ) (id : String) (p : Press) (i : Issue) (h : get id p.issues ≡ some i) where
  pub claim-there :
      is_approved i.status ≡ true → claim now id p ≡ (save_issue id (sending_row now i) p, true)
  unfolding claim
  claim-there a = rw (h, claim, a) refl

  pub snapshot-there : snapshot id p ≡ save_issue id (snapshot_row (live_finds_for_issue id p) i) p
  unfolding snapshot
  snapshot-there = rw (h, snapshot) refl

  pub assign-there :
      assign_ship_number now id p
      ≡ (save_issue id (shipped_row now (next_ship_number p.issues) i) p, none)
  unfolding assign_ship_number
  assign-there = rw (h, assign_ship_number) refl

  pub finish-there :
      (post : Post)
      → ((finish_issue now post id p).1 ≡ none)
        × ((finish_issue now post id p).0.mails ≡ p.mails)
        × (get id (finish_issue now post id p).0.issues ≡ some (sent_row now i))
        × All (IsPublished now id) (finish_issue now post id p).0.desk.finds
  unfolding finish_issue
  finish-there post =
      rw (h, finish_issue)
        (
          refl,
          refl,
          get-put_self id (sent_row now i) p.issues,
          finds-IsPublished now id i.finds_json p.desk.finds,
        )
