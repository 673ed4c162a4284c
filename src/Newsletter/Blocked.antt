-- ===== src/Newsletter/Blocked.antt =====
-- Drafts of core/newsletter.py that are made after another was deleted.
use gestalt_workframe.Prelude.{
  ℕ, zero, suc, String, true, none, some, List, [], ◌∷◌, ◌≡◌, ◌≢◌, refl, sym, ap, ◌∙◌, arith, inl,
  inr, Bool-cases, nat_eq_iff, select, length, text_key,
}
use mathlib.Core.Path.{subst}
use gestalt_workframe.Prelude.Assoc.{Assoc, get, put, delete, get-put}
use gestalt_workframe.Discovery.Rows.{Texts, raised}
use gestalt_workframe.Newsletter.Rows.{Issue, Label, lettered, Press, PressResult, save_issue}
use gestalt_workframe.Newsletter.Found.{with_issue_there}
use gestalt_workframe.Newsletter.Labels.{
  label_letter, max_ship_number, is_unshipped, is_of_epoch, counts, next_display_label,
  same_letters, same_label, is_label_taken, empty_issue, attempt_issue, create_empty_issue,
}
use gestalt_workframe.Newsletter.Finds.{delete_issue}

same_letters_refl : (l : List ℕ) → same_letters l l ≡ true
unfolding same_letters
same_letters_refl [] = refl
same_letters_refl (x ∷ xs) = ground (arith, same_letters_refl xs, nat_eq_iff x x)

same_label-lettered : (n : ℕ) (l : List ℕ) → same_label (lettered n l) (lettered n l) ≡ true
unfolding same_label
same_label-lettered n l = ground (arith, same_letters_refl l, nat_eq_iff n n)

taken-put :
    (l : Label) (id : String) (i : Issue) (m : Assoc String Issue)
    → get id m ≡ none
    → same_label i.display_label l ≡ true
    → is_label_taken l (put id i m) ≡ true
unfolding is_label_taken get put
taken-put l id i [] h k = ground arith
taken-put l id i ((j, w) ∷ m) h k = ground (arith, taken-put l id i m)

-- an unshipped issue leaves the greatest number as it is
max-put :
    (id : String) (i : Issue) (m : Assoc String Issue)
    → get id m ≡ none
    → i.ship_number ≡ none
    → max_ship_number (put id i m) ≡ max_ship_number m
unfolding max_ship_number get put
max-put id i [] h k = ground arith
max-put id i ((j, w) ∷ m) h k = ground (arith, max-put id i m)

-- and is counted if its label is of the epoch
count-put :
    (epoch : ℕ) (id : String) (i : Issue) (m : Assoc String Issue)
    → get id m ≡ none
    → counts epoch (id, i) ≡ true
    → length (select (counts epoch) (put id i m)) ≡ suc (length (select (counts epoch) m))
unfolding get put
count-put epoch id i [] h k = ground arith
count-put epoch id i ((j, w) ∷ m) h k = ground (arith, count-put epoch id i m)

delete-fresh : (id : String) (m : Assoc String Issue) → get id m ≡ none → delete id m ≡ m
unfolding delete get
delete-fresh id [] h = refl
delete-fresh id ((j, w) ∷ m) h = ground (arith, delete-fresh id m)

delete-put :
    (id : String) (i : Issue) (m : Assoc String Issue)
    → get id m ≡ none
    → delete id (put id i m) ≡ m
unfolding delete get put
delete-put id i [] h = ground (arith, text_key.agree_iff id id)
delete-put id i ((j, w) ∷ m) h = ground (arith, delete-put id i m, text_key.agree_iff id id)

delete-put_other :
    (id other : String) (i : Issue) (m : Assoc String Issue)
    → id ≢ other
    → get other m ≡ none
    → delete id (put other i m) ≡ put other i (delete id m)
unfolding delete get put
delete-put_other id other i [] h k = ground (arith, text_key.agree_iff other id)
delete-put_other id other i ((j, w) ∷ m) h k = ground (
  arith,
  delete-put_other id other i m,
  text_key.agree_iff other id,
  text_key.agree_iff j id,
  text_key.agree_iff j other,
)

fails :
    (n : ℕ) (tx : Texts) (now : ℕ) (id : String) (name : Label → String) (subject : String)
    (target : ℕ) (p : Press)
    → is_label_taken (next_display_label p.issues) p.issues ≡ true
    → attempt_issue n tx now id name subject target p ≡ (p, some (raised "RuntimeError"))
unfolding attempt_issue
fails zero tx now id name subject target p h = refl
fails (suc n) tx now id name subject target p h = rw h (fails n tx now id name subject target p h)

-- what a creation that goes through has done
created :
    (tx : Texts) (now : ℕ) (id : String) (name : Label → String) (subject : String) (target : ℕ)
    (p : Press)
    → (create_empty_issue tx now id name subject target p).1 ≡ none
    → let l = next_display_label p.issues in
      (create_empty_issue tx now id name subject target p).0
      ≡ save_issue id (empty_issue tx now l (name l) subject target) p
unfolding create_empty_issue attempt_issue
created tx now id name subject target p h =
    elim (Bool-cases (is_label_taken (next_display_label p.issues) p.issues)) [
      | inl e ↦ cc
      | inr e ↦ rw e refl
    ]

next-put :
    (id : String) (i : Issue) (m : Assoc String Issue) (l : List ℕ)
    → get id m ≡ none
    → i.ship_number ≡ none
    → i.display_label ≡ lettered (max_ship_number m) l
    → next_display_label (put id i m)
      ≡ lettered
          (max_ship_number m)
          (label_letter (suc (length (select (counts (max_ship_number m)) m))))
unfolding next_display_label counts is_unshipped is_of_epoch
next-put id i m l h k e =
    rw
      (
        max-put id i m h k,
        count-put (max_ship_number m) id i m h
            (ground (arith, nat_eq_iff (max_ship_number m) (max_ship_number m))),
      )
      refl

deleted :
    (id : String) (q : Press) (i : Issue)
    → get id q.issues ≡ some i
    → ((delete_issue id q).1 ≡ none) × ((delete_issue id q).0.issues ≡ delete id q.issues)
unfolding delete_issue
deleted id q i h =
    let e = with_issue_there id q _ i h in
    (ap (λ (o : PressResult). o.1) e, ap (λ (o : PressResult). o.0.issues) e)

-- the issues after the deletion, and their label
module _ (a b : String) (x y : Issue) (m : Assoc String Issue) (ab : a ≢ b) (fa : get a m ≡ none)
    (fb : get b m ≡ none) where
  found_first : get a (put b y (put a x m)) ≡ some x
  found_first = ground (
    arith,
    get-put b a y (put a x m),
    get-put a a x m,
    text_key.agree_iff a a,
    text_key.agree_iff b a,
  )

  left_over : delete a (put b y (put a x m)) ≡ put b y m
  left_over =
      delete-put_other a b y (put a x m) ab
        (ground (arith, get-put a b x m, text_key.agree_iff a b))
      ∙ ap (put b y) (delete-put a x m fa)

  blocked :
      (q : Press) (l : List ℕ)
      → q.issues ≡ put b y (put a x m)
      → x.ship_number ≡ none
      → x.display_label ≡ lettered (max_ship_number m) l
      → y.ship_number ≡ none
      → y.display_label ≡ next_display_label (put a x m)
      → ((delete_issue a q).1 ≡ none)
        × (is_label_taken
              (next_display_label (delete_issue a q).0.issues)
              (delete_issue a q).0.issues
            ≡ true)
  blocked q l e kx lx ky ly =
      let del = deleted a q x (ap (get a) e ∙ found_first) in
      let left = del.1 ∙ ap (delete a) e ∙ left_over in
      let label = ly ∙ next-put a x m l fa kx lx in
      let next = next-put b y m _ fb ky label in
      (
        del.0,
        subst (λ (n : Assoc String Issue). is_label_taken (next_display_label n) n ≡ true)
            (sym left)
            (ap (λ (k : Label). is_label_taken k (put b y m)) next
              ∙ taken-put _ b y m fb (
                  ap
                    (λ (k : Label). same_label k (
                      lettered (max_ship_number m)
                        (label_letter (suc (length (select (counts (max_ship_number m)) m))))))
                    label
                  ∙ same_label-lettered (max_ship_number m) _)),
      )

-- Two drafts with ids that were free are made one after the other, and the first is deleted: this goes
-- through, and a creation after it fails with no effect, whatever its id, texts, target and instant.
pub create_empty_issue_blocked :
    (tx : Texts) (now later last target end other : ℕ) (a b c : String) (name : Label → String)
    (s t u : String) (p : Press)
    → a ≢ b
    → get a p.issues ≡ none
    → get b p.issues ≡ none
    → let one = create_empty_issue tx now a name s target p in
      let two = create_empty_issue tx later b name t end one.0 in
      let left = delete_issue a two.0 in
      one.1 ≡ none
      → two.1 ≡ none
      → (left.1 ≡ none)
        × (create_empty_issue tx last c name u other left.0
            ≡ (left.0, some (raised "RuntimeError")))
unfolding create_empty_issue next_display_label
create_empty_issue_blocked tx now later last target end other a b c name s t u p ab fa fb h k =
    let first = created tx now a name s target p h in
    let second = created tx later b name t end _ k in
    let issues =
      ap (λ (q : Press). q.issues) second
      ∙ ap
          (λ (q : Press).
            put b
              (empty_issue tx later (next_display_label q.issues)
                (name (next_display_label q.issues)) t end)
              q.issues)
          first in
    let stuck = blocked a b _ _ p.issues ab fa fb _ _ issues refl refl refl refl in
    (stuck.0, fails 3 tx last c name u other _ stuck.1)
