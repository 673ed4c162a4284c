-- ===== src/Newsletter/Labels.antt =====
-- The numbers and labels of issues, and `create_empty_issue`, of core/newsletter.py.
use gestalt_workframe.Prelude.{
  ℕ, zero, suc, ◌+◌, ◌-◌, ◌/◌, ◌%◌, String, Bool, true, false, Option, none, some, List, [], ◌∷◌,
  nat_eq, leb, any, or_default, select, length, text_key, ◌==◌, if◌then◌else◌,
}
use gestalt_workframe.Prelude.Assoc.{Assoc}
use gestalt_workframe.Discovery.Rows.{Texts, raised}
use gestalt_workframe.Newsletter.Rows.{
  draft, Label, numbered, lettered, Issue, Press, PressResult, save_issue,
}

-- The loop of `_label_letter`, whose characters are reversed at the end, on fuel.
unfoldable pub letters : (fuel n : ℕ) → List ℕ → List ℕ
letters zero n later = later
letters (suc fuel) n later =
    let rest = letters fuel (n / 26 - 1) (n % 26 ∷ later) in
    if nat_eq (n / 26) 0 then n % 26 ∷ later else rest

-- `_label_letter`
unfoldable pub label_letter : ℕ → List ℕ
label_letter idx = letters (suc idx) idx []

unfoldable pub max_ship_number : Assoc String Issue → ℕ
max_ship_number [] = 0
max_ship_number ((id, i) ∷ rest) =
    let most = max_ship_number rest in
    let n = or_default i.ship_number 0 in if leb most n then n else most

-- `_next_ship_number`
unfoldable pub next_ship_number : Assoc String Issue → ℕ
next_ship_number issues = max_ship_number issues + 1

-- `_display_label_epoch(label) == epoch`
unfoldable pub is_of_epoch : ℕ → Label → Bool
is_of_epoch epoch (numbered n) = false
is_of_epoch epoch (lettered e s) = nat_eq e epoch

unfoldable pub is_unshipped : Option ℕ → Bool
is_unshipped none = true
is_unshipped (some n) = false

-- the labels that `next_display_label` counts
unfoldable pub counts : ℕ → String × Issue → Bool
counts epoch (id, i) =
    if is_unshipped i.ship_number then is_of_epoch epoch i.display_label else false

unfoldable pub next_display_label : Assoc String Issue → Label
next_display_label issues =
    let last_ship = max_ship_number issues in
    lettered last_ship (label_letter (length (select (counts last_ship) issues)))

unfoldable pub same_letters : List ℕ → List ℕ → Bool
same_letters [] [] = true
same_letters [] (y ∷ ys) = false
same_letters (x ∷ xs) [] = false
same_letters (x ∷ xs) (y ∷ ys) = let rest = same_letters xs ys in if nat_eq x y then rest else false

unfoldable pub same_label : Label → Label → Bool
same_label (numbered n) (numbered m) = nat_eq n m
same_label (numbered n) (lettered e s) = false
same_label (lettered e s) (numbered m) = false
same_label (lettered e s) (lettered d t) = if nat_eq e d then same_letters s t else false

-- the unique constraint on `display_label`
unfoldable pub is_label_taken : Label → Assoc String Issue → Bool
is_label_taken l issues = any (λ r. same_label r.1.display_label l) issues

abbrev pub empty_issue : Texts → ℕ → Label → (default subject : String) → ℕ → Issue
empty_issue tx now label default subject target = record {
  ship_number = none;
  display_label = label;
  status = draft;
  editorial_markdown = "";
  finds_json = [];
  subject = if tx.strip subject == "" then default else tx.strip subject;
  approved_by = "";
  approved_at = none;
  target_send_at = target;
  scheduled_send_at = none;
  sent_at = none;
  unpublished_at = none;
  updated_at = now;
}

-- `create_empty_issue` with no other writer between its attempts: each computes the label anew. The id
-- and the target that `next_default_target_send_at` may give are arguments, as is the subject
-- `f"Issue {label}"`.
unfoldable pub attempt_issue :
    (attempts : ℕ) → Texts → ℕ → String → (Label → String) → String → ℕ → Press → PressResult
attempt_issue zero tx now id default subject target p = (p, some (raised "RuntimeError"))
attempt_issue (suc attempts) tx now id default subject target p =
    let again = attempt_issue attempts tx now id default subject target p in
    let label = next_display_label p.issues in
    if is_label_taken label p.issues
    then again
    else (save_issue id (empty_issue tx now label (default label) subject target) p, none)

unfoldable pub create_empty_issue :
    Texts → ℕ → String → (Label → String) → String → ℕ → Press → PressResult
create_empty_issue = attempt_issue 3
