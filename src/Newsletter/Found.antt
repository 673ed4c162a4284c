-- ===== src/Newsletter/Found.antt =====
-- An operation of core/newsletter.py on an issue that is there.
use gestalt_workframe.Prelude.{String, some, ◌≡◌, refl, text_key}
use gestalt_workframe.Prelude.Assoc.{get}
use gestalt_workframe.Newsletter.Rows.{Issue, Press, PressResult, with_issue}

pub with_issue_there :
    (id : String) (p : Press) (next : Issue → PressResult) (i : Issue)
    → get id p.issues ≡ some i
    → with_issue id p next ≡ next i
unfolding with_issue
with_issue_there id p next i h = rw (h, with_issue) refl
