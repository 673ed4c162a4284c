-- ===== src/Newsletter/Finds.antt =====
-- The finds that core/newsletter.py tags to an issue, and `delete_issue`, which lets them go.
use gestalt_workframe.Prelude.{
  ℕ, ◌-◌, ◌*◌, String, Bool, true, false, not, ◌&&◌, ◌||◌, Option, none, some, List, leb, map,
  select, text_key, ◌==◌, if◌then◌else◌,
}
use gestalt_workframe.Prelude.Assoc.{Assoc, get, put, delete, map_values}
use gestalt_workframe.Discovery.Rows.{Status, Find, lookup_error, value_error}
use gestalt_workframe.Discovery.Lists.{has_source}
use gestalt_workframe.Newsletter.Rows.{
  Press, PressResult, with_issue, is_editable, is_approved, has_gone_out,
}

abbrev pub with_finds : (Assoc String Find → Assoc String Find) → Press → Press
with_finds change p = record p { desk = record p.desk { finds = change p.desk.finds } }

-- `newsletter_issue_id == id`
unfoldable pub is_tagged : String → Find → Bool
is_tagged id f = elim f.newsletter_issue_id [ none ↦ false | some j ↦ j == id ]

abbrev pub untagged_row : Find → Find
untagged_row f = record f { newsletter_issue_id = none; newsletter_pending = false }

abbrev pub tagged_row : String → Find → Find
tagged_row id f = record f {
  newsletter_issue_id = some id;
  newsletter_pending = true;
  dismissed = false;
}

-- `assign_find_to_issue`; `_OPEN_ISSUE_STATUSES` are the editable ones and `approved`
unfoldable pub assign_find_to_issue : String → Option String → Press → PressResult
assign_find_to_issue find_id issue p = elim (get find_id p.desk.finds) [
  | none ↦ (p, some lookup_error)
  | some f ↦ elim issue [
    | none ↦ (with_finds (put find_id (untagged_row f)) p, none)
    | some id ↦ with_issue id p (λ i.
        if is_editable i.status || is_approved i.status
        then (with_finds (put find_id (tagged_row id f)) p, none)
        else (p, some value_error))
  ]
]

unfoldable pub is_auto_indexed : Status → Bool
is_auto_indexed Status.auto_indexed = true
is_auto_indexed _ = false

abbrev is_set : {A : Type 0} → Option A → Bool
is_set none = false
is_set (some a) = true

-- the `where` clauses of `auto_populate_draft`
unfoldable pub is_eligible : ℕ → Find → Bool
is_eligible cutoff f =
    is_auto_indexed f.status
    && not (is_set f.newsletter_issue_id)
    && not f.dismissed
    && not (is_set f.published_in_newsletter_at)
    && leb cutoff f.first_seen_at

unfoldable pub populated_row : ℕ → String → Find → Find
populated_row cutoff id f =
    if is_eligible cutoff f
    then record f { newsletter_issue_id = some id; newsletter_pending = true }
    else f

-- `auto_populate_draft`, with `max(1, window_days)` days in microseconds
unfoldable pub auto_populate_draft : ℕ → ℕ → String → Press → Press
auto_populate_draft now window_days id p =
    let days = if leb 1 window_days then window_days else 1 in
    with_finds (map_values (populated_row (now - days * 86400000000) id)) p

-- `live_finds_for_issue`, by the ids of the finds in the order of their table; the code sorts them by a
-- column that no other part reads here
unfoldable pub live_finds_for_issue : String → Press → List String
live_finds_for_issue id p =
    map (λ r. r.0) (select (λ r. is_tagged id r.1 && has_source p.desk.sources r) p.desk.finds)

-- a find that loses its issue
unfoldable pub detached_row : String → Bool → Find → Find
detached_row id keeps f =
    if is_tagged id f
    then record f {
      newsletter_issue_id = none;
      newsletter_pending = false;
      published_in_newsletter_at = if keeps then f.published_in_newsletter_at else none;
    }
    else f

unfoldable pub delete_issue : String → Press → PressResult
delete_issue id p = with_issue id p λ i. (
  record p {
    desk = record p.desk {
      finds = map_values (detached_row id (has_gone_out i.status)) p.desk.finds;
    };
    deliveries = select (λ d. not (d.issue_id == id)) p.deliveries;
    issues = delete id p.issues;
  },
  none,
)
