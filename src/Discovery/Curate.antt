-- ===== src/Discovery/Curate.antt =====
-- The flags of core/discovery_queue.py that an operator sets on a find or on a source.
use gestalt_workframe.Prelude.{
  ℕ, String, Bool, false, Option, none, some, ◌∷◌, text_key, if◌then◌else◌,
}
use gestalt_workframe.Prelude.Assoc.{get, put}
use gestalt_workframe.Discovery.Rows.{
  Find, Source, find_decision, source_updated, flag_is, Desk, Problem, lookup_error, shown, Result,
  actor_of, with_find, save, find_audit,
}

stamp : ℕ → Bool → Option ℕ
stamp now on = if on then some now else none

-- what the four setters share: the row is read, changed, audited and committed
unfoldable pub set_flag :
    String → (Find → Find) → String → (Find → Bool) → Bool → String → String → Desk → Result
set_flag id change flag was on reviewer reason d = with_find id d λ f. (
  save id (change f)
      (find_audit id f find_decision reviewer (flag_is flag (was f)) (flag_is flag on) reason) d,
  shown (change f),
)

unfoldable pub featured_row : ℕ → Bool → Find → Find
unfolding stamp
featured_row now on f = record f { featured = on; featured_at = stamp now on }

unfoldable pub set_find_featured : ℕ → String → Bool → String → Desk → Result
set_find_featured now id on reviewer =
    set_flag id (featured_row now on) "featured" (λ f. f.featured) on reviewer "feature_toggle"

unfoldable pub ticker_row : ℕ → Bool → Find → Find
unfolding stamp
ticker_row now on f = record f {
  ticker_featured = on;
  ticker_featured_at = stamp now on;
  featured = on;
  featured_at = stamp now on;
  dismissed = if on then false else f.dismissed;
}

unfoldable pub set_find_ticker_featured : ℕ → String → Bool → String → Desk → Result
set_find_ticker_featured now id on reviewer =
    set_flag id (ticker_row now on) "ticker_featured" (λ f. f.ticker_featured) on reviewer
      "ticker_feature_toggle"

unfoldable pub pending_row : Bool → Find → Find
pending_row on f = record f {
  newsletter_pending = on;
  dismissed = if on then false else f.dismissed;
}

unfoldable pub set_find_newsletter_pending : String → Bool → String → Desk → Result
set_find_newsletter_pending id on reviewer =
    set_flag id (pending_row on) "newsletter_pending" (λ f. f.newsletter_pending) on reviewer
      "newsletter_queue_toggle"

unfoldable pub dismissed_row : Bool → Find → Find
dismissed_row on f =
    if on
    then record f {
      dismissed = on;
      ticker_featured = false;
      ticker_featured_at = none;
      newsletter_pending = false;
      featured = false;
      featured_at = none;
    }
    else record f { dismissed = on }

unfoldable pub set_find_dismissed : String → Bool → String → Desk → Result
set_find_dismissed id on reviewer =
    set_flag id (dismissed_row on) "dismissed" (λ f. f.dismissed) on reviewer "dismiss_toggle"

featured_source : ℕ → String → Bool → String → Desk → Option Source → Desk × Option Problem
featured_source now id on reviewer d none = (d, some lookup_error)
featured_source now id on reviewer d (some s) = (
  record d {
    sources = put id (record s { featured = on; updated_at = some now }) d.sources;
    audits =
        record {
          find_id = none;
          source_id = some id;
          event_type = source_updated;
          actor = actor_of reviewer;
          before_state = flag_is "featured" s.featured;
          after_state = flag_is "featured" on;
          reason = "feature_toggle";
        }
        ∷ d.audits;
  },
  none,
)

unfoldable pub set_source_featured : ℕ → String → Bool → String → Desk → Desk × Option Problem
unfolding featured_source
set_source_featured now id on reviewer d = featured_source now id on reviewer d (get id d.sources)
