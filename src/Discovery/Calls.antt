-- ===== src/Discovery/Calls.antt =====
-- The operations of core/discovery_queue.py as steps of one desk.
use gestalt_workframe.Prelude.{ℕ, String, Bool, Option, List, [], ◌∷◌}
use gestalt_workframe.Discovery.Rows.{Desk, Texts, Actor}
use gestalt_workframe.Discovery.Decide.{Promotion, Ruling, decide_find, unpublish_find_from_latest}
use gestalt_workframe.Discovery.Library.{
  Deletion, unpublish_find_from_library, purge_find_from_kb, promote_find_to_library,
}
use gestalt_workframe.Discovery.Curate.{
  set_find_featured, set_find_ticker_featured, set_find_newsletter_pending, set_find_dismissed,
  set_source_featured,
}
use gestalt_workframe.Discovery.Watchlist.{WatchedSource}
use gestalt_workframe.Discovery.Sources.{
  SourceUpdate, Paste, add_watched_source, update_watched_source, create_manual_find,
}

-- A call, with what the outside answers in it.
pub data Call : Type 0 where
  decides : (now : ℕ) → Promotion → Option String → (id decision : String) → Ruling → Call
  withdraws : (now : ℕ) → (id reviewer notes : String) → Call
  features : (now : ℕ) → (id : String) → Bool → (reviewer : String) → Call
  tickers : (now : ℕ) → (id : String) → Bool → (reviewer : String) → Call
  queues : (id : String) → Bool → (reviewer : String) → Call
  dismisses : (id : String) → Bool → (reviewer : String) → Call
  unpublishes : Deletion → (id reviewer notes : String) → Call
  purges : Option String → (id reviewer notes : String) → Call
  promotes : (now : ℕ) → Promotion → (id reviewer notes : String) → Call
  pastes : (now : ℕ) → (source_id id : String) → Paste → Call
  adds :
      (is_safe : String → String → Bool)
      → (id : String) → WatchedSource
      → (notes : String) → Actor
      → Call
  updates : (now : ℕ) → (id : String) → SourceUpdate → Actor → Call
  features_source : (now : ℕ) → (id : String) → Bool → (reviewer : String) → Call

unfoldable pub run_call : Texts → Call → Desk → Desk
run_call tx (decides now publish ingest id decision r) d =
    (decide_find tx now publish ingest id decision r d).0
run_call tx (withdraws now id reviewer notes) d =
    (unpublish_find_from_latest tx now id reviewer notes d).0
run_call tx (features now id on reviewer) d = (set_find_featured now id on reviewer d).0
run_call tx (tickers now id on reviewer) d = (set_find_ticker_featured now id on reviewer d).0
run_call tx (queues id on reviewer) d = (set_find_newsletter_pending id on reviewer d).0
run_call tx (dismisses id on reviewer) d = (set_find_dismissed id on reviewer d).0
run_call tx (unpublishes del id reviewer notes) d =
    (unpublish_find_from_library tx del id reviewer notes d).0
run_call tx (purges fault id reviewer notes) d = (purge_find_from_kb tx fault id reviewer notes d).0
run_call tx (promotes now publish id reviewer notes) d =
    (promote_find_to_library tx now publish id reviewer notes d).0
run_call tx (pastes now source_id id p) d = (create_manual_find tx now source_id id p d).0
run_call tx (adds is_safe id w notes actor) d = (add_watched_source tx is_safe id w notes actor d).0
run_call tx (updates now id u actor) d = (update_watched_source tx now id u actor d).0
run_call tx (features_source now id on reviewer) d = (set_source_featured now id on reviewer d).0

unfoldable pub run_calls : Texts → List Call → Desk → Desk
run_calls tx [] d = d
run_calls tx (c ∷ cs) d = run_calls tx cs (run_call tx c d)
