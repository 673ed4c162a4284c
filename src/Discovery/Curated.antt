-- ===== src/Discovery/Curated.antt =====
-- The flags of a find, over any calls of core/discovery_queue.py.
pub mod Decided
pub mod Runs
use gestalt_workframe.Prelude.{
  ℕ, String, Bool, true, false, not, Option, none, some, List, [], ◌∷◌, ◌≡◌, refl, sym, ap, inl,
  inr, arith, Bool-cases, Option-cases, text_key, ◌==◌, ◌&&◌, ◌||◌, if◌then◌else◌,
}
use mathlib.Core.Path.{subst}
use mathlib.Core.Option.{some_inj}
use gestalt_workframe.Prelude.Assoc.{Assoc, get, put, AllValues, put-AllValues, get-AllValues}
use gestalt_workframe.Discovery.Rows.{
  Actor, Find, Source, Desk, Texts, Result, shown, refused, value_error, is_public,
  find_with_source, with_find,
}
use gestalt_workframe.Discovery.Decide.{
  Promotion, promoted, promotion_failed, Ruling, url_of, promoted_row, settle_decision, decide_row,
  decide_find, is_withdrawn, withdrawn_row, withdraw_find, unpublish_find_from_latest,
}
use gestalt_workframe.Discovery.Library.{
  Deletion, cleared_row, deleted, deletion_failed, unpublish_row, clear_library, purge_row,
  promote_row, unpublish_find_from_library, purge_find_from_kb, promote_find_to_library,
}
use gestalt_workframe.Discovery.Curate.{
  set_flag, featured_row, ticker_row, pending_row, dismissed_row, set_find_featured,
  set_find_ticker_featured, set_find_newsletter_pending, set_find_dismissed, set_source_featured,
}
use gestalt_workframe.Discovery.Sources.{
  Paste, source_named, manual_find, SourceUpdate, create_manual_find, requeue, insert_manual,
  ensure_manual_source, find_external, add_watched_source, update_watched_source,
}
use gestalt_workframe.Discovery.Found.{found}
use gestalt_workframe.Discovery.Calls.{
  Call, decides, withdraws, features, tickers, queues, dismisses, unpublishes, purges, promotes,
  pastes, adds, updates, features_source, run_call, run_calls,
}
use gestalt_workframe.Discovery.Watchlist.{WatchedSource}

abbrev has_time : Option ℕ → Bool
has_time none = false
has_time (some t) = true

-- A find that was dismissed is neither on the ticker nor queued for the newsletter, and the ticker's instant is set
-- exactly with its flag.
pub record IsCurated (f : Find) : Type 0 where
  pub off_ticker : f.dismissed ≡ true → f.ticker_featured ≡ false
  pub unqueued : f.dismissed ≡ true → f.newsletter_pending ≡ false
  pub timed : has_time f.ticker_featured_at ≡ f.ticker_featured

abbrev pub IsTidy : Desk → Type 0
IsTidy d = AllValues IsCurated d.finds

found-IsCurated :
    (id : String) (d : Desk) (p : Find × Source)
    → IsTidy d
    → find_with_source id d ≡ some p
    → IsCurated p.0
found-IsCurated id d p h e = get-AllValues IsCurated id p.0 d.finds h (found id d p e)

pub with_find-IsTidy :
    (id : String) (d : Desk) (next : Find → Result)
    → ((f : Find) → IsCurated f → IsTidy (next f).0)
    → IsTidy d
    → IsTidy (with_find id d next).0
unfolding with_find
with_find-IsTidy id d next keep h = elim (Option-cases (find_with_source id d)) [
  | inl e ↦ rw (e, with_find) h
  | inr (p, e) ↦ rw (e, with_find) (keep p.0 (found-IsCurated id d p h e))
]

pub if-IsTidy : (b : Bool) (x y : Result) → IsTidy x.0 → IsTidy y.0 → IsTidy (if b then x else y).0
if-IsTidy true x y h k = h
if-IsTidy false x y h k = k

-- a row with the flags of a curated one
module _ (id : String) (f g : Find) (d : Desk) where
  pub saved-IsTidy :
      g.dismissed ≡ f.dismissed
      → g.ticker_featured ≡ f.ticker_featured
      → g.newsletter_pending ≡ f.newsletter_pending
      → g.ticker_featured_at ≡ f.ticker_featured_at
      → IsCurated f
      → IsTidy d
      → AllValues IsCurated (put id g d.finds)
  saved-IsTidy a b c e k h =
      put-AllValues IsCurated id g d.finds
        (ground (arith, a, b, c, e, k.off_ticker, k.unqueued, k.timed)) h

pub set_flag-IsTidy :
    (id : String) (change : Find → Find) (flag : String) (was : Find → Bool) (on : Bool)
    (reviewer reason : String) (d : Desk)
    → ((f : Find) → IsCurated f → IsCurated (change f))
    → IsTidy d
    → IsTidy (set_flag id change flag was on reviewer reason d).0
unfolding set_flag
set_flag-IsTidy id change flag was on reviewer reason d keep h =
    with_find-IsTidy id d _ (λ f c. put-AllValues IsCurated id (change f) d.finds (keep f c) h) h

pub featured_row-IsCurated :
    (now : ℕ) (on : Bool) (f : Find) → IsCurated f → IsCurated (featured_row now on f)
unfolding featured_row
featured_row-IsCurated now on f c = ground (arith, c.off_ticker, c.unqueued, c.timed)

pub ticker_row-IsCurated :
    (now : ℕ) (on : Bool) (f : Find) → IsCurated f → IsCurated (ticker_row now on f)
unfolding ticker_row
ticker_row-IsCurated now true f c = ground (arith, c.off_ticker, c.unqueued, c.timed)
ticker_row-IsCurated now false f c = ground (arith, c.off_ticker, c.unqueued, c.timed)

pub pending_row-IsCurated : (on : Bool) (f : Find) → IsCurated f → IsCurated (pending_row on f)
unfolding pending_row
pending_row-IsCurated on f c = ground (arith, c.off_ticker, c.unqueued, c.timed)

pub dismissed_row-IsCurated : (on : Bool) (f : Find) → IsCurated f → IsCurated (dismissed_row on f)
unfolding dismissed_row
dismissed_row-IsCurated on f c = ground (arith, c.off_ticker, c.unqueued, c.timed)
