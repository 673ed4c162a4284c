-- ===== src/Discovery/Tests.antt =====
-- A desk of two finds, and the theorems on core/discovery_queue.py at it.
use gestalt_workframe.Prelude.{
  ℕ, ◌≡◌, ◌≤◌, ◌⊎◌, refl, inl, inr, String, Bool, true, false, Option, none, some, List, [], ◌∷◌,
  All, IsIn, text_key, length, arith, take,
}
use gestalt_workframe.Prelude.Int.{pos}
use gestalt_workframe.Prelude.Assoc.{get}
use gestalt_workframe.Discovery.Rows.{
  auto_indexed, Find, Source, Desk, Texts, find_with_source, api,
}
use gestalt_workframe.Discovery.Decide.{Ruling}
use gestalt_workframe.Discovery.Sources.{SourceUpdate, Paste}
use gestalt_workframe.Discovery.Lists.{
  ticker_max_items, on_ticker, has_source, since, newer, safe_limit, ticker_time, list_ticker_finds,
}
use gestalt_workframe.Discovery.Calls.{
  Call, withdraws, tickers, dismisses, pastes, updates, run_calls,
}
use gestalt_workframe.Discovery.Curated.{IsTidy}
use gestalt_workframe.Discovery.Curated.Runs.{run_calls-IsTidy}
use gestalt_workframe.Discovery.Ticker.{
  IsShowable, list_ticker_finds_sound, list_ticker_finds_newest,
}

abbrev as_is : Texts
as_is = record { strip = λ s. s; clip = λ n s. s }

abbrev feed : Source
feed = record {
  name = "releases";
  watch_type = "rss_feed";
  target = "https://example.org/feed";
  refresh_interval_seconds = 3600;
  importance_floor = "normal";
  active = true;
  notes = "";
  featured = false;
  updated_at = none;
}

abbrev release : Find
release = record {
  discovery_source_id = "s1";
  finding_type = "release";
  external_id = "e1";
  title = "A release";
  url = "https://example.org/1";
  summary_text = "";
  raw_payload = "";
  status = auto_indexed;
  decision_notes = "";
  reviewer = "";
  first_seen_at = 5;
  decided_at = none;
  ingested_into_chroma = true;
  published_to_library_repo = false;
  library_target_path = "";
  library_file_url = "";
  library_promotion_error = "";
  promoted_at = none;
  featured = true;
  featured_at = some 7;
  ticker_featured = true;
  ticker_featured_at = some 7;
  newsletter_pending = false;
  dismissed = false;
  newsletter_issue_id = none;
  published_in_newsletter_at = none;
}

abbrev older : Find
older = record release { external_id = "e2"; ticker_featured_at = some 6 }

abbrev desk : Desk
desk = record {
  finds = ("f1", release) ∷ ("f2", older) ∷ [];
  sources = ("s1", feed) ∷ [];
  audits = [];
  library_files = [];
  chroma = "f1" ∷ [];
}

abbrev approval : Ruling
approval = record {
  reviewer = "ana";
  notes = "";
  ingest_into_chroma = true;
  publish_to_library = true;
}

abbrev pasted : Paste
pasted = record {
  url = "https://example.org/2";
  title = "A page";
  description = "";
  payload = "";
  queue_for_newsletter = true;
  reviewer = "ana";
}

abbrev slower : SourceUpdate
slower = record {
  refresh_interval_seconds = some 299;
  active = none;
  notes = none;
  importance_floor = none;
}

abbrev day : List Call
day =
    dismisses "f1" true "ana"
    ∷ tickers 9 "f1" true "ana"
    ∷ pastes 10 "s2" "f3" pasted
    ∷ dismisses "f3" true "ana"
    ∷ updates 11 "s1" slower api
    ∷ withdraws 12 "f1" "ana" ""
    ∷ []

desk-IsTidy : IsTidy desk
desk-IsTidy = (
  record { off_ticker = λ h. ground (arith, h); unqueued = λ h. refl; timed = refl },
  (record { off_ticker = λ h. ground (arith, h); unqueued = λ h. refl; timed = refl }, tt),
)

run_calls-IsTidy_example : IsTidy (run_calls as_is day desk)
run_calls-IsTidy_example = run_calls-IsTidy as_is day desk desk-IsTidy

-- The limit of 0 is taken as 1, and the newest find comes first.
newest_shown : list_ticker_finds 8 (pos 0) desk ≡ ("f1", release) ∷ []
unfolding list_ticker_finds safe_limit gestalt_workframe.Prelude.Sort.sort_by on_ticker has_source
    since get newer
newest_shown = refl

list_ticker_finds_sound_example :
    (length (list_ticker_finds 8 (pos 50) desk) ≤ ticker_max_items)
    × All (IsShowable 8) (list_ticker_finds 8 (pos 50) desk)
list_ticker_finds_sound_example = list_ticker_finds_sound 8 (pos 50) desk

older_shown : on_ticker 8 desk.sources ("f2", older) ≡ true
unfolding on_ticker has_source get since
older_shown = refl

list_ticker_finds_newest_example :
    IsIn ("f2", older) (list_ticker_finds 8 (pos 1) desk)
    ⊎ ((length (list_ticker_finds 8 (pos 1) desk) ≡ safe_limit (pos 1))
        × All (λ s. ticker_time ("f2", older) ≤ ticker_time s) (list_ticker_finds 8 (pos 1) desk))
list_ticker_finds_newest_example =
    list_ticker_finds_newest 8 (pos 1) desk ("f2", older) (inr (inl refl)) older_shown

there : find_with_source "f1" desk ≡ some (release, feed)
unfolding find_with_source get
there = refl
