-- ===== src/Scheduler/Tests.antt =====
-- A table of two sources, and the theorems on core/discovery_scheduler.py at it.
use gestalt_workframe.Prelude.{
  ◌≡◌, ◌↔◌, ◌+◌, ◌*◌, ◌≤◌, text_key, refl, List, true, false, none, some, [], ◌∷◌, arith, IsIn, inl,
  inr,
}
use gestalt_workframe.Discovery.Rows.{Source, Desk, Texts}
use gestalt_workframe.Scheduler.Poll.{
  PolledSource, PollResult, is_active, select_due_sources, record_successful_poll,
  record_failed_poll,
}
use gestalt_workframe.Discovery.Calls.{features_source, run_call, run_calls}
use gestalt_workframe.Discovery.Curate.{set_source_featured}
use gestalt_workframe.Discovery.Cadence.{IsPolite}
use gestalt_workframe.Prelude.Assoc.{get, put, AllValues}
use gestalt_workframe.Scheduler.Polite.{with_row, polled_politely}
use gestalt_workframe.Scheduler.Due.{IsStale, due_iff}

abbrev feed : Source
feed = record {
  name = "feed";
  watch_type = "rss";
  target = "https://example.org/feed";
  refresh_interval_seconds = 3600;
  importance_floor = "low";
  active = true;
  notes = "";
  featured = false;
  updated_at = none;
}

abbrev new_feed : PolledSource
new_feed = record {
  row = feed;
  last_polled_at = none;
  last_status = "";
  last_error = "";
  consecutive_failures = 0;
  etag = "";
  last_modified = "";
}

abbrev old_feed : PolledSource
old_feed = record new_feed { last_polled_at = some 5 }

due_iff_example :
    IsIn old_feed (select_due_sources 3600000005 200 (new_feed ∷ old_feed ∷ []))
    ↔ ((is_active old_feed ≡ true) × IsStale 3600000005 old_feed)
due_iff_example =
    due_iff 3600000005 200 (new_feed ∷ old_feed ∷ []) old_feed (omega arith) (inr (inl refl))

abbrev desk : Desk
desk = record {
  finds = [];
  sources = ("s1", feed) ∷ [];
  audits = [];
  library_files = [];
  chroma = [];
}

abbrev as_is : Texts
as_is = record { strip = λ s. s; clip = λ n s. s }

abbrev featured_feed : Source
featured_feed = record feed { featured = true; updated_at = some 9 }

abbrev fetched : PollResult
fetched = record { status = "ok"; etag = ""; last_modified = "" }

desk-IsPolite : AllValues IsPolite desk.sources
desk-IsPolite = (omega arith, tt)

feed_featured :
    get "s1" (run_calls as_is (features_source 9 "s1" true "ana" ∷ []) desk).sources
    ≡ some featured_feed
unfolding run_calls run_call set_source_featured get put
feed_featured = refl

abbrev polled : List PolledSource
polled =
    with_row featured_feed (record_successful_poll 5 fetched new_feed)
    ∷ with_row featured_feed (record_failed_poll 5 "timeout" new_feed)
    ∷ []

polled_politely_example :
    (IsIn
        (with_row featured_feed (record_successful_poll 5 fetched new_feed))
        (select_due_sources 3600000005 200 polled)
      → 5 + 300 * 1000000 ≤ 3600000005)
    × (IsIn
          (with_row featured_feed (record_failed_poll 5 "timeout" new_feed))
          (select_due_sources 3600000005 200 polled)
        → 5 + 300 * 1000000 ≤ 3600000005)
polled_politely_example =
    polled_politely as_is (features_source 9 "s1" true "ana" ∷ []) desk "s1" featured_feed new_feed
      5 3600000005 200 fetched "timeout" polled desk-IsPolite feed_featured
