-- ===== src/Discovery/Lists.antt =====
-- The lists that core/discovery_queue.py shows: the public ticker and its count of finds to review, and
-- the pages of one source. The joins keep the finds whose source is there.
use gestalt_workframe.Prelude.{
  ℕ, ◌-◌, String, Bool, true, false, not, ◌&&◌, Option, none, some, List, ◌==◌, text_key, leb,
  nat_eq, min, take, select, length, if◌then◌else◌,
}
use gestalt_workframe.Prelude.Int.{ℤ, pos_part}
use gestalt_workframe.Prelude.Assoc.{Assoc, get}
use gestalt_workframe.Prelude.Sort.{sort_by}
use gestalt_workframe.Discovery.Rows.{Status, Find, Source, Desk}

is_rejected : Status → Bool
is_rejected Status.rejected = true
is_rejected _ = false

is_auto_indexed : Status → Bool
is_auto_indexed Status.auto_indexed = true
is_auto_indexed _ = false

-- `TICKER_WINDOW_DAYS`, in microseconds, and `TICKER_MAX_ITEMS`
abbrev pub ticker_window : ℕ
ticker_window = 2592000000000

abbrev pub ticker_max_items : ℕ
ticker_max_items = 10

abbrev pub Row : Type 0
Row = String × Find

unfoldable pub has_source : Assoc String Source → Row → Bool
has_source sources r = elim (get r.1.discovery_source_id sources) [ none ↦ false | some s ↦ true ]

-- the instant of a row that has one
unfoldable pub since : Option ℕ → ℕ → Bool
since none cutoff = false
since (some at) cutoff = leb cutoff at

-- the `where` clauses of `list_ticker_finds`
unfoldable pub on_ticker : ℕ → Assoc String Source → Row → Bool
unfolding is_rejected
on_ticker now sources r =
    has_source sources r
    && r.1.ticker_featured
    && since r.1.ticker_featured_at (now - ticker_window)
    && not r.1.dismissed
    && not (is_rejected r.1.status)

abbrev pub ticker_time : Row → ℕ
ticker_time r = elim r.1.ticker_featured_at [ none ↦ 0 | some at ↦ at ]

-- `ORDER BY ticker_featured_at DESC`; rows of one instant come in the table's order
unfoldable pub newer : Row → Row → Bool
newer a b = leb (ticker_time b) (ticker_time a)

-- `max(1, min(limit, TICKER_MAX_ITEMS))`
unfoldable pub safe_limit : ℤ → ℕ
safe_limit limit = let n = min (pos_part limit) ticker_max_items in if nat_eq n 0 then 1 else n

unfoldable pub list_ticker_finds : ℕ → ℤ → Desk → List Row
list_ticker_finds now limit d =
    take (safe_limit limit) (sort_by newer (select (on_ticker now d.sources) d.finds))

-- the `where` clauses of `count_uncurated_finds_per_source`
unfoldable pub is_uncurated : Row → Bool
unfolding is_auto_indexed
is_uncurated r =
    is_auto_indexed r.1.status
    && not r.1.ticker_featured
    && not r.1.newsletter_pending
    && not r.1.dismissed

-- one source's count of it
unfoldable pub count_uncurated : String → Desk → ℕ
count_uncurated source d =
    length (select (λ r. (r.1.discovery_source_id == source) && is_uncurated r) d.finds)
