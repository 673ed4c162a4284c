-- ===== src/Discovery/Ticker.antt =====
-- What the public ticker of core/discovery_queue.py shows.
use gestalt_workframe.Prelude.{
  ℕ, String, ◌∷◌, [], Option-cases, text_key, ◌-◌, ◌≤◌, ◌≡◌, ◌≢◌, ◌⊎◌, true, false, List, arith,
  All, All-imp, All-select, All-take, IsIn, IsIn-select, length, length-take, select,
}
use native.Mathlib.Nat.{le_trans}
use gestalt_workframe.Prelude.Int.{ℤ}
use gestalt_workframe.Prelude.Assoc.{Assoc}
use gestalt_workframe.Prelude.Sort.{
  sort_by, All-sort_by, IsIn-sort_by, Ranks, sort_by-IsSortedBy, take-IsSortedBy,
}
use gestalt_workframe.Discovery.Rows.{rejected, Source, Desk}
use gestalt_workframe.Discovery.Lists.{
  Row, ticker_window, ticker_max_items, ticker_time, since, on_ticker, newer, safe_limit,
  list_ticker_finds,
}

-- A find that may stand on the ticker at an instant.
pub record IsShowable (now : ℕ) (r : Row) : Type 0 where
  pub flagged : r.1.ticker_featured ≡ true
  pub kept : r.1.dismissed ≡ false
  pub not_rejected : r.1.status ≢ rejected
  pub recent : now - ticker_window ≤ ticker_time r

on_ticker-IsShowable :
    (now : ℕ) (sources : Assoc String Source) (r : Row)
    → on_ticker now sources r ≡ true
    → IsShowable now r
unfolding on_ticker since
on_ticker-IsShowable now sources r h = ground (arith, Option-cases r.1.ticker_featured_at)

All-fit : (rs : List Row) → All (λ (r : Row). Unit {0}) rs
All-fit [] = tt
All-fit (r ∷ rs) = (tt, All-fit rs)

pub newer-Ranks : Ranks newer (λ (r : Row). Unit {0}) (λ a b. ticker_time b ≤ ticker_time a)
unfolding newer
newer-Ranks = record {
  first = λ a b h. ground arith;
  later = λ a b h. ground arith;
  chain = λ a b c f h k. omega arith;
}

-- Whatever limit is asked for, the ticker shows at most ten finds, and each is flagged for the ticker at
-- most thirty days ago, not dismissed and not rejected.
pub list_ticker_finds_sound :
    (now : ℕ) (limit : ℤ) (d : Desk)
    → (length (list_ticker_finds now limit d) ≤ ticker_max_items)
      × All (IsShowable now) (list_ticker_finds now limit d)
unfolding list_ticker_finds safe_limit
list_ticker_finds_sound now limit d =
    let shown = select (on_ticker now d.sources) d.finds in
    (
      le_trans (length-take (safe_limit limit) (sort_by newer shown)) (ground arith),
      All-take (IsShowable now) (safe_limit limit) (sort_by newer shown) (
          All-sort_by newer (IsShowable now) shown (
            All-imp _ (IsShowable now) shown (λ r k. on_ticker-IsShowable now d.sources r k.1)
              (All-select (λ (r : Row). Unit {0}) (on_ticker now d.sources) d.finds
                (All-fit d.finds)))),
    )

-- A find that may stand on the ticker is left off it only when as many finds as the limit allows are
-- shown, each flagged no earlier than it.
pub list_ticker_finds_newest :
    (now : ℕ) (limit : ℤ) (d : Desk) (r : Row)
    → IsIn r d.finds
    → on_ticker now d.sources r ≡ true
    → IsIn r (list_ticker_finds now limit d)
      ⊎ ((length (list_ticker_finds now limit d) ≡ safe_limit limit)
          × All (λ s. ticker_time r ≤ ticker_time s) (list_ticker_finds now limit d))
unfolding list_ticker_finds
list_ticker_finds_newest now limit d r i h =
    take-IsSortedBy (λ a b. ticker_time b ≤ ticker_time a) (safe_limit limit) r
      (sort_by newer (select (on_ticker now d.sources) d.finds))
      (sort_by-IsSortedBy newer (λ (r : Row). Unit {0}) _ newer-Ranks
        (select (on_ticker now d.sources) d.finds) (All-fit _))
      (IsIn-sort_by newer r _ (IsIn-select (on_ticker now d.sources) r d.finds h i))
