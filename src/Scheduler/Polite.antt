-- ===== src/Scheduler/Polite.antt =====
-- How often core/discovery_scheduler.py polls the sources that core/discovery_queue.py keeps.
use gestalt_workframe.Prelude.{
  ℕ, ◌+◌, ◌*◌, ◌≤◌, ◌≡◌, refl, String, some, List, arith, IsIn, text_key,
}
use gestalt_workframe.Prelude.Assoc.{get, AllValues, get-AllValues}
use gestalt_workframe.Discovery.Rows.{Source, Desk, Texts}
use gestalt_workframe.Discovery.Calls.{Call, run_calls}
use gestalt_workframe.Discovery.Cadence.{IsPolite, run_calls-IsPolite}
use gestalt_workframe.Scheduler.Poll.{
  PolledSource, PollResult, select_due_sources, record_successful_poll, record_failed_poll,
}
use gestalt_workframe.Scheduler.Due.{polled_again, selected_due}

-- the row as it stands now
abbrev pub with_row : Source → PolledSource → PolledSource
with_row s p = record p { row = s }

five_minutes :
    (now later long : ℕ) → 300 ≤ long → now + long * 1000000 ≤ later → now + 300 * 1000000 ≤ later
five_minutes now later long h k = omega (arith, h, k)

-- No selection that reads the record of a source's poll, be it of a success or of a failure, takes the
-- source again before five minutes have passed since that poll, whatever calls of the queue's operations
-- changed its row in the meantime, where no source had an interval below five minutes before those calls
-- and the columns of the poll are still as it wrote them.
pub polled_politely :
    (tx : Texts) (cs : List Call) (d : Desk) (id : String) (s : Source) (p : PolledSource)
    (now later limit : ℕ) (result : PollResult) (error : String) (rows : List PolledSource)
    → AllValues IsPolite d.sources
    → get id (run_calls tx cs d).sources ≡ some s
    → (IsIn (with_row s (record_successful_poll now result p)) (select_due_sources later limit rows)
        → now + 300 * 1000000 ≤ later)
      × (IsIn (with_row s (record_failed_poll now error p)) (select_due_sources later limit rows)
          → now + 300 * 1000000 ≤ later)
unfolding record_successful_poll record_failed_poll
polled_politely tx cs d id s p now later limit result error rows polite found =
    let long = s.refresh_interval_seconds in
    let seldom = get-AllValues IsPolite id s _ (run_calls-IsPolite tx cs d polite) found in
    (
      λ i.
          five_minutes now later long seldom
            (polled_again now later _ refl (selected_due later limit rows _ i)),
      λ i.
          five_minutes now later long seldom
            (polled_again now later _ refl (selected_due later limit rows _ i)),
    )
