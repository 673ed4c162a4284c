-- ===== src/Budget/Tests/Alerts.antt =====
-- Runs of the alert manager and of the session cost tracker, and their theorems at them.
use gestalt_workframe.Prelude.Assoc.{get}
use gestalt_workframe.Prelude.{text_key, ◌+◌, ◌≤◌, ◌≡◌, refl, some, [], ◌∷◌, map, arith, select}
use gestalt_workframe.Prelude.Int.{pos, negsuc}
use gestalt_workframe.Budget.Clock.{plain_calendar}
use gestalt_workframe.Budget.Database.{AlertKey, BudgetAlert, World, empty_db}
use gestalt_workframe.Budget.Alerts.{
  clean_thresholds, check_and_alert, alert_init, alert_of, send_alert,
}
use gestalt_workframe.Budget.Alerts.Once.{sent_on}
use gestalt_workframe.Budget.Alerts.Overlap.{
  Flights, key_of, Step, sends, here, next, count_on, IsMarked, marked_day_quiet,
}
use gestalt_workframe.Budget.Alerts.Exact.{due, check_and_alert-exact}
use gestalt_workframe.Budget.SessionCost.{event_of, send_session_alert}
use gestalt_workframe.Budget.SessionCost.Alert.{Spend, session_alerts}
use gestalt_workframe.Budget.SessionCost.Overlap
use gestalt_workframe.Budget.SessionCost.Overlap.{times, marked_session_quiet}
use gestalt_workframe.Budget.Tests.{calm_alerts, calm_tracker, manager, tracker, fresh, second_day}

abbrev key : AlertKey
key = key_of "anthropic" 80

-- One check has marked the threshold of 80, and another had read it as unmarked before.
abbrev late : Flights
late = record {
  world = record { db = record empty_db { alert_fired = (key, second_day) ∷ [] }; outbox = [] };
  unsent = alert_of "anthropic" 10 9 second_day 80 ∷ [];
  unmarked = [];
}

abbrev later : Flights
later = record {
  world = send_alert (alert_of "anthropic" 10 9 second_day 80) late.world;
  unsent = [];
  unmarked = alert_of "anthropic" 10 9 second_day 80 ∷ [];
}

late_sends : Step plain_calendar 1 late later
late_sends = sends (alert_of "anthropic" 10 9 second_day 80) [] [] late refl

late-IsMarked : IsMarked plain_calendar 1 key late.world
unfolding IsMarked get
late-IsMarked = (second_day, refl, refl)

marked_day_quiet_example :
    sent_on plain_calendar key 1 later.world.outbox
    ≤ sent_on plain_calendar key 1 late.world.outbox + count_on plain_calendar key 1 late.unsent
marked_day_quiet_example =
    marked_day_quiet plain_calendar 1 key late later late-IsMarked (next here late_sends)

clean_thresholds_sorted :
    clean_thresholds (some (pos 120 ∷ pos 80 ∷ negsuc 4 ∷ pos 80 ∷ [])) ≡ 0 ∷ 80 ∷ 100 ∷ []
unfolding clean_thresholds
clean_thresholds_sorted = refl

check_and_alert-exact_example :
    map
      (λ (a : BudgetAlert). a.threshold_pct)
      (check_and_alert plain_calendar calm_alerts second_day "anthropic" 10 9 manager fresh).2
    ≡ select (due plain_calendar calm_alerts second_day "anthropic" 10 9 fresh) (80 ∷ 100 ∷ [])
unfolding alert_init
check_and_alert-exact_example =
    check_and_alert-exact plain_calendar calm_alerts second_day "anthropic" 10 9 manager fresh refl
      refl (omega arith) (omega arith)

abbrev marked_world : World
marked_world = record {
  db = record empty_db { session_alert_sent = ("s1", second_day) ∷ [] };
  outbox = [];
}

-- The same for a session.
abbrev behind : Overlap.Flights
behind = record { world = marked_world; unsent = "s1" ∷ []; unmarked = [] }

abbrev caught_up : Overlap.Flights
caught_up = record {
  world = send_session_alert "s1" 6 marked_world;
  unsent = [];
  unmarked = "s1" ∷ [];
}

behind-IsMarked : Overlap.IsMarked tracker "s1" marked_world
unfolding Overlap.IsMarked get
behind-IsMarked = (second_day, refl)

marked_session_quiet_example :
    session_alerts "s1" caught_up.world.outbox
    ≤ session_alerts "s1" behind.world.outbox + times "s1" behind.unsent
marked_session_quiet_example =
    marked_session_quiet tracker "s1" behind caught_up behind-IsMarked
      (Overlap.next Overlap.here (Overlap.sends "s1" 6 [] [] behind refl))

-- A call of 1 USD.
abbrev cheap : Spend
cheap = record {
  now = second_day;
  faults = calm_tracker;
  event = event_of second_day "s1" "anthropic" "m" 10 10 400000000000 600000000000;
}
