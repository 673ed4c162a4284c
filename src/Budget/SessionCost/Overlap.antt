-- ===== src/Budget/SessionCost/Overlap.antt =====
-- Calls of `record_cost` of core/session_cost_tracker.py that overlap: there is no lock, and
-- `_check_and_alert` reads the mark of the session, calls the webhook and writes the mark, with others in
-- between.
use gestalt_workframe.Prelude.{
  ℕ, ◌+◌, ◌≤◌, ◌≡◌, refl, inl, inr, String, Bool, true, false, some, List, [], ◌∷◌, ◌++◌, arith,
  ◌==◌, text_key, Bool-cases, if◌then◌else◌,
}
use gestalt_workframe.Prelude.Assoc.{get, get-put}
use gestalt_workframe.Budget.Database.{SessionCostEvent, World, high_session_cost, session_usd}
use gestalt_workframe.Budget.SessionCost.{
  SessionCostTracker, TrackerFaults, check_session, log_cost, alert_is_due, send_session_alert,
  mark_session,
}
use gestalt_workframe.Budget.SessionCost.Alert.{session_alerts, session_alerts-append}

-- `_check_and_alert` with nothing in between is its three parts.
pub check_session-parts :
    (f : TrackerFaults) (now : ℕ) (r : String) (cost : ℕ) (t : SessionCostTracker) (w : World)
    → check_session f now r cost t w ≡ (
        if alert_is_due f.query r t w
        then mark_session f.mark now r (send_session_alert r cost w)
        else w)
unfolding check_session alert_is_due send_session_alert mark_session
check_session-parts f now r cost t w = ground arith

-- The world, and the sessions of the calls under way whose alert is due and not yet sent, and of those that
-- sent it and have not yet written the mark.
pub record Flights : Type 0 where
  pub world : World
  pub unsent : List String
  pub unmarked : List String

-- A part of a call: the insertion of a cost, the read of the mark, the webhook, the insertion of the mark;
-- and a call that is cancelled before it sends.
pub data Step (t : SessionCostTracker) : Flights → Flights → Type 0 where
  logs : (e : SessionCostEvent) (c : Flights) → Step t c (record c { world = log_cost e c.world })
  reads :
      (r : String) (c : Flights)
      → alert_is_due false r t c.world ≡ true
      → Step t c (record c { unsent = r ∷ c.unsent })
  sends :
      (r : String) (cost : ℕ) (before after : List String) (c : Flights)
      → c.unsent ≡ before ++ r ∷ after
      → Step t c (record {
        world = send_session_alert r cost c.world;
        unsent = before ++ after;
        unmarked = r ∷ c.unmarked;
      })
  marks :
      (fails : Bool) (now : ℕ) (r : String) (before after : List String) (c : Flights)
      → c.unmarked ≡ before ++ r ∷ after
      → Step t c (record {
        world = mark_session fails now r c.world;
        unsent = c.unsent;
        unmarked = before ++ after;
      })
  drops :
      (r : String) (before after : List String) (c : Flights)
      → c.unsent ≡ before ++ r ∷ after
      → Step t c (record c { unsent = before ++ after })

pub data Reach (t : SessionCostTracker) (c : Flights) : Flights → Type 0 where
  here : Reach t c c
  next : {d e : Flights} → Reach t c d → Step t d e → Reach t c e

-- How often the session is in the list.
pub times : String → List String → ℕ
times s [] = 0
times s (r ∷ rs) = (if r == s then 1 else 0) + times s rs

module _ (t : SessionCostTracker) (s : String) where
  times-without :
      (r : String) (xs ys : List String)
      → times s (xs ++ r ∷ ys) ≡ (if r == s then 1 else 0) + times s (xs ++ ys)
  unfolding times
  times-without r [] ys = refl
  times-without r (x ∷ xs) ys = omega (arith, times-without r xs ys)

  -- sent, or about to be
  abbrev expected : Flights → ℕ
  expected c = session_alerts s c.world.outbox + times s c.unsent

  -- The session has a mark.
  unfoldable pub IsMarked : World → Type 0
  IsMarked w = (n : ℕ) × (get s w.db.session_alert_sent ≡ some n)

  marked_session_silent :
      (r : String) (w : World) → IsMarked w → alert_is_due false r t w ≡ true → (r == s) ≡ false
  unfolding alert_is_due IsMarked
  marked_session_silent r w (n, row) due = elim (Bool-cases (r == s)) [
    | inl same ↦ ground (arith, row, due, text_key.agree_iff r s)
    | inr other ↦ other
  ]

  mark_session-IsMarked :
      (fails : Bool) (now : ℕ) (r : String) (w : World)
      → IsMarked w
      → IsMarked (mark_session fails now r w)
  unfolding mark_session IsMarked
  mark_session-IsMarked true now r w m = m
  mark_session-IsMarked false now r w (n, row) = elim (Bool-cases (r == s)) [
    | inl same ↦ rw (get-put r s now w.db.session_alert_sent, same) (now, refl)
    | inr other ↦ rw (get-put r s now w.db.session_alert_sent, other) (n, row)
  ]

  outbox-mark_session :
      (fails : Bool) (now : ℕ) (r : String) (w : World)
      → (mark_session fails now r w).outbox ≡ w.outbox
  unfolding mark_session
  outbox-mark_session fails now r w = ground arith

  Step-IsMarked :
      {c d : Flights} → Step t c d → IsMarked c.world → IsMarked d.world × (expected d ≤ expected c)
  unfolding times send_session_alert IsMarked
  Step-IsMarked (logs e c) m = (m, omega arith)
  Step-IsMarked (reads r c due) m = (m, ground (arith, marked_session_silent r c.world m due))
  Step-IsMarked (sends r cost before after c e) m = (
    m,
    rw e (
        omega (
          arith,
          session_alerts-append s c.world.outbox
              (high_session_cost r (session_usd r c.world.db.session_costs) cost),
          times-without r before after,
        )),
  )
  Step-IsMarked (marks fails now r before after c e) m = (
    mark_session-IsMarked fails now r c.world m,
    rw (outbox-mark_session fails now r c.world) (omega arith),
  )
  Step-IsMarked (drops r before after c e) m =
      (m, rw e (omega (arith, times-without r before after)))

  Reach-IsMarked :
      {c d : Flights}
      → IsMarked c.world
      → Reach t c d
      → IsMarked d.world × (expected d ≤ expected c)
  Reach-IsMarked m here = (m, omega arith)
  Reach-IsMarked m (next r k) =
      let (n, h) = Reach-IsMarked m r in let (o, l) = Step-IsMarked k n in (o, omega (arith, h, l))

  -- Once a session has its mark, the only alerts of it that are still sent are those of calls that had read
  -- the mark before, in whatever order the parts of overlapping calls come, whatever they cost and
  -- whichever fail, where no cleanup deletes the mark.
  pub marked_session_quiet :
      (c d : Flights)
      → IsMarked c.world
      → Reach t c d
      → session_alerts s d.world.outbox ≤ session_alerts s c.world.outbox + times s c.unsent
  marked_session_quiet c d m r = omega (arith, (Reach-IsMarked m r).1)
