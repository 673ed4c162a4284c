-- ===== src/Discovery/Cadence.antt =====
-- The intervals at which the sources of core/discovery_queue.py are to be polled.
use gestalt_workframe.Prelude.{
  ℕ, sym, refl, List, ◌==◌, ◌||◌, ◌&&◌, not, ◌≤◌, ◌≡◌, inl, inr, String, Bool, true, false, none,
  some, [], ◌∷◌, arith, Bool-cases, Option-cases, text_key, if◌then◌else◌,
}
use gestalt_workframe.Prelude.Assoc.{get, AllValues, put-AllValues, get-AllValues}
use gestalt_workframe.Discovery.Rows.{
  Find, Result, with_find, Source, Desk, Texts, Actor, value_error, raised, refused,
}
use mathlib.Core.Path.{subst}
use gestalt_workframe.Discovery.Frame.{
  sources-with_find, sources-decide_row, sources-withdraw_find, sources-unpublish_row,
  sources-purge_row, sources-promote_row,
}
use gestalt_workframe.Discovery.Decide.{decide_row, decide_find, unpublish_find_from_latest}
use gestalt_workframe.Discovery.Library.{
  unpublish_find_from_library, purge_find_from_kb, promote_find_to_library,
}
use gestalt_workframe.Discovery.Calls.{
  Call, decides, withdraws, features, tickers, queues, dismisses, unpublishes, purges, promotes,
  pastes, adds, updates, features_source, run_call, run_calls,
}
use gestalt_workframe.Discovery.Curate.{
  set_source_featured, set_flag, set_find_featured, set_find_ticker_featured,
  set_find_newsletter_pending, set_find_dismissed,
}
use gestalt_workframe.Discovery.Watchlist.{
  WatchedSource, validate_watchlist, is_valid_source, is_cadence, refresh_seconds,
}
use gestalt_workframe.Discovery.Sources.{
  Paste, create_manual_find, insert_manual, requeue, find_external, SourceUpdate, updated_source,
  update_watched_source, add_watched_source, ensure_manual_source, source_named, new_source,
  insert_source, is_named, manual_source, too_often, unknown_floor,
}

-- The interval between two polls of the source is at least five minutes.
abbrev pub IsPolite : Source → Type 0
IsPolite s = 300 ≤ s.refresh_interval_seconds

refresh_seconds-cadence :
    (w : WatchedSource) → is_cadence w.refresh_cadence ≡ true → 300 ≤ refresh_seconds w
unfolding refresh_seconds is_cadence
refresh_seconds-cadence w h = ground arith

cadence_of_valid :
    (tx : Texts) (is_safe : String → String → Bool) (w : WatchedSource)
    → validate_watchlist tx is_safe (w ∷ []) ≡ true
    → is_cadence w.refresh_cadence ≡ true
unfolding validate_watchlist is_valid_source
cadence_of_valid tx is_safe w h = ground arith

-- a test between two results that keep the intervals
if-IsPolite :
    {A : Type 0} (b : Bool) (x y : Desk × A)
    → AllValues IsPolite x.0.sources
    → AllValues IsPolite y.0.sources
    → AllValues IsPolite (if b then x else y).0.sources
if-IsPolite true x y h k = h
if-IsPolite false x y h k = k

add_watched_source-IsPolite :
    (tx : Texts) (is_safe : String → String → Bool) (id : String) (w : WatchedSource)
    (notes : String) (actor : Actor) (d : Desk)
    → AllValues IsPolite d.sources
    → AllValues IsPolite (add_watched_source tx is_safe id w notes actor d).0.sources
unfolding add_watched_source
add_watched_source-IsPolite tx is_safe id w notes actor d h =
    elim (Bool-cases (validate_watchlist tx is_safe (w ∷ []))) [
      | inr e ↦ rw e h
      | inl e ↦
          let s = new_source tx w notes in
          let added =
            put-AllValues IsPolite id s d.sources
              (refresh_seconds-cadence w (cadence_of_valid tx is_safe w e)) h in
          rw e (
            if-IsPolite (is_named w.name d.sources) (d, some value_error) _ h
              (if-IsPolite (is_named s.name d.sources) (d, some (raised "IntegrityError"))
                (insert_source id s actor (tx.strip (tx.clip 2048 notes)) d, none) h added))
    ]

rate-updated_source :
    (tx : Texts) (now : ℕ) (u : SourceUpdate) (s : Source)
    → IsPolite s
    → too_often u.refresh_interval_seconds ≡ false
    → IsPolite (updated_source tx now u s)
unfolding updated_source too_often
rate-updated_source tx now u s h k = ground (arith, Option-cases u.refresh_interval_seconds)

update_watched_source-IsPolite :
    (tx : Texts) (now : ℕ) (id : String) (u : SourceUpdate) (actor : Actor) (d : Desk)
    → AllValues IsPolite d.sources
    → AllValues IsPolite (update_watched_source tx now id u actor d).0.sources
unfolding update_watched_source
update_watched_source-IsPolite tx now id u actor d h = elim (Option-cases (get id d.sources)) [
  | inl e ↦ rw (e, update_watched_source) h
  | inr (s, e) ↦ elim (Bool-cases (too_often u.refresh_interval_seconds)) [
    | inl often ↦ rw (e, often, update_watched_source) h
    | inr seldom ↦
        rw (e, seldom, update_watched_source)
          (if-IsPolite (unknown_floor u.importance_floor) (d, some value_error) _ h
            (put-AllValues IsPolite id (updated_source tx now u s) d.sources
              (rate-updated_source tx now u s (get-AllValues IsPolite id s d.sources h e) seldom)
              h))
  ]
]

featured_source-IsPolite :
    (now : ℕ) (id : String) (on : Bool) (reviewer : String) (d : Desk)
    → AllValues IsPolite d.sources
    → AllValues IsPolite (set_source_featured now id on reviewer d).0.sources
unfolding set_source_featured
featured_source-IsPolite now id on reviewer d h = elim (Option-cases (get id d.sources)) [
  | inl e ↦ rw (e, set_source_featured) h
  | inr (s, e) ↦
      rw (e, set_source_featured)
        (put-AllValues IsPolite id _ d.sources (get-AllValues IsPolite id s d.sources h e) h)
]

ensure_manual_source-IsPolite :
    (id : String) (d : Desk)
    → AllValues IsPolite d.sources
    → AllValues IsPolite (ensure_manual_source id d).0.sources
unfolding ensure_manual_source
ensure_manual_source-IsPolite id d h =
    elim (Option-cases (source_named "manual_curation" d.sources)) [
      | inl e ↦
          rw (e, ensure_manual_source)
            (put-AllValues IsPolite id manual_source d.sources (omega arith) h)
      | inr (p, e) ↦ rw (e, ensure_manual_source) h
    ]

create_manual_find-IsPolite :
    (tx : Texts) (now : ℕ) (source_id id : String) (p : Paste) (d : Desk)
    → AllValues IsPolite d.sources
    → AllValues IsPolite (create_manual_find tx now source_id id p d).0.sources
unfolding create_manual_find insert_manual requeue
create_manual_find-IsPolite tx now source_id id p d h =
    let d' = (ensure_manual_source source_id d).0 in
    let source = (ensure_manual_source source_id d).1 in
    let h' = ensure_manual_source-IsPolite source_id d h in
    elim (Bool-cases (tx.strip p.url == "" || tx.strip p.title == "")) [
      | inl e ↦ rw e h
      | inr e ↦ rw e (elim (Option-cases (find_external source (tx.strip p.url) d'.finds)) [
        | inl fresh ↦ rw fresh h'
        | inr (q, old) ↦
            rw old (elim (Bool-cases (p.queue_for_newsletter && not q.1.newsletter_pending)) [
              | inl queued ↦ rw queued h'
              | inr not_queued ↦ rw not_queued h'
            ])
      ])
    ]

find_call-IsPolite :
    (id : String) (d : Desk) (next : Find → Result)
    → ((f : Find) → (next f).0.sources ≡ d.sources)
    → AllValues IsPolite d.sources
    → AllValues IsPolite (with_find id d next).0.sources
find_call-IsPolite id d next keep h =
    subst (AllValues IsPolite) (sym (sources-with_find id d next keep)) h

run_call-IsPolite :
    (tx : Texts) (c : Call) (d : Desk)
    → AllValues IsPolite d.sources
    → AllValues IsPolite (run_call tx c d).sources
unfolding run_call decide_find set_flag set_find_featured set_find_ticker_featured
    set_find_newsletter_pending set_find_dismissed unpublish_find_from_latest
    unpublish_find_from_library purge_find_from_kb promote_find_to_library
run_call-IsPolite tx (decides now publish ingest id decision r) d h =
    if-IsPolite (decision == "approve" || decision == "reject") _ (d, refused value_error)
      (find_call-IsPolite id d
        (λ f. decide_row tx now publish ingest id (decision == "approve") r f d)
        (λ f. sources-decide_row tx now publish ingest id (decision == "approve") r f d) h)
      h
run_call-IsPolite tx (withdraws now id reviewer notes) d h =
    find_call-IsPolite id d _ (λ f. sources-withdraw_find tx now id reviewer notes f d) h
run_call-IsPolite tx (features now id on reviewer) d h = find_call-IsPolite id d _ (λ f. refl) h
run_call-IsPolite tx (tickers now id on reviewer) d h = find_call-IsPolite id d _ (λ f. refl) h
run_call-IsPolite tx (queues id on reviewer) d h = find_call-IsPolite id d _ (λ f. refl) h
run_call-IsPolite tx (dismisses id on reviewer) d h = find_call-IsPolite id d _ (λ f. refl) h
run_call-IsPolite tx (unpublishes del id reviewer notes) d h =
    find_call-IsPolite id d _ (λ f. sources-unpublish_row tx del id reviewer notes f d) h
run_call-IsPolite tx (purges fault id reviewer notes) d h =
    find_call-IsPolite id d _ (λ f. sources-purge_row tx fault id reviewer notes f d) h
run_call-IsPolite tx (promotes now publish id reviewer notes) d h =
    find_call-IsPolite id d _ (λ f. sources-promote_row tx now publish id reviewer notes f d) h
run_call-IsPolite tx (pastes now source_id id p) d h =
    create_manual_find-IsPolite tx now source_id id p d h
run_call-IsPolite tx (adds is_safe id w notes actor) d h =
    add_watched_source-IsPolite tx is_safe id w notes actor d h
run_call-IsPolite tx (updates now id u actor) d h =
    update_watched_source-IsPolite tx now id u actor d h
run_call-IsPolite tx (features_source now id on reviewer) d h =
    featured_source-IsPolite now id on reviewer d h

-- No calls of the queue's operations set the interval of a source below five minutes.
pub run_calls-IsPolite :
    (tx : Texts) (cs : List Call) (d : Desk)
    → AllValues IsPolite d.sources
    → AllValues IsPolite (run_calls tx cs d).sources
unfolding run_calls
run_calls-IsPolite tx [] d h = h
run_calls-IsPolite tx (c ∷ cs) d h =
    run_calls-IsPolite tx cs (run_call tx c d) (run_call-IsPolite tx c d h)
