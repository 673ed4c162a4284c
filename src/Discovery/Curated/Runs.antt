-- ===== src/Discovery/Curated/Runs.antt =====
-- The flags of the finds over any calls of core/discovery_queue.py.
use gestalt_workframe.Prelude.{
  ℕ, String, Bool, true, false, some, List, [], ◌∷◌, ◌≡◌, refl, sym, ap, inl, inr, arith,
  Bool-cases, Option-cases, text_key, ◌==◌, ◌&&◌, ◌||◌,
}
use mathlib.Core.Path.{subst}
use mathlib.Core.Option.{some_inj}
use gestalt_workframe.Prelude.Assoc.{Assoc, get, AllValues, put-AllValues}
use gestalt_workframe.Discovery.Rows.{Actor, Find, Desk, Texts}
use gestalt_workframe.Discovery.Decide.{unpublish_find_from_latest}
use gestalt_workframe.Discovery.Library.{
  unpublish_find_from_library, purge_find_from_kb, promote_find_to_library,
}
use gestalt_workframe.Discovery.Curate.{
  set_find_featured, set_find_ticker_featured, set_find_newsletter_pending, set_find_dismissed,
  set_source_featured,
}
use gestalt_workframe.Discovery.Sources.{
  Paste, source_named, manual_find, SourceUpdate, create_manual_find, requeue, insert_manual,
  ensure_manual_source, find_external, add_watched_source, update_watched_source,
}
use gestalt_workframe.Discovery.Calls.{
  Call, decides, withdraws, features, tickers, queues, dismisses, unpublishes, purges, promotes,
  pastes, adds, updates, features_source, run_call, run_calls,
}
use gestalt_workframe.Discovery.Watchlist.{WatchedSource}
use gestalt_workframe.Discovery.Curated.{
  IsCurated, IsTidy, with_find-IsTidy, if-IsTidy, set_flag-IsTidy, featured_row-IsCurated,
  ticker_row-IsCurated, pending_row-IsCurated, dismissed_row-IsCurated,
}
use gestalt_workframe.Discovery.Curated.Decided.{
  decide_find-IsTidy, withdraw_find-IsTidy, unpublish_row-IsTidy, purge_row-IsTidy,
  promote_row-IsTidy,
}

find_external-IsCurated :
    (source url : String) (finds : Assoc String Find) (q : String × Find)
    → AllValues IsCurated finds
    → find_external source url finds ≡ some q
    → IsCurated q.1
unfolding find_external
find_external-IsCurated source url [] q h e = cc
find_external-IsCurated source url ((id, f) ∷ rest) q h e =
    elim (Bool-cases ((f.discovery_source_id == source) && (f.external_id == url))) [
      | inl here ↦ subst IsCurated (ap (λ (p : String × Find). p.1) (some_inj.0 (rw here at e))) h.0
      | inr there ↦ find_external-IsCurated source url rest q h.1 (rw there at e)
    ]

finds-ensure_manual_source :
    (id : String) (d : Desk) → (ensure_manual_source id d).0.finds ≡ d.finds
unfolding ensure_manual_source
finds-ensure_manual_source id d = elim (Option-cases (source_named "manual_curation" d.sources)) [
  | inl e ↦ rw (e, ensure_manual_source) refl
  | inr (p, e) ↦ rw (e, ensure_manual_source) refl
]

requeue-IsTidy :
    (p : Paste) (id : String) (f : Find) (d : Desk)
    → IsCurated f
    → IsTidy d
    → IsTidy (requeue p id f d).0
unfolding requeue
requeue-IsTidy p id f d c h =
    let row : Find = record f { newsletter_pending = true; dismissed = false } in
    if-IsTidy _ _ _ (put-AllValues IsCurated id row d.finds (ground (arith, c.timed)) h) h

create_manual_find-IsTidy :
    (tx : Texts) (now : ℕ) (source_id id : String) (p : Paste) (d : Desk)
    → IsTidy d
    → IsTidy (create_manual_find tx now source_id id p d).0
unfolding create_manual_find insert_manual
create_manual_find-IsTidy tx now source_id id p d h =
    let d' = (ensure_manual_source source_id d).0 in
    let source = (ensure_manual_source source_id d).1 in
    let h' : IsTidy d' =
      subst (AllValues IsCurated) (sym (finds-ensure_manual_source source_id d)) h in
    elim (Bool-cases (tx.strip p.url == "" || tx.strip p.title == "")) [
      | inl e ↦ rw e h
      | inr e ↦ rw e (elim (Option-cases (find_external source (tx.strip p.url) d'.finds)) [
        | inl fresh ↦
            rw fresh
              (put-AllValues IsCurated id (manual_find tx now source p) d'.finds (ground arith) h')
        | inr (q, old) ↦ rw old (
            requeue-IsTidy p q.0 q.1 d'
              (find_external-IsCurated source (tx.strip p.url) d'.finds q h' old) h')
      ])
    ]

finds-update_watched_source :
    (tx : Texts) (now : ℕ) (id : String) (u : SourceUpdate) (actor : Actor) (d : Desk)
    → (update_watched_source tx now id u actor d).0.finds ≡ d.finds
unfolding update_watched_source
finds-update_watched_source tx now id u actor d = elim (Option-cases (get id d.sources)) [
  | inl e ↦ rw (e, update_watched_source) refl
  | inr (s, e) ↦ rw (e, update_watched_source) (ground arith)
]

finds-add_watched_source :
    (tx : Texts) (is_safe : String → String → Bool) (id : String) (w : WatchedSource)
    (notes : String) (actor : Actor) (d : Desk)
    → (add_watched_source tx is_safe id w notes actor d).0.finds ≡ d.finds
unfolding add_watched_source
finds-add_watched_source tx is_safe id w notes actor d = ground arith

finds-set_source_featured :
    (now : ℕ) (id : String) (on : Bool) (reviewer : String) (d : Desk)
    → (set_source_featured now id on reviewer d).0.finds ≡ d.finds
unfolding set_source_featured
finds-set_source_featured now id on reviewer d = elim (Option-cases (get id d.sources)) [
  | inl e ↦ rw (e, set_source_featured) refl
  | inr (s, e) ↦ rw (e, set_source_featured) refl
]

run_call-IsTidy : (tx : Texts) (c : Call) (d : Desk) → IsTidy d → IsTidy (run_call tx c d)
unfolding run_call set_find_featured set_find_ticker_featured set_find_newsletter_pending
    set_find_dismissed unpublish_find_from_latest unpublish_find_from_library purge_find_from_kb
    promote_find_to_library
run_call-IsTidy tx (decides now publish ingest id decision r) d h =
    decide_find-IsTidy tx now publish ingest id decision r d h
run_call-IsTidy tx (withdraws now id reviewer notes) d h =
    with_find-IsTidy id d _ (λ f c. withdraw_find-IsTidy tx now id reviewer notes f d c h) h
run_call-IsTidy tx (features now id on reviewer) d h =
    set_flag-IsTidy id _ _ _ on reviewer _ d (featured_row-IsCurated now on) h
run_call-IsTidy tx (tickers now id on reviewer) d h =
    set_flag-IsTidy id _ _ _ on reviewer _ d (ticker_row-IsCurated now on) h
run_call-IsTidy tx (queues id on reviewer) d h =
    set_flag-IsTidy id _ _ _ on reviewer _ d (pending_row-IsCurated on) h
run_call-IsTidy tx (dismisses id on reviewer) d h =
    set_flag-IsTidy id _ _ _ on reviewer _ d (dismissed_row-IsCurated on) h
run_call-IsTidy tx (unpublishes del id reviewer notes) d h =
    with_find-IsTidy id d _ (λ f c. unpublish_row-IsTidy tx del id reviewer notes f d c h) h
run_call-IsTidy tx (purges fault id reviewer notes) d h =
    with_find-IsTidy id d _ (λ f c. purge_row-IsTidy tx fault id reviewer notes f d c h) h
run_call-IsTidy tx (promotes now publish id reviewer notes) d h =
    with_find-IsTidy id d _ (λ f c. promote_row-IsTidy tx now publish id reviewer notes f d c h) h
run_call-IsTidy tx (pastes now source_id id p) d h =
    create_manual_find-IsTidy tx now source_id id p d h
run_call-IsTidy tx (adds is_safe id w notes actor) d h =
    subst (AllValues IsCurated) (sym (finds-add_watched_source tx is_safe id w notes actor d)) h
run_call-IsTidy tx (updates now id u actor) d h =
    subst (AllValues IsCurated) (sym (finds-update_watched_source tx now id u actor d)) h
run_call-IsTidy tx (features_source now id on reviewer) d h =
    subst (AllValues IsCurated) (sym (finds-set_source_featured now id on reviewer d)) h

-- Over any calls of the queue's operations, with any answers from outside, no find is dismissed and
-- also on the ticker or queued for the newsletter, and the ticker's instant is set exactly with the
-- ticker's flag, where that held to begin with.
pub run_calls-IsTidy :
    (tx : Texts) (cs : List Call) (d : Desk) → IsTidy d → IsTidy (run_calls tx cs d)
unfolding run_calls
run_calls-IsTidy tx [] d h = h
run_calls-IsTidy tx (c ∷ cs) d h =
    run_calls-IsTidy tx cs (run_call tx c d) (run_call-IsTidy tx c d h)
