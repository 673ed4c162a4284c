-- ===== src/Discovery/Frame.antt =====
-- What the operations of core/discovery_queue.py on finds leave alone.
use gestalt_workframe.Prelude.{
  ℕ, ◌≡◌, refl, inl, inr, String, Bool, ◌&&◌, Option, none, some, ◌∷◌, arith, Option-cases,
  text_key, if◌then◌else◌,
}
use gestalt_workframe.Discovery.Rows.{Find, Desk, Texts, Result, find_with_source, with_find}
use gestalt_workframe.Discovery.Decide.{
  Promotion, promoted, promotion_failed, Ruling, url_of, promoted_row, settle_decision, decide_row,
  withdraw_find,
}
use gestalt_workframe.Discovery.Library.{
  Deletion, deleted, deletion_failed, unpublish_row, clear_library, purge_row, promote_row,
}

-- the operations on finds leave the sources alone
pub sources-with_find :
    (id : String) (d : Desk) (next : Find → Result)
    → ((f : Find) → (next f).0.sources ≡ d.sources)
    → (with_find id d next).0.sources ≡ d.sources
unfolding with_find
sources-with_find id d next keep = elim (Option-cases (find_with_source id d)) [
  | inl e ↦ rw (e, with_find) refl
  | inr (p, e) ↦ rw (e, with_find) (keep p.0)
]

sources-settle_decision :
    (tx : Texts) (now : ℕ) (ingest : Option String) (id : String) (approves : Bool) (r : Ruling)
    (f : Find) (d : Desk)
    → (settle_decision tx now ingest id approves r f d).0.sources ≡ d.sources
unfolding settle_decision
sources-settle_decision tx now ingest id approves r f d =
    elim (Option-cases (if approves && r.ingest_into_chroma then ingest else none)) [
      | inl e ↦ rw (e, settle_decision) refl
      | inr (m, e) ↦ rw (e, settle_decision) refl
    ]

pub sources-decide_row :
    (tx : Texts) (now : ℕ) (publish : Promotion) (ingest : Option String) (id : String)
    (approves : Bool) (r : Ruling) (f : Find) (d : Desk)
    → (decide_row tx now publish ingest id approves r f d).0.sources ≡ d.sources
unfolding decide_row
sources-decide_row tx now (promoted path a b) ingest id approves r f d = ground (
  arith,
  sources-settle_decision tx now ingest id approves r f d,
  sources-settle_decision tx now ingest id approves r (promoted_row now path (url_of a b) f)
      (record d { library_files = path ∷ d.library_files }),
)
sources-decide_row tx now (promotion_failed e) ingest id approves r f d =
    ground (arith, sources-settle_decision tx now ingest id approves r f d)

pub sources-withdraw_find :
    (tx : Texts) (now : ℕ) (id reviewer notes : String) (f : Find) (d : Desk)
    → (withdraw_find tx now id reviewer notes f d).0.sources ≡ d.sources
unfolding withdraw_find
sources-withdraw_find tx now id reviewer notes f d = ground arith

pub sources-unpublish_row :
    (tx : Texts) (del : Deletion) (id reviewer notes : String) (f : Find) (d : Desk)
    → (unpublish_row tx del id reviewer notes f d).0.sources ≡ d.sources
unfolding unpublish_row clear_library
sources-unpublish_row tx (deleted m) id reviewer notes f d = ground arith
sources-unpublish_row tx (deletion_failed e) id reviewer notes f d = ground arith

pub sources-purge_row :
    (tx : Texts) (fault : Option String) (id reviewer notes : String) (f : Find) (d : Desk)
    → (purge_row tx fault id reviewer notes f d).0.sources ≡ d.sources
unfolding purge_row
sources-purge_row tx none id reviewer notes f d = refl
sources-purge_row tx (some e) id reviewer notes f d = refl

pub sources-promote_row :
    (tx : Texts) (now : ℕ) (publish : Promotion) (id reviewer notes : String) (f : Find) (d : Desk)
    → (promote_row tx now publish id reviewer notes f d).0.sources ≡ d.sources
unfolding promote_row
sources-promote_row tx now (promoted path a b) id reviewer notes f d = ground arith
sources-promote_row tx now (promotion_failed e) id reviewer notes f d = ground arith
