-- ===== src/Discovery/Curated/Decided.antt =====
-- The flags of a find under the decisions of core/discovery_queue.py.
use gestalt_workframe.Prelude.{
  ℕ, String, Bool, not, Option, none, some, ◌∷◌, refl, inl, inr, Option-cases, text_key, ◌==◌, ◌&&◌,
  if◌then◌else◌,
}
use gestalt_workframe.Discovery.Rows.{Find, Desk, Texts, shown, refused, value_error, is_public}
use gestalt_workframe.Discovery.Decide.{
  Promotion, promoted, promotion_failed, Ruling, url_of, promoted_row, settle_decision, decide_row,
  decide_find, is_withdrawn, withdrawn_row, withdraw_find,
}
use gestalt_workframe.Discovery.Library.{
  Deletion, cleared_row, deleted, deletion_failed, unpublish_row, clear_library, purge_row,
  promote_row,
}
use gestalt_workframe.Discovery.Curated.{
  IsCurated, IsTidy, with_find-IsTidy, if-IsTidy, saved-IsTidy,
}

settle_decision-IsTidy :
    (tx : Texts) (now : ℕ) (ingest : Option String) (id : String) (approves : Bool) (r : Ruling)
    (f : Find) (d : Desk)
    → IsCurated f
    → IsTidy d
    → IsTidy (settle_decision tx now ingest id approves r f d).0
unfolding settle_decision
settle_decision-IsTidy tx now ingest id approves r f d c h =
    elim (Option-cases (if approves && r.ingest_into_chroma then ingest else none)) [
      | inl e ↦ rw (e, settle_decision) (saved-IsTidy id f _ d refl refl refl refl c h)
      | inr (m, e) ↦ rw (e, settle_decision) h
    ]

decide_row-IsTidy :
    (tx : Texts) (now : ℕ) (publish : Promotion) (ingest : Option String) (id : String)
    (approves : Bool) (r : Ruling) (f : Find) (d : Desk)
    → IsCurated f
    → IsTidy d
    → IsTidy (decide_row tx now publish ingest id approves r f d).0
unfolding decide_row promoted_row
decide_row-IsTidy tx now (promoted path public_url commit_url) ingest id approves r f d c h =
    if-IsTidy _ _ _
      (settle_decision-IsTidy tx now ingest id approves r
        (promoted_row now path (url_of public_url commit_url) f)
        (record d { library_files = path ∷ d.library_files })
        (record { off_ticker = c.off_ticker; unqueued = c.unqueued; timed = c.timed }) h)
      (settle_decision-IsTidy tx now ingest id approves r f d c h)
decide_row-IsTidy tx now (promotion_failed m) ingest id approves r f d c h =
    if-IsTidy _ _ _ (saved-IsTidy id f _ d refl refl refl refl c h)
      (settle_decision-IsTidy tx now ingest id approves r f d c h)

pub decide_find-IsTidy :
    (tx : Texts) (now : ℕ) (publish : Promotion) (ingest : Option String) (id decision : String)
    (r : Ruling) (d : Desk)
    → IsTidy d
    → IsTidy (decide_find tx now publish ingest id decision r d).0
unfolding decide_find
decide_find-IsTidy tx now publish ingest id decision r d h =
    if-IsTidy _ _ _
      (with_find-IsTidy id d _
        (λ f c. decide_row-IsTidy tx now publish ingest id (decision == "approve") r f d c h) h)
      h

pub withdraw_find-IsTidy :
    (tx : Texts) (now : ℕ) (id reviewer notes : String) (f : Find) (d : Desk)
    → IsCurated f
    → IsTidy d
    → IsTidy (withdraw_find tx now id reviewer notes f d).0
unfolding withdraw_find
withdraw_find-IsTidy tx now id reviewer notes f d c h =
    if-IsTidy (is_withdrawn f.status) (d, shown f) _ h
      (if-IsTidy (not (is_public f.status)) (d, refused value_error) _ h
        (saved-IsTidy id f (withdrawn_row tx now reviewer notes f) d refl refl refl refl c h))

pub unpublish_row-IsTidy :
    (tx : Texts) (del : Deletion) (id reviewer notes : String) (f : Find) (d : Desk)
    → IsCurated f
    → IsTidy d
    → IsTidy (unpublish_row tx del id reviewer notes f d).0
unfolding unpublish_row clear_library
unpublish_row-IsTidy tx (deleted mark) id reviewer notes f d c h =
    let cleared = saved-IsTidy id f (cleared_row f) d refl refl refl refl c h in
    if-IsTidy _ _ _ cleared cleared
unpublish_row-IsTidy tx (deletion_failed e) id reviewer notes f d c h =
    if-IsTidy _ _ _ (saved-IsTidy id f _ d refl refl refl refl c h)
      (saved-IsTidy id f _ d refl refl refl refl c h)

pub purge_row-IsTidy :
    (tx : Texts) (fault : Option String) (id reviewer notes : String) (f : Find) (d : Desk)
    → IsCurated f
    → IsTidy d
    → IsTidy (purge_row tx fault id reviewer notes f d).0
unfolding purge_row
purge_row-IsTidy tx none id reviewer notes f d c h = saved-IsTidy id f _ d refl refl refl refl c h
purge_row-IsTidy tx (some e) id reviewer notes f d c h = h

pub promote_row-IsTidy :
    (tx : Texts) (now : ℕ) (publish : Promotion) (id reviewer notes : String) (f : Find) (d : Desk)
    → IsCurated f
    → IsTidy d
    → IsTidy (promote_row tx now publish id reviewer notes f d).0
unfolding promote_row promoted_row
promote_row-IsTidy tx now (promoted path a b) id reviewer notes f d c h =
    if-IsTidy (not (is_public f.status)) (d, refused value_error) _ h
      (if-IsTidy (f.published_to_library_repo && not (f.library_file_url == "")) (d, shown f) _ h
        (saved-IsTidy id f (promoted_row now path (url_of a b) f) d refl refl refl refl c h))
promote_row-IsTidy tx now (promotion_failed m) id reviewer notes f d c h =
    if-IsTidy (not (is_public f.status)) (d, refused value_error) _ h
      (if-IsTidy (f.published_to_library_repo && not (f.library_file_url == "")) (d, shown f) _ h
        (saved-IsTidy id f (record f { library_promotion_error = m }) d refl refl refl refl c h))
