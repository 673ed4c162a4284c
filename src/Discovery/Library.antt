-- ===== src/Discovery/Library.antt =====
-- The library's repository and the vector store, for core/discovery_queue.py. What they answer is an
-- argument.
use gestalt_workframe.Prelude.{
  ℕ, String, false, not, ◌&&◌, Option, none, some, List, ◌∷◌, ◌==◌, text_key, select, if◌then◌else◌,
}
use gestalt_workframe.Discovery.Rows.{
  Find, library_promoted, library_unpublished, kb_purged, Mark, blank, not_published, ingested_is,
  library_is, text_is, delete_failed, purge_failed, Desk, Texts, value_error, raised, shown,
  refused, Result, with_find, save, save_row, find_audit, is_public,
}
use gestalt_workframe.Discovery.Decide.{Promotion, promoted, promotion_failed, promoted_row, url_of}

-- What `delete_library_file` returns, or the summary of what it raises.
pub data Deletion : Type 0 where
  deleted : (mark : String) → Deletion
  deletion_failed : String → Deletion

abbrev pub cleared_row : Find → Find
cleared_row f = record f {
  published_to_library_repo = false;
  library_target_path = "";
  library_file_url = "";
  library_promotion_error = "";
}

unfoldable pub without : String → List String → List String
without s = select (λ t. not (t == s))

-- the end of `unpublish_find_from_library`
unfoldable pub clear_library : Texts → String → String → String → Mark → Find → Desk → Result
clear_library tx id reviewer notes after f d = (
  save id (cleared_row f)
      (find_audit id f library_unpublished reviewer
        (library_is f.published_to_library_repo f.library_target_path) after (tx.clip 2048 notes))
      d,
  shown (cleared_row f),
)

unfoldable pub unpublish_row : Texts → Deletion → String → String → String → Find → Desk → Result
unpublish_row tx del id reviewer notes f d =
    if f.published_to_library_repo && not (f.library_target_path == "")
    then elim del [
      | deleted mark ↦
          clear_library tx id reviewer notes (text_is mark) f
            (record d { library_files = without f.library_target_path d.library_files })
      | deletion_failed e ↦ (
        save id (record f { library_promotion_error = e })
            (find_audit id f library_unpublished reviewer
              (library_is f.published_to_library_repo f.library_target_path) (delete_failed e)
              (tx.clip 2048 notes))
            d,
        refused (raised e),
      )
    ]
    else clear_library tx id reviewer notes not_published f d

unfoldable pub unpublish_find_from_library :
    Texts → Deletion → String → String → String → Desk → Result
unpublish_find_from_library tx del id reviewer notes d =
    with_find id d (λ f. unpublish_row tx del id reviewer notes f d)

unfoldable pub purge_row : Texts → Option String → String → String → String → Find → Desk → Result
purge_row tx fault id reviewer notes f d =
    let row = record f { ingested_into_chroma = false } in
    let audit = λ (after : Mark).
      find_audit id f kb_purged reviewer (ingested_is f.ingested_into_chroma) after
        (tx.clip 2048 notes) in
    elim fault [
      | none ↦ (
        save id row (audit (ingested_is false)) (record d { chroma = without id d.chroma }),
        shown row,
      )
      | some e ↦ (record d { audits = audit (purge_failed e) ∷ d.audits }, refused (raised e))
    ]

unfoldable pub purge_find_from_kb : Texts → Option String → String → String → String → Desk → Result
purge_find_from_kb tx fault id reviewer notes d =
    with_find id d (λ f. purge_row tx fault id reviewer notes f d)

unfoldable pub promote_row : Texts → ℕ → Promotion → String → String → String → Find → Desk → Result
promote_row tx now publish id reviewer notes f d =
    if not (is_public f.status)
    then (d, refused value_error)
    else if f.published_to_library_repo && not (f.library_file_url == "")
    then (d, shown f)
    else elim publish [
      | promoted path public_url commit_url ↦
          let row = promoted_row now path (url_of public_url commit_url) f in
          (
            save id row
                (find_audit id f library_promoted reviewer blank
                  (text_is (url_of public_url commit_url)) (tx.clip 2048 notes))
                (record d { library_files = path ∷ d.library_files }),
            shown row,
          )
      | promotion_failed e ↦
          (save_row id (record f { library_promotion_error = e }) d, refused (raised e))
    ]

unfoldable pub promote_find_to_library :
    Texts → ℕ → Promotion → String → String → String → Desk → Result
promote_find_to_library tx now publish id reviewer notes d =
    with_find id d (λ f. promote_row tx now publish id reviewer notes f d)
