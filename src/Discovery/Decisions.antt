-- ===== src/Discovery/Decisions.antt =====
-- What decisions of core/discovery_queue.py leave behind.
use gestalt_workframe.Prelude.{ℕ, ◌≡◌, refl, String, true, false, Option, some, ◌∷◌, IsIn, text_key}
use gestalt_workframe.Prelude.Assoc.{get, get-put_self}
use gestalt_workframe.Discovery.Rows.{
  rejected, Find, Source, Desk, Texts, find_with_source, raised, refused,
}
use gestalt_workframe.Discovery.Found.{with_find_there}
use gestalt_workframe.Discovery.Decide.{
  Promotion, promoted, Ruling, decided_row, settle_decision, decide_row, decide_find,
}

-- Rejecting a find that the vector store holds marks it as not held, and leaves its text there: what was
-- ingested stays in use for answers.
pub rejection_keeps_text :
    (tx : Texts) (now : ℕ) (publish : Promotion) (ingest : Option String) (id : String) (r : Ruling)
    (d : Desk) (p : Find × Source)
    → find_with_source id d ≡ some p
    → IsIn id d.chroma
    → IsIn id (decide_find tx now publish ingest id "reject" r d).0.chroma
      × (get id (decide_find tx now publish ingest id "reject" r d).0.finds
          ≡ some (decided_row tx now r rejected false p.0))
unfolding decide_find decide_row settle_decision
rejection_keeps_text tx now publish ingest id r d p there held =
    rw (with_find_there id d _ p there) (held, get-put_self id _ d.finds)

-- An approval whose publication goes through and whose ingestion then fails leaves every row as it was,
-- and the file in the library's repository.
pub failed_ingestion_strands_file :
    (tx : Texts) (now : ℕ) (path public_url commit_url e id : String) (r : Ruling) (d : Desk)
    (p : Find × Source)
    → find_with_source id d ≡ some p
    → r.ingest_into_chroma ≡ true
    → r.publish_to_library ≡ true
    → p.0.published_to_library_repo ≡ false
    → let o = decide_find tx now (promoted path public_url commit_url) (some e) id "approve" r d in
      (o.1 ≡ refused (raised e))
      × (o.0.finds ≡ d.finds)
      × (o.0.audits ≡ d.audits)
      × (o.0.library_files ≡ path ∷ d.library_files)
unfolding decide_find decide_row settle_decision
failed_ingestion_strands_file tx now path a b e id r d p there ingests publishes unpublished =
    rw (with_find_there id d _ p there, ingests, publishes, unpublished) (refl, refl, refl, refl)
