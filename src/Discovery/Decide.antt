-- ===== src/Discovery/Decide.antt =====
-- `decide_find` and `unpublish_find_from_latest` of core/discovery_queue.py. What the library's
-- publisher and the vector store answer is an argument; what an exception leaves uncommitted is not
-- written.
use gestalt_workframe.Prelude.{
  ℕ, String, Bool, true, false, not, ◌&&◌, ◌||◌, Option, none, some, ◌∷◌, ◌==◌, text_key,
  if◌then◌else◌,
}
use gestalt_workframe.Discovery.Rows.{
  Status, approved, rejected, withdrawn, Find, find_decision, find_unpublished, status_is, Desk,
  Texts, value_error, raised, shown, refused, Result, with_find, save, save_row, find_audit,
  is_public,
}

-- What `publish_find_to_library` returns, or the summary of what it raises.
pub data Promotion : Type 0 where
  promoted : (path public_url commit_url : String) → Promotion
  promotion_failed : String → Promotion

-- `promoted.public_url or promoted.commit_url`
abbrev pub url_of : String → String → String
url_of public_url commit_url = if public_url == "" then commit_url else public_url

unfoldable pub promoted_row : ℕ → String → String → Find → Find
promoted_row now path url f = record f {
  published_to_library_repo = true;
  library_target_path = path;
  library_file_url = url;
  library_promotion_error = "";
  promoted_at = some now;
}

-- The arguments of `decide_find` but for the find and the decision.
pub record Ruling : Type 0 where
  pub reviewer : String
  pub notes : String
  pub ingest_into_chroma : Bool
  pub publish_to_library : Bool

abbrev pub decided_row : Texts → ℕ → Ruling → Status → Bool → Find → Find
decided_row tx now r status ingested f = record f {
  status = status;
  ingested_into_chroma = ingested;
  reviewer = r.reviewer;
  decision_notes = tx.clip 2048 r.notes;
  decided_at = some now;
}

-- the end of `decide_find`, on the row as the library left it
unfoldable pub settle_decision :
    Texts → ℕ → Option String → String → Bool → Ruling → Find → Desk → Result
settle_decision tx now ingest id approves r f d =
    let status = if approves then approved else rejected in
    let ingests = approves && r.ingest_into_chroma in
    let row = decided_row tx now r status ingests f in
    let audit =
      find_audit id f find_decision r.reviewer (status_is f.status) (status_is status)
        (tx.clip 2048 r.notes) in
    let d' = record d { chroma = if ingests then id ∷ d.chroma else d.chroma } in
    elim (if ingests then ingest else none) [
      | none ↦ (save id row audit d', shown row)
      | some e ↦ (d, refused (raised e))
    ]

-- the part of `decide_find` that publishes to the library; a failure is committed and raised
unfoldable pub decide_row :
    Texts → ℕ → Promotion → Option String → String → Bool → Ruling → Find → Desk → Result
decide_row tx now publish ingest id approves r f d =
    let settled = settle_decision tx now ingest id approves r f d in
    if approves && r.publish_to_library && not f.published_to_library_repo
    then elim publish [
      | promoted path public_url commit_url ↦
          settle_decision tx now ingest id approves r
            (promoted_row now path (url_of public_url commit_url) f)
            (record d { library_files = path ∷ d.library_files })
      | promotion_failed e ↦ (
        save_row id (record f { ingested_into_chroma = false; library_promotion_error = e }) d,
        refused (raised e),
      )
    ]
    else settled

unfoldable pub decide_find :
    Texts → ℕ → Promotion → Option String → String → String → Ruling → Desk → Result
decide_find tx now publish ingest id decision r d =
    if decision == "approve" || decision == "reject"
    then with_find id d (λ f. decide_row tx now publish ingest id (decision == "approve") r f d)
    else (d, refused value_error)

unfoldable pub is_withdrawn : Status → Bool
is_withdrawn Status.withdrawn = true
is_withdrawn _ = false

abbrev pub withdrawn_row : Texts → ℕ → String → String → Find → Find
withdrawn_row tx now reviewer notes f = record f {
  status = withdrawn;
  reviewer = reviewer;
  decision_notes = tx.clip 2048 notes;
  decided_at = some now;
}

unfoldable pub withdraw_find : Texts → ℕ → String → String → String → Find → Desk → Result
withdraw_find tx now id reviewer notes f d =
    let row = withdrawn_row tx now reviewer notes f in
    let audit =
      find_audit id f find_unpublished reviewer (status_is f.status) (status_is withdrawn)
        (tx.clip 2048 notes) in
    if is_withdrawn f.status
    then (d, shown f)
    else if not (is_public f.status)
    then (d, refused value_error)
    else (save id row audit d, shown row)

unfoldable pub unpublish_find_from_latest : Texts → ℕ → String → String → String → Desk → Result
unpublish_find_from_latest tx now id reviewer notes d =
    with_find id d (λ f. withdraw_find tx now id reviewer notes f d)
