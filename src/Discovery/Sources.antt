-- ===== src/Discovery/Sources.antt =====
-- The sources that core/discovery_queue.py adds and changes, and the finds that an operator pastes in.
-- The id of a new row is an argument.
use gestalt_workframe.Prelude.{
  ℕ, String, Bool, true, false, not, ◌&&◌, ◌||◌, Option, none, some, [], ◌∷◌, ◌==◌, text_key, any,
  ltb, or_default, if◌then◌else◌,
}
use gestalt_workframe.Prelude.Assoc.{Assoc, get, put}
use gestalt_workframe.Discovery.Rows.{
  auto_indexed, Find, Source, Event, Audit, find_decision, source_added, source_updated, Actor,
  manual_curation_bootstrap, Mark, blank, manual_added, source_is, Desk, Texts, Problem,
  value_error, lookup_error, raised, shown, refused, Result, actor_of, save, save_row,
}
use gestalt_workframe.Discovery.Watchlist.{
  WatchedSource, validate_watchlist, refresh_seconds, is_floor,
}

abbrev pub SourceResult : Type 0
SourceResult = Desk × Option Problem

-- `SELECT … WHERE name = name`
unfoldable pub source_named : String → Assoc String Source → Option (String × Source)
source_named name [] = none
source_named name ((id, s) ∷ rest) =
    let later = source_named name rest in if s.name == name then some (id, s) else later

unfoldable pub is_named : String → Assoc String Source → Bool
is_named name sources = any (λ r. r.1.name == name) sources

abbrev source_audit : String → Event → Actor → Mark → Mark → String → Audit
source_audit id event actor before after reason = record {
  find_id = none;
  source_id = some id;
  event_type = event;
  actor = actor;
  before_state = before;
  after_state = after;
  reason = reason;
}

abbrev pub insert_source : String → Source → Actor → String → Desk → Desk
insert_source id s actor reason d = record d {
  sources = put id s d.sources;
  audits = source_audit id source_added actor blank (source_is s) reason ∷ d.audits;
}

abbrev pub new_source : Texts → WatchedSource → String → Source
new_source tx w notes = record {
  name = tx.strip w.name;
  watch_type = tx.strip w.watch_type;
  target = tx.strip w.target;
  refresh_interval_seconds = refresh_seconds w;
  importance_floor = tx.strip w.importance_floor;
  active = w.active;
  notes = tx.strip (tx.clip 2048 notes);
  featured = false;
  updated_at = none;
}

-- `add_watched_source`; the table's names are unique, so a name that only stripping makes equal to
-- another's is refused by the database
unfoldable pub add_watched_source :
    Texts → (String → String → Bool) → String → WatchedSource → String → Actor → Desk → SourceResult
add_watched_source tx is_safe id w notes actor d =
    let s = new_source tx w notes in
    if not (validate_watchlist tx is_safe (w ∷ []))
    then (d, some value_error)
    else if is_named w.name d.sources
    then (d, some value_error)
    else if is_named s.name d.sources
    then (d, some (raised "IntegrityError"))
    else (insert_source id s actor (tx.strip (tx.clip 2048 notes)) d, none)

-- The arguments of `update_watched_source` that may be given.
pub record SourceUpdate : Type 0 where
  pub refresh_interval_seconds : Option ℕ
  pub active : Option Bool
  pub notes : Option String
  pub importance_floor : Option String

unfoldable pub too_often : Option ℕ → Bool
too_often none = false
too_often (some n) = ltb n 300

unfoldable pub unknown_floor : Option String → Bool
unknown_floor none = false
unknown_floor (some f) = not (is_floor f)

noted : Texts → Option String → String → String
noted tx none old = old
noted tx (some n) old = tx.strip (tx.clip 2048 n)

unfoldable pub updated_source : Texts → ℕ → SourceUpdate → Source → Source
unfolding noted
updated_source tx now u s = record s {
  refresh_interval_seconds = or_default u.refresh_interval_seconds s.refresh_interval_seconds;
  active = or_default u.active s.active;
  notes = noted tx u.notes s.notes;
  importance_floor = or_default u.importance_floor s.importance_floor;
  updated_at = some now;
}

unfoldable pub update_watched_source :
    Texts → ℕ → String → SourceUpdate → Actor → Desk → SourceResult
update_watched_source tx now id u actor d = elim (get id d.sources) [
  | none ↦ (d, some lookup_error)
  | some s ↦
      let s' = updated_source tx now u s in
      if too_often u.refresh_interval_seconds
      then (d, some value_error)
      else if unknown_floor u.importance_floor
      then (d, some value_error)
      else (
        record d {
          sources = put id s' d.sources;
          audits =
              source_audit id source_updated actor (source_is s) (source_is s')
                (tx.strip (tx.clip 2048 (or_default u.notes "")))
              ∷ d.audits;
        },
        none,
      )
]

abbrev pub manual_source : Source
manual_source = record {
  name = "manual_curation";
  watch_type = "manual_curation";
  target = "manual";
  refresh_interval_seconds = 86400;
  importance_floor = "normal";
  active = false;
  notes = "Synthetic source owning operator-pasted custom URLs for the newsletter pipeline.";
  featured = false;
  updated_at = none;
}

-- `_ensure_manual_curation_source`, which gives the id of the source too
unfoldable pub ensure_manual_source : String → Desk → Desk × String
ensure_manual_source id d = elim (source_named "manual_curation" d.sources) [
  | none ↦
      (insert_source id manual_source manual_curation_bootstrap "Manual curation singleton" d, id)
  | some p ↦ (d, p.0)
]

-- `SELECT … WHERE discovery_source_id = … AND external_id = …`
unfoldable pub find_external : String → String → Assoc String Find → Option (String × Find)
find_external source url [] = none
find_external source url ((id, f) ∷ rest) =
    let later = find_external source url rest in
    if (f.discovery_source_id == source) && (f.external_id == url) then some (id, f) else later

-- The arguments of `create_manual_find`, with the JSON text that it makes of the last ones.
pub record Paste : Type 0 where
  pub url : String
  pub title : String
  pub description : String
  pub payload : String
  pub queue_for_newsletter : Bool
  pub reviewer : String

abbrev pub manual_find : Texts → ℕ → String → Paste → Find
manual_find tx now source p = record {
  discovery_source_id = source;
  finding_type = "manual_url";
  external_id = tx.strip p.url;
  title = tx.clip 300 (tx.strip p.title);
  url = tx.strip p.url;
  summary_text = tx.clip 2000 (tx.strip p.description);
  raw_payload = p.payload;
  status = auto_indexed;
  decision_notes = "";
  reviewer = p.reviewer;
  first_seen_at = now;
  decided_at = some now;
  ingested_into_chroma = false;
  published_to_library_repo = false;
  library_target_path = "";
  library_file_url = "";
  library_promotion_error = "";
  promoted_at = none;
  featured = false;
  featured_at = none;
  ticker_featured = false;
  ticker_featured_at = none;
  newsletter_pending = p.queue_for_newsletter;
  dismissed = false;
  newsletter_issue_id = none;
  published_in_newsletter_at = none;
}

-- the row of a URL that was pasted before
unfoldable pub requeue : Paste → String → Find → Desk → Result
requeue p id f d =
    let row = record f { newsletter_pending = true; dismissed = false } in
    if p.queue_for_newsletter && not f.newsletter_pending
    then (save_row id row d, shown row)
    else (d, shown f)

unfoldable pub insert_manual : Texts → ℕ → String → String → Paste → Desk → Result
insert_manual tx now source id p d =
    let f = manual_find tx now source p in
    (
      save id f
          (record {
            find_id = some id;
            source_id = some source;
            event_type = find_decision;
            actor = actor_of p.reviewer;
            before_state = blank;
            after_state = manual_added;
            reason = "Operator pasted custom URL";
          })
          d,
      shown f,
    )

unfoldable pub create_manual_find : Texts → ℕ → String → String → Paste → Desk → Result
create_manual_find tx now source_id id p d =
    let (d', source) = ensure_manual_source source_id d in
    if tx.strip p.url == "" || tx.strip p.title == ""
    then (d, refused value_error)
    else elim (find_external source (tx.strip p.url) d'.finds) [
      | none ↦ insert_manual tx now source id p d'
      | some q ↦ requeue p q.0 q.1 d'
    ]
