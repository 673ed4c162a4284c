-- ===== src/Discovery/Rows.antt =====
-- `DiscoveryFind`, `DiscoverySource` and `DiscoveryAudit` of core/db/models.py as far as
-- core/discovery_queue.py and core/newsletter.py read and write them, and what is kept outside the
-- database.
use gestalt_workframe.Prelude.{
  ℕ, String, Bool, true, false, Option, none, some, List, ◌∷◌, ◌==◌, text_key, if◌then◌else◌,
}
use gestalt_workframe.Prelude.Assoc.{Assoc, get, put}

pub data Status : Type 0 where
  pending approved rejected withdrawn merged_into_corpus published auto_indexed source_activity :
      Status

pub record Find : Type 0 where
  pub discovery_source_id : String
  pub finding_type : String
  pub external_id : String
  pub title : String
  pub url : String
  pub summary_text : String
  pub raw_payload : String
  pub status : Status
  pub decision_notes : String
  pub reviewer : String
  pub first_seen_at : ℕ
  pub decided_at : Option ℕ
  pub ingested_into_chroma : Bool
  pub published_to_library_repo : Bool
  pub library_target_path : String
  pub library_file_url : String
  pub library_promotion_error : String
  pub promoted_at : Option ℕ
  pub featured : Bool
  pub featured_at : Option ℕ
  pub ticker_featured : Bool
  pub ticker_featured_at : Option ℕ
  pub newsletter_pending : Bool
  pub dismissed : Bool
  pub newsletter_issue_id : Option String
  pub published_in_newsletter_at : Option ℕ

pub record Source : Type 0 where
  pub name : String
  pub watch_type : String
  pub target : String
  pub refresh_interval_seconds : ℕ
  pub importance_floor : String
  pub active : Bool
  pub notes : String
  pub featured : Bool
  pub updated_at : Option ℕ

pub data Event : Type 0 where
  find_decision find_unpublished library_promoted library_unpublished kb_purged : Event
  source_added source_updated : Event

pub data Actor : Type 0 where
  reviewer_named : String → Actor
  reviewer_unnamed api manual_curation_bootstrap : Actor

-- The states that an audit row names.
pub data Mark : Type 0 where
  blank not_published approved_source_promoted manual_added : Mark
  status_is : Status → Mark
  flag_is : (flag : String) → Bool → Mark
  ingested_is : Bool → Mark
  library_is : Bool → String → Mark
  text_is delete_failed purge_failed : String → Mark
  source_is : Source → Mark

pub record Audit : Type 0 where
  pub find_id : Option String
  pub source_id : Option String
  pub event_type : Event
  pub actor : Actor
  pub before_state : Mark
  pub after_state : Mark
  pub reason : String

-- The tables, newest audit first; the files of the library's repository; and the finds whose text the
-- vector store holds.
pub record Desk : Type 0 where
  pub finds : Assoc String Find
  pub sources : Assoc String Source
  pub audits : List Audit
  pub library_files : List String
  pub chroma : List String

-- What the code asks of Python's texts: `strip`, and the first characters of a text.
pub record Texts : Type 0 where
  pub strip : String → String
  pub clip : ℕ → String → String

pub data Problem : Type 0 where
  value_error lookup_error : Problem
  raised : String → Problem

pub data Answer : Type 0 where
  shown : Find → Answer
  refused : Problem → Answer

abbrev pub Result : Type 0
Result = Desk × Answer

-- `f"reviewer:{reviewer}" if reviewer else "reviewer"`
unfoldable pub actor_of : String → Actor
actor_of reviewer = if reviewer == "" then Actor.reviewer_unnamed else Actor.reviewer_named reviewer

with_source : Assoc String Source → Option Find → Option (Find × Source)
with_source sources none = none
with_source sources (some f) = elim (get f.discovery_source_id sources) [
  | none ↦ none
  | some s ↦ some (f, s)
]

-- `_find_with_source`, or the query it stands for: the find joined with its source
unfoldable pub find_with_source : String → Desk → Option (Find × Source)
unfolding with_source
find_with_source id d = with_source d.sources (get id d.finds)

-- a change of one row with its audit row, committed
abbrev pub save : String → Find → Audit → Desk → Desk
save id f a d = record d { finds = put id f d.finds; audits = a ∷ d.audits }

-- a change of one row alone, committed
abbrev pub save_row : String → Find → Desk → Desk
save_row id f d = record d { finds = put id f d.finds }

abbrev pub find_audit : String → Find → Event → String → Mark → Mark → String → Audit
find_audit id f event reviewer before after reason = record {
  find_id = some id;
  source_id = some f.discovery_source_id;
  event_type = event;
  actor = actor_of reviewer;
  before_state = before;
  after_state = after;
  reason = reason;
}

-- `PUBLIC_FIND_STATUSES`
unfoldable pub is_public : Status → Bool
is_public Status.approved = true
is_public Status.published = true
is_public Status.auto_indexed = true
is_public _ = false

-- the operation on the find of an id, or the `LookupError` where there is none
unfoldable pub with_find : String → Desk → (Find → Result) → Result
with_find id d next = elim (find_with_source id d) [
  | none ↦ (d, Answer.refused Problem.lookup_error)
  | some p ↦ next p.0
]
