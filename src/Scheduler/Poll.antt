-- ===== src/Scheduler/Poll.antt =====
-- `select_due_sources`, the records of a poll and `_initial_status_for` of core/discovery_scheduler.py. An
-- instant is a number of microseconds.
use gestalt_workframe.Prelude.{
  ℕ, ◌+◌, ◌*◌, String, Bool, true, false, not, Option, none, some, List, [], ◌∷◌, ◌==◌, text_key,
  leb, any, select, take, if◌then◌else◌,
}
use gestalt_workframe.Discovery.Rows.{Source, Status, pending, source_activity, auto_indexed}

-- The columns of `DiscoverySource` that a poll reads and writes, with the rest of the row.
pub record PolledSource : Type 0 where
  pub row : Source
  pub last_polled_at : Option ℕ
  pub last_status : String
  pub last_error : String
  pub consecutive_failures : ℕ
  pub etag : String
  pub last_modified : String

pub record PollResult : Type 0 where
  pub status : String
  pub etag : String
  pub last_modified : String

abbrev pub is_active : PolledSource → Bool
is_active p = p.row.active

-- a time that lies at least so long ago, or none
unfoldable pub is_past : ℕ → ℕ → Option ℕ → Bool
is_past now long none = true
is_past now long (some at) = leb (at + long) now

unfoldable pub is_due : ℕ → PolledSource → Bool
unfolding is_past
is_due now p = is_past now (p.row.refresh_interval_seconds * 1000000) p.last_polled_at

-- The query's limit cuts the active rows before it is asked which are due.
unfoldable pub select_due_sources : ℕ → ℕ → List PolledSource → List PolledSource
select_due_sources now limit rows = select (is_due now) (take limit (select is_active rows))

-- `new or old`
unfoldable pub given_or : String → String → String
given_or new old = if new == "" then old else new

unfoldable pub record_successful_poll : ℕ → PollResult → PolledSource → PolledSource
unfolding given_or
record_successful_poll now result p = record p {
  row = record p.row { updated_at = some now };
  last_polled_at = some now;
  last_status = result.status;
  last_error = "";
  consecutive_failures = 0;
  etag = given_or result.etag p.etag;
  last_modified = given_or result.last_modified p.last_modified;
}

-- The error is given cut to its length, `error[:1024]`.
unfoldable pub record_failed_poll : ℕ → String → PolledSource → PolledSource
record_failed_poll now error p = record p {
  row = record p.row { updated_at = some now };
  last_polled_at = some now;
  last_status = "error";
  last_error = error;
  consecutive_failures = p.consecutive_failures + 1;
}

-- `FindCandidate`, with the title and the summary joined by a blank and in lower case.
pub record FindCandidate : Type 0 where
  pub finding_type : String
  pub importance_signal : String
  pub text : String

-- `_FIRST_CLASS_CONTENT_MARKERS`
abbrev pub first_class_content_markers : List String
first_class_content_markers =
    "release" ∷ "changelog" ∷ "tagged" ∷ "v1." ∷ "v2." ∷ "v3." ∷ "version " ∷ ".bundle.json"
    ∷ "schema" ∷ "index.md" ∷ "readme" ∷ "post:" ∷ "blog" ∷ "newsletter" ∷ "tutorial" ∷ []

-- `marker in text` is `contains`.
unfoldable pub is_routine_artifact_noise : (String → String → Bool) → FindCandidate → Source → Bool
is_routine_artifact_noise contains c s =
    if not (s.watch_type == "github_repo_artifact_scan")
    then false
    else if c.importance_signal == "high"
    then false
    else not (any (λ m. contains m c.text) first_class_content_markers)

unfoldable pub initial_status_for : (String → String → Bool) → FindCandidate → Source → Status
initial_status_for contains c s =
    if c.finding_type == "new_source_candidate"
    then pending
    else if is_routine_artifact_noise contains c s
    then source_activity
    else auto_indexed
