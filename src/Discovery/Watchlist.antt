-- ===== src/Discovery/Watchlist.antt =====
-- `WatchedSource` and `validate_watchlist` of kb/watchlist.py. Whether a target is safe is an argument.
use gestalt_workframe.Prelude.{
  ℕ, String, Bool, true, not, ◌&&◌, ◌||◌, List, [], ◌∷◌, ◌==◌, text_key, any, if◌then◌else◌,
}
use gestalt_workframe.Discovery.Rows.{Texts}

pub record WatchedSource : Type 0 where
  pub name : String
  pub watch_type : String
  pub target : String
  pub description : String
  pub refresh_cadence : String
  pub canonical_url : String
  pub provenance : String
  pub license_notes : String
  pub attribution : String
  pub trust_tier : String
  pub display_policy : String
  pub retrieval_policy : String
  pub agent_access_policy : String
  pub secret_handling : String
  pub importance_floor : String
  pub active : Bool

-- `ALLOWED_WATCH_TYPES`
unfoldable pub is_watch_type : String → Bool
is_watch_type t =
    any (λ a. a == t)
      ("github_repo_watch" ∷ "github_repo_artifact_scan" ∷ "github_topic_watch"
        ∷ "github_user_org_watch" ∷ "rss_feed" ∷ "subreddit_watch" ∷ "youtube_channel_watch"
        ∷ "web_diff" ∷ "saved_search" ∷ [])

-- `ALLOWED_REFRESH_CADENCES`
unfoldable pub is_cadence : String → Bool
is_cadence c = c == "hourly" || c == "every_6h" || c == "daily" || c == "weekly"

-- `CADENCE_SECONDS`; a cadence that is not allowed has none
unfoldable pub refresh_seconds : WatchedSource → ℕ
refresh_seconds s =
    if s.refresh_cadence == "hourly"
    then 3600
    else if s.refresh_cadence == "every_6h"
    then 21600
    else if s.refresh_cadence == "daily"
    then 86400
    else if s.refresh_cadence == "weekly"
    then 604800
    else 0

unfoldable pub is_floor : String → Bool
is_floor f = f == "low" || f == "normal" || f == "high"

-- the fields that `_required` asks for beside the name
abbrev required_fields : WatchedSource → List String
required_fields s =
    s.target ∷ s.description ∷ s.canonical_url ∷ s.provenance ∷ s.license_notes ∷ s.attribution
    ∷ s.trust_tier ∷ s.display_policy ∷ s.retrieval_policy ∷ s.agent_access_policy
    ∷ s.secret_handling ∷ []

unfoldable pub is_valid_source : Texts → (String → String → Bool) → WatchedSource → Bool
is_valid_source tx is_safe s =
    not (tx.strip s.name == "")
    && is_watch_type s.watch_type
    && is_cadence s.refresh_cadence
    && is_floor s.importance_floor
    && not (any (λ f. tx.strip f == "") (required_fields s))
    && is_safe s.watch_type s.target

valid_from : Texts → (String → String → Bool) → List String → List WatchedSource → Bool
valid_from tx is_safe names [] = true
valid_from tx is_safe names (s ∷ ss) =
    is_valid_source tx is_safe s
    && not (any (λ n. n == tx.strip s.name) names)
    && valid_from tx is_safe (tx.strip s.name ∷ names) ss

-- Does `validate_watchlist` return and not raise?
unfoldable pub validate_watchlist : Texts → (String → String → Bool) → List WatchedSource → Bool
unfolding valid_from
validate_watchlist tx is_safe ss = valid_from tx is_safe [] ss
