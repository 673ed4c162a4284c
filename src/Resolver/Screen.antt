-- ===== src/Resolver/Screen.antt =====
-- The filters of `resolve_lane` of core/model_resolver.py on one model.
use gestalt_workframe.Prelude.{
  ℕ, ◌-◌, ◌+◌, String, Bool, true, false, not, ◌&&◌, Option, none, some, List, ◌==◌, text_key, any,
  ltb, nat_eq, or_default, if◌then◌else◌,
}
use gestalt_workframe.Prelude.Int.{ℤ, pos, pos_part, ltb_ℤ}
use gestalt_workframe.Resolver.Catalog.{
  Python, CatalogModel, Lane, is_free_tier, is_batch_tier, is_router_pseudo_model, is_preview,
  supports, cost_per_turn, is_expired,
}

-- The reasons, without the numbers that their texts show.
pub data Reason : Type 0 where
  free_tier batch_tier router_pseudo_model preview benched : Reason
  missing_parameters context_too_small expired above_price_ceiling : Reason
  no_intelligence intelligence_below no_coding coding_below no_agentic agentic_below : Reason
  cost_not_positive below_margin_share : Reason

pub record Rejection : Type 0 where
  pub model_id : String
  pub reason : Reason

pub record Candidate : Type 0 where
  pub model : CatalogModel
  pub lane : String
  pub cost_per_turn_usd : ℕ
  pub margin : ℕ
  pub observed_seconds : Option ℕ

-- one axis of the quality floors
unfoldable pub floor_reason : Reason → Reason → Option ℕ → Option ℕ → Option Reason
floor_reason no_index below none value = none
floor_reason no_index below (some floor) none = some no_index
floor_reason no_index below (some floor) (some value) = if ltb value floor then some below else none

-- the first reason of two
unfoldable pub or_else : Option Reason → Option Reason → Option Reason
or_else none next = next
or_else (some r) next = some r

over_ceiling : Option ℤ → ℤ → Bool
over_ceiling none price = false
over_ceiling (some limit) price = ltb_ℤ limit price

unfoldable pub above_ceiling : Lane → CatalogModel → Bool
unfolding over_ceiling
above_ceiling lane m = over_ceiling lane.max_prompt_price m.prompt_price

unfoldable pub turn_cost : Lane → CatalogModel → ℤ
turn_cost lane m =
    cost_per_turn m lane.expected_input_tokens lane.expected_output_tokens
      lane.expected_cached_input_tokens

unfoldable pub block_reason : Python → ℕ → List String → Lane → CatalogModel → Option Reason
block_reason py now benched_ids lane m =
    let floors =
      or_else
        (floor_reason Reason.no_intelligence Reason.intelligence_below lane.min_intelligence
          m.intelligence_index)
        (or_else (floor_reason Reason.no_coding Reason.coding_below lane.min_coding m.coding_index)
          (floor_reason Reason.no_agentic Reason.agentic_below lane.min_agentic m.agentic_index)) in
    let priced = if ltb_ℤ (pos 0) (turn_cost lane m) then none else some Reason.cost_not_positive in
    if is_free_tier py m
    then some Reason.free_tier
    else if is_batch_tier py m
    then some Reason.batch_tier
    else if is_router_pseudo_model py m
    then some Reason.router_pseudo_model
    else if is_preview py m && not lane.allow_preview
    then some Reason.preview
    else if any (λ b. b == m.id) benched_ids
    then some Reason.benched
    else if any (λ p. not (supports m p)) lane.must
    then some Reason.missing_parameters
    else if not (nat_eq lane.min_context_tokens 0) && ltb m.context_length lane.min_context_tokens
    then some Reason.context_too_small
    else if is_expired py now m
    then some Reason.expired
    else if above_ceiling lane m
    then some Reason.above_price_ceiling
    else or_else floors priced

surplus : Option ℕ → Option ℕ → ℕ
surplus none value = 0
surplus (some floor) value = or_default value 0 - floor

is_none : Option ℕ → Bool
is_none none = true
is_none (some n) = false

declares_no_floor : Lane → Bool
declares_no_floor lane =
    is_none lane.min_intelligence && is_none lane.min_coding && is_none lane.min_agentic

-- `_margin`
unfoldable pub margin : CatalogModel → Lane → ℕ
unfolding surplus declares_no_floor is_none
margin m lane =
    if declares_no_floor lane
    then or_default m.intelligence_index 0
    else surplus lane.min_intelligence m.intelligence_index
      + surplus lane.min_coding m.coding_index
      + surplus lane.min_agentic m.agentic_index

unfoldable pub candidate : Lane → (String → Option ℕ) → CatalogModel → Candidate
candidate lane latencies m = record {
  model = m;
  lane = lane.name;
  cost_per_turn_usd = pos_part (turn_cost lane m);
  margin = margin m lane;
  observed_seconds = latencies m.id;
}
