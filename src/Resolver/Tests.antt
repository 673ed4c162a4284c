-- ===== src/Resolver/Tests.antt =====
-- A small catalog, and the theorems on core/model_resolver.py at it.
use gestalt_workframe.Prelude.{
  ℕ, ◌≡◌, ◌↔◌, refl, inl, inr, String, false, Option, none, some, List, [], ◌∷◌, All, text_key,
}
use gestalt_workframe.Prelude.Int.{pos, ◌+ℤ◌, ◌*ℤ◌}
use gestalt_workframe.Resolver.Catalog.{
  Python, CatalogModel, Lane, suffixes, is_free_tier, is_batch_tier, is_router_pseudo_model,
  is_preview, supports, cost_per_turn, is_expired,
}
use gestalt_workframe.Resolver.Screen.{
  Reason, Candidate, block_reason, floor_reason, or_else, above_ceiling, turn_cost, candidate,
}
use gestalt_workframe.Resolver.Order.{best, auto, resolve_lane}
use gestalt_workframe.Resolver.Clears.{Clears, block_reason_iff}
use gestalt_workframe.Resolver.Ahead.{Ahead}
use gestalt_workframe.Resolver.Shortlist.{IsQualified, IsInShare, shortlist_sound, shortlist_led}

-- A library that finds no colon, no marker and no date.
abbrev plain : Python
plain = record {
  lower_split = λ s. s ∷ [];
  lower_contains = λ marker s. false;
  instant = λ s. none;
}

abbrev small : CatalogModel
small = record {
  id = "vendor/small";
  context_length = 8000;
  prompt_price = pos 2;
  completion_price = pos 8;
  cache_read_price = none;
  supported_parameters = "tools" ∷ [];
  intelligence_index = some 300;
  coding_index = none;
  agentic_index = none;
  expiration_date = "";
}

abbrev large : CatalogModel
large = record small {
  id = "vendor/large";
  prompt_price = pos 9;
  completion_price = pos 40;
  intelligence_index = some 600;
}

-- The same model, priced at 0.
abbrev sentinel : CatalogModel
sentinel = record large { id = "vendor/sentinel"; prompt_price = pos 0; completion_price = pos 0 }

abbrev catalog : List CatalogModel
catalog = small ∷ sentinel ∷ large ∷ []

abbrev lookup : Lane
lookup = record {
  name = "lookup";
  must = "tools" ∷ [];
  min_context_tokens = 0;
  max_prompt_price = none;
  min_intelligence = some 280;
  min_coding = none;
  min_agentic = none;
  allow_preview = false;
  expected_input_tokens = 1500;
  expected_output_tokens = 300;
  expected_cached_input_tokens = 0;
  shortlist_size = pos 3;
}

abbrev unmeasured_yet : String → Option ℕ
unmeasured_yet id = none

block_reason_iff_example :
    (block_reason plain 5 [] lookup small ≡ none) ↔ Clears plain 5 [] lookup small
block_reason_iff_example = block_reason_iff plain 5 [] lookup small

large_passes : block_reason plain 5 [] lookup large ≡ none
unfolding block_reason suffixes is_free_tier is_batch_tier is_router_pseudo_model is_preview
    supports cost_per_turn is_expired floor_reason or_else above_ceiling turn_cost ◌+ℤ◌ ◌*ℤ◌
large_passes = refl

shortlist_sound_example :
    let r = resolve_lane plain 5 [] unmeasured_yet auto lookup catalog in
    All
      (λ c.
        IsQualified plain 5 [] unmeasured_yet lookup catalog c
        × IsInShare auto r.best_available_margin c)
      r.candidates
shortlist_sound_example = shortlist_sound plain 5 [] unmeasured_yet lookup auto catalog

shortlist_led_example :
    (c : Candidate) × (rest : List Candidate) × ((resolve_lane plain 5 [] unmeasured_yet best lookup
        catalog).candidates
      ≡ c ∷ rest)
    × Ahead best c (candidate lookup unmeasured_yet large)
shortlist_led_example =
    shortlist_led plain 5 [] unmeasured_yet lookup best catalog large (inr (inr (inl refl)))
      ((block_reason_iff plain 5 [] lookup large).0 large_passes) tt

sentinel_dropped : block_reason plain 5 [] lookup sentinel ≡ some Reason.cost_not_positive
unfolding block_reason suffixes is_free_tier is_batch_tier is_router_pseudo_model is_preview
    supports cost_per_turn is_expired floor_reason or_else above_ceiling turn_cost ◌+ℤ◌ ◌*ℤ◌
sentinel_dropped = refl
