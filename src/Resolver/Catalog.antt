-- ===== src/Resolver/Catalog.antt =====
-- `CatalogModel` of core/model_catalog.py and `Lane` of core/model_lanes.py. A price is a whole number,
-- possibly below 0, of some small part of a USD for a token, and an index one of some small part of a
-- point, where the code has floats. Token counts are not below 0.
use gestalt_workframe.Prelude.{
  ℕ, ◌-◌, String, Bool, false, ◌||◌, Option, none, some, List, [], ◌∷◌, ◌==◌, text_key, any, nat_eq,
  leb, or_default, if◌then◌else◌,
}
use gestalt_workframe.Prelude.Int.{ℤ, pos, ◌+ℤ◌, ◌*ℤ◌}

-- What the code asks of Python's library: `id.lower().split(":")`, `marker in id.lower()`, and the
-- instant of a date, in UTC where it names no zone, none where `datetime.fromisoformat` refuses it.
pub record Python : Type 0 where
  pub lower_split : String → List String
  pub lower_contains : String → String → Bool
  pub instant : String → Option ℕ

pub record CatalogModel : Type 0 where
  pub id : String
  pub context_length : ℕ
  pub prompt_price : ℤ
  pub completion_price : ℤ
  pub cache_read_price : Option ℤ
  pub supported_parameters : List String
  pub intelligence_index : Option ℕ
  pub coding_index : Option ℕ
  pub agentic_index : Option ℕ
  pub expiration_date : String

-- `max_prompt_price` is the price of one token, `price_ceiling_per_token`.
pub record Lane : Type 0 where
  pub name : String
  pub must : List String
  pub min_context_tokens : ℕ
  pub max_prompt_price : Option ℤ
  pub min_intelligence : Option ℕ
  pub min_coding : Option ℕ
  pub min_agentic : Option ℕ
  pub allow_preview : Bool
  pub expected_input_tokens : ℕ
  pub expected_output_tokens : ℕ
  pub expected_cached_input_tokens : ℕ
  pub shortlist_size : ℤ

tail : List String → List String
tail [] = []
tail (x ∷ xs) = xs

unfoldable pub suffixes : Python → CatalogModel → List String
unfolding tail
suffixes py m = tail (py.lower_split m.id)

unfoldable pub is_free_tier : Python → CatalogModel → Bool
is_free_tier py m = any (λ s. s == "free" || s == "free-tier") (suffixes py m)

unfoldable pub is_batch_tier : Python → CatalogModel → Bool
is_batch_tier py m = any (λ s. s == "batch") (suffixes py m)

names_router : List String → Bool
names_router [] = false
names_router (base ∷ rest) =
    base == "openrouter/auto" || base == "openrouter/auto-beta" || base == "openrouter/free"

unfoldable pub is_router_pseudo_model : Python → CatalogModel → Bool
unfolding names_router
is_router_pseudo_model py m = names_router (py.lower_split m.id)

unfoldable pub is_preview : Python → CatalogModel → Bool
is_preview py m =
    any (λ marker. py.lower_contains marker m.id)
      ("-preview" ∷ "-exp" ∷ ":alpha" ∷ ":beta" ∷ "-experimental" ∷ [])

unfoldable pub supports : CatalogModel → String → Bool
supports m parameter = any (λ p. p == parameter) m.supported_parameters

unfoldable pub cost_per_turn : CatalogModel → ℕ → ℕ → ℕ → ℤ
cost_per_turn m expected_in expected_out cached_in =
    let fresh_in = expected_in - cached_in in
    let cost = pos fresh_in *ℤ m.prompt_price +ℤ pos expected_out *ℤ m.completion_price in
    if nat_eq cached_in 0
    then cost
    else cost +ℤ pos cached_in *ℤ or_default m.cache_read_price m.prompt_price

unfoldable pub is_expired : Python → ℕ → CatalogModel → Bool
is_expired py now m =
    if m.expiration_date == ""
    then false
    else elim (py.instant m.expiration_date) [ none ↦ false | some expires ↦ leb expires now ]
