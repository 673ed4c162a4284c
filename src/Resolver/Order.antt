-- ===== src/Resolver/Order.antt =====
-- The tiers, the gate and the order of `resolve_lane` of core/model_resolver.py.
use Prim.Native.Nat.{compare, Ordering}
use Prim.Native.String.{compare as compare_text}
use gestalt_workframe.Prelude.{
  ℕ, ◌*◌, String, Bool, true, false, not, ◌&&◌, Option, none, some, List, [], ◌∷◌, ◌++◌, map, ◌==◌,
  text_key, any, ltb, leb, nat_eq, or_default, if◌then◌else◌, select, length, take,
}
use gestalt_workframe.Prelude.Int.{pos_part}
use gestalt_workframe.Prelude.Sort.{sort_by}
use gestalt_workframe.Resolver.Catalog.{Python, CatalogModel, Lane}
use gestalt_workframe.Resolver.Screen.{Reason, Rejection, Candidate, block_reason, candidate}

pub data Tier : Type 0 where
  best auto fast cheap : Tier

-- an unknown tier is `auto`
unfoldable pub tier_of : String → Tier
tier_of name =
    if name == "best"
    then Tier.best
    else if name == "fast"
    then Tier.fast
    else if name == "cheap"
    then Tier.cheap
    else Tier.auto

pub data Objective : Type 0 where
  most_margin margin_per_dollar least_seconds_times_cost lowest_cost lowest_cost_unmeasured :
      Objective

unfoldable pub and_then : Ordering → Ordering → Ordering
and_then Ordering.lt next = Ordering.lt
and_then Ordering.eq next = next
and_then Ordering.gt next = Ordering.gt

unfoldable pub unmeasured : Candidate → ℕ
unmeasured c = elim c.observed_seconds [ none ↦ 1 | some t ↦ 0 ]

abbrev pub by_cost : Candidate → Candidate → Ordering
by_cost a b = compare a.cost_per_turn_usd b.cost_per_turn_usd

abbrev pub by_margin : Candidate → Candidate → Ordering
by_margin a b = compare b.margin a.margin

abbrev pub by_id : Candidate → Candidate → Ordering
by_id a b = compare_text a.model.id b.model.id

abbrev pub seconds_times_cost : Candidate → ℕ
seconds_times_cost c = or_default c.observed_seconds 0 * c.cost_per_turn_usd

-- The comparison of the keys of `_order`. The ratios of `auto` are compared multiplied out.
unfoldable pub key_order : Tier → Candidate → Candidate → Ordering
unfolding and_then
key_order Tier.best a b = and_then (by_margin a b) (and_then (by_cost a b) (by_id a b))
key_order Tier.cheap a b = and_then (by_cost a b) (and_then (by_margin a b) (by_id a b))
key_order Tier.fast a b = and_then (compare (unmeasured a) (unmeasured b)) (
    and_then (compare (seconds_times_cost a) (seconds_times_cost b))
      (and_then (by_cost a b) (and_then (by_margin a b) (by_id a b))))
key_order Tier.auto a b =
    and_then (compare (b.margin * a.cost_per_turn_usd) (a.margin * b.cost_per_turn_usd))
      (and_then (by_cost a b) (by_id a b))

unfoldable pub comes_first : Tier → Candidate → Candidate → Bool
comes_first t a b = elim (key_order t a b) [ Ordering.gt ↦ false | _ ↦ true ]

-- `sorted(candidates, key=key)`, which is stable
unfoldable pub order : Tier → List Candidate → List Candidate
order t = sort_by (comes_first t)

-- `max((c.margin for c in candidates), default=0.0)`
unfoldable pub best_margin : List Candidate → ℕ
best_margin [] = 0
best_margin (c ∷ cs) = let rest = best_margin cs in if leb rest c.margin then c.margin else rest

-- `c.margin >= 0.35 * best_margin`
unfoldable pub clears_gate : ℕ → Candidate → Bool
clears_gate top c = leb (35 * top) (100 * c.margin)

unfoldable pub is_gated : Tier → Bool
is_gated Tier.best = false
is_gated Tier.auto = true
is_gated Tier.fast = true
is_gated Tier.cheap = false

unfoldable pub gated : Tier → List Candidate → List Candidate
unfolding is_gated
gated t cs =
    let top = best_margin cs in if is_gated t && ltb 0 top then select (clears_gate top) cs else cs

-- the candidates whose id no kept candidate has
gate_losers : List Candidate → List Candidate → List Candidate
gate_losers kept cs = select (λ c. not (any (λ k. k.model.id == c.model.id) kept)) cs

objective_of : Tier → List Candidate → Objective
objective_of Tier.best cs = Objective.most_margin
objective_of Tier.auto cs = Objective.margin_per_dollar
objective_of Tier.cheap cs = Objective.lowest_cost
objective_of Tier.fast cs =
    if any (λ c. nat_eq (unmeasured c) 0) cs
    then Objective.least_seconds_times_cost
    else Objective.lowest_cost_unmeasured

pub record Resolution : Type 0 where
  pub lane : String
  pub candidates : List Candidate
  pub rejections : List Rejection
  pub tier : Tier
  pub objective : Objective
  pub cleared_floors : ℕ
  pub survived_gate : ℕ
  pub best_available_margin : ℕ

-- the loop over the catalog: the candidates and the rejections, in its order
unfoldable pub screened :
    Python
    → ℕ
    → List String
    → (String → Option ℕ)
    → Lane
    → List CatalogModel
    → List Candidate × List Rejection
screened py now benched_ids latencies lane [] = ([], [])
screened py now benched_ids latencies lane (m ∷ ms) =
    let (cs, rs) = screened py now benched_ids latencies lane ms in
    elim (block_reason py now benched_ids lane m) [
      | none ↦ (candidate lane latencies m ∷ cs, rs)
      | some r ↦ (cs, record { model_id = m.id; reason = r } ∷ rs)
    ]

-- `max(1, lane.shortlist_size)`
unfoldable pub shortlist_length : Lane → ℕ
shortlist_length lane = let n = pos_part lane.shortlist_size in if nat_eq n 0 then 1 else n

below_share : Candidate → Rejection
below_share c = record { model_id = c.model.id; reason = Reason.below_margin_share }

unfoldable pub resolve_lane :
    Python → ℕ → List String → (String → Option ℕ) → Tier → Lane → List CatalogModel → Resolution
unfolding gate_losers objective_of below_share
resolve_lane py now benched_ids latencies t lane catalog =
    let (cs, rs) = screened py now benched_ids latencies lane catalog in
    let kept = gated t cs in
    let ordered = order t kept in
    record {
      lane = lane.name;
      candidates = take (shortlist_length lane) ordered;
      rejections = rs ++ map below_share (gate_losers kept cs);
      tier = t;
      objective = objective_of t kept;
      cleared_floors = length cs;
      survived_gate = length ordered;
      best_available_margin = best_margin cs;
    }
