-- ===== src/Resolver/Ahead.antt =====
-- The order of core/model_resolver.py: what its first candidate has over the others.
use gestalt_workframe.Prelude.{◌*◌, ◌≤◌, ◌<◌, ◌≡◌, ◌⊎◌, refl, inr, true, false, List, arith, All}
use native.Mathlib.Nat.{mul-le-mul_right, le_of_mul-le-mul_right}
use gestalt_workframe.Prelude.Sort.{Ranks, IsSortedBy, sort_by-IsSortedBy}
use gestalt_workframe.Resolver.Screen.{Candidate}
use gestalt_workframe.Resolver.Order.{
  Tier, best, auto, fast, cheap, comes_first, key_order, and_then, unmeasured, seconds_times_cost,
  order,
}

-- `a` does at least as well as `b` by the objective of the tier.
abbrev pub Ahead : Tier → Candidate → Candidate → Type 0
Ahead best a b =
    (b.margin < a.margin) ⊎ ((a.margin ≡ b.margin) × (a.cost_per_turn_usd ≤ b.cost_per_turn_usd))
Ahead cheap a b =
    (a.cost_per_turn_usd < b.cost_per_turn_usd)
    ⊎ ((a.cost_per_turn_usd ≡ b.cost_per_turn_usd) × (b.margin ≤ a.margin))
Ahead fast a b =
    (unmeasured a < unmeasured b)
    ⊎ ((unmeasured a ≡ unmeasured b) × (seconds_times_cost a ≤ seconds_times_cost b))
Ahead auto a b = b.margin * a.cost_per_turn_usd ≤ a.margin * b.cost_per_turn_usd

pub Ahead-refl : (t : Tier) (a : Candidate) → Ahead t a a
Ahead-refl best a = inr (refl, omega arith)
Ahead-refl cheap a = inr (refl, omega arith)
Ahead-refl fast a = inr (refl, omega arith)
Ahead-refl auto a = omega arith

comes_first-Ahead : (t : Tier) (a b : Candidate) → comes_first t a b ≡ true → Ahead t a b
unfolding comes_first key_order and_then
comes_first-Ahead best a b h = ground arith
comes_first-Ahead cheap a b h = ground arith
comes_first-Ahead fast a b h = ground arith
comes_first-Ahead auto a b h = ground arith

comes_later-Ahead : (t : Tier) (a b : Candidate) → comes_first t a b ≡ false → Ahead t b a
unfolding comes_first key_order and_then
comes_later-Ahead best a b h = ground arith
comes_later-Ahead cheap a b h = ground arith
comes_later-Ahead fast a b h = ground arith
comes_later-Ahead auto a b h = ground arith

Ahead-trans :
    (t : Tier) (a b c : Candidate)
    → 0 < b.cost_per_turn_usd
    → Ahead t a b
    → Ahead t b c
    → Ahead t a c
Ahead-trans best a b c p h k = ground arith
Ahead-trans cheap a b c p h k = ground arith
Ahead-trans fast a b c p h k = ground arith
Ahead-trans auto a b c p h k =
    let left = mul-le-mul_right c.cost_per_turn_usd h in
    let right = mul-le-mul_right a.cost_per_turn_usd k in
    le_of_mul-le-mul_right {k = b.cost_per_turn_usd} (grind (arith, left, right)) p

abbrev pub IsCosted : Candidate → Type 0
IsCosted c = 0 < c.cost_per_turn_usd

Ahead-Ranks : (t : Tier) → Ranks (comes_first t) IsCosted (Ahead t)
Ahead-Ranks t = record {
  first = comes_first-Ahead t;
  later = comes_later-Ahead t;
  chain = Ahead-trans t;
}

-- Each candidate is ahead of all that follow it.
pub order-IsSortedBy :
    (t : Tier) (cs : List Candidate) → All IsCosted cs → IsSortedBy (Ahead t) (order t cs)
unfolding order
order-IsSortedBy t = sort_by-IsSortedBy (comes_first t) IsCosted (Ahead t) (Ahead-Ranks t)
