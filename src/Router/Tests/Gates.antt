-- ===== src/Router/Tests/Gates.antt =====
-- The theorems on the gate, the order and the limits of core/router.py, at small inputs.
use gestalt_workframe.Prelude.{◌≡◌, ◌↔◌, refl, true, false, none, some, All, IsIn, text_key}
use gestalt_workframe.Budget.Database.{counter_key_eq}
use gestalt_workframe.Router.Slots.{started, finished, can_start, Active}
use gestalt_workframe.Router.State.{Health}
use gestalt_workframe.Router.Gate.{
  Turn, selection_blocked_reason, route_blocked_reason, callable_now, route_temporarily_blocked,
  runtime_selection_blocked_reason,
}
use gestalt_workframe.Router.State.{route_enabled}
use gestalt_workframe.Router.Order.{ordered_routes}
use gestalt_workframe.Router.Passed.{Passed, selectable_iff, callable_iff}
use gestalt_workframe.Router.Families.{IsLocalFirst, local_before_cloud, local_only_configured}
use gestalt_workframe.Router.Limits.{
  Running, idle, starts_local, starts_cloud, ends_local, IsWithinLimits, generations_limited,
}
use gestalt_workframe.Router.Tests.{plain_words, cloud_route, limits, router, shop, turn}

selectable_iff_example :
    (text_key.agree (selection_blocked_reason plain_words 7 turn router cloud_route) "" ≡ true) ↔ (
      Passed plain_words turn "prefer_local" cloud_route
      × (route_enabled router "claude" ≡ true)
      × (route_temporarily_blocked plain_words router cloud_route ≡ false)
      × (text_key.agree (runtime_selection_blocked_reason plain_words 7 router cloud_route) ""
          ≡ true))
selectable_iff_example = selectable_iff plain_words 7 turn router cloud_route

abbrev healthy : Health
healthy = record { endpoint_healthy = true; model_available = true; checked = true }

callable_iff_example :
    (text_key.agree (route_blocked_reason plain_words router healthy true none none cloud_route) ""
      ≡ true)
    ↔ ((callable_now plain_words router healthy true none none cloud_route ≡ true)
        × (healthy.checked ≡ true)
        × (healthy.endpoint_healthy ≡ true))
callable_iff_example = callable_iff plain_words router healthy true none none cloud_route

abbrev one_running : Active
one_running = record { total = 1; local = 0; cloud = 1 }

-- A local generation starts, then a cloud one, and the local one ends.
one_cloud_left : Running limits one_running 0 1
unfolding started finished can_start
one_cloud_left = ends_local (starts_cloud (starts_local idle refl) refl)

generations_limited_example : IsWithinLimits limits one_running 0 1
generations_limited_example = generations_limited limits one_running 0 1 one_cloud_left

local_before_cloud_example : IsLocalFirst (ordered_routes shop (λ p. 50) 7 turn router).0
local_before_cloud_example = local_before_cloud shop (λ p. 50) 7 turn router refl

abbrev private_turn : Turn
private_turn = record turn { response_policy = some "local_only" }

local_only_configured_example :
    All (λ x. IsIn x router.routes) (ordered_routes shop (λ p. 50) 7 private_turn router).0
local_only_configured_example = local_only_configured shop (λ p. 50) 7 private_turn router refl
