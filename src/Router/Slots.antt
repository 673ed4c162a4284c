-- ===== src/Router/Slots.antt =====
-- The limits on generations of core/runtime.py, and the counters of running ones in core/router.py.
use gestalt_workframe.Prelude.{ℕ, ◌+◌, ◌-◌, min, Bool, false, ltb, leb, if◌then◌else◌}
use gestalt_workframe.Prelude.Int.{ℤ, pos_part}

pub record GenerationConcurrencyPolicy : Type 0 where
  pub normal_parallel_limit : ℕ
  pub hard_parallel_limit : ℕ
  pub max_local_generations : ℕ
  pub max_cloud_generations : ℕ

-- `max(a, b)` on natural numbers
abbrev pub larger : ℕ → ℕ → ℕ
larger a b = if leb a b then b else a

-- `from_env`, from the four numbers that the environment holds
unfoldable pub policy_from_env : ℤ → ℤ → ℤ → ℤ → GenerationConcurrencyPolicy
policy_from_env normal hard local cloud =
    let n = larger (pos_part normal) 1 in
    let h = larger (larger (pos_part hard) 1) n in
    record {
      normal_parallel_limit = n;
      hard_parallel_limit = h;
      max_local_generations = min (pos_part local) h;
      max_cloud_generations = min (pos_part cloud) h;
    }

-- The fields `_active_generations_total`, `_active_local_generations` and `_active_cloud_generations`.
pub record Active : Type 0 where
  pub total : ℕ
  pub local : ℕ
  pub cloud : ℕ

-- `can_start`, for a route that is local or not
unfoldable pub can_start : GenerationConcurrencyPolicy → Bool → Active → Bool
can_start p on_cloud a =
    if leb (min p.normal_parallel_limit p.hard_parallel_limit) a.total
    then false
    else if on_cloud
    then ltb a.cloud p.max_cloud_generations
    else ltb a.local p.max_local_generations

-- `_try_start_generation` once `can_start` allows it
unfoldable pub started : Bool → Active → Active
started on_cloud a =
    if on_cloud
    then record { total = a.total + 1; local = a.local; cloud = a.cloud + 1 }
    else record { total = a.total + 1; local = a.local + 1; cloud = a.cloud }

-- `_finish_generation`
unfoldable pub finished : Bool → Active → Active
finished on_cloud a =
    if on_cloud
    then record { total = a.total - 1; local = a.local; cloud = a.cloud - 1 }
    else record { total = a.total - 1; local = a.local - 1; cloud = a.cloud }
