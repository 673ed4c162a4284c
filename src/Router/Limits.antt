-- ===== src/Router/Limits.antt =====
-- Generations of core/router.py that start and end in any order, and the limits of core/runtime.py.
use gestalt_workframe.Prelude.{ℕ, suc, ◌+◌, ◌≤◌, ◌≡◌, true, false, arith}
use gestalt_workframe.Router.Slots.{
  GenerationConcurrencyPolicy, Active, can_start, started, finished,
}

-- The counters when so many local and so many cloud generations are running: one starts where the policy
-- lets it, and any of those that are running may end.
pub data Running (p : GenerationConcurrencyPolicy) : Active → ℕ → ℕ → Type 0 where
  idle : Running p (record { total = 0; local = 0; cloud = 0 }) 0 0
  starts_local :
      {a : Active} {n m : ℕ}
      → Running p a n m
      → can_start p false a ≡ true
      → Running p (started false a) (suc n) m
  starts_cloud :
      {a : Active} {n m : ℕ}
      → Running p a n m
      → can_start p true a ≡ true
      → Running p (started true a) n (suc m)
  ends_local : {a : Active} {n m : ℕ} → Running p a (suc n) m → Running p (finished false a) n m
  ends_cloud : {a : Active} {n m : ℕ} → Running p a n (suc m) → Running p (finished true a) n m

pub record IsWithinLimits (p : GenerationConcurrencyPolicy) (a : Active) (n m : ℕ) : Type 0 where
  pub local_exact : a.local ≡ n
  pub cloud_exact : a.cloud ≡ m
  pub total_exact : a.total ≡ n + m
  pub local_limit : n ≤ p.max_local_generations
  pub cloud_limit : m ≤ p.max_cloud_generations
  pub normal_limit : n + m ≤ p.normal_parallel_limit
  pub hard_limit : n + m ≤ p.hard_parallel_limit

-- However generations start and end, the three counters are the numbers of those that are running, of
-- local ones, of cloud ones and of both, and none of the policy's four limits is exceeded.
pub generations_limited :
    (p : GenerationConcurrencyPolicy) (a : Active) (n m : ℕ)
    → Running p a n m
    → IsWithinLimits p a n m
unfolding can_start started finished
generations_limited p a n m idle = ground arith
generations_limited p c n m (starts_local {a = b} {n = k} {m = l} h can) =
    let i = generations_limited p b k l h in ground (arith, i, can)
generations_limited p c n m (starts_cloud {a = b} {n = k} {m = l} h can) =
    let i = generations_limited p b k l h in ground (arith, i, can)
generations_limited p c n m (ends_local {a = b} h) =
    let i = generations_limited p b (suc n) m h in ground (arith, i)
generations_limited p c n m (ends_cloud {a = b} h) =
    let i = generations_limited p b n (suc m) h in ground (arith, i)
