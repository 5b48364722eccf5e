-- ===== src/Model/MarginalCosts.antt =====
-- src/model/marginal_costs.py.
use traffic_emulator.Common.{List, zip_with, if◌then◌else◌}
use traffic_emulator.Num.{Num, ◌⊖◌, ◌⊗◌, ◌⊘◌, max}

module _ {R : Type 0} ⦃n : Num R⦄ where
  unfoldable pub mm1_marginal_cost : R → R → R → R
  mm1_marginal_cost x mu eps = if n.le mu x then mu ⊘ (eps ⊗ eps) else mu ⊘ ((mu ⊖ x) ⊗ (mu ⊖ x))

  -- one element of `mm1_marginal_cost_vectorized`
  unfoldable pub marginal_cost : R → R → R → R
  marginal_cost eps x mu = let gap = max (mu ⊖ x) eps in mu ⊘ (gap ⊗ gap)

  unfoldable pub mm1_marginal_cost_vectorized : List R → List R → R → List R
  mm1_marginal_cost_vectorized xs mus eps = zip_with (marginal_cost eps) xs mus
