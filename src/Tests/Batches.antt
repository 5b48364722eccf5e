-- ===== src/Tests/Batches.antt =====
-- A batch of best responses for two sources, one of which has no demand and a missing link.
use traffic_emulator.Common.{
  arith, List, [], ◌∷◌, map, ◌≡◌, refl, inl, inr, ◌⊎◌, zip_with, if◌then◌else◌,
}
use traffic_emulator.Num.Elementary.{Elementary, IsElementary}
use traffic_emulator.Num.Integers.{ℤ, pos, integers, integers-IsOrdered, lt_ℤ, ◌-ℤ◌}
use traffic_emulator.Tests.Systems.{whole_functions}
use traffic_emulator.Control.BestResponse.Batch.{best_response_batch, settled, row_of}
use traffic_emulator.Control.BestResponse.Batch.Flows.{IsExponential}
use traffic_emulator.Control.BestResponse.Batch.Bounds.{
  All₃, IsServed, IsCarried, halvings, best_response_batch-IsServed,
}

abbrev nearer : Elementary ℤ
nearer = record whole_functions { toward_nought = λ x. if lt_ℤ (pos 0) x then x -ℤ pos 1 else x }

nearer-IsElementary : IsElementary ℤ ⦃e = nearer⦄
unfolding ◌-ℤ◌
nearer-IsElementary = record {
  toward_nought_nonneg = λ x h. ground arith;
  toward_nought_le = λ x h. ground arith;
}

nearer-IsExponential : IsExponential ℤ ⦃e = nearer⦄
nearer-IsExponential = record {
  log_nonneg = λ q h. ground arith;
  expm1_nonpos = λ x h. h;
  toward_nought_nought = refl;
}

abbrev batch_links : List (List ℤ)
batch_links = (pos 10 ∷ pos 8 ∷ []) ∷ (pos 6 ∷ pos 0 ∷ []) ∷ []

abbrev batch_prices : List ℤ
batch_prices = pos 1 ∷ pos 2 ∷ []

abbrev batch_demands : List ℤ
batch_demands = pos 3 ∷ pos 0 ∷ []

abbrev batch : List (List ℤ)
batch = best_response_batch ⦃e = nearer⦄ batch_links batch_prices batch_demands (pos 1) 2

best_response_batch-IsServed_example :
    All₃ (IsServed ⦃e = nearer⦄ batch_prices) batch_links batch_demands batch
    × (All₃ (IsCarried ⦃e = nearer⦄ batch_prices (pos 1)) batch_links batch_demands batch
        ⊎ (batch
            ≡ map (settled ⦃e = nearer⦄ batch_prices) (
                halvings ⦃e = nearer⦄ batch_prices 2
                  (zip_with (row_of ⦃e = nearer⦄ batch_prices) batch_links batch_demands))))
best_response_batch-IsServed_example =
    best_response_batch-IsServed ⦃e = nearer⦄ integers-IsOrdered nearer-IsElementary
      nearer-IsExponential batch_prices batch_links batch_demands (pos 1) 2
      (((inl refl, (inl refl, tt)), refl), (((inl refl, (inr refl, tt)), refl), tt)) refl
