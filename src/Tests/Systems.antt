-- ===== src/Tests/Systems.antt =====
-- Stand-ins for numpy's functions on whole numbers, which meet the laws asked of them, and a system
-- of two sources and two brokers with one missing link.
use Prim.Native.Nat.{◌/◌}
use traffic_emulator.Common.{ℕ, zero, suc, ◌*◌, refl, true, false, List, [], ◌∷◌, arith}
use traffic_emulator.Num.Elementary.{Elementary, IsElementary}
use traffic_emulator.Num.Integers.{ℤ, pos, integers, ◌-ℤ◌}
use traffic_emulator.Num.Vectors.{sum}
use traffic_emulator.Model.Topology.{Topology}
use traffic_emulator.Model.Topology.Valid.{IsValid}

abbrev ten_to : ℕ → ℕ
ten_to zero = 1
ten_to (suc k) = 10 * ten_to k

instance abbrev pub whole_functions : Elementary ℤ
whole_functions = record {
  is_finite = λ x. true;
  log = λ x. x;
  expm1 = λ x. x;
  sqrt = λ x. x;
  norm = sum;
  sin = λ x. x;
  cos = λ x. pos 1;
  pi = pos 3;
  toward_nought = λ x. x -ℤ pos 1;
  literal = λ m k. pos (m / ten_to k);
}

pub whole_functions-IsElementary : IsElementary ℤ
unfolding ◌-ℤ◌
whole_functions-IsElementary = record {
  toward_nought_nonneg = λ x h. ground arith;
  toward_nought_le = λ x h. ground arith;
}

abbrev pub two_by_two : Topology ℤ
two_by_two = record {
  lambdas_total = pos 2 ∷ pos 2 ∷ [];
  mu_links = (pos 10 ∷ pos 10 ∷ []) ∷ (pos 10 ∷ pos 0 ∷ []) ∷ [];
  mu_brokers = pos 20 ∷ pos 20 ∷ [];
  sources = "S1" ∷ "S2" ∷ [];
  brokers = "B1" ∷ "B2" ∷ [];
  route_mask = (true ∷ true ∷ []) ∷ (true ∷ false ∷ []) ∷ [];
}

abbrev pub two_rows : List (List ℤ)
two_rows = (pos 1 ∷ pos 1 ∷ []) ∷ (pos 2 ∷ pos 0 ∷ []) ∷ []

pub two_by_two-IsValid : IsValid two_by_two
two_by_two-IsValid = record {
  has_sources = λ h. cc h;
  has_brokers = λ h. cc h;
  distinct_sources = refl;
  distinct_brokers = refl;
  rates_shape = refl;
  links_shape = refl;
  links_wide = (refl, (refl, tt));
  brokers_shape = refl;
  rates_nonneg = (refl, (refl, tt));
  brokers_positive = (refl, (refl, tt));
  links_match = ((refl, (refl, tt)), ((refl, (refl, tt)), tt));
  sources_reach = (λ h. refl, (λ h. refl, tt));
}
