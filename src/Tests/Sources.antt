-- ===== src/Tests/Sources.antt =====
-- A source worker with two links that generates two units and sends one on.
use traffic_emulator.Common.{none, [], ◌∷◌, List, Returns, refl, arith}
use traffic_emulator.Num.Integers.{ℤ, pos, integers, integers-IsOrdered}
use traffic_emulator.Distributed.Source.{
  Link, SourceWorker, SourceAction, generate, take, send_on, best_response, routing, source_acts,
}
use traffic_emulator.Distributed.Source.Units.{IsBalanced, source_acts-IsBalanced}
use traffic_emulator.Tests.Systems.{whole_functions, whole_functions-IsElementary}

abbrev idle_link : Link ℤ
idle_link = record { waiting = []; in_service = none; link_free_at = pos 0; routed = 0 }

abbrev source : SourceWorker ℤ
source = record {
  links = idle_link ∷ idle_link ∷ [];
  unit_ids = 0;
  generated_total = 0;
  rate = pos 2;
  mu_row = pos 10 ∷ pos 10 ∷ [];
  x_row = pos 1 ∷ pos 1 ∷ [];
}

abbrev source_history : List (SourceAction ℤ)
source_history =
    generate (pos 1) 0
    ∷ take 0 (pos 2)
    ∷ generate (pos 2) 1
    ∷ best_response (pos 1 ∷ pos 3 ∷ [])
    ∷ send_on 0
    ∷ routing (pos 2 ∷ pos 0 ∷ [])
    ∷ []

source_acts-IsBalanced_example : Returns (IsBalanced 2 source) (source_acts source_history source)
source_acts-IsBalanced_example =
    source_acts-IsBalanced integers-IsOrdered whole_functions-IsElementary 2 source_history source
      (omega arith, (omega arith, (omega arith, (refl, (omega arith, (tt, tt)))))) refl refl
