-- ===== src/Simulation/Engine.antt =====
-- src/simulation/engine.py. The heap of Python's heapq is an interface: `heappop` takes a smallest
-- event, and which of several it takes is left open. The wall clock of `real_time` runs delay the
-- loop and change no state; they are not modelled.
pub mod Run
pub mod ListHeap
use traffic_emulator.Common.{ℕ, ◌+◌, ◌≡◌, Option, none, some, List, [], All}
use traffic_emulator.Common.Sums.{sum_of}
use traffic_emulator.Num.{Num, ◌≼◌}
use traffic_emulator.Simulation.Events.{Event}

-- A list that is used as a heap: `contents` is the list, in the order of the array.
pub record Heap (R H : Type 0) : Type 0 where
  pub empty : H
  pub heappush : H → Event R → H
  pub heappop : H → Option (Event R × H)
  pub contents : H → List (Event R)

-- What heapq documents. Two lists hold the same events if every measure has the same sum on both.
pub record IsHeap (R H : Type 0) ⦃n : Num R⦄ ⦃p : Heap R H⦄ : Type 0 where
  pub contents-empty : p.contents p.empty ≡ []
  pub sum-heappush :
      (f : Event R → ℕ) (h : H) (e : Event R)
      → sum_of f (p.contents (p.heappush h e)) ≡ f e + sum_of f (p.contents h)
  pub contents-heappop_none : (h : H) → p.heappop h ≡ none → p.contents h ≡ []
  pub sum-heappop :
      (f : Event R → ℕ) (h : H) {e : Event R} {h' : H}
      → p.heappop h ≡ some (e, h')
      → sum_of f (p.contents h) ≡ f e + sum_of f (p.contents h')
  pub heappop_smallest :
      (h : H) {e : Event R} {h' : H}
      → p.heappop h ≡ some (e, h')
      → All (λ (later : Event R). e.timestamp ≼ later.timestamp) (p.contents h')

pub record Engine (R H : Type 0) : Type 0 where
  pub now : R
  pub event_queue : H
  pub event_count : ℕ

module _ {R H : Type 0} ⦃n : Num R⦄ ⦃p : Heap R H⦄ where
  unfoldable pub start : Engine R H
  start = record { now = n.nought; event_queue = p.empty; event_count = 0 }

module _ {R H : Type 0} ⦃p : Heap R H⦄ where
  abbrev pub schedule : Event R → Engine R H → Engine R H
  schedule event engine = record engine {
    event_queue = p.heappush engine.event_queue event;
    event_count = engine.event_count + 1;
  }

  unfoldable pub stop : Engine R H → Engine R H
  stop engine = record engine { event_queue = p.empty }
