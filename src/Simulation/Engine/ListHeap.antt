-- ===== src/Simulation/Engine/ListHeap.antt =====
-- The laws of the heap can be met: a list from which the smallest event is taken.
use traffic_emulator.Common.{
  subst, ℕ, ◌+◌, ◌≡◌, refl, Bool, true, false, Option, none, some, List, [], ◌∷◌, All, arith,
  if◌then◌else◌, inl, inr, Option-cases,
}
use traffic_emulator.Common.Sums.{sum_of}
use traffic_emulator.Num.{Num, IsOrdered, ◌≼◌}
use traffic_emulator.Simulation.Events.{Event}
use traffic_emulator.Simulation.Engine.{Heap, IsHeap}

module _ {R : Type 0} ⦃n : Num R⦄ where
  abbrev take_smaller : Event R → Event R → List (Event R) → Event R × List (Event R)
  take_smaller e m rest = if n.le e.timestamp m.timestamp then (e, m ∷ rest) else (m, e ∷ rest)

  abbrev pub take_smallest : List (Event R) → Option (Event R × List (Event R))
  take_smallest [] = none
  take_smallest (e ∷ es) = elim (take_smallest es) [
    | none ↦ some (e, [])
    | some (m, rest) ↦ some (take_smaller e m rest)
  ]

  abbrev IsSmallest : Option (Event R × List (Event R)) → Type 0
  IsSmallest none = Unit
  IsSmallest (some (m, rest)) = All (λ (e : Event R). m.timestamp ≼ e.timestamp) rest

  instance abbrev pub event_list : Heap R (List (Event R))
  event_list = record {
    empty = [];
    heappush = λ es e. e ∷ es;
    heappop = take_smallest;
    contents = λ es. es;
  }

  nothing_left : (es : List (Event R)) → take_smallest es ≡ none → es ≡ []
  nothing_left [] h = refl
  nothing_left (e ∷ es) h = ground arith

  sum-take_smallest :
      (f : Event R → ℕ) (es : List (Event R)) {m : Event R} {rest : List (Event R)}
      → take_smallest es ≡ some (m, rest)
      → sum_of f es ≡ f m + sum_of f rest
  sum-take_smallest f [] h = cc
  sum-take_smallest f (e ∷ es) {m} {rest} h = elim (Option-cases (take_smallest es)) [
    | inl last ↦ ground (arith, nothing_left es last)
    | inr ((m', rest'), found) ↦ ground (arith, sum-take_smallest f es found)
  ]

  module _ (laws : IsOrdered R) where
    All-le :
        (a b : Event R) (es : List (Event R))
        → a.timestamp ≼ b.timestamp
        → All (λ (e : Event R). b.timestamp ≼ e.timestamp) es
        → All (λ (e : Event R). a.timestamp ≼ e.timestamp) es
    All-le a b [] h p = tt
    All-le a b (e ∷ es) h p =
        (laws.le_trans a.timestamp b.timestamp e.timestamp h p.0, All-le a b es h p.1)

    smaller :
        (e m : Event R) (rest : List (Event R)) (b : Bool)
        → n.le e.timestamp m.timestamp ≡ b
        → All (λ (later : Event R). m.timestamp ≼ later.timestamp) rest
        → IsSmallest (some (if b then (e, m ∷ rest) else (m, e ∷ rest)))
    smaller e m rest true h p = (h, All-le e m rest h p)
    smaller e m rest false h p = (ground (arith, laws.le_total e.timestamp m.timestamp), p)

    take_smallest-IsSmallest : (es : List (Event R)) → IsSmallest (take_smallest es)
    take_smallest-IsSmallest [] = tt
    take_smallest-IsSmallest (e ∷ es) = go (take_smallest es) (take_smallest-IsSmallest es)
      where
        go :
            (o : Option (Event R × List (Event R)))
            → IsSmallest o
            → IsSmallest
                (elim o [ none ↦ some (e, []) | some (m, rest) ↦ some (take_smaller e m rest) ])
        go none p = tt
        go (some (m, rest)) p = smaller e m rest (n.le e.timestamp m.timestamp) refl p

    pub event_list-IsHeap : IsHeap R (List (Event R))
    event_list-IsHeap = record {
      contents-empty = refl;
      sum-heappush = λ f h e. refl;
      contents-heappop_none = nothing_left;
      sum-heappop = λ f h popped. sum-take_smallest f h popped;
      heappop_smallest = λ h popped. subst IsSmallest popped (take_smallest-IsSmallest h);
    }
