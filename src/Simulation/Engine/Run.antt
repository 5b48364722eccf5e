-- ===== src/Simulation/Engine/Run.antt =====
-- `SimulationEngine.run`, over any state that holds the engine. The loop takes fuel: the flag says
-- whether it ended by its own test. Timestamps need not grow, so no amount of fuel is enough for
-- every handler; the rule below holds for every amount.
use traffic_emulator.Common.{
  ℕ, zero, suc, ◌≡◌, refl, ap, ◌∙◌, Bool, true, false, none, some, List, [], ◌∷◌, All, arith,
  Result, ok, Error, ReturnsUnless, unless_ok, chained, sym, subst, ◌>>=◌, if◌then◌else◌, inl, inr,
  Bool-cases, Option-cases,
}
use traffic_emulator.Num.{Num, IsOrdered, ◌≼◌}
use traffic_emulator.Common.Sums.{sum_of}
use traffic_emulator.Simulation.Events.{Event}
use traffic_emulator.Simulation.Engine.{Heap, IsHeap, Engine}

module _ {R H S : Type 0} ⦃n : Num R⦄ ⦃p : Heap R H⦄ (engine : S → Engine R H)
    (with_engine : Engine R H → S → S) (handler : Event R → S → Result S) where
  -- `heappop`, `self.now = event.timestamp`
  abbrev pub advance : Event R → H → S → S
  advance event rest s =
      with_engine (record (engine s) { now = event.timestamp; event_queue = rest }) s

  pub run : ℕ → R → S → Result (S × Bool)
  run zero duration s = ok (s, false)
  run (suc fuel) duration s = elim (p.heappop (engine s).event_queue) [
    | none ↦ ok (s, true)
    | some (event, rest) ↦ elim (n.le event.timestamp duration) [
      | true ↦ handler event (advance event rest s) >>= run fuel duration
      | false ↦ ok (s, true)
    ]
  ]

  -- the number of events that are due by `duration`
  abbrev is_due : R → Event R → ℕ
  is_due duration e = if n.le e.timestamp duration then 1 else 0

  abbrev pub due : R → S → ℕ
  due duration s = sum_of (is_due duration) (p.contents (engine s).event_queue)

  module _ (laws : IsOrdered R) (heap : IsHeap R H) where
    none_due :
        (duration : R) (event : Event R) (later : List (Event R))
        → n.le event.timestamp duration ≡ false
        → All (λ (e : Event R). event.timestamp ≼ e.timestamp) later
        → sum_of (is_due duration) later ≡ 0
    none_due duration event [] h p = refl
    none_due duration event (e ∷ later) h p = ground (
      arith,
      laws.le_trans event.timestamp e.timestamp duration p.0,
      none_due duration event later h p.1,
    )

    -- A property that the handler of each popped event keeps holds after the loop, unless a handler
    -- raised an exception for a reason `Q`; and where the loop ended by itself, no event is due.
    pub run_inv :
        (Q : Error → Type 0) (P : S → Type 0)
        → ((s : S) (event : Event R) (rest : H)
            → P s
            → p.heappop (engine s).event_queue ≡ some (event, rest)
            → ReturnsUnless Q P (handler event (advance event rest s)))
        → (fuel : ℕ) (duration : R) (s : S) → P s
        → ReturnsUnless Q
            (λ (r : S × Bool). P r.0 × (r.1 ≡ true → due duration r.0 ≡ 0))
            (run fuel duration s)
    unfolding run
    run_inv Q P keep zero duration s h = (h, λ e. cc e)
    run_inv Q P keep (suc fuel) duration s h =
        let E = λ (r : S × Bool). P r.0 × (r.1 ≡ true → due duration r.0 ≡ 0) in
        elim (Option-cases (p.heappop (engine s).event_queue)) [
          | inl empty ↦
              unless_ok Q E (s, true) (rw (empty, run) refl)
                (h, λ _. ap (sum_of (is_due duration)) (heap.contents-heappop_none _ empty))
          | inr ((event, rest), popped) ↦ elim (Bool-cases (n.le event.timestamp duration)) [
            | inl due_now ↦
                let step : run (suc fuel) duration s
                    ≡ (handler event (advance event rest s) >>= run fuel duration) =
                  rw (popped, run) (rw due_now refl) in
                subst (ReturnsUnless Q E) (sym step) (
                  chained Q P E (handler event (advance event rest s)) (run fuel duration)
                    (keep s event rest h popped) (λ s' h'. run_inv Q P keep fuel duration s' h'))
            | inr late ↦
                unless_ok Q E (s, true) (rw (popped, run) (rw late refl))
                  (
                    h,
                    λ _.
                        heap.sum-heappop (is_due duration) _ popped
                        ∙ ground (
                          arith,
                          none_due duration event (p.contents rest) late
                              (heap.heappop_smallest _ popped),
                        ),
                  )
          ]
        ]
