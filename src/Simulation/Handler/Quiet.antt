-- ===== src/Simulation/Handler/Quiet.antt =====
-- The controller tick and the work units: it moves none, and leaves the state well formed. In the
-- windowed mode its update never raises: a source whose best response fails keeps its split.
use traffic_emulator.Common.{
  ℕ, zero, suc, ◌+◌, ◌≡◌, refl, sym, ap, subst, ◌∙◌, Option, none, some, List, [], ◌∷◌, map, length,
  length-map, length-zip_with, zip_with, arith, if◌then◌else◌, leb, ok, inl, inr, Bool-cases,
  Result, Result-cases, ReturnsUnless, unless_ok, unless_err,
}
use traffic_emulator.Num.{Num, IsOrdered, ◌⊕◌}
use traffic_emulator.Num.Elementary.{Elementary, IsElementary}
use traffic_emulator.Num.Mix.{mix}
use traffic_emulator.Num.Vectors.{mix_row}
use traffic_emulator.Model.Topology.{Topology}
use traffic_emulator.Control.Synchronous.Responses.{respond_total}
use traffic_emulator.Simulation.Events.{Event}
use traffic_emulator.Simulation.Engine.{Heap, IsHeap}
use traffic_emulator.Simulation.Handler.{
  Handler, Params, Control, windowed_stochastic, capacity_safe_event_driven, now, scheduled,
}
use traffic_emulator.Simulation.Handler.Tick.{
  at_tick, algorithm1_update, rates, measure, measured_cost, windowed_splits, windowed_update,
  update, close_window, current_topology, handle_controller_tick, record_telemetry, TickRefused,
}
use traffic_emulator.Simulation.Handler.Places.{places, places-scheduled}
use traffic_emulator.Simulation.Handler.Shape.{
  IsWellFormed, IsTable, IsSized, StaysSized, Fits, scheduled-IsWellFormed,
}

ok_injective : {A : Type 0} {x y : A} → ok x ≡ ok y → x ≡ y
ok_injective h = cc

-- A table of the same size, whatever is done to the entries.
map-IsTable :
    {A B : Type 0} (f : A → B) (n_rows columns : ℕ) (table : List (List A))
    → IsTable n_rows columns table
    → IsTable n_rows columns (map (map f) table)
map-IsTable f zero columns [] t = tt
map-IsTable f zero columns (row ∷ table) t = absurd t
map-IsTable f (suc n_rows) columns [] t = absurd t
map-IsTable f (suc n_rows) columns (row ∷ table) t =
    (length-map row f ∙ t.0, map-IsTable f n_rows columns table t.1)

module _ {R : Type 0} ⦃n : Num R⦄ ⦃e : Elementary R⦄ (laws : IsOrdered R)
    (elementary : IsElementary R) (n_sources n_brokers : ℕ) where
  windowed_splits_total :
      (eta : R) (prices : List R) (i count : ℕ) (mus : List (List R)) (lambdas : List R)
      (rows : List (List R))
      → length prices ≡ n_brokers
      → IsTable count n_brokers mus
      → length lambdas ≡ count
      → length rows ≡ count
      → (r : List (List R) × List ℕ) × (windowed_splits eta prices i mus lambdas rows ≡ ok r)
        × (length r.0 ≡ count)
  windowed_splits_total eta prices i zero [] lambdas rows hp t hl hr = ((rows, []), refl, hr)
  windowed_splits_total eta prices i zero (mu ∷ mus) lambdas rows hp t hl hr = absurd t
  windowed_splits_total eta prices i (suc count) [] lambdas rows hp t hl hr = absurd t
  windowed_splits_total eta prices i (suc count) (mu ∷ mus) [] rows hp t hl hr =
      absurd (omega arith)
  windowed_splits_total eta prices i (suc count) (mu ∷ mus) (lam ∷ lambdas) [] hp t hl hr =
      absurd (omega arith)
  windowed_splits_total eta prices i (suc count) (mu ∷ mus) (lam ∷ lambdas) (row ∷ rows) hp t hl
        hr =
      let ((x_br, held), responded) =
        respond_total laws elementary mu prices row lam (hp ∙ sym t.0) in
      let ((rest, failures), others, same) =
        windowed_splits_total eta prices (i + 1) count mus lambdas rows hp t.1 (omega arith)
          (omega arith) in
      elim (Bool-cases held) [
        | inl h ↦ ((row ∷ rest, i ∷ failures), rw (responded, others) (rw h refl), ap suc same)
        | inr h ↦ (
          (mix_row eta row x_br ∷ rest, failures),
          rw (responded, others) (rw h refl),
          ap suc same,
        )
      ]

  mix_row-length :
      (t : R) (xs ys : List R)
      → length xs ≡ n_brokers
      → length ys ≡ n_brokers
      → length (mix_row t xs ys) ≡ n_brokers
  mix_row-length t xs ys h k = length-zip_with (mix t) xs ys (h ∙ sym k) ∙ h

  -- the plan and the prices after the windowed update fit the topology
  windowed_update-Fits :
      (params : Params R) (topology : Topology R) (c : Control R)
      → Fits n_sources n_brokers topology c.x_ij c.prices c.lambda_hat
      → (c' : Control R) × (windowed_update params topology c ≡ ok c')
        × Fits n_sources n_brokers topology c'.x_ij c'.prices c'.lambda_hat
        × (c'.window_arrivals ≡ c.window_arrivals)
        × (c'.window_access_arrivals ≡ c.window_access_arrivals)
  unfolding windowed_update
  windowed_update-Fits params topology c fits =
      let p_inst = zip_with measured_cost topology.mu_brokers c.lambda_hat in
      let prices = mix_row params.gamma c.prices p_inst in
      let inst_length : length p_inst ≡ n_brokers =
        length-zip_with measured_cost topology.mu_brokers c.lambda_hat
          ((fits.sized).capacities ∙ sym fits.estimated)
        ∙ (fits.sized).capacities in
      let prices_length : length prices ≡ n_brokers =
        mix_row-length params.gamma c.prices p_inst fits.priced inst_length in
      let ((x_ij, failures), split, same) =
        windowed_splits_total params.eta prices 0 n_sources topology.mu_links topology.lambdas_total
          c.x_ij prices_length (fits.sized).links (fits.sized).rates fits.routing in
      elim (Bool-cases (leb params.warmup_windows c.window_idx)) [
        | inl warm ↦ (
          record c { prices = prices; x_ij = x_ij; br_failures = failures },
          rw warm (rw split refl),
          record {
            sized = fits.sized;
            routing = same;
            priced = prices_length;
            estimated = fits.estimated;
          },
          refl,
          refl,
        )
        | inr cold ↦ (
          record c { prices = prices; br_failures = [] },
          rw cold refl,
          record {
            sized = fits.sized;
            routing = fits.routing;
            priced = prices_length;
            estimated = fits.estimated;
          },
          refl,
          refl,
        )
      ]

module _ {R : Type 0} (n_sources n_brokers : ℕ) where
  -- what the update of the tick leaves
  abbrev Kept : Topology R → Control R → Control R → Type 0
  Kept topology c c' =
      Fits n_sources n_brokers topology c'.x_ij c'.prices c'.lambda_hat
      × (c'.window_arrivals ≡ map (λ _. 0) c.window_arrivals)
      × (c'.window_access_arrivals ≡ map (map λ _. 0) c.window_access_arrivals)

module _ {R G H : Type 0} ⦃n : Num R⦄ ⦃p : Heap R H⦄ where
  -- No unit is created, moved or completed, and no record is touched.
  pub record IsQuiet (h h' : Handler R G H) : Type 0 where
    pub places_same : (w : ℕ → ℕ) → places w h' ≡ places w h
    pub counter_same : h'.request_id_counter ≡ h.request_id_counter
    pub state_same : h'.state ≡ h.state

module _ {R G H : Type 0} ⦃n : Num R⦄ ⦃e : Elementary R⦄ ⦃p : Heap R H⦄ (laws : IsOrdered R)
    (elementary : IsElementary R) (heap : IsHeap R H) (n_sources n_brokers : ℕ) where
  current_topology-IsSized :
      (params : Params R) (h : Handler R G H) (topology : Topology R)
      → StaysSized n_sources n_brokers params.topology_at
      → IsSized n_sources n_brokers h.topology
      → current_topology params h ≡ ok topology
      → IsSized n_sources n_brokers topology
  current_topology-IsSized params h topology stays sized = go params.topology_at stays
    where
      go :
          (o : Option (ℕ → R → Result (Topology R)))
          → StaysSized n_sources n_brokers o
          → elim o [
            | none ↦ ok h.topology
            | some topology_at ↦ topology_at (h.control).window_idx (now h)
          ]
            ≡ ok topology
          → IsSized n_sources n_brokers topology
      go none s same = subst (IsSized n_sources n_brokers) (ok_injective same) sized
      go (some topology_at) s same = s (h.control).window_idx (now h) topology same

  updated_tick :
      (params : Params R) (h : Handler R G H) (topology : Topology R)
      → params.mode ≡ windowed_stochastic
      → StaysSized n_sources n_brokers params.topology_at
      → IsWellFormed n_sources n_brokers h
      → current_topology params h ≡ ok topology
      → (c' : Control R) × (update params topology (measure params h.control) ≡ ok c')
        × Kept n_sources n_brokers topology h.control c'
  unfolding measure update
  updated_tick params h topology windowed stays wf now_in_use =
      let c = h.control in
      let rates_length : length (rates params.window c.window_arrivals) ≡ n_brokers =
        length-map c.window_arrivals _ ∙ wf.arrivals in
      let (c', updated, fits, arrivals_same, access_same) =
        windowed_update-Fits laws elementary n_sources n_brokers params topology (measure params c)
          (record {
            sized = current_topology-IsSized params h topology stays (wf.fits).sized now_in_use;
            routing = (wf.fits).routing;
            priced = (wf.fits).priced;
            estimated =
                mix_row-length laws elementary n_sources n_brokers params.beta c.lambda_hat _
                  (wf.fits).estimated rates_length;
          }) in
      (
        c',
        ap
              (λ m. elim m [
                | windowed_stochastic ↦ windowed_update params topology (measure params c)
                | capacity_safe_event_driven ↦ algorithm1_update params topology (measure params c)
              ])
              windowed
            ∙ updated,
        (fits, arrivals_same, access_same),
      )

  -- the state after the tick
  abbrev ticked : Params R → Handler R G H → Topology R → Control R → Handler R G H
  ticked params h topology c' = scheduled (at_tick (now h ⊕ params.window)) (record h {
    topology = topology;
    control = close_window params c';
    window_latencies = if params.recording then [] else h.window_latencies;
  })

  ticked-IsQuiet :
      (params : Params R) (h : Handler R G H) (topology : Topology R) (c' : Control R)
      → IsWellFormed n_sources n_brokers h
      → Kept n_sources n_brokers topology h.control c'
      → IsWellFormed n_sources n_brokers (ticked params h topology c')
        × IsQuiet h (ticked params h topology c')
  unfolding close_window
  ticked-IsQuiet params h topology c' wf (fits, arrivals_same, access_same) =
      let c = h.control in
      let closed = record h {
        topology = topology;
        control = close_window params c';
        window_latencies = if params.recording then [] else h.window_latencies;
      } in
      let tick = at_tick (now h ⊕ params.window) in
      (
        scheduled-IsWellFormed n_sources n_brokers heap tick closed refl (record {
          fits = record {
            sized = fits.sized;
            routing = fits.routing;
            priced = fits.priced;
            estimated = fits.estimated;
          };
          arrivals = ap length arrivals_same ∙ length-map c.window_arrivals _ ∙ wf.arrivals;
          access_arrivals = subst (IsTable n_sources n_brokers) (sym access_same) (
              map-IsTable (λ _. 0) n_sources n_brokers c.window_access_arrivals wf.access_arrivals);
          access_queues = wf.access_queues;
          broker_queues = wf.broker_queues;
          events = wf.events;
        }),
        record {
          places_same = λ w. omega (arith, places-scheduled w heap tick closed);
          counter_same = refl;
          state_same = refl;
        },
      )

  pub handle_controller_tick-IsQuiet :
      (params : Params R) (event : Event R) (h : Handler R G H)
      → params.mode ≡ windowed_stochastic
      → StaysSized n_sources n_brokers params.topology_at
      → IsWellFormed n_sources n_brokers h
      → ReturnsUnless
          (TickRefused params h)
          (λ h'. IsWellFormed n_sources n_brokers h' × IsQuiet h h')
          (handle_controller_tick params event h)
  unfolding handle_controller_tick measure update close_window
  handle_controller_tick-IsQuiet params event h windowed stays wf =
      let Q = TickRefused params h in
      let P = λ (h' : Handler R G H). IsWellFormed n_sources n_brokers h' × IsQuiet h h' in
      elim (Result-cases (current_topology params h)) [
        | inr (e, lost) ↦ unless_err Q P e (rw lost refl) (inl lost)
        | inl (topology, now_in_use) ↦
            let c = h.control in
            let (c', updated, kept) = updated_tick params h topology windowed stays wf now_in_use in
            elim (Result-cases (record_telemetry params topology c')) [
              | inr (e, raised) ↦
                  unless_err Q P e (rw (now_in_use, updated, raised) refl)
                    (inr (topology, c', now_in_use, updated, raised))
              | inl (done, recorded) ↦
                  unless_ok Q P _ (rw (now_in_use, updated, recorded) refl)
                    (ticked-IsQuiet params h topology c' wf kept)
            ]
      ]
