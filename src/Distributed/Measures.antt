-- ===== src/Distributed/Measures.antt =====
-- src/distributed/controller.py: `_record`, what the controller derives from the measurements that the
-- workers report in a round. The percentiles are numpy's and are left out.
use traffic_emulator.Common.{
  ℕ, zero, suc, Option, none, some, List, [], ◌∷◌, ◌++◌, map, length, ◌==◌, if◌then◌else◌,
}
use traffic_emulator.Common.Sums.{sum_of}
use traffic_emulator.Num.{Num, ◌⊘◌}
use traffic_emulator.Num.Elementary.{Elementary, number}
use traffic_emulator.Num.Vectors.{sum, mix_row}
use traffic_emulator.Distributed.Broker.{Report, Sample}
use traffic_emulator.Distributed.Source.{SourceReport}
use traffic_emulator.Distributed.Controller.{ControllerService}

-- what `_record` derives from the measurements of a round; None stands for NaN
pub record Measured (R : Type 0) : Type 0 where
  pub iteration : ℕ
  pub sim_time : R
  pub round_duration : R
  pub broker_rate : List R
  pub access_rate : List (Option (List R))
  pub queue_access : List (Option (List ℕ))
  pub queue_broker : List ℕ
  pub completed_window : ℕ
  pub completed_total : ℕ
  pub latency_mean : Option R
  pub latency_mean_i : List (Option R)
  pub latency_mean_total : Option R
  pub latency_parts : List (Option R)
  pub br_failures : List ℕ

module _ {R : Type 0} ⦃n : Num R⦄ ⦃e : Elementary R⦄ where
  -- `np.mean`, None of nothing
  abbrev pub mean : List R → Option R
  mean [] = none
  mean (x ∷ xs) = some (sum (x ∷ xs) ⊘ number (length (x ∷ xs)))

  abbrev rates_of : R → Option (SourceReport R) → Option (List R)
  rates_of dt none = none
  rates_of dt (some report) = some (map (λ units. number units ⊘ dt) report.routed_row)

  abbrev queues_of : Option (SourceReport R) → Option (List ℕ)
  queues_of none = none
  queues_of (some report) = some report.links_in_system

  abbrev pub samples_of : List (Report R) → List (Sample R)
  samples_of [] = []
  samples_of (report ∷ reports) = report.reported_samples ++ samples_of reports

  abbrev totals_from : ℕ → List (Sample R) → List R
  totals_from i [] = []
  totals_from i (sample ∷ samples) =
      let rest = totals_from i samples in if sample.source == i then sample.total ∷ rest else rest

  abbrev means_by_source : ℕ → ℕ → List (Sample R) → List (Option R)
  means_by_source zero i samples = []
  means_by_source (suc left) i samples =
      mean (totals_from i samples) ∷ means_by_source left (suc i) samples

  abbrev pub part_means : List (Sample R) → List (Option R)
  part_means samples =
      mean (map (λ (s : Sample R). s.access_wait) samples)
      ∷ mean (map (λ (s : Sample R). s.access_service) samples)
      ∷ mean (map (λ (s : Sample R). s.transfer) samples)
      ∷ mean (map (λ (s : Sample R). s.broker_wait) samples)
      ∷ mean (map (λ (s : Sample R). s.broker_service) samples)
      ∷ []

  -- `latency_sum_total / completed_total if completed_total else nan`
  abbrev mean_total : ℕ → R → Option R
  mean_total zero latency = none
  mean_total (suc k) latency = some (latency ⊘ number (suc k))

  abbrev window_count : List (Sample R) → List (Report R) → ℕ
  window_count [] reports = sum_of (λ (r : Report R). r.reported_completed) reports
  window_count (s ∷ samples) reports = length (s ∷ samples)

  -- `_record`: the record, and the moving average that the service keeps
  unfoldable pub record_round :
      ℕ
      → R
      → R
      → List (Report R)
      → List (Option (SourceReport R))
      → List ℕ
      → ControllerService R
      → Measured R × ControllerService R
  record_round k sim_time dt reports source_reports failures service =
      let broker_rate = map (λ (r : Report R). number r.reported_arrivals ⊘ dt) reports in
      let samples = samples_of reports in
      let completed = sum_of (λ (r : Report R). r.total_completed) reports in
      let latency = sum (map (λ (r : Report R). r.total_latency) reports) in
      (
        record {
          iteration = k;
          sim_time = sim_time;
          round_duration = dt;
          broker_rate = broker_rate;
          access_rate = map (rates_of dt) source_reports;
          queue_access = map queues_of source_reports;
          queue_broker = map (λ (r : Report R). r.in_system) reports;
          completed_window = window_count samples reports;
          completed_total = completed;
          latency_mean = mean (map (λ (s : Sample R). s.total) samples);
          latency_mean_i = means_by_source (length (service.topology).sources) 0 samples;
          latency_mean_total = mean_total completed latency;
          latency_parts = part_means samples;
          br_failures = failures;
        },
        record service { lambda_hat = mix_row (service.p).beta service.lambda_hat broker_rate },
      )
