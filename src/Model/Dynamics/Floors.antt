-- ===== src/Model/Dynamics/Floors.antt =====
-- Capacities over time stay above their floors, and the topology stays valid.
use traffic_emulator.Common.{
  ◌≡◌, refl, sym, subst, ◌∙◌, Bool, true, false, some, List, [], ◌∷◌, length, All, All₂, zip_with,
  arith, if◌then◌else◌, Result, ok, err, value_error, raise_if, Checked, ◌>>◌, not, ◌||◌, ◌==◌, all,
}
use traffic_emulator.Num.{Num, IsOrdered, ◌⊗◌, ◌≼◌, ◌≺◌}
use traffic_emulator.Num.Order.{mul_le_mul_left, le-max_left, le_of_lt}
use traffic_emulator.Num.Ring.{mul-nought}
use traffic_emulator.Num.Elementary.{Elementary}
use traffic_emulator.Model.Topology.{
  Topology, make, validate, with_capacities, masked, has_duplicates, has_shape, all_finite,
  positive_links, all_reach,
}
use traffic_emulator.Model.Topology.Valid.{IsValid, Matches, MatchesRow}
use traffic_emulator.Model.Topology.Construction.{make-Checked}
use traffic_emulator.Model.Dynamics.{
  CapacityVariation, link_floor, broker_floor, vary_link, vary_broker, zip_with3,
  vary_link_capacity, vary_broker_capacity, topology_at,
}

module _ {R : Type 0} ⦃n : Num R⦄ where
  -- Every capacity is at least its share of the base.
  abbrev pub AboveRow : R → List R → List R → Type 0
  AboveRow share = All₂ λ base mu. base ⊗ share ≼ mu

  abbrev pub Above : R → List (List R) → List (List R) → Type 0
  Above share = All₂ (AboveRow share)

  abbrev pub SameShape : List (List R) → List (List R) → Type 0
  SameShape = All₂ λ xs ys. length xs ≡ length ys

module _ {R : Type 0} ⦃n : Num R⦄ (laws : IsOrdered R) where
  open n use {nought}

  -- An operation that does not go below a share of its first argument, on rows.
  zip_with3-AboveRow :
      (share : R) (f : R → R → R → R) (base phase draws : List R)
      → ((b p d : R) → nought ≼ b → b ⊗ share ≼ f b p d)
      → length base ≡ length phase
      → length base ≡ length draws
      → All (λ b. nought ≼ b) base
      → AboveRow share base (zip_with3 f base phase draws)
  zip_with3-AboveRow share f [] phase draws above h k g = tt
  zip_with3-AboveRow share f (b ∷ base) [] draws above h k g = absurd (omega arith)
  zip_with3-AboveRow share f (b ∷ base) (p ∷ phase) [] above h k g = absurd (omega arith)
  zip_with3-AboveRow share f (b ∷ base) (p ∷ phase) (d ∷ draws) above h k g = (
    above b p d g.0,
    zip_with3-AboveRow share f base phase draws above (omega arith) (omega arith) g.1,
  )

  Matches-above :
      (share : R) (f : R → R → R → R) (route : Bool) (b p d : R)
      → ((b p d : R) → nought ≼ b → b ⊗ share ≼ f b p d)
      → Matches route b
      → b ⊗ share ≼ (if route then f b p d else nought)
  Matches-above share f true b p d above m = above b p d (le_of_lt laws nought b m)
  Matches-above share f false b p d above m =
      subst (λ x. x ⊗ share ≼ nought) (sym m)
        (subst (λ x. x ≼ nought) (sym (laws.mul_comm nought share ∙ mul-nought laws share))
          (laws.le_refl nought))

  -- The links stay above, as a missing link has capacity 0 in the base.
  masked_row-AboveRow :
      (share : R) (f : R → R → R → R) (mask : List Bool) (base phase draws : List R)
      → ((b p d : R) → nought ≼ b → b ⊗ share ≼ f b p d)
      → MatchesRow mask base
      → length base ≡ length phase
      → length base ≡ length draws
      → AboveRow share base
          (zip_with (λ route mu. if route then mu else nought) mask (zip_with3 f base phase draws))
  masked_row-AboveRow share f [] [] phase draws above m h k = tt
  masked_row-AboveRow share f [] (b ∷ base) phase draws above m h k = absurd m
  masked_row-AboveRow share f (route ∷ mask) [] phase draws above m h k = tt
  masked_row-AboveRow share f (route ∷ mask) (b ∷ base) [] draws above m h k = absurd (omega arith)
  masked_row-AboveRow share f (route ∷ mask) (b ∷ base) (p ∷ phase) [] above m h k =
      absurd (omega arith)
  masked_row-AboveRow share f (route ∷ mask) (b ∷ base) (p ∷ phase) (d ∷ draws) above m h k = (
    Matches-above share f route b p d above m.0,
    masked_row-AboveRow share f mask base phase draws above m.1 (omega arith) (omega arith),
  )

  masked-Above :
      (share : R) (f : R → R → R → R) (mask : List (List Bool)) (base phase draws : List (List R))
      → ((b p d : R) → nought ≼ b → b ⊗ share ≼ f b p d)
      → All₂ MatchesRow mask base
      → SameShape base phase
      → SameShape base draws
      → Above share base (masked mask (zip_with3 (zip_with3 f) base phase draws))
  masked-Above share f [] [] phase draws above m h k = tt
  masked-Above share f [] (b ∷ base) phase draws above m h k = absurd m
  masked-Above share f (row ∷ mask) [] phase draws above m h k = tt
  masked-Above share f (row ∷ mask) (b ∷ base) [] draws above m h k = absurd h
  masked-Above share f (row ∷ mask) (b ∷ base) (p ∷ phase) [] above m h k = absurd k
  masked-Above share f (row ∷ mask) (b ∷ base) (p ∷ phase) (d ∷ draws) above m h k = (
    masked_row-AboveRow share f row b p d above m.0 h.0 k.0,
    masked-Above share f mask base phase draws above m.1 h.1 k.1,
  )

Checked-both :
    {A : Type 0} (P Q : A → Type 0) (m : Result A)
    → Checked P m
    → Checked Q m
    → Checked (λ a. P a × Q a) m
Checked-both P Q (ok a) p q = (p, q)
Checked-both P Q (err value_error) p q = tt
Checked-both P Q (err _) p q = absurd p

passes :
    {A : Type 0} (P : A → Type 0) (bad : Bool) (later : Result A)
    → Checked P later
    → Checked P (raise_if bad value_error >> later)
passes P true later k = tt
passes P false later k = k

module _ {R : Type 0} ⦃n : Num R⦄ ⦃e : Elementary R⦄ where
  -- What the constructor keeps of its arguments.
  record IsBuilt (t built : Topology R) : Type 0 where
    built_rates : built.lambdas_total ≡ t.lambdas_total
    built_links : built.mu_links ≡ masked t.route_mask t.mu_links
    built_brokers : built.mu_brokers ≡ t.mu_brokers
    built_mask : built.route_mask ≡ t.route_mask

  validate-IsBuilt : (t : Topology R) → Checked (IsBuilt t) (validate t)
  unfolding validate
  validate-IsBuilt t =
      let links = masked t.route_mask t.mu_links in
      let rows = length t.sources in
      let columns = length t.brokers in
      passes (IsBuilt t) (not (has_shape rows columns t.route_mask)) _ (
        passes (IsBuilt t) (not (length t.lambdas_total == rows)) _ (
          passes (IsBuilt t) (not (has_shape rows columns t.mu_links)) _ (
            passes (IsBuilt t) (not (length t.mu_brokers == columns)) _ (
              passes (IsBuilt t) (not (all_finite t.lambdas_total)) _ (
                passes (IsBuilt t) (not (all all_finite links)) _ (
                  passes (IsBuilt t) (not (all_finite t.mu_brokers)) _ (
                    passes (IsBuilt t) (not (all (λ lam. not (n.lt lam n.nought)) t.lambdas_total))
                      _
                      (passes (IsBuilt t) (not (positive_links t.route_mask links)) _ (
                        passes (IsBuilt t) (not (all_reach t.lambdas_total t.route_mask)) _ (
                          passes (IsBuilt t) (not (all (λ mu. not (n.le mu n.nought)) t.mu_brokers))
                            _
                            (record {
                              built_rates = refl;
                              built_links = refl;
                              built_brokers = refl;
                              built_mask = refl;
                            })))))))))))

  with_capacities-IsBuilt :
      (t : Topology R) (links : List (List R)) (mus : List R)
      → Checked
          (IsBuilt (record t { mu_links = links; mu_brokers = mus }))
          (with_capacities t links mus)
  unfolding with_capacities make
  with_capacities-IsBuilt t links mus =
      let t' : Topology R = record t { mu_links = links; mu_brokers = mus } in
      passes (IsBuilt t') ((length t.sources == 0) || (length t.brokers == 0)) _ (
        passes (IsBuilt t') (has_duplicates t.sources) _
          (passes (IsBuilt t') (has_duplicates t.brokers) _ (validate-IsBuilt t')))

  -- What the capacities in effect at a time are: a valid topology with the base's rates and routes,
  -- every capacity at least its floor.
  pub record IsVaried (base varied : Topology R) : Type 0 where
    pub varied_valid : IsValid varied
    pub same_rates : varied.lambdas_total ≡ base.lambdas_total
    pub same_routes : varied.route_mask ≡ base.route_mask
    pub links_above : Above link_floor base.mu_links varied.mu_links
    pub brokers_above : AboveRow broker_floor base.mu_brokers varied.mu_brokers

module _ {R : Type 0} ⦃n : Num R⦄ ⦃e : Elementary R⦄ (laws : IsOrdered R) where
  -- Capacities around a valid base topology, with phases and noise of its shape: whatever the time, the
  -- swings, the phases and the noise are, the constructor raises ValueError, or the topology in effect
  -- is valid with the same rates and routes, each link's capacity is at least 0.2 and each broker's at
  -- least 0.3 of its base.
  pub topology_at-Checked :
      (variation : CapacityVariation R) (t : R) (link_draws : List (List R)) (broker_draws : List R)
      → let base = variation.base_topology in
        IsValid base
        → SameShape base.mu_links variation.link_phase
        → SameShape base.mu_links link_draws
        → length base.mu_brokers ≡ length variation.broker_phase
        → length base.mu_brokers ≡ length broker_draws
        → Checked (IsVaried base) (topology_at variation t link_draws broker_draws)
  unfolding topology_at vary_link_capacity vary_broker_capacity with_capacities
  topology_at-Checked variation t link_draws broker_draws v h k hb kb =
      let base = variation.base_topology in
      let links =
        vary_link_capacity t variation.link base.mu_links variation.link_phase link_draws in
      let mus =
        vary_broker_capacity t variation.broker base.mu_brokers variation.broker_phase
          broker_draws in
      varied base links mus (with_capacities base links mus)
        (Checked-both (IsValid {R = R} ⦃n = n⦄)
          (IsBuilt (record base { mu_links = links; mu_brokers = mus }))
          (with_capacities base links mus) (with_capacities-IsValid base links mus)
          (with_capacities-IsBuilt base links mus))
        (masked-Above laws link_floor (vary_link t variation.link) base.route_mask base.mu_links
          variation.link_phase link_draws
          (λ b p d g. mul_le_mul_left laws b link_floor _ g (le-max_left laws link_floor _))
          v.links_match h k)
        (zip_with3-AboveRow laws broker_floor (vary_broker t variation.broker) base.mu_brokers
          variation.broker_phase broker_draws
          (λ b p d g. mul_le_mul_left laws b broker_floor _ g (le-max_left laws broker_floor _)) hb
          kb (positive-nonneg base.mu_brokers v.brokers_positive))
    where
      positive-nonneg : (xs : List R) → All (λ x. n.nought ≺ x) xs → All (λ x. n.nought ≼ x) xs
      positive-nonneg [] p = tt
      positive-nonneg (x ∷ xs) p = (le_of_lt laws n.nought x p.0, positive-nonneg xs p.1)

      with_capacities-IsValid :
          (base : Topology R) (links : List (List R)) (mus : List R)
          → Checked (IsValid {R = R} ⦃n = n⦄) (with_capacities base links mus)
      with_capacities-IsValid base links mus =
          make-Checked laws base.lambdas_total links mus base.sources base.brokers
            (some base.route_mask)

      varied :
          (base : Topology R) (links : List (List R)) (mus : List R) (m : Result (Topology R))
          → Checked
              (λ a. IsValid a × IsBuilt (record base { mu_links = links; mu_brokers = mus }) a)
              m
          → Above link_floor base.mu_links (masked base.route_mask links)
          → AboveRow broker_floor base.mu_brokers mus
          → Checked (IsVaried base) m
      varied base links mus (ok a) c above_links above_brokers = record {
        varied_valid = c.0;
        same_rates = c.1.built_rates;
        same_routes = c.1.built_mask;
        links_above = subst (Above link_floor base.mu_links) (sym c.1.built_links) above_links;
        brokers_above =
            subst (AboveRow broker_floor base.mu_brokers) (sym c.1.built_brokers) above_brokers;
      }
      varied base links mus (err value_error) c above_links above_brokers = tt
      varied base links mus (err _) c above_links above_brokers = absurd c
