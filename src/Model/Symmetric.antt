-- ===== src/Model/Symmetric.antt =====
-- src/model/symmetric.py: the closed form of the symmetric instance. An int becomes a
-- float where it meets one.
use traffic_emulator.Common.{
  ℕ, ◌≡◌, refl, false, not, List, replicate, arith, if◌then◌else◌, Result, ok, value_error,
  raise_if, Checked, raise_if-Checked, ◌>>◌,
}
use traffic_emulator.Num.{Num, IsOrdered, ◌⊕◌, ◌⊖◌, ◌⊗◌, ◌⊘◌, ◌≺◌}
use traffic_emulator.Num.Elementary.{Elementary, number}
use traffic_emulator.Model.MarginalCosts.{mm1_marginal_cost}

pub record SymmetricSolution (R : Type 0) : Type 0 where
  pub lambda_ij : List (List R)
  pub broker_load : R
  pub rho_server : R
  pub rho_access : R
  pub access_marginal_cost : R
  pub price : R
  pub alpha : R
  pub mean_delay : R
  pub objective : R

module _ {R : Type 0} ⦃n : Num R⦄ ⦃e : Elementary R⦄ where
  -- `symmetric_solution`; `mu / gap ** 2` is a quotient by the square
  unfoldable pub symmetric_solution : ℕ → ℕ → R → R → R → Result (SymmetricSolution R)
  symmetric_solution n_sources n_brokers lam mu_access mu_server = do
    let x = lam ⊘ number n_brokers
    let load = number n_sources ⊗ lam ⊘ number n_brokers
    raise_if (not (n.lt x mu_access)) value_error
    raise_if (not (n.lt load mu_server)) value_error
    let c_access = mu_access ⊘ ((mu_access ⊖ x) ⊗ (mu_access ⊖ x))
    let price = mu_server ⊘ ((mu_server ⊖ load) ⊗ (mu_server ⊖ load))
    let d_access = n.unit ⊘ (mu_access ⊖ x)
    let d_server = n.unit ⊘ (mu_server ⊖ load)
    ok (record {
      lambda_ij = replicate n_sources (replicate n_brokers x);
      broker_load = load;
      rho_server = load ⊘ mu_server;
      rho_access = x ⊘ mu_access;
      access_marginal_cost = c_access;
      price = price;
      alpha = c_access ⊕ price;
      mean_delay = d_access ⊕ d_server;
      objective = number n_sources ⊗ lam ⊗ (d_access ⊕ d_server);
    })

  -- What the closed form gives, against the marginal cost of the model.
  pub record IsSymmetric (n_sources n_brokers : ℕ) (lam mu_access mu_server eps : R)
      (s : SymmetricSolution R) : Type 0 where
    pub equal_split :
        s.lambda_ij ≡ replicate n_sources (replicate n_brokers (lam ⊘ number n_brokers))
    pub load_shared : s.broker_load ≡ number n_sources ⊗ lam ⊘ number n_brokers
    pub access_fits : lam ⊘ number n_brokers ≺ mu_access
    pub server_fits : s.broker_load ≺ mu_server
    pub access_cost_agrees :
        s.access_marginal_cost ≡ mm1_marginal_cost (lam ⊘ number n_brokers) mu_access eps
    pub price_agrees : s.price ≡ mm1_marginal_cost s.broker_load mu_server eps
    pub same_on_every_route : s.alpha ≡ s.access_marginal_cost ⊕ s.price

  -- The closed form raises ValueError, or splits every source's rate equally over the brokers, with
  -- these flows below the links and each broker's load, its share of all rates, below its capacity; its access cost and its price are the marginal costs that
  -- `mm1_marginal_cost` gives of the flow and of the load, with any clip `eps`, and their sum is the
  -- cost of every route.
  pub symmetric_solution-Checked :
      IsOrdered R
      → (n_sources n_brokers : ℕ) (lam mu_access mu_server eps : R)
      → Checked
          (IsSymmetric n_sources n_brokers lam mu_access mu_server eps)
          (symmetric_solution n_sources n_brokers lam mu_access mu_server)
  unfolding symmetric_solution mm1_marginal_cost
  symmetric_solution-Checked laws n_sources n_brokers lam mu_access mu_server eps =
      let x = lam ⊘ number n_brokers in
      let load = number n_sources ⊗ lam ⊘ number n_brokers in
      let P = IsSymmetric n_sources n_brokers lam mu_access mu_server eps in
      raise_if-Checked P (not (n.lt x mu_access)) _ λ access.
        raise_if-Checked P (not (n.lt load mu_server)) _ λ server. record {
          equal_split = refl;
          load_shared = refl;
          access_fits = fits x mu_access access;
          server_fits = fits load mu_server server;
          access_cost_agrees = agrees x mu_access (fits x mu_access access);
          price_agrees = agrees load mu_server (fits load mu_server server);
          same_on_every_route = refl;
        }
    where
      fits : (y mu : R) → not (n.lt y mu) ≡ false → y ≺ mu
      fits y mu h = ground arith

      agrees :
          (y mu : R)
          → y ≺ mu
          → mu ⊘ ((mu ⊖ y) ⊗ (mu ⊖ y))
            ≡ (if n.le mu y then mu ⊘ (eps ⊗ eps) else mu ⊘ ((mu ⊖ y) ⊗ (mu ⊖ y)))
      agrees y mu h = ground (arith, laws.lt-eq-not-le y mu)
