-- ===== src/Model/Topology/Building.antt =====
-- What the constructor builds: what it was given, with the links of no route set to 0.
use Prim.Native.String.{String}
use traffic_emulator.Common.{
  ◌≡◌, refl, Bool, not, ◌||◌, some, List, length, all, ◌==◌, Checked, Result, raise_if, value_error,
  raise_if-Checked, ◌>>◌,
}
use traffic_emulator.Num.{Num}
use traffic_emulator.Num.Elementary.{Elementary}
use traffic_emulator.Model.Topology.{
  Topology, has_duplicates, has_shape, masked, positive_links, all_reach, validate, make,
  all_finite,
}

passed :
    {A : Type 0} (P : A → Type 0) (bad : Bool) (later : Result A)
    → Checked P later
    → Checked P (raise_if bad value_error >> later)
passed P bad later h = raise_if-Checked P bad later λ fine. h

module _ {R : Type 0} ⦃n : Num R⦄ ⦃e : Elementary R⦄ where
  abbrev IsMasked : Topology R → Topology R → Type 0
  IsMasked t built = built ≡ record t { mu_links = masked t.route_mask t.mu_links }

  validate-IsMasked : (t : Topology R) → Checked (IsMasked t) (validate t)
  unfolding validate
  validate-IsMasked t =
      let P = IsMasked t in
      passed P (not (has_shape (length t.sources) (length t.brokers) t.route_mask)) _ (
        passed P (not (length t.lambdas_total == length t.sources)) _ (
          passed P (not (has_shape (length t.sources) (length t.brokers) t.mu_links)) _ (
            passed P (not (length t.mu_brokers == length t.brokers)) _ (
              passed P (not (all_finite t.lambdas_total)) _ (
                passed P (not (all all_finite (masked t.route_mask t.mu_links))) _ (
                  passed P (not (all_finite t.mu_brokers)) _ (
                    passed P (not (all (λ lam. not (n.lt lam n.nought)) t.lambdas_total)) _ (
                      passed P (not (positive_links t.route_mask (masked t.route_mask t.mu_links)))
                        _
                        (passed P (not (all_reach t.lambdas_total t.route_mask)) _ (
                          passed P (not (all (λ mu. not (n.le mu n.nought)) t.mu_brokers)) _
                            (refl)))))))))))

  abbrev pub given :
      List R → List (List R) → List R → List String → List String → List (List Bool) → Topology R
  given lambdas links mus sources brokers mask = record {
    lambdas_total = lambdas;
    mu_links = links;
    mu_brokers = mus;
    sources = sources;
    brokers = brokers;
    route_mask = mask;
  }

  pub make-IsMasked :
      (lambdas : List R) (links : List (List R)) (mus : List R) (sources brokers : List String)
      (mask : List (List Bool))
      → Checked
          (λ t. t ≡ given lambdas (masked mask links) mus sources brokers mask)
          (make lambdas links mus sources brokers (some mask))
  unfolding make
  make-IsMasked lambdas links mus sources brokers mask =
      let t = given lambdas links mus sources brokers mask in
      let P = IsMasked t in
      passed P ((length sources == 0) || (length brokers == 0)) _ (
        passed P (has_duplicates sources) _
          (passed P (has_duplicates brokers) _ (validate-IsMasked t)))
