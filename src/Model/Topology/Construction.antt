-- ===== src/Model/Topology/Construction.antt =====
-- The tests of the constructor establish what a valid topology satisfies.
use Prim.Native.String.{String}
use traffic_emulator.Common.{
  ℕ, ◌≡◌, ◌≢◌, refl, sym, ◌∙◌, Bool, true, false, not, ◌&&◌, ◌||◌, Option, List, [], ◌∷◌, length,
  all, All, All₂, arith, if◌then◌else◌, ◌==◌, zip_with, Checked, raise_if-Checked, length-zip_with,
}
use traffic_emulator.Num.{Num, IsOrdered, ◌≼◌, ◌≺◌}
use traffic_emulator.Num.Order.{le_of_not_lt, lt_of_not_le}
use traffic_emulator.Num.Elementary.{Elementary}
use traffic_emulator.Model.Topology.{
  Topology, has_duplicates, has_shape, any, masked, positive_links, all_reach, validate, make,
  all_finite,
}
use traffic_emulator.Model.Topology.Valid.{IsValid, IsWide, MatchesRow}

eq_of_test : (a b : ℕ) → not (a == b) ≡ false → a ≡ b
eq_of_test a b h = ground arith

true_of_test : (b : Bool) → not b ≡ false → b ≡ true
true_of_test true h = refl
true_of_test false h = cc

all-All :
    {A : Type 0} (P : A → Type 0) (test : A → Bool)
    → ((a : A) → test a ≡ true → P a)
    → (xs : List A) → all test xs ≡ true
    → All P xs
all-All P test k [] h = tt
all-All P test k (x ∷ xs) h = (k x (ground (arith, h)), all-All P test k xs (ground (arith, h)))

has_shape-IsWide :
    {A : Type 0} (rows columns : ℕ) (a : List (List A))
    → has_shape rows columns a ≡ true
    → (length a ≡ rows) × IsWide columns a
has_shape-IsWide rows columns a h = (
  ground (arith, h),
  all-All (λ row. length row ≡ columns) (λ row. length row == columns)
      (λ row same. ground (arith, same)) a (ground (arith, h)),
)

ne-nil_of_count : {A : Type 0} (xs : List A) → (length xs == 0) ≡ false → xs ≢ []
ne-nil_of_count [] h = cc
ne-nil_of_count (x ∷ xs) h = λ k. cc k

module _ {R : Type 0} ⦃n : Num R⦄ where
  masked-IsWide :
      (columns : ℕ) (mask : List (List Bool)) (links : List (List R))
      → IsWide columns mask
      → IsWide columns links
      → IsWide columns (masked mask links)
  masked-IsWide columns [] links w v = tt
  masked-IsWide columns (m ∷ mask) [] w v = tt
  masked-IsWide columns (m ∷ mask) (row ∷ links) w v =
      (length-zip_with _ m row (w.0 ∙ sym v.0) ∙ w.0, masked-IsWide columns mask links w.1 v.1)

  reach-All₂ :
      (lambdas : List R) (mask : List (List Bool))
      → length lambdas ≡ length mask
      → all_reach lambdas mask ≡ true
      → All₂ (λ lam row. n.nought ≺ lam → any row ≡ true) lambdas mask
  reach-All₂ [] [] same h = tt
  reach-All₂ [] (m ∷ mask) same h = absurd (omega arith)
  reach-All₂ (lam ∷ lambdas) [] same h = absurd (omega arith)
  reach-All₂ (lam ∷ lambdas) (m ∷ mask) same h =
      (λ busy. ground (arith, h, busy), reach-All₂ lambdas mask (omega arith) (ground (arith, h)))

  module _ (laws : IsOrdered R) where
    masked-MatchesRow :
        (m : List Bool) (row : List R)
        → length m ≡ length row
        → all
            (λ fine. fine)
            (zip_with
              (λ route mu. not (route && n.le mu n.nought))
              m
              (zip_with (λ route mu. if route then mu else n.nought) m row))
          ≡ true
        → MatchesRow m (zip_with (λ route mu. if route then mu else n.nought) m row)
    masked-MatchesRow [] row same h = tt
    masked-MatchesRow (b ∷ m) [] same h = absurd (omega arith)
    masked-MatchesRow (true ∷ m) (mu ∷ row) same h = (
      lt_of_not_le laws n.nought mu (ground (arith, h)),
      masked-MatchesRow m row (omega arith) (ground (arith, h)),
    )
    masked-MatchesRow (false ∷ m) (mu ∷ row) same h =
        (refl, masked-MatchesRow m row (omega arith) (ground (arith, h)))

    masked-Matches :
        (columns : ℕ) (mask : List (List Bool)) (links : List (List R))
        → IsWide columns mask
        → IsWide columns links
        → length mask ≡ length links
        → positive_links mask (masked mask links) ≡ true
        → All₂ MatchesRow mask (masked mask links)
    masked-Matches columns [] links w v same h = tt
    masked-Matches columns (m ∷ mask) [] w v same h = absurd (omega arith)
    masked-Matches columns (m ∷ mask) (row ∷ links) w v same h = (
      masked-MatchesRow m row (w.0 ∙ sym v.0) (ground (arith, h)),
      masked-Matches columns mask links w.1 v.1 (omega arith) (ground (arith, h)),
    )

    -- what the tests of the constructor's counts and ids leave
    record IsNamed (t : Topology R) : Type 0 where
      has_sources : t.sources ≢ []
      has_brokers : t.brokers ≢ []
      distinct_sources : has_duplicates t.sources ≡ false
      distinct_brokers : has_duplicates t.brokers ≡ false

    -- what the tests of its shapes leave
    record IsShaped (t : Topology R) : Type 0 where
      mask_test : not (has_shape (length t.sources) (length t.brokers) t.route_mask) ≡ false
      rates_test : not (length t.lambdas_total == length t.sources) ≡ false
      links_test : not (has_shape (length t.sources) (length t.brokers) t.mu_links) ≡ false
      brokers_test : not (length t.mu_brokers == length t.brokers) ≡ false

    passed-IsValid :
        (t : Topology R)
        → IsNamed t
        → IsShaped t
        → not (all (λ lam. not (n.lt lam n.nought)) t.lambdas_total) ≡ false
        → not (positive_links t.route_mask (masked t.route_mask t.mu_links)) ≡ false
        → not (all_reach t.lambdas_total t.route_mask) ≡ false
        → not (all (λ mu. not (n.le mu n.nought)) t.mu_brokers) ≡ false
        → IsValid (record t { mu_links = masked t.route_mask t.mu_links })
    passed-IsValid t named shaped nonneg_test positive_test reach_test capacity_test =
        let rows = length t.sources in
        let columns = length t.brokers in
        let (mask_rows, mask_wide) =
          has_shape-IsWide rows columns t.route_mask (true_of_test _ shaped.mask_test) in
        let (link_rows, links_wide) =
          has_shape-IsWide rows columns t.mu_links (true_of_test _ shaped.links_test) in
        let rates_shape = eq_of_test (length t.lambdas_total) rows shaped.rates_test in
        record {
          has_sources = named.has_sources;
          has_brokers = named.has_brokers;
          distinct_sources = named.distinct_sources;
          distinct_brokers = named.distinct_brokers;
          rates_shape = rates_shape;
          links_shape =
              length-zip_with _ t.route_mask t.mu_links (mask_rows ∙ sym link_rows) ∙ mask_rows;
          links_wide = masked-IsWide columns t.route_mask t.mu_links mask_wide links_wide;
          brokers_shape = eq_of_test (length t.mu_brokers) columns shaped.brokers_test;
          rates_nonneg =
              all-All (λ lam. n.nought ≼ lam) (λ lam. not (n.lt lam n.nought))
                (λ lam h. le_of_not_lt laws lam n.nought (ground (arith, h))) t.lambdas_total
                (true_of_test _ nonneg_test);
          brokers_positive =
              all-All (λ mu. n.nought ≺ mu) (λ mu. not (n.le mu n.nought))
                (λ mu h. lt_of_not_le laws n.nought mu (ground (arith, h))) t.mu_brokers
                (true_of_test _ capacity_test);
          links_match =
              masked-Matches columns t.route_mask t.mu_links mask_wide links_wide
                (mask_rows ∙ sym link_rows) (true_of_test _ positive_test);
          sources_reach =
              reach-All₂ t.lambdas_total t.route_mask (rates_shape ∙ sym mask_rows)
                (true_of_test _ reach_test);
        }

    module _ ⦃e : Elementary R⦄ where
      validate-Checked : (t : Topology R) → IsNamed t → Checked IsValid (validate t)
      unfolding validate
      validate-Checked t named =
          let P = IsValid {R = R} ⦃n = n⦄ in
          raise_if-Checked P _ _ λ mask_test. raise_if-Checked P _ _ λ rates_test.
            raise_if-Checked P _ _ λ links_test. raise_if-Checked P _ _ λ brokers_test.
              raise_if-Checked P (not (all_finite t.lambdas_total)) _ λ finite_rates.
                raise_if-Checked P (not (all all_finite (masked t.route_mask t.mu_links))) _
                  λ finite_links.
                    raise_if-Checked P (not (all_finite t.mu_brokers)) _ λ finite_brokers.
                      raise_if-Checked P _ _ λ nonneg_test. raise_if-Checked P _ _ λ positive_test.
                        raise_if-Checked P _ _ λ reach_test. raise_if-Checked P _ _ (
                          passed-IsValid t named
                            (record {
                              mask_test = mask_test;
                              rates_test = rates_test;
                              links_test = links_test;
                              brokers_test = brokers_test;
                            })
                            nonneg_test positive_test reach_test)

      -- The constructor returns a valid topology or raises ValueError, whatever it is given: in a
      -- topology that was built there is a source and a broker, no id occurs twice, all arrays have
      -- the sizes of the ids, no rate is negative, each broker's capacity is positive, a link's is
      -- positive where the route mask has the link and 0 elsewhere, and each source with traffic has
      -- a link.
      pub make-Checked :
          (lambdas : List R) (links : List (List R)) (mus : List R) (sources brokers : List String)
          (mask : Option (List (List Bool)))
          → Checked IsValid (make lambdas links mus sources brokers mask)
      unfolding make
      make-Checked lambdas links mus sources brokers mask =
          raise_if-Checked (IsValid {R = R} ⦃n = n⦄)
            ((length sources == 0) || (length brokers == 0)) _
            λ count_test.
              raise_if-Checked (IsValid {R = R} ⦃n = n⦄) (has_duplicates sources) _
                λ distinct_sources.
                  raise_if-Checked (IsValid {R = R} ⦃n = n⦄) (has_duplicates brokers) _
                    λ distinct_brokers. validate-Checked _ (record {
                      has_sources = ne-nil_of_count sources (ground (arith, count_test));
                      has_brokers = ne-nil_of_count brokers (ground (arith, count_test));
                      distinct_sources = distinct_sources;
                      distinct_brokers = distinct_brokers;
                    })
