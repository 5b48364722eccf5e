-- ===== src/Model/Topology/Valid.antt =====
-- What a topology that was constructed satisfies, so that its users need not check again.
use traffic_emulator.Common.{
  ℕ, ◌≡◌, ◌≢◌, refl, sym, subst, Bool, true, false, List, [], ◌∷◌, length, All, All₂, arith,
}
use traffic_emulator.Num.{Num, IsOrdered, ◌≼◌, ◌≺◌}
use traffic_emulator.Num.Order.{le_of_lt}
use traffic_emulator.Model.Topology.{Topology, has_duplicates, any}

-- Every row of the table has `width` entries.
abbrev pub IsWide : {A : Type 0} → ℕ → List (List A) → Type 0
IsWide width = All λ row. length row ≡ width

ne-nil_of_length :
    {A B : Type 0} (xs : List A) (ys : List B) → length xs ≡ length ys → ys ≢ [] → xs ≢ []
ne-nil_of_length [] [] h ne = absurd (ne refl)
ne-nil_of_length [] (y ∷ ys) h ne = absurd (omega arith)
ne-nil_of_length (x ∷ xs) ys h ne = λ k. cc k

module _ {R : Type 0} ⦃n : Num R⦄ where
  -- A route has a positive capacity, and a missing one none.
  abbrev pub Matches : Bool → R → Type 0
  Matches true mu = n.nought ≺ mu
  Matches false mu = mu ≡ n.nought

  abbrev pub MatchesRow : List Bool → List R → Type 0
  MatchesRow = All₂ Matches

  pub record IsValid (t : Topology R) : Type 0 where
    pub has_sources : t.sources ≢ []
    pub has_brokers : t.brokers ≢ []
    pub distinct_sources : has_duplicates t.sources ≡ false
    pub distinct_brokers : has_duplicates t.brokers ≡ false
    pub rates_shape : length t.lambdas_total ≡ length t.sources
    pub links_shape : length t.mu_links ≡ length t.sources
    pub links_wide : IsWide (length t.brokers) t.mu_links
    pub brokers_shape : length t.mu_brokers ≡ length t.brokers
    pub rates_nonneg : All (λ lam. n.nought ≼ lam) t.lambdas_total
    pub brokers_positive : All (λ mu. n.nought ≺ mu) t.mu_brokers
    pub links_match : All₂ MatchesRow t.route_mask t.mu_links
    pub sources_reach :
        All₂ (λ lam row. n.nought ≺ lam → any row ≡ true) t.lambdas_total t.route_mask

  pub IsValid-IsWide : (t : Topology R) → IsValid t → IsWide (length t.mu_brokers) t.mu_links
  IsValid-IsWide t v = subst (λ w. IsWide w t.mu_links) (sym v.brokers_shape) v.links_wide

  pub IsValid-links-ne-nil : (t : Topology R) → IsValid t → t.mu_links ≢ []
  IsValid-links-ne-nil t v = ne-nil_of_length t.mu_links t.sources v.links_shape v.has_sources

  pub IsValid-brokers-ne-nil : (t : Topology R) → IsValid t → t.mu_brokers ≢ []
  IsValid-brokers-ne-nil t v = ne-nil_of_length t.mu_brokers t.brokers v.brokers_shape v.has_brokers

  module _ (laws : IsOrdered R) where
    MatchesRow-nonneg :
        (mask : List Bool) (mus : List R) → MatchesRow mask mus → All (λ mu. n.nought ≼ mu) mus
    MatchesRow-nonneg [] [] m = tt
    MatchesRow-nonneg [] (mu ∷ mus) m = absurd m
    MatchesRow-nonneg (b ∷ mask) [] m = absurd m
    MatchesRow-nonneg (true ∷ mask) (mu ∷ mus) m =
        (le_of_lt laws n.nought mu m.0, MatchesRow-nonneg mask mus m.1)
    MatchesRow-nonneg (false ∷ mask) (mu ∷ mus) m = (
      subst (λ s. n.nought ≼ s) (sym m.0) (laws.le_refl n.nought),
      MatchesRow-nonneg mask mus m.1,
    )

    links_nonneg :
        (mask : List (List Bool)) (links : List (List R))
        → All₂ MatchesRow mask links
        → All (All λ mu. n.nought ≼ mu) links
    links_nonneg [] [] m = tt
    links_nonneg [] (row ∷ links) m = absurd m
    links_nonneg (b ∷ mask) [] m = absurd m
    links_nonneg (b ∷ mask) (row ∷ links) m =
        (MatchesRow-nonneg b row m.0, links_nonneg mask links m.1)

    -- No link of a valid topology has a negative capacity.
    pub IsValid-links_nonneg :
        (t : Topology R) → IsValid t → All (All λ mu. n.nought ≼ mu) t.mu_links
    IsValid-links_nonneg t v = links_nonneg t.route_mask t.mu_links v.links_match
