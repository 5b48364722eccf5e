-- ===== src/Control/Feasibility/Headroom.antt =====
-- What a routing that was accepted keeps, whatever the solver gave.
use traffic_emulator.Common.{
  ◌≡◌, refl, sym, subst, Bool, true, false, not, Option, none, some, List, [], ◌∷◌, ◌++◌, All,
  zip_with, length, if◌then◌else◌, Result, ok, err, value_error, raise_if, or_raise, Checked,
  raise_if-Checked, ◌>>=◌, ◌>>◌,
}
use traffic_emulator.Num.{Num, IsOrdered, ◌⊖◌, ◌⊗◌, ◌≼◌, min}
use traffic_emulator.Num.Order.{le-max_right, le_of_not_lt, min_le_left, min_le_right}
use traffic_emulator.Num.Elementary.{Elementary}
use traffic_emulator.Num.Vectors.{column_sums}
use traffic_emulator.Model.Topology.{has_shape}
use traffic_emulator.Control.Synchronous.{minimum}
use traffic_emulator.Control.Synchronous.Step.{minimum-below}
use traffic_emulator.Control.Feasibility.{
  LinearProgram, reshape, clip_row, clipped, gaps_row, gaps, too_tight, mask_of, accept_routing,
  transportation_program, transportation_feasibility,
}

module _ {R : Type 0} ⦃n : Num R⦄ where
  -- Flows are not negative, a route has room for `bound` more, and what is no route carries nothing.
  abbrev pub RoomyRow : R → List Bool → List R → List R → Type 0
  RoomyRow bound [] mus flows = Unit
  RoomyRow bound (route ∷ mask) [] flows = Unit
  RoomyRow bound (route ∷ mask) (mu ∷ mus) [] = Unit
  RoomyRow bound (route ∷ mask) (mu ∷ mus) (x ∷ flows) =
      (n.nought ≼ x)
      × (if route then bound ≼ mu ⊖ x else (x ≡ n.nought))
      × RoomyRow bound mask mus flows

  abbrev pub Roomy : R → List (List Bool) → List (List R) → List (List R) → Type 0
  Roomy bound [] links routing = Unit
  Roomy bound (mask ∷ masks) [] routing = Unit
  Roomy bound (mask ∷ masks) (mus ∷ links) [] = Unit
  Roomy bound (mask ∷ masks) (mus ∷ links) (flows ∷ routing) =
      RoomyRow bound mask mus flows × Roomy bound masks links routing

  pub record IsRoomy (bound : R) (mask : List (List Bool)) (links : List (List R)) (mus : List R)
      (routing : List (List R)) : Type 0 where
    pub links_roomy : Roomy bound mask links routing
    pub brokers_roomy : All (λ gap. bound ≼ gap) (zip_with ◌⊖◌ mus (column_sums routing))

  All-append : (P : R → Type 0) (xs ys : List R) → All P (xs ++ ys) → All P xs × All P ys
  All-append P [] ys p = (tt, p)
  All-append P (x ∷ xs) ys p = let (first, rest) = All-append P xs ys p.1 in ((p.0, first), rest)

  minimum-cons : (x : R) (xs : List R) → (m : R) × (minimum (x ∷ xs) ≡ ok m)
  minimum-cons x [] = (x, refl)
  minimum-cons x (y ∷ ys) = let (m, found) = minimum-cons y ys in (min x m, rw found refl)

  module _ (laws : IsOrdered R) where
    clip_row-RoomyRow :
        (bound : R) (mask : List Bool) (mus xs : List R)
        → All (λ gap. bound ≼ gap) (gaps_row mask mus (clip_row mask xs))
        → RoomyRow bound mask mus (clip_row mask xs)
    clip_row-RoomyRow bound [] mus xs p = tt
    clip_row-RoomyRow bound (route ∷ mask) [] [] p = tt
    clip_row-RoomyRow bound (route ∷ mask) [] (x ∷ xs) p = tt
    clip_row-RoomyRow bound (route ∷ mask) (mu ∷ mus) [] p = tt
    clip_row-RoomyRow bound (true ∷ mask) (mu ∷ mus) (x ∷ xs) p =
        (le-max_right laws x n.nought, p.0, clip_row-RoomyRow bound mask mus xs p.1)
    clip_row-RoomyRow bound (false ∷ mask) (mu ∷ mus) (x ∷ xs) p =
        (laws.le_refl n.nought, refl, clip_row-RoomyRow bound mask mus xs p)

    clipped-Roomy :
        (bound : R) (mask : List (List Bool)) (links xs : List (List R))
        → All (λ gap. bound ≼ gap) (gaps mask links (clipped mask xs))
        → Roomy bound mask links (clipped mask xs)
    clipped-Roomy bound [] links xs p = tt
    clipped-Roomy bound (row ∷ mask) [] [] p = tt
    clipped-Roomy bound (row ∷ mask) [] (x ∷ xs) p = tt
    clipped-Roomy bound (row ∷ mask) (mus ∷ links) [] p = tt
    clipped-Roomy bound (row ∷ mask) (mus ∷ links) (x ∷ xs) p =
        let (first, rest) =
          All-append (λ gap. bound ≼ gap) (gaps_row row mus (clip_row row x))
            (gaps mask links (clipped mask xs)) p in
        (clip_row-RoomyRow bound row mus x first, clipped-Roomy bound mask links xs rest)

    All-weaken :
        (bound m : R) (xs : List R) → bound ≼ m → All (λ x. m ≼ x) xs → All (λ x. bound ≼ x) xs
    All-weaken bound m [] h p = tt
    All-weaken bound m (x ∷ xs) h p = (laws.le_trans bound m x h p.0, All-weaken bound m xs h p.1)

    -- a test of the headroom that passed
    not_tight :
        (bound : R) (link_gaps broker_gaps : List R) (broker_headroom : R)
        → minimum broker_gaps ≡ ok broker_headroom
        → Checked
            (λ tight.
              tight ≡ false → All (λ g. bound ≼ g) link_gaps × All (λ g. bound ≼ g) broker_gaps)
            (too_tight bound link_gaps broker_headroom)
    not_tight bound [] broker_gaps b h = λ fine. (
      tt,
      All-weaken bound b broker_gaps (le_of_not_lt laws b bound fine)
          (minimum-below laws broker_gaps h),
    )
    not_tight bound (g ∷ link_gaps) broker_gaps b h =
        let (m, found) = minimum-cons g link_gaps in
        rw found λ fine.
          let low = le_of_not_lt laws (min m b) bound fine in
          (
            All-weaken bound m (g ∷ link_gaps)
                (laws.le_trans bound (min m b) m low (min_le_left laws m b))
                (minimum-below laws (g ∷ link_gaps) found),
            All-weaken bound b broker_gaps
                (laws.le_trans bound (min m b) b low (min_le_right laws m b))
                (minimum-below laws broker_gaps h),
          )

    accept_routing-Checked :
        (bound : R) (links : List (List R)) (mus : List R) (mask : List (List Bool)) (x : List R)
        → Checked (IsRoomy bound mask links mus) (accept_routing bound links mus mask x)
    accept_routing-Checked bound links mus mask x =
        by_brokers (zip_with ◌⊖◌ mus (column_sums routing)) refl
      where
        routing : List (List R)
        routing = clipped mask (reshape (length links) (length mus) x)

        rest : R → Result (List (List R))
        rest broker_headroom = do
          tight ← too_tight bound (gaps mask links routing) broker_headroom
          raise_if tight value_error
          ok routing

        by_test :
            (broker_gaps : List R) (m : Result Bool)
            → zip_with ◌⊖◌ mus (column_sums routing) ≡ broker_gaps
            → Checked
                (λ tight.
                  tight ≡ false
                  → All (λ g. bound ≼ g) (gaps mask links routing)
                    × All (λ g. bound ≼ g) broker_gaps)
                m
            → Checked
                (IsRoomy bound mask links mus)
                (m >>= λ tight. raise_if tight value_error >> ok routing)
        by_test broker_gaps (ok true) e c = tt
        by_test broker_gaps (ok false) e c = record {
          links_roomy =
              clipped-Roomy bound mask links (reshape (length links) (length mus) x) (c refl).0;
          brokers_roomy = subst (All (λ g. bound ≼ g)) (sym e) (c refl).1;
        }
        by_test broker_gaps (err value_error) e c = tt
        by_test broker_gaps (err _) e c = absurd c

        by_brokers :
            (broker_gaps : List R)
            → zip_with ◌⊖◌ mus (column_sums routing) ≡ broker_gaps
            → Checked (IsRoomy bound mask links mus) (minimum broker_gaps >>= rest)
        by_brokers [] e = tt
        by_brokers (g ∷ broker_gaps) e =
            let (b, found) = minimum-cons g broker_gaps in
            rw found (
              by_test (g ∷ broker_gaps) (too_tight bound (gaps mask links routing) b) e
                (not_tight bound (gaps mask links routing) (g ∷ broker_gaps) b found))

module _ {R : Type 0} ⦃n : Num R⦄ ⦃e : Elementary R⦄
    (linprog : LinearProgram R → Option (List R)) where
  -- Whatever `linprog` gives, also outside its tolerances: the max-headroom routing is refused with
  -- ValueError, or no flow is negative, what is no route carries nothing, and every route and every
  -- broker keeps half of the margin.
  pub transportation_feasibility-Checked :
      IsOrdered R
      → (lambdas : List R) (links : List (List R)) (mus : List R) (margin : R)
        (route_mask : Option (List (List Bool)))
      → Checked
          (IsRoomy (e.literal 5 1 ⊗ margin) (mask_of route_mask links) links mus)
          (transportation_feasibility linprog lambdas links mus margin route_mask)
  unfolding transportation_feasibility
  transportation_feasibility-Checked laws lambdas links mus margin route_mask =
      let mask = mask_of route_mask links in
      let P = IsRoomy (e.literal 5 1 ⊗ margin) mask links mus in
      raise_if-Checked P (not (has_shape (length links) (length mus) mask)) _
        λ shaped. solved (linprog (transportation_program lambdas links mus margin mask))
    where
      solved :
          (solution : Option (List R))
          → Checked (IsRoomy (e.literal 5 1 ⊗ margin) (mask_of route_mask links) links mus) (
              or_raise solution value_error
              >>= accept_routing (e.literal 5 1 ⊗ margin) links mus (mask_of route_mask links))
      solved none = tt
      solved (some x) =
          accept_routing-Checked laws (e.literal 5 1 ⊗ margin) links mus (mask_of route_mask links)
            x
