-- ===== src/Control/BestResponse/Batch/Bounds.antt =====
-- What a batch of best responses satisfies.
use traffic_emulator.Common.{
  ℕ, zero, suc, ◌≡◌, refl, sym, subst, ap, Bool, true, false, Option, none, some, List, [], ◌∷◌,
  map, length, all, All, zip_with, arith, inl, inr, Bool-cases, ◌⊎◌,
}
use traffic_emulator.Num.{Num, IsOrdered, ◌⊕◌, ◌⊗◌, ◌≼◌, ◌≺◌, max}
use traffic_emulator.Num.Elementary.{Elementary, IsElementary, abs, half}
use traffic_emulator.Control.BestResponse.Bounds.{InBox, Carries}
use traffic_emulator.Control.BestResponse.Batch.{
  Row, closed_row, start_row, bracket_row, sort_row, finite_thresholds, flows, row_of, middle,
  is_near, halved, batch_bisect, settled, best_response_batch,
}
use traffic_emulator.Control.BestResponse.Batch.Flows.{IsExponential, IsCapacity, flows-InBox}

-- Three lists of one length, related element by element.
abbrev pub All₃ : {A B C : Type 0} → (A → B → C → Type 0) → List A → List B → List C → Type 0
All₃ P [] [] [] = Unit
All₃ P (x ∷ xs) (y ∷ ys) (z ∷ zs) = P x y z × All₃ P xs ys zs
All₃ P _ _ _ = ⊥

module _ {R : Type 0} ⦃n : Num R⦄ ⦃e : Elementary R⦄ (ps : List R) where
  -- The row is that of the source with these links and this demand.
  abbrev IsRow : List R → R → Row R → Type 0
  IsRow mus lam row = (row.row_mus ≡ mus) × (row.demand ≡ lam)

  closed_row-IsRow :
      (mus : List R) (lam : R) (found : R × Option R) → IsRow mus lam (closed_row ps mus lam found)
  closed_row-IsRow mus lam (lo, some hi) = (refl, refl)
  closed_row-IsRow mus lam (lo, none) = (refl, refl)

  start_row-IsRow :
      (mus : List R) (lam : R) (alphas : List R) → IsRow mus lam (start_row ps mus lam alphas)
  start_row-IsRow mus lam [] = closed_row-IsRow mus lam (n.nought, none)
  start_row-IsRow mus lam (alpha ∷ rest) =
      closed_row-IsRow mus lam (bracket_row ps mus lam alpha rest)

  row_of-IsRow : (mus : List R) (lam : R) → IsRow mus lam (row_of ps mus lam)
  unfolding row_of
  row_of-IsRow mus lam = start_row-IsRow mus lam (sort_row (finite_thresholds ps mus ps))

  halved-IsRow :
      (mus : List R) (lam : R) (row : Row R) → IsRow mus lam row → IsRow mus lam (halved ps row)
  unfolding halved
  halved-IsRow mus lam row h = ground (arith, h)

  All₃-map :
      (f : Row R → Row R)
      → ((mus : List R) (lam : R) (row : Row R) → IsRow mus lam row → IsRow mus lam (f row))
      → (mu : List (List R)) (lams : List R) (rows : List (Row R)) → All₃ IsRow mu lams rows
      → All₃ IsRow mu lams (map f rows)
  All₃-map f k [] [] [] h = tt
  All₃-map f k (mus ∷ mu) (lam ∷ lams) (row ∷ rows) h =
      (k mus lam row h.0, All₃-map f k mu lams rows h.1)
  All₃-map f k _ _ _ h = absurd h

  batch_bisect-IsRow :
      (flow_tol : R) (rounds : ℕ) (mu : List (List R)) (lams : List R) (rows : List (Row R))
      → All₃ IsRow mu lams rows
      → All₃ IsRow mu lams (batch_bisect ps flow_tol rounds rows)
  unfolding batch_bisect
  batch_bisect-IsRow flow_tol zero mu lams rows h = h
  batch_bisect-IsRow flow_tol (suc rounds) mu lams rows h =
      elim (Bool-cases (all (is_near ps flow_tol) rows)) [
        | inl near ↦ rw near h
        | inr far ↦ rw far (
            batch_bisect-IsRow flow_tol rounds mu lams (map (halved ps) rows)
              (All₃-map (halved ps) halved-IsRow mu lams rows h))
      ]

  rows_of-IsRow :
      (mu : List (List R)) (lams : List R)
      → length lams ≡ length mu
      → All₃ IsRow mu lams (zip_with (row_of ps) mu lams)
  rows_of-IsRow [] [] same = tt
  rows_of-IsRow [] (lam ∷ lams) same = absurd (omega arith)
  rows_of-IsRow (mus ∷ mu) [] same = absurd (omega arith)
  rows_of-IsRow (mus ∷ mu) (lam ∷ lams) same =
      (row_of-IsRow mus lam, rows_of-IsRow mu lams (omega arith))

  -- the rows after so many halvings of each
  abbrev pub halvings : ℕ → List (Row R) → List (Row R)
  halvings zero rows = rows
  halvings (suc rounds) rows = halvings rounds (map (halved ps) rows)

  near_or_halved :
      (flow_tol : R) (rounds : ℕ) (rows : List (Row R))
      → (all (is_near ps flow_tol) (batch_bisect ps flow_tol rounds rows) ≡ true)
        ⊎ (batch_bisect ps flow_tol rounds rows ≡ halvings rounds rows)
  unfolding batch_bisect
  near_or_halved flow_tol zero rows = inr refl
  near_or_halved flow_tol (suc rounds) rows = elim (Bool-cases (all (is_near ps flow_tol) rows)) [
    | inl near ↦ rw near (inl near)
    | inr far ↦ rw far (near_or_halved flow_tol rounds (map (halved ps) rows))
  ]

  -- Each flow is between 0 and its link's capacity, and without demand it is 0.
  abbrev pub IsServed : List R → R → List R → Type 0
  IsServed mus lam xs = InBox xs mus × (lam ≼ n.nought → All (λ x. x ≡ n.nought) xs)

  -- What there is of demand is carried, up to the tolerance.
  abbrev pub IsCarried : R → List R → R → List R → Type 0
  IsCarried flow_tol mus lam xs = n.nought ≺ lam → Carries (flow_tol ⊗ max n.unit (abs lam)) lam xs

  All₃-settled :
      (P : List R → R → List R → Type 0) (Q : List R → Type 0) (good : Row R → Bool)
      → ((mus : List R) (lam : R) (row : Row R)
          → Q mus
          → good row ≡ true
          → IsRow mus lam row
          → P mus lam (settled ps row))
      → (mu : List (List R)) (lams : List R) (rows : List (Row R)) → All Q mu
      → all good rows ≡ true
      → All₃ IsRow mu lams rows
      → All₃ P mu lams (map (settled ps) rows)
  All₃-settled P Q good k [] [] [] q g h = tt
  All₃-settled P Q good k (mus ∷ mu) (lam ∷ lams) (row ∷ rows) q g h = (
    k mus lam row q.0 (ground (arith, g)) h.0,
    All₃-settled P Q good k mu lams rows q.1 (ground (arith, g)) h.1,
  )
  All₃-settled P Q good k _ _ _ q g h = absurd h

module _ {R : Type 0} ⦃n : Num R⦄ ⦃e : Elementary R⦄ (laws : IsOrdered R)
    (elementary : IsElementary R) (exponential : IsExponential R) (ps : List R) where
  zeros-InBox : (xs mus : List R) → InBox xs mus → InBox (map (λ x. n.nought) xs) mus
  zeros-InBox [] [] h = tt
  zeros-InBox [] (mu ∷ mus) h = absurd h
  zeros-InBox (x ∷ xs) [] h = absurd h
  zeros-InBox (x ∷ xs) (mu ∷ mus) h =
      ((laws.le_refl n.nought, laws.le_trans n.nought x mu (h.0).0 (h.0).1), zeros-InBox xs mus h.1)

  zeros_vanish : (xs : List R) → All (λ x. x ≡ n.nought) (map (λ (x : R). n.nought) xs)
  zeros_vanish [] = tt
  zeros_vanish (x ∷ xs) = (refl, zeros_vanish xs)

  -- The row's links are links, and as many as there are prices.
  abbrev IsPriced : List R → Type 0
  IsPriced mus = All IsCapacity mus × (length ps ≡ length mus)

  middle-InBox :
      (mus : List R) (lam : R) (row : Row R)
      → IsPriced mus
      → IsRow ps mus lam row
      → InBox (middle ps row) mus
  middle-InBox mus lam row q h =
      subst (λ ms. InBox (flows ps ms (half ⊗ (row.lower ⊕ row.upper))) mus) (sym h.0)
        (flows-InBox laws elementary exponential ps mus _ q.0 q.1)

  settled-IsServed :
      (mus : List R) (lam : R) (row : Row R)
      → IsPriced mus
      → IsRow ps mus lam row
      → IsServed ps mus lam (settled ps row)
  settled-IsServed mus lam row q h = elim (Bool-cases (n.le row.demand n.nought)) [
    | inl idle ↦ rw idle (
      zeros-InBox (middle ps row) mus (middle-InBox mus lam row q h),
      λ no_demand. zeros_vanish (middle ps row),
    )
    | inr busy ↦ rw busy (middle-InBox mus lam row q h, λ no_demand. cc h.1)
  ]

  settled-IsCarried :
      (flow_tol : R) (mus : List R) (lam : R) (row : Row R)
      → is_near ps flow_tol row ≡ true
      → IsRow ps mus lam row
      → IsCarried ps flow_tol mus lam (settled ps row)
  settled-IsCarried flow_tol mus lam row near h positive =
      subst (λ l. Carries (flow_tol ⊗ max n.unit (abs l)) l (settled ps row)) h.1
        (rw (not_idle row.demand (subst (λ l. n.nought ≺ l) (sym h.1) positive)) near)
    where
      not_idle : (l : R) → n.nought ≺ l → n.le l n.nought ≡ false
      not_idle l above = ground (arith, laws.lt-eq-not-le n.nought l, above)

  -- A batch of best responses to one row of prices, where each link's capacity is positive or 0 and
  -- there is a price for each link of a row and a demand for each row: there is a row of flows for each
  -- row of links, each flow between 0 and its link's capacity, and all 0 without demand. Each demand
  -- is carried within flow_tol * max(1, |lam|), or the flows are those after max_iter halvings of each
  -- bracket.
  pub best_response_batch-IsServed :
      (mu : List (List R)) (lams : List R) (flow_tol : R) (max_iter : ℕ)
      → All IsPriced mu
      → length lams ≡ length mu
      → All₃ (IsServed ps) mu lams (best_response_batch mu ps lams flow_tol max_iter)
        × (All₃ (IsCarried ps flow_tol) mu lams (best_response_batch mu ps lams flow_tol max_iter)
            ⊎ (best_response_batch mu ps lams flow_tol max_iter
                ≡ map (settled ps) (halvings ps max_iter (zip_with (row_of ps) mu lams))))
  unfolding best_response_batch
  best_response_batch-IsServed mu lams flow_tol max_iter priced same =
      let start = zip_with (row_of ps) mu lams in
      let ended = batch_bisect ps flow_tol max_iter start in
      let rows =
        batch_bisect-IsRow ps flow_tol max_iter mu lams start (rows_of-IsRow ps mu lams same) in
      (
        All₃-settled ps (IsServed ps) IsPriced (λ row. true)
            (λ mus lam row q good h. settled-IsServed mus lam row q h) mu lams _ priced
            (all_true ended) rows,
        elim (near_or_halved ps flow_tol max_iter start) [
          | inl near ↦ inl (
              All₃-settled ps (IsCarried ps flow_tol) IsPriced (is_near ps flow_tol)
                (λ mus lam row q good h. settled-IsCarried flow_tol mus lam row good h) mu lams _
                priced near rows)
          | inr spent ↦ inr (ap (map (settled ps)) spent)
        ],
      )
    where
      all_true : (rows : List (Row R)) → all (λ row. true) rows ≡ true
      all_true [] = refl
      all_true (row ∷ rows) = all_true rows
