-- ===== src/Control/Synchronous/Responses.antt =====
-- The loop over the sources in `iteration_step`: feasible rows come out, and with failures held it
-- raises nothing.
use traffic_emulator.Common.{
  ℕ, ◌+◌, ◌≡◌, refl, sym, ap, subst, Bool, true, false, List, [], ◌∷◌, length, All, Result, ok, err,
  Error, value_error, runtime_error, >>=-eq-ok, if◌then◌else◌,
}
use traffic_emulator.Num.{Num, IsOrdered, ◌⊗◌, ◌≼◌, max}
use traffic_emulator.Num.Elementary.{Elementary, IsElementary, abs}
use traffic_emulator.Model.Topology.Valid.{IsWide}
use traffic_emulator.Control.BestResponse.Bounds.{InBox, Carries, best_response_available-Good}
use traffic_emulator.Control.BestResponse.Errors.{Catchable, best_response_available-Catchable}
use traffic_emulator.Control.Synchronous.{
  OnFailure, holds, on_failure, answer, respond, respond_all, source_best_response,
}
use traffic_emulator.Control.Synchronous.Rows.{RowsGood, no_rows, good_row}

module _ {R : Type 0} ⦃n : Num R⦄ ⦃e : Elementary R⦄ where
  -- the tolerance of `source_best_response` for a demand: 1e-12 * max(1, |lam|)
  abbrev pub br_tolerance : R → R
  br_tolerance lam = e.literal 1 12 ⊗ max n.unit (abs lam)

  module _ (laws : IsOrdered R) (elementary : IsElementary R) where
    open n use {nought, unit}

    ok_injective : {A : Type 0} {a b : A} → ok a ≡ ok b → a ≡ b
    ok_injective h = cc

    on_failure-held :
        {A : Type 0} (policy : OnFailure) (error : Error) (held : A) {r : A × Bool}
        → on_failure policy error held ≡ ok r
        → r.0 ≡ held
    on_failure-held holds value_error held h = ap (λ a. a.0) (sym (ok_injective h))
    on_failure-held holds runtime_error held h = ap (λ a. a.0) (sym (ok_injective h))
    on_failure-held _ _ held h = cc

    answer-Good :
        (P : List R → Type 0) (policy : OnFailure) (held_row : List R) (found : Result (List R))
        {r : List R × Bool}
        → P held_row
        → ((row : List R) → found ≡ ok row → P row)
        → answer policy held_row found ≡ ok r
        → P r.0
    answer-Good P policy held_row (ok row) p k h =
        subst P (ap (λ a. a.0) (ok_injective h)) (k row refl)
    answer-Good P policy held_row (err e) p k h =
        subst P (sym (on_failure-held policy e held_row h)) p

    respond-Good :
        (policy : OnFailure) (mu_row prices held_row : List R) (lam : R) {r : List R × Bool}
        → All (λ mu. nought ≼ mu) mu_row
        → InBox held_row mu_row
        → Carries (br_tolerance lam) lam held_row
        → respond policy mu_row prices lam held_row ≡ ok r
        → InBox r.0 mu_row × Carries (br_tolerance lam) lam r.0
    unfolding respond source_best_response
    respond-Good policy mu_row prices held_row lam p b c h =
        answer-Good (λ row. InBox row mu_row × Carries (br_tolerance lam) lam row) policy held_row
          (source_best_response mu_row prices lam) (b, c)
          (λ row found.
            best_response_available-Good laws elementary mu_row prices lam (e.literal 1 12) 320 p
              found)
          h

    -- The best responses of all sources, the held rows among them, are feasible rows.
    pub respond_all-RowsGood :
        (policy : OnFailure) (prices : List R) (i : ℕ) {mus rows : List (List R)} {lambdas : List R}
        {r : List (List R) × List ℕ}
        → All (All λ mu. nought ≼ mu) mus
        → RowsGood br_tolerance mus lambdas rows
        → respond_all policy prices i mus lambdas rows ≡ ok r
        → RowsGood br_tolerance mus lambdas r.0
    respond_all-RowsGood policy prices i p no_rows h =
        subst (λ a. RowsGood br_tolerance [] [] (a.0)) (ok_injective h) no_rows
    respond_all-RowsGood policy prices i p
          (good_row {mu = mu} {row = row} {lam = lam} {mus = mus} {rows = rows} {lambdas = lambdas}
            b c g)
          h =
        let (first, responded, later) = >>=-eq-ok (respond policy mu prices lam row) _ h in
        let (rest, others, joined) =
          >>=-eq-ok (respond_all policy prices (i + 1) mus lambdas rows) _ later in
        let (b', c') = respond-Good policy mu prices row lam p.0 b c responded in
        subst (λ a. RowsGood br_tolerance (mu ∷ mus) (lam ∷ lambdas) (a.0)) (ok_injective joined)
          (good_row b' c' (respond_all-RowsGood policy prices (i + 1) p.1 g others))

    answer_total :
        (held_row : List R) (found : Result (List R))
        → Catchable found
        → (r : List R × Bool) × (answer holds held_row found ≡ ok r)
    answer_total held_row (ok row) c = ((row, false), refl)
    answer_total held_row (err value_error) c = ((held_row, true), refl)
    answer_total held_row (err runtime_error) c = ((held_row, true), refl)
    answer_total held_row (err _) c = absurd c

    -- With failures held, the answer of one source is always a row.
    pub respond_total :
        (mu_row prices held_row : List R) (lam : R)
        → length prices ≡ length mu_row
        → (r : List R × Bool) × (respond holds mu_row prices lam held_row ≡ ok r)
    unfolding respond source_best_response
    respond_total mu_row prices held_row lam same =
        answer_total held_row (source_best_response mu_row prices lam)
          (best_response_available-Catchable laws mu_row prices lam (e.literal 1 12) 320 same)

    -- When failures are held, the loop over the sources raises nothing.
    pub respond_all_total :
        (prices : List R) (i : ℕ) {mus rows : List (List R)} {lambdas : List R}
        → IsWide (length prices) mus
        → RowsGood br_tolerance mus lambdas rows
        → (r : List (List R) × List ℕ) × (respond_all holds prices i mus lambdas rows ≡ ok r)
    respond_all_total prices i w no_rows = (([], []), refl)
    respond_all_total prices i w
          (good_row {mu = mu} {row = row} {lam = lam} {mus = mus} {rows = rows} {lambdas = lambdas}
            b c g) =
        let (first, responded) = respond_total mu prices row lam (sym w.0) in
        let (rest, others) = respond_all_total prices (i + 1) w.1 g in
        ((first.0 ∷ rest.0, if first.1 then i ∷ rest.1 else rest.1), rw (responded, others))
