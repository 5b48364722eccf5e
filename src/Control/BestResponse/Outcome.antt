-- ===== src/Control/BestResponse/Outcome.antt =====
-- All that a call of `best_response_available` can end with.
use traffic_emulator.Common.{
  ℕ, ◌≡◌, refl, List, length, All, Result, ok, err, value_error, runtime_error,
}
use traffic_emulator.Num.{Num, IsOrdered, ◌⊗◌, ◌≼◌, max}
use traffic_emulator.Num.Elementary.{Elementary, IsElementary, abs}
use traffic_emulator.Control.BestResponse.{best_response_available}
use traffic_emulator.Control.BestResponse.Bounds.{InBox, Carries, best_response_available-Good}
use traffic_emulator.Control.BestResponse.Errors.{Catchable, best_response_available-Catchable}

-- A value of which the property holds, or one of `RuntimeError` and `ValueError`.
abbrev pub Ends {ℓ} : {A : Type ℓ} → (A → Type 0) → Result A → Type 0
Ends P (ok a) = P a
Ends P (err value_error) = Unit
Ends P (err runtime_error) = Unit
Ends P (err _) = ⊥

ends {ℓ} :
    {A : Type ℓ} (P : A → Type 0) (m : Result A)
    → Catchable m
    → ((a : A) → m ≡ ok a → P a)
    → Ends P m
ends P (ok a) c p = p a refl
ends P (err value_error) c p = tt
ends P (err runtime_error) c p = tt
ends P (err _) c p = absurd c

module _ {R : Type 0} ⦃n : Num R⦄ ⦃e : Elementary R⦄ (laws : IsOrdered R)
    (elementary : IsElementary R) where
  -- On a row of capacities of which none is negative, and as many prices, the best response ends in
  -- one of two ways. Either it returns flows, each between 0 and its link's capacity, whose sum is
  -- within flow_tol * max(1, |lam|) of the demand; or it raises RuntimeError or ValueError, the two
  -- exceptions that its callers catch, and no other.
  pub best_response_available-Ends :
      (mus ps : List R) (lam flow_tol : R) (max_iter : ℕ)
      → All (λ mu. n.nought ≼ mu) mus
      → length ps ≡ length mus
      → Ends
          (λ x. InBox x mus × Carries (flow_tol ⊗ max n.unit (abs lam)) lam x)
          (best_response_available mus ps lam flow_tol max_iter)
  best_response_available-Ends mus ps lam flow_tol max_iter p same =
      ends (λ x. InBox x mus × Carries (flow_tol ⊗ max n.unit (abs lam)) lam x)
        (best_response_available mus ps lam flow_tol max_iter)
        (best_response_available-Catchable laws mus ps lam flow_tol max_iter same)
        (λ x found.
          best_response_available-Good laws elementary mus ps lam flow_tol max_iter p found)
