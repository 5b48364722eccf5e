-- ===== src/Model/Topology.antt =====
-- src/model/topology.py. The arrays are numeric already: the conversion error of `np.asarray` is
-- not modelled, and a ragged array counts as one of the wrong shape.
pub mod Valid
pub mod Construction
pub mod Building
use Prim.Native.String.{String}
use text.Mathlib.Text.{◌==◌ as str_eq}
use traffic_emulator.Common.{
  ℕ, Bool, true, false, not, ◌&&◌, ◌||◌, Option, none, some, List, [], ◌∷◌, map, length, all,
  zip_with, replicate, if◌then◌else◌, ◌==◌, Result, ok, err, Error, value_error, raise_if, ◌>>=◌,
  ◌>>◌,
}
use traffic_emulator.Num.{Num}
use traffic_emulator.Num.Elementary.{Elementary}

pub record Topology (R : Type 0) : Type 0 where
  pub lambdas_total : List R
  pub mu_links : List (List R)
  pub mu_brokers : List R
  pub sources : List String
  pub brokers : List String
  pub route_mask : List (List Bool)

abbrev pub elem : String → List String → Bool
elem s [] = false
elem s (t ∷ ts) = str_eq s t || elem s ts

-- `len(set(ids)) != len(ids)`
abbrev pub has_duplicates : List String → Bool
has_duplicates [] = false
has_duplicates (s ∷ ts) = elem s ts || has_duplicates ts

abbrev pub any : List Bool → Bool
any [] = false
any (b ∷ bs) = b || any bs

-- `a.shape == (rows, columns)`
abbrev pub has_shape : {A : Type 0} → ℕ → ℕ → List (List A) → Bool
has_shape rows columns a = (length a == rows) && all (λ row. length row == columns) a

module _ {R : Type 0} ⦃n : Num R⦄ where
  -- `np.where(route_mask, mu_links, 0.0)`
  abbrev pub masked : List (List Bool) → List (List R) → List (List R)
  masked = zip_with (zip_with λ route mu. if route then mu else n.nought)

  abbrev pub positive_links : List (List Bool) → List (List R) → Bool
  positive_links mask links =
      all (all λ fine. fine)
        (zip_with (zip_with λ route mu. not (route && n.le mu n.nought)) mask links)

  -- no source has traffic and no link
  abbrev pub all_reach : List R → List (List Bool) → Bool
  all_reach lambdas mask =
      all (λ fine. fine)
        (zip_with (λ lam row. not (n.lt n.nought lam && not (any row))) lambdas mask)

  module _ ⦃e : Elementary R⦄ where
    abbrev pub all_finite : List R → Bool
    all_finite = all e.is_finite

    -- the tests of `__post_init__`, in order, once the route mask is known
    unfoldable pub validate : Topology R → Result (Topology R)
    validate t = do
      raise_if (not (has_shape (length t.sources) (length t.brokers) t.route_mask)) value_error
      raise_if (not (length t.lambdas_total == length t.sources)) value_error
      raise_if (not (has_shape (length t.sources) (length t.brokers) t.mu_links)) value_error
      raise_if (not (length t.mu_brokers == length t.brokers)) value_error
      let links = masked t.route_mask t.mu_links
      raise_if (not (all_finite t.lambdas_total)) value_error
      raise_if (not (all all_finite links)) value_error
      raise_if (not (all_finite t.mu_brokers)) value_error
      raise_if (not (all (λ lam. not (n.lt lam n.nought)) t.lambdas_total)) value_error
      raise_if (not (positive_links t.route_mask links)) value_error
      raise_if (not (all_reach t.lambdas_total t.route_mask)) value_error
      raise_if (not (all (λ mu. not (n.le mu n.nought)) t.mu_brokers)) value_error
      ok (record t { mu_links = links })

    -- `Topology(...)`: an absent mask has every route
    unfoldable pub make :
        List R
        → List (List R)
        → List R
        → List String
        → List String
        → Option (List (List Bool))
        → Result (Topology R)
    make lambdas links mus sources brokers mask = do
      raise_if ((length sources == 0) || (length brokers == 0)) value_error
      raise_if (has_duplicates sources) value_error
      raise_if (has_duplicates brokers) value_error
      validate (record {
        lambdas_total = lambdas;
        mu_links = links;
        mu_brokers = mus;
        sources = sources;
        brokers = brokers;
        route_mask = elim mask [
          | none ↦ replicate (length sources) (replicate (length brokers) true)
          | some m ↦ m
        ];
      })

    unfoldable pub with_capacities : Topology R → List (List R) → List R → Result (Topology R)
    unfolding make
    with_capacities t links mus =
        make t.lambdas_total links mus t.sources t.brokers (some t.route_mask)
