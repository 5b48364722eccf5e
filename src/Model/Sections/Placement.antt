-- ===== src/Model/Sections/Placement.antt =====
-- Each link of a configuration is written at the place that it names, and stays there.
use Prim.Native.String.{String}
use traffic_emulator.Common.{
  ℕ, zero, suc, ◌<◌, ◌≡◌, Bool, true, false, ◌||◌, some, List, [], ◌∷◌, length, ok, Loads,
  raise_if-Loads, >>=-Loads, or_raise-Loads, arith,
}
use traffic_emulator.Common.Sums.{get2}
use traffic_emulator.Common.Tables.{
  IsTable, get2_total, set2-IsTable, get2-set2_here, get2-set2_apart, get2-set2_unmarked,
}
use traffic_emulator.Model.Sections.{
  Links, Place, link_place, link_index, named, strip, split, is_empty, index_of, with_capacity,
  without_route, claimed,
}

index_of_range :
    (name : List ℕ) (ids : List String) (i : ℕ) → index_of name ids ≡ some i → i < length ids
index_of_range name [] i h = cc
index_of_range name (s ∷ ids) zero h = ground arith
index_of_range name (s ∷ ids) (suc i) h = ground (arith, index_of_range name ids i)

named-Loads : (parts : List (List ℕ)) → Loads (λ name. Unit {0}) (named parts)
named-Loads [] = tt
named-Loads (a ∷ []) = tt
named-Loads (a ∷ b ∷ []) =
    raise_if-Loads (λ name. Unit {0}) (is_empty (strip a) || is_empty (strip b)) _ λ h. tt
named-Loads (a ∷ b ∷ c ∷ parts) = tt

-- The place is within the table of the sources and the brokers.
abbrev IsWithin : List String → List String → Place → Type 0
IsWithin sources brokers p = (p.at_source < length sources) × (p.at_broker < length brokers)

link_place-Loads :
    (sources brokers : List String) (link : List ℕ)
    → Loads (IsWithin sources brokers) (link_place sources brokers link)
unfolding link_place
link_place-Loads sources brokers link =
    >>=-Loads (λ name. Unit {0}) (IsWithin sources brokers) (named (split link)) _
      (named-Loads (split link))
      λ name is_named _.
        >>=-Loads (λ i. index_of name.link_source sources ≡ some i) (IsWithin sources brokers) _ _
          (or_raise-Loads (index_of name.link_source sources))
          λ i is_i found_i.
            >>=-Loads (λ j. index_of name.link_broker brokers ≡ some j) (IsWithin sources brokers) _
              _ (or_raise-Loads (index_of name.link_broker brokers))
              λ j is_j found_j. (
                index_of_range name.link_source sources i found_i,
                index_of_range name.link_broker brokers j found_j,
              )

module _ {R : Type 0} (sources brokers : List String) where
  pub record IsSound (links : Links R) : Type 0 where
    pub capacity_table : IsTable (length sources) (length brokers) links.link_capacities
    pub specified_table : IsTable (length sources) (length brokers) links.specified
    pub mask_table : IsTable (length sources) (length brokers) links.mask
    -- a link that was not named yet has its route
    pub unnamed :
        (i j : ℕ) → get2 links.specified i j ≡ some false → get2 links.mask i j ≡ some true

  -- what the tables hold at the place of a link that was named
  pub record Holds (links : Links R) (p : Place) (cap : R) (exists : Bool) : Type 0 where
    pub is_specified : get2 links.specified p.at_source p.at_broker ≡ some true
    pub has_capacity : get2 links.link_capacities p.at_source p.at_broker ≡ some cap
    pub has_route : get2 links.mask p.at_source p.at_broker ≡ some exists

  abbrev pub Extends : Links R → Links R → Type 0
  Extends before after =
      (p : Place) (cap : R) (exists : Bool) → Holds before p cap exists → Holds after p cap exists

  -- a place that is claimed by none yet, with what is there
  pub record IsFree (links : Links R) (p : Place) : Type 0 where
    pub at_place : R
    pub is_free : get2 links.specified p.at_source p.at_broker ≡ some false
    pub holds_capacity : get2 links.link_capacities p.at_source p.at_broker ≡ some at_place
    pub holds_route : get2 links.mask p.at_source p.at_broker ≡ some true

  IsSound-IsFree :
      (links : Links R) (p : Place)
      → IsSound links
      → IsWithin sources brokers p
      → get2 links.specified p.at_source p.at_broker ≡ some false
      → IsFree links p
  IsSound-IsFree links p s within free =
      let (cap, at) =
        get2_total (length sources) (length brokers) links.link_capacities p.at_source p.at_broker
          s.capacity_table within.0 within.1 in
      record {
        at_place = cap;
        is_free = free;
        holds_capacity = at;
        holds_route = s.unnamed p.at_source p.at_broker free;
      }

  pub link_index-Loads :
      (links : Links R) (link : List ℕ)
      → IsSound links
      → Loads
          (λ p. (link_place sources brokers link ≡ ok p) × IsFree links p)
          (link_index sources brokers link links)
  unfolding link_index
  link_index-Loads links link s =
      let P = λ (p : Place). (link_place sources brokers link ≡ ok p) × IsFree links p in
      >>=-Loads (IsWithin sources brokers) P (link_place sources brokers link) _
        (link_place-Loads sources brokers link)
        λ p is_p within.
          let (taken, at) =
            get2_total (length sources) (length brokers) links.specified p.at_source p.at_broker
              s.specified_table within.0 within.1 in
          rw at (
            raise_if-Loads P taken (ok p)
              λ free. (is_p, IsSound-IsFree links p s within (rw free at at)))

  module _ (links : Links R) (p : Place) (s : IsSound links) (f : IsFree links p) where
    abbrev pub placed : R → Links R
    placed cap = with_capacity p cap (claimed p links)

    pub placed-IsSound : (cap : R) → IsSound (placed cap)
    placed-IsSound cap = record {
      capacity_table = set2-IsTable _ _ links.link_capacities _ _ cap s.capacity_table;
      specified_table = set2-IsTable _ _ links.specified _ _ true s.specified_table;
      mask_table = s.mask_table;
      unnamed = λ i j free. s.unnamed i j (get2-set2_unmarked links.specified _ _ i j free);
    }

    pub placed-Extends : (cap : R) → Extends links (placed cap)
    placed-Extends cap q c exists h = record {
      is_specified =
          get2-set2_apart links.specified links.specified _ _ _ _ true true false f.is_free
            h.is_specified h.is_specified;
      has_capacity =
          get2-set2_apart links.link_capacities links.specified _ _ _ _ cap c false f.is_free
            h.is_specified h.has_capacity;
      has_route = h.has_route;
    }

    pub placed-Holds : (cap : R) → Holds (placed cap) p cap true
    placed-Holds cap = record {
      is_specified = get2-set2_here links.specified _ _ true false f.is_free;
      has_capacity = get2-set2_here links.link_capacities _ _ cap f.at_place f.holds_capacity;
      has_route = f.holds_route;
    }

    abbrev pub unrouted : Links R
    unrouted = without_route p (claimed p links)

    pub unrouted-Extends : Extends links unrouted
    unrouted-Extends q c exists h = record {
      is_specified =
          get2-set2_apart links.specified links.specified _ _ _ _ true true false f.is_free
            h.is_specified h.is_specified;
      has_capacity = h.has_capacity;
      has_route =
          get2-set2_apart links.mask links.specified _ _ _ _ false exists false f.is_free
            h.is_specified h.has_route;
    }

    pub unrouted-Holds : Holds unrouted p f.at_place false
    unrouted-Holds = record {
      is_specified = get2-set2_here links.specified _ _ true false f.is_free;
      has_capacity = f.holds_capacity;
      has_route = get2-set2_here links.mask _ _ false true f.holds_route;
    }

    pub unrouted-IsSound : IsSound unrouted
    unrouted-IsSound = record {
      capacity_table = s.capacity_table;
      specified_table = set2-IsTable _ _ links.specified _ _ true s.specified_table;
      mask_table = set2-IsTable _ _ links.mask _ _ false s.mask_table;
      unnamed = λ i j free.
          get2-set2_apart links.mask unrouted.specified _ _ i j false true true
            unrouted-Holds.is_specified free
            (s.unnamed i j (get2-set2_unmarked links.specified _ _ i j free));
    }
