-- ===== src/Model/Sections/Reading.antt =====
-- The loops over the capacities and over the unavailable links.
use Prim.Native.String.{String}
use traffic_emulator.Common.{
  ◌≡◌, true, false, Option, some, List, length, ok, none, Loads, >>=-Loads, or_raise-Loads,
  Loads-map,
}
use traffic_emulator.Common.Tables.{replicate-IsTable, get2-replicate}
use traffic_emulator.Model.Sections.{
  Value, Items, Fields, nil, cons, end, field, Links, Place, codes, link_place, link_index,
  number_of, number, whole, text, flag, null, mapping, sequence, str_of, set_capacities,
  set_capacity, remove_link, remove_links, no_links,
}
use traffic_emulator.Model.Sections.Placement.{
  IsSound, Holds, Extends, IsFree, link_index-Loads, placed-IsSound, placed-Extends, placed-Holds,
  unrouted-IsSound, unrouted-Extends, unrouted-Holds,
}

-- Each field of a mapping, each item of a sequence.
abbrev pub AllFields : {R : Type 0} → (String → Value R → Type 0) → Fields R → Type 0
AllFields P end = Unit {0}
AllFields P (field key value rest) = P key value × AllFields P rest

abbrev pub AllItems : {R : Type 0} → (Value R → Type 0) → Items R → Type 0
AllItems P nil = Unit {0}
AllItems P (cons item rest) = P item × AllItems P rest

module _ {R : Type 0} (float : String → Option R) where
  pub number_of-Loads : (value : Value R) → Loads (λ x. Unit {0}) (number_of float value)
  number_of-Loads null = tt
  number_of-Loads (flag b) = tt
  number_of-Loads (number x) = tt
  number_of-Loads (whole none) = tt
  number_of-Loads (whole (some x)) = tt
  number_of-Loads (text s) =
      Loads-map (λ x. float s ≡ some x) (λ x. Unit {0}) _ (λ x h q. tt) (or_raise-Loads (float s))
  number_of-Loads (sequence items) = tt
  number_of-Loads (mapping fields) = tt

module _ {R : Type 0} (float : String → Option R) (str : Value R → String)
    (sources brokers : List String) where
  -- The capacity is held at the place that the link names.
  pub record IsRead (links : Links R) (link : String) (value : Value R) : Type 0 where
    pub place : Place
    pub capacity : R
    pub is_place : link_place sources brokers (codes link) ≡ ok place
    pub is_capacity : number_of float value ≡ ok capacity
    pub holds : Holds sources brokers links place capacity true

  pub record IsRemoved (links : Links R) (link : Value R) : Type 0 where
    pub place : Place
    pub unused : R
    pub is_place : link_place sources brokers (codes (str_of str link)) ≡ ok place
    pub holds : Holds sources brokers links place unused false

  -- What a loop over links leaves.
  pub record IsGrown (Done : Links R → Type 0) (before after : Links R) : Type 0 where
    pub sound : IsSound sources brokers after
    pub extends : Extends sources brokers before after
    pub done : Done after

  set_capacity-Loads :
      (links : Links R) (link : String) (value : Value R)
      → IsSound sources brokers links
      → Loads
          (IsGrown (λ after. IsRead after link value) links)
          (set_capacity float str sources brokers link value links)
  set_capacity-Loads links link value s =
      let P = IsGrown (λ after. IsRead after link value) links in
      >>=-Loads
        (λ p. (link_place sources brokers (codes link) ≡ ok p) × IsFree sources brokers links p) P
        (link_index sources brokers (codes link) links) _
        (link_index-Loads sources brokers links (codes link) s)
        λ p is_p free.
          >>=-Loads (λ x. Unit {0}) P (number_of float value) _ (number_of-Loads float value)
            λ cap is_cap _. record {
              sound = placed-IsSound sources brokers links p s free.1 cap;
              extends = placed-Extends sources brokers links p s free.1 cap;
              done = record {
                place = p;
                capacity = cap;
                is_place = free.0;
                is_capacity = is_cap;
                holds = placed-Holds sources brokers links p s free.1 cap;
              };
            }

  -- What one step did stays done in the steps that follow.
  pub kept-IsRead :
      (links after : Links R) (link : String) (value : Value R)
      → Extends sources brokers links after
      → IsRead links link value
      → IsRead after link value
  kept-IsRead links after link value more r = record {
    place = r.place;
    capacity = r.capacity;
    is_place = r.is_place;
    is_capacity = r.is_capacity;
    holds = more r.place r.capacity true r.holds;
  }

  pub set_capacities-Loads :
      (fields : Fields R) (links : Links R)
      → IsSound sources brokers links
      → Loads
          (IsGrown (λ after. AllFields (IsRead after) fields) links)
          (set_capacities float str sources brokers fields links)
  unfolding set_capacities
  set_capacities-Loads end links s = record { sound = s; extends = λ p cap exists h. h; done = tt }
  set_capacities-Loads (field link value rest) links s =
      >>=-Loads (IsGrown (λ after. IsRead after link value) links) _
        (set_capacity float str sources brokers link value links) _
        (set_capacity-Loads links link value s)
        λ one is_one g.
          Loads-map (IsGrown (λ after. AllFields (IsRead after) rest) one) _ _
            (λ after is_after h. record {
              sound = h.sound;
              extends = λ p cap exists k. h.extends p cap exists (g.extends p cap exists k);
              done = (kept-IsRead one after link value h.extends g.done, h.done);
            })
            (set_capacities-Loads rest one g.sound)

  remove_link-Loads :
      (links : Links R) (link : Value R)
      → IsSound sources brokers links
      → Loads
          (IsGrown (λ after. IsRemoved after link) links)
          (remove_link float str sources brokers link links)
  remove_link-Loads links link s =
      let name = codes (str_of str link) in
      >>=-Loads (λ p. (link_place sources brokers name ≡ ok p) × IsFree sources brokers links p)
        (IsGrown (λ after. IsRemoved after link) links) (link_index sources brokers name links) _
        (link_index-Loads sources brokers links name s)
        λ p is_p free. record {
          sound = unrouted-IsSound sources brokers links p s free.1;
          extends = unrouted-Extends sources brokers links p s free.1;
          done = record {
            place = p;
            unused = (free.1).at_place;
            is_place = free.0;
            holds = unrouted-Holds sources brokers links p s free.1;
          };
        }

  kept-IsRemoved :
      (links after : Links R) (link : Value R)
      → Extends sources brokers links after
      → IsRemoved links link
      → IsRemoved after link
  kept-IsRemoved links after link more r = record {
    place = r.place;
    unused = r.unused;
    is_place = r.is_place;
    holds = more r.place r.unused false r.holds;
  }

  pub remove_links-Loads :
      (items : Items R) (links : Links R)
      → IsSound sources brokers links
      → Loads
          (IsGrown (λ after. AllItems (IsRemoved after) items) links)
          (remove_links float str sources brokers items links)
  unfolding remove_links
  remove_links-Loads nil links s = record { sound = s; extends = λ p cap exists h. h; done = tt }
  remove_links-Loads (cons link rest) links s =
      >>=-Loads (IsGrown (λ after. IsRemoved after link) links) _
        (remove_link float str sources brokers link links) _ (remove_link-Loads links link s)
        λ one is_one g.
          Loads-map (IsGrown (λ after. AllItems (IsRemoved after) rest) one) _ _
            (λ after is_after h. record {
              sound = h.sound;
              extends = λ p cap exists k. h.extends p cap exists (g.extends p cap exists k);
              done = (kept-IsRemoved one after link h.extends g.done, h.done);
            })
            (remove_links-Loads rest one g.sound)

  pub no_links-IsSound :
      (nought : R) → IsSound sources brokers (no_links nought (length sources) (length brokers))
  no_links-IsSound nought = record {
    capacity_table = replicate-IsTable (length sources) (length brokers) nought;
    specified_table = replicate-IsTable (length sources) (length brokers) false;
    mask_table = replicate-IsTable (length sources) (length brokers) true;
    unnamed =
        λ i j free. get2-replicate (length sources) (length brokers) i j false false true free;
  }
