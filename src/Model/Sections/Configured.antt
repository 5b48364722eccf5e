-- ===== src/Model/Sections/Configured.antt =====
-- What `topology_from_config` returns.
use Prim.Native.String.{String}
use traffic_emulator.Common.{◌≡◌, Bool, true, false, Option, some, ok, ◌>>=◌, ◌>>◌, ◌≢◌}
use traffic_emulator.Common.Sums.{get2}
use traffic_emulator.Num.{Num}
use traffic_emulator.Num.Elementary.{Elementary}
use traffic_emulator.Model.Topology.{Topology}
use traffic_emulator.Model.Topology.Valid.{IsValid}
use traffic_emulator.Model.Sections.{
  Value, Items, Fields, Links, Place, codes, link_place, number_of, flag, str_of, Entries, entries,
  get, fields_of, items_of, or_empty,
}
use traffic_emulator.Model.Sections.Reading.{AllFields, AllItems, IsRead, IsRemoved, IsGrown}

module _ {R : Type 0} ⦃n : Num R⦄ ⦃e : Elementary R⦄ where
  -- The link's capacity, which is no flag, stands at the place that the link names, which is a route.
  abbrev pub ReadAt : (String → Option R) → Topology R → String → Value R → Type 0
  ReadAt float t link value =
      ((b : Bool) → value ≢ flag b)
      × (p : Place) × (cap : R) × (link_place t.sources t.brokers (codes link) ≡ ok p)
      × (number_of float value ≡ ok cap)
      × (get2 t.mu_links p.at_source p.at_broker ≡ some cap)
      × (get2 t.route_mask p.at_source p.at_broker ≡ some true)

  -- An unavailable link is no route and has the capacity 0.
  abbrev pub RemovedAt : (Value R → String) → Topology R → Value R → Type 0
  RemovedAt str t link =
      (p : Place) × (link_place t.sources t.brokers (codes (str_of str link)) ≡ ok p)
      × (get2 t.mu_links p.at_source p.at_broker ≡ some n.nought)
      × (get2 t.route_mask p.at_source p.at_broker ≡ some false)

  -- A topology as the configuration describes it.
  pub record IsConfigured (float : String → Option R) (str : Value R → String) (config : Value R)
      (t : Topology R) : Type 0 where
    pub valid : IsValid t
    pub config_fields : Fields R
    pub section : Fields R
    pub is_fields : fields_of (some config) ≡ ok config_fields
    pub is_section : fields_of (get "topology" config_fields) ≡ ok section
    pub source_entries : Entries R
    pub broker_entries : Entries R
    pub are_sources : entries float str "rate" (get "sources" section) ≡ ok source_entries
    pub are_brokers : entries float str "capacity" (get "brokers" section) ≡ ok broker_entries
    pub sources_kept : t.sources ≡ source_entries.ids
    pub rates_kept : t.lambdas_total ≡ source_entries.values
    pub brokers_kept : t.brokers ≡ broker_entries.ids
    pub capacities_kept : t.mu_brokers ≡ broker_entries.values
    pub access : Fields R
    pub unavailable : Items R
    pub is_access : fields_of (get "access_capacities" section) ≡ ok access
    pub is_unavailable : items_of (or_empty (get "unavailable_links" section)) ≡ ok unavailable
    pub each_read : AllFields (ReadAt float t) access
    pub each_removed : AllItems (RemovedAt str t) unavailable

  module _ (float : String → Option R) (str : Value R → String) (config : Value R)
      (fields section access : Fields R) (sources brokers : Entries R)
      (is_fields : fields_of (some config) ≡ ok fields)
      (is_section : fields_of (get "topology" fields) ≡ ok section)
      (are_sources : entries float str "rate" (get "sources" section) ≡ ok sources)
      (are_brokers : entries float str "capacity" (get "brokers" section) ≡ ok brokers)
      (is_access : fields_of (get "access_capacities" section) ≡ ok access) where
    -- the links after all access capacities, and after all unavailable links
    abbrev Filled : Links R → Links R → Type 0
    Filled =
        IsGrown float str sources.ids brokers.ids
          (λ after. AllFields (IsRead float str sources.ids brokers.ids after) access)

    abbrev Removed : Items R → Links R → Links R → Type 0
    Removed unavailable =
        IsGrown float str sources.ids brokers.ids
          (λ after. AllItems (IsRemoved float str sources.ids brokers.ids after) unavailable)
