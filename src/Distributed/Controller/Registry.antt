-- ===== src/Distributed/Controller/Registry.antt =====
-- What the controller keeps of its workers, and that the steps of a connection keep it.
use traffic_emulator.Common.{
  ℕ, zero, suc, ◌≤◌, ◌<◌, ◌≡◌, refl, ◌∙◌, Bool, true, false, Option, none, some, List, [], ◌∷◌,
  length, length-set, set, get_elem?, get_elem?_total, all, if◌then◌else◌, inl, inr, Bool-cases,
  arith, Returns, Result, ok,
}
use traffic_emulator.Common.Dict.{Dict}
use traffic_emulator.Model.Topology.{Topology}
use traffic_emulator.Control.Synchronous.{SystemState}
use traffic_emulator.Distributed.Protocol.{Role, source_role, broker_role}
use traffic_emulator.Distributed.Controller.{
  ControllerService, replied, broker_addressed, started, unanswered, Connection, assign_source,
  Outgoing, n_sources, n_brokers, is_some, is_channel, hosts, on_ready, on_closed, register_broker,
  on_assign_source,
}
use traffic_emulator.Distributed.Controller.Registration.{Numbered}

now_registered :
    (every was : Bool)
    → (if every then true else was) ≡ true
    → (was ≡ true → every ≡ true)
    → every ≡ true
now_registered true was h k = refl
now_registered false was h k = k h

-- The slots of a role are numbered in the order in which they were given, within its limit.
pub record IsSlots (limit : ℕ) (slots : Dict ℕ) : Type 0 where
  pub numbered : Numbered 0 slots
  pub bounded : length slots ≤ limit

hosts_total :
    (addresses : List (Option ℕ))
    → all is_some addresses ≡ true
    → (found : List ℕ) × (hosts addresses ≡ ok found)
hosts_total [] h = ([], refl)
hosts_total (none ∷ addresses) h = cc
hosts_total (some host ∷ addresses) h =
    let (rest, found) = hosts_total addresses h in (host ∷ rest, rw found refl)

all-set :
    (addresses : List (Option ℕ)) (i address : ℕ)
    → all is_some addresses ≡ true
    → all is_some (set addresses i (some address)) ≡ true
all-set [] i address h = refl
all-set (none ∷ addresses) i address h = cc
all-set (some a ∷ addresses) zero address h = h
all-set (some a ∷ addresses) (suc i) address h = all-set addresses i address h

module _ {R : Type 0} where
  -- The tables have an entry for each source and each broker.
  pub record IsSystem (topo : Topology R) (state : SystemState R) : Type 0 where
    pub rates : length topo.lambdas_total ≡ length topo.sources
    pub links : length topo.mu_links ≡ length topo.sources
    pub rows : length state.lambda_ij ≡ length topo.sources
    pub capacities : length topo.mu_brokers ≡ length topo.brokers
    pub priced : length state.prices ≡ length topo.brokers

  -- There is a connection, an address and a flag for each, and once the brokers are registered every
  -- broker has an address.
  pub record IsRegistry (service : ControllerService R) : Type 0 where
    pub system : IsSystem service.topology service.state
    pub source_slotted : IsSlots (n_sources service) service.source_slots
    pub broker_slotted : IsSlots (n_brokers service) service.broker_slots
    pub source_connections : length service.source_channels ≡ n_sources service
    pub broker_connections : length service.broker_channels ≡ n_brokers service
    pub addresses : length service.broker_addresses ≡ n_brokers service
    pub readiness : length service.ready_sources ≡ n_sources service
    pub registered : service.brokers_registered ≡ true → all is_some service.broker_addresses ≡ true

  -- The coroutine of a source has a slot of the topology.
  abbrev pub Fits : Topology R → Connection → Type 0
  Fits topo (assign_source index channel sent) = index < length topo.sources
  Fits topo _ = Unit

  -- What a step keeps: the registry, and the system that it serves.
  pub record IsKept (topo : Topology R) (after : ControllerService R) : Type 0 where
    pub registry : IsRegistry after
    pub same_topology : after.topology ≡ topo

  abbrev pub Keeps : Topology R → Result (Outgoing R × ControllerService R) → Type 0
  Keeps topo = Returns λ r. IsKept topo r.1

  -- Whether or not the answer could be sent.
  pub replied-IsKept :
      (topo : Topology R) (sent : Bool) (message : Outgoing R) (before after : ControllerService R)
      → IsKept topo before
      → IsKept topo after
      → Keeps topo (replied sent message before after)
  replied-IsKept topo true message before after b a = a
  replied-IsKept topo false message before after b a = b

  pub on_closed-IsRegistry :
      (role : Role) (index channel : ℕ) (service : ControllerService R)
      → IsRegistry service
      → IsKept service.topology (on_closed role index channel service)
  on_closed-IsRegistry source_role index channel service g =
      elim (Bool-cases (is_channel channel (get_elem? service.source_channels index))) [
        | inl current ↦ rw current (record {
          registry = record {
            system = g.system;
            source_slotted = g.source_slotted;
            broker_slotted = g.broker_slotted;
            source_connections =
                length-set service.source_channels index none ∙ g.source_connections;
            broker_connections = g.broker_connections;
            addresses = g.addresses;
            readiness = length-set service.ready_sources index false ∙ g.readiness;
            registered = g.registered;
          };
          same_topology = refl;
        })
        | inr other ↦ rw other (record { registry = g; same_topology = refl })
      ]
  on_closed-IsRegistry broker_role index channel service g =
      elim (Bool-cases (is_channel channel (get_elem? service.broker_channels index))) [
        | inl current ↦ rw current (record {
          registry = record {
            system = g.system;
            source_slotted = g.source_slotted;
            broker_slotted = g.broker_slotted;
            source_connections = g.source_connections;
            broker_connections =
                length-set service.broker_channels index none ∙ g.broker_connections;
            addresses = g.addresses;
            readiness = g.readiness;
            registered = g.registered;
          };
          same_topology = refl;
        })
        | inr other ↦ rw other (record { registry = g; same_topology = refl })
      ]

  pub on_ready-IsRegistry :
      (index : ℕ) (sent : Bool) (service : ControllerService R)
      → IsRegistry service
      → Keeps service.topology (on_ready index sent service)
  on_ready-IsRegistry index sent service g =
      let ready = set service.ready_sources index true in
      let marked : (flag : Bool)
          → IsKept service.topology
              (record service { ready_sources = ready; sources_ready = flag }) =
        λ flag. record {
          registry = record {
            system = g.system;
            source_slotted = g.source_slotted;
            broker_slotted = g.broker_slotted;
            source_connections = g.source_connections;
            broker_connections = g.broker_connections;
            addresses = g.addresses;
            readiness = length-set service.ready_sources index true ∙ g.readiness;
            registered = g.registered;
          };
          same_topology = refl;
        } in
      let after = marked (if all (λ flag. flag) ready then true else service.sources_ready) in
      answered service.t0 (marked service.sources_ready) after
    where
      answered :
          {before after : ControllerService R} (t0 : Option R)
          → IsKept service.topology before
          → IsKept service.topology after
          → Keeps service.topology (elim t0 [
            | none ↦ ok (unanswered, after)
            | some t ↦ replied sent started before after
          ])
      answered none b a = a
      answered (some t) b a = replied-IsKept service.topology sent started _ _ b a

  -- A source that has a slot gets its assignment: nothing is missing.
  pub on_assign_source-IsRegistry :
      (index channel : ℕ) (sent : Bool) (service : ControllerService R)
      → IsRegistry service
      → service.brokers_registered ≡ true
      → index < n_sources service
      → Keeps service.topology (on_assign_source index channel sent service)
  on_assign_source-IsRegistry index channel sent service g all_there h =
      let (found, hosted) = hosts_total service.broker_addresses (g.registered all_there) in
      let (id, named) = get_elem?_total (service.topology).sources index h in
      let (rate, rated) =
        get_elem?_total (service.topology).lambdas_total index (omega (arith, g.system.rates)) in
      let (mu_row, linked) =
        get_elem?_total (service.topology).mu_links index (omega (arith, g.system.links)) in
      let (lambda_row, routed) =
        get_elem?_total (service.state).lambda_ij index (omega (arith, g.system.rows)) in
      rw (hosted, named, rated, linked, routed)
        (replied-IsKept service.topology sent _ service _
          (record { registry = g; same_topology = refl })
          (record {
            registry = record {
              system = g.system;
              source_slotted = g.source_slotted;
              broker_slotted = g.broker_slotted;
              source_connections =
                  length-set service.source_channels index (some channel) ∙ g.source_connections;
              broker_connections = g.broker_connections;
              addresses = g.addresses;
              readiness = g.readiness;
              registered = g.registered;
            };
            same_topology = refl;
          }))

  pub register_broker-IsRegistry :
      (index : ℕ) (address : Option ℕ) (channel : ℕ) (sent : Bool) (service : ControllerService R)
      → IsRegistry service
      → index < n_brokers service
      → Keeps service.topology (register_broker index address channel sent service)
  register_broker-IsRegistry index none channel sent service g h = record {
    registry = g;
    same_topology = refl;
  }
  register_broker-IsRegistry index (some address) channel sent service g h =
      let (id, named) = get_elem?_total (service.topology).brokers index h in
      let (mu, sized) =
        get_elem?_total (service.topology).mu_brokers index (omega (arith, g.system.capacities)) in
      let (price, priced) =
        get_elem?_total (service.state).prices index (omega (arith, g.system.priced)) in
      rw (named, sized, priced)
        (replied-IsKept service.topology sent _ (broker_addressed index address service) _
          (record {
            registry = record {
              system = g.system;
              source_slotted = g.source_slotted;
              broker_slotted = g.broker_slotted;
              source_connections = g.source_connections;
              broker_connections = g.broker_connections;
              addresses = length-set service.broker_addresses index (some address) ∙ g.addresses;
              readiness = g.readiness;
              registered =
                  λ before. all-set service.broker_addresses index address (g.registered before);
            };
            same_topology = refl;
          })
          (record {
            registry = record {
              system = g.system;
              source_slotted = g.source_slotted;
              broker_slotted = g.broker_slotted;
              source_connections = g.source_connections;
              broker_connections =
                  length-set service.broker_channels index (some channel) ∙ g.broker_connections;
              addresses = length-set service.broker_addresses index (some address) ∙ g.addresses;
              readiness = g.readiness;
              registered = λ set_now.
                  now_registered (all is_some (set service.broker_addresses index (some address)))
                    service.brokers_registered set_now
                    (λ before.
                      all-set service.broker_addresses index address (g.registered before));
            };
            same_topology = refl;
          }))
