-- ===== src/Distributed/Controller.antt =====
-- src/distributed/controller.py: the state of `ControllerService`, and the connections of `_on_actor`.
-- A connection is a number, and so are an instance's name and an address, of which only the equality
-- matters. The coroutine of a connection is cut where it awaits: the first message, the assignment of a
-- source once all brokers are there, `ready`, and the end of the connection.
pub mod Registration
pub mod Registry
pub mod Connections
use traffic_emulator.Common.{
  ℕ, Bool, true, false, ◌&&◌, Option, none, some, List, [], ◌∷◌, map, length, all, get_elem?, set,
  replicate, leb, ◌==◌, if◌then◌else◌, Result, ok, err, Error, connection_error, key_error,
  index_error, type_error, or_raise, ◌>>=◌,
}
use Prim.Native.String.{String}
use traffic_emulator.Common.Dict.{Dict, lookup, insert}
use traffic_emulator.Num.{Num}
use traffic_emulator.Model.Topology.{Topology}
use traffic_emulator.Control.Synchronous.{SystemState, Variant}
use traffic_emulator.Distributed.Protocol.{Role, source_role, broker_role, actor_seed}

pub record Parameters (R : Type 0) : Type 0 where
  pub eta : R
  pub gamma : R
  pub eps : R
  pub delta_s : R
  pub beta : R
  pub safe_step_variant : Variant
  pub root_seed : ℕ

-- `ready_sources` is the set of the indices whose flag is set.
pub record ControllerService (R : Type 0) : Type 0 where
  pub topology : Topology R
  pub p : Parameters R
  pub state : SystemState R
  pub source_slots : Dict ℕ
  pub broker_slots : Dict ℕ
  pub source_channels : List (Option ℕ)
  pub broker_channels : List (Option ℕ)
  pub broker_addresses : List (Option ℕ)
  pub ready_sources : List Bool
  pub brokers_registered : Bool
  pub sources_ready : Bool
  pub stop : Bool
  pub lambda_hat : List R
  pub br_failures_total : ℕ
  pub skipped_rounds : ℕ
  pub t0 : Option R

-- the first message of a connection; a role that is none of the two is none, and so is an address that
-- the message does not have
pub data Hello : Type 0 where
  nothing shutdown other_message : Hello
  register : Option Role → ℕ → Option ℕ → Hello

pub record BrokerAssignment (R : Type 0) : Type 0 where
  pub index : ℕ
  pub id : String
  pub mu : R
  pub gamma : R
  pub eps : R
  pub price : R
  pub seed : List ℕ

pub record SourceAssignment (R : Type 0) : Type 0 where
  pub index : ℕ
  pub id : String
  pub rate : R
  pub mu_row : List R
  pub lambda_row : List R
  pub broker_hosts : List ℕ
  pub seed : List ℕ

-- what the controller sends on a connection
pub data Outgoing (R : Type 0) : Type 0 where
  closes acknowledged refused awaits_brokers started unanswered : Outgoing R
  -- the exception that ended the connection's coroutine
  raised : Error → Outgoing R
  assigned_broker : BrokerAssignment R → Outgoing R
  assigned_source : SourceAssignment R → Outgoing R

-- The last argument of the first three: whether the controller's answer could be sent.
pub data Connection : Type 0 where
  -- the first message on a connection
  hello : Hello → ℕ → Bool → Connection
  -- a source with its slot, once the brokers are registered
  assign_source : ℕ → ℕ → Bool → Connection
  -- the next message of the source's inbox: whether it is `ready`
  first_message : ℕ → Bool → Bool → Connection
  closed : Role → ℕ → ℕ → Connection

abbrev pub is_some {ℓ} : {A : Type ℓ} → Option A → Bool
is_some none = false
is_some (some a) = true

-- `_assign`, on the slots of a role that has `limit` of them
unfoldable pub assign : ℕ → ℕ → Dict ℕ → Option ℕ × Dict ℕ
assign limit instance_name slots = elim (lookup instance_name slots) [
  | some index ↦ (some index, slots)
  | none ↦
      if leb limit (length slots)
      then (none, slots)
      else (some (length slots), insert instance_name (length slots) slots)
]

-- `address[0]`, `address[1]` of every broker: on None a TypeError
abbrev pub hosts : List (Option ℕ) → Result (List ℕ)
hosts [] = ok []
hosts (address ∷ addresses) = do
  host ← or_raise address type_error
  rest ← hosts addresses
  ok (host ∷ rest)

-- `channel is channels[index]`
abbrev pub is_channel : ℕ → Option (Option ℕ) → Bool
is_channel channel (some (some current)) = current == channel
is_channel channel _ = false

module _ {R : Type 0} where
  -- the limits are the numbers of sources and brokers
  abbrev pub n_sources : ControllerService R → ℕ
  n_sources service = length (service.topology).sources

  abbrev pub n_brokers : ControllerService R → ℕ
  n_brokers service = length (service.topology).brokers

  -- `await channel.send(message)`: the states before it, which stays where it raises, and after it
  abbrev pub replied :
      Bool
      → Outgoing R
      → ControllerService R
      → ControllerService R
      → Result (Outgoing R × ControllerService R)
  replied true message before after = ok (message, after)
  replied false message before after = ok (raised connection_error, before)

  abbrev pub broker_addressed : ℕ → ℕ → ControllerService R → ControllerService R
  broker_addressed index address service = record service {
    broker_addresses = set service.broker_addresses index (some address);
  }

  abbrev pub broker_registered : ℕ → ℕ → ℕ → ControllerService R → ControllerService R
  broker_registered index address channel service =
      let addresses = set service.broker_addresses index (some address) in
      record service {
        broker_addresses = addresses;
        broker_channels = set service.broker_channels index (some channel);
        brokers_registered = if all is_some addresses then true else service.brokers_registered;
      }

  -- `hello["data_address"]` raises KeyError where there is none
  abbrev pub register_broker :
      ℕ → Option ℕ → ℕ → Bool → ControllerService R → Result (Outgoing R × ControllerService R)
  register_broker index none channel sent service = ok (raised key_error, service)
  register_broker index (some address) channel sent service = do
    id ← or_raise (get_elem? (service.topology).brokers index) index_error
    mu ← or_raise (get_elem? (service.topology).mu_brokers index) index_error
    price ← or_raise (get_elem? (service.state).prices index) index_error
    replied sent
        (assigned_broker (record {
          index = index;
          id = id;
          mu = mu;
          gamma = (service.p).gamma;
          eps = (service.p).eps;
          price = price;
          seed = actor_seed (service.p).root_seed broker_role index;
        }))
        (broker_addressed index address service) (broker_registered index address channel service)

  -- a registration up to its first await
  abbrev pub register_actor :
      Role
      → ℕ
      → Option ℕ
      → ℕ
      → Bool
      → ControllerService R
      → Result (Outgoing R × ControllerService R)
  register_actor broker_role instance_name address channel sent service =
      let (index, slots) = assign (n_brokers service) instance_name service.broker_slots in
      elim index [
        | none ↦
            (let kept = record service { broker_slots = slots } in replied sent refused kept kept)
        | some index ↦
            register_broker index address channel sent (record service { broker_slots = slots })
      ]
  register_actor source_role instance_name address channel sent service =
      let (index, slots) = assign (n_sources service) instance_name service.source_slots in
      elim index [
        | none ↦
            (let kept = record service { source_slots = slots } in replied sent refused kept kept)
        | some index ↦ ok (awaits_brokers, record service { source_slots = slots })
      ]

  abbrev pub on_hello :
      Hello → ℕ → Bool → ControllerService R → Result (Outgoing R × ControllerService R)
  on_hello nothing channel sent service = ok (closes, service)
  on_hello shutdown channel sent service =
      let stopped = record service { stop = true } in replied sent acknowledged stopped stopped
  on_hello other_message channel sent service = replied sent refused service service
  on_hello (register none instance_name address) channel sent service =
      replied sent refused service service
  on_hello (register (some role) instance_name address) channel sent service =
      register_actor role instance_name address channel sent service

  abbrev pub on_assign_source :
      ℕ → ℕ → Bool → ControllerService R → Result (Outgoing R × ControllerService R)
  on_assign_source index channel sent service = do
    broker_hosts ← hosts service.broker_addresses
    id ← or_raise (get_elem? (service.topology).sources index) index_error
    rate ← or_raise (get_elem? (service.topology).lambdas_total index) index_error
    mu_row ← or_raise (get_elem? (service.topology).mu_links index) index_error
    lambda_row ← or_raise (get_elem? (service.state).lambda_ij index) index_error
    replied sent
        (assigned_source (record {
          index = index;
          id = id;
          rate = rate;
          mu_row = mu_row;
          lambda_row = lambda_row;
          broker_hosts = broker_hosts;
          seed = actor_seed (service.p).root_seed source_role index;
        }))
        service
        (record service { source_channels = set service.source_channels index (some channel) })

  -- `ready`; a source that comes back is started at once
  abbrev pub on_ready : ℕ → Bool → ControllerService R → Result (Outgoing R × ControllerService R)
  on_ready index sent service =
      let ready = set service.ready_sources index true in
      let after = record service {
        ready_sources = ready;
        sources_ready = if all (λ flag. flag) ready then true else service.sources_ready;
      } in
      elim service.t0 [
        | none ↦ ok (unanswered, after)
        | some t ↦ replied sent started (record service { ready_sources = ready }) after
      ]

  abbrev pub on_closed : Role → ℕ → ℕ → ControllerService R → ControllerService R
  on_closed source_role index channel service =
      if is_channel channel (get_elem? service.source_channels index)
      then record service {
        source_channels = set service.source_channels index none;
        ready_sources = set service.ready_sources index false;
      }
      else service
  on_closed broker_role index channel service =
      if is_channel channel (get_elem? service.broker_channels index)
      then record service { broker_channels = set service.broker_channels index none }
      else service

  -- A source that waits for the brokers does nothing until they are registered.
  unfoldable pub on_actor :
      Connection → ControllerService R → Result (Outgoing R × ControllerService R)
  unfolding assign actor_seed
  on_actor (hello message channel sent) service = on_hello message channel sent service
  on_actor (assign_source index channel sent) service =
      if service.brokers_registered
      then on_assign_source index channel sent service
      else ok (awaits_brokers, service)
  on_actor (first_message index is_ready sent) service =
      if is_ready then on_ready index sent service else ok (unanswered, service)
  on_actor (closed role index channel) service =
      ok (unanswered, on_closed role index channel service)

  pub on_actors : List Connection → ControllerService R → Result (ControllerService R)
  unfolding on_actor
  on_actors [] service = ok service
  on_actors (event ∷ later) service = do
    (sent, after) ← on_actor event service
    on_actors later after
