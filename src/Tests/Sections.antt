-- ===== src/Tests/Sections.antt =====
-- The topology of a configuration with two sources, two brokers and a link that is not there.
use Prim.Native.String.{String}
use traffic_emulator.Common.{Option, none, refl, ◌≡◌, ok, [], ◌∷◌, true, false}
use traffic_emulator.Num.Integers.{ℤ, pos, integers}
use traffic_emulator.Tests.Systems.{whole_functions}
use traffic_emulator.Model.Topology.{Topology, validate}
use traffic_emulator.Model.Sections.{
  Value, number, text, sequence, mapping, nil, cons, end, field, Fields, topology_from_config,
}

abbrev no_float : String → Option ℤ
no_float s = none

abbrev nameless : Value ℤ → String
nameless v = "?"

abbrev two_links : Fields ℤ
two_links =
    field "S1->B1" (number (pos 10))
      (field " S1 -> B2" (number (pos 9)) (field "S2->B1" (number (pos 8)) end))

abbrev source_entry : String → ℤ → Value ℤ
source_entry id rate = mapping (field "id" (text id) (field "rate" (number rate) end))

abbrev broker_entry : String → ℤ → Value ℤ
broker_entry id capacity = mapping (field "capacity" (number capacity) (field "id" (text id) end))

abbrev small_config : Value ℤ
small_config = mapping (
    field "topology"
      (mapping (
        field "sources"
          (sequence (cons (source_entry "S1" (pos 2)) (cons (source_entry "S2" (pos 1)) nil)))
          (field "brokers"
            (sequence (cons (broker_entry "B1" (pos 20)) (cons (broker_entry "B2" (pos 30)) nil)))
            (field "access_capacities" (mapping two_links)
              (field "unavailable_links" (sequence (cons (text "S2->B2") nil)) end)))))
      end)

abbrev small_topology : Topology ℤ
small_topology = record {
  lambdas_total = pos 2 ∷ pos 1 ∷ [];
  mu_links = (pos 10 ∷ pos 9 ∷ []) ∷ (pos 8 ∷ pos 0 ∷ []) ∷ [];
  mu_brokers = pos 20 ∷ pos 30 ∷ [];
  sources = "S1" ∷ "S2" ∷ [];
  brokers = "B1" ∷ "B2" ∷ [];
  route_mask = (true ∷ true ∷ []) ∷ (true ∷ false ∷ []) ∷ [];
}

small_config_topology : topology_from_config no_float nameless small_config ≡ ok small_topology
unfolding topology_from_config validate
small_config_topology = refl
