-- ===== src/Lib.antt =====
-- Traffic emulator: routing of work units from sources over access links to brokers, with M/M/1
-- congestion prices. Algorithm 1 computes a routing; an event-driven simulation queues single work
-- units and runs a controller at the end of each window.
--
-- Which file models what:
-- - Model/Topology: `Topology` of src/model/topology.py, with the tests of its constructor.
-- - Model/MarginalCosts: src/model/marginal_costs.py.
-- - Control/BestResponse: `best_response_mm1` and `best_response_available` of
--   src/controller/best_response.py, with their loops.
-- - Control/Synchronous: the iteration of src/controller/synchronous.py, and the state of
--   src/simulation/state.py; Control/Algorithm: `algorithm1_initial_state` and `run_algorithm1`. The
--   source updates the state in place; here each function returns the new one.
-- - Simulation/Events, Queues, Engine: the files of these names in src/simulation.
-- - Simulation/Handler: `SimulationHandler` of src/simulation/handler.py. Each handler is a function
--   from the event and the state to the new state or the exception; Tick holds the controller's
--   windows, `handle_event` and the constructor.
-- - Distributed/Broker and Distributed/Source: `BrokerWorker` of src/distributed/broker.py and
--   `SourceWorker` of src/distributed/source.py; a history is a list of the actions of the worker's
--   coroutines, in any order.
-- - Distributed/Protocol: src/distributed/protocol.py, its addresses and its `Channel`.
-- - Distributed/Controller: `ControllerService` of src/distributed/controller.py with the connections
--   of its workers; Distributed/Rounds its rounds and Distributed/Measures what it records of them.
-- - Control/Diagnostics: the residuals and the certificate of src/controller/diagnostics.py.
-- - Control/Central: src/controller/central.py, the objective, its gradient and `solve_central`; scipy's
--   solvers are parameters.
-- - Control/Feasibility: `transportation_feasibility` of src/controller/feasibility.py.
-- - Model/Modes and Distributed/Settings: the modes of src/model/config.py, and
--   src/distributed/settings.py. A configuration is a record of the entries that these read.
-- - Model/Sections: `topology_from_config` of src/model/config.py. A configuration is the value that
--   PyYAML gives; what Python's `float` and `str` give for other values are arguments.
-- - Model/Dynamics and Model/Symmetric: src/model/dynamics.py, and the closed form of
--   src/model/symmetric.py.
-- - Telemetry: `TelemetryBuffer` and `JsonlTail` of src/telemetry/metrics.py.
-- - Common and Num: what the parts share.
-- - Tests: runs on a small system.
--
-- How the parts interact: the engine pops a smallest event, sets its clock and calls
-- `handle_event`; the handlers schedule further events. The controller tick calls
-- `best_response_available` for each source (windowed mode) or `iteration_step` (capacity-safe mode),
-- which calls the best response, the marginal cost and the safe step. In the distributed run the
-- brokers compute the prices and the sources the best responses; the controller's round collects them
-- over its channels and takes the same safe step.
--
-- Conventions. Numbers are an interface (Num) with the laws of exact ordered arithmetic; of division
-- only that a quotient by a positive number times that number does not exceed the dividend, and has
-- its sign. Rounding is not modelled; None and NaN in a field are an Option. The functions of numpy
-- on numbers (log, expm1, nextafter, norm) are a second interface (Num/Elementary), of which two laws
-- of nextafter are used. The random generator and heapq are interfaces too: `choice` draws within its
-- range or refuses its probabilities, and a heap pops a smallest event and keeps the others. scipy's
-- `linprog` and `json.loads` are
-- parameters of which nothing is assumed. Exceptions are values of `Result`.
--
-- Fuel and bounds: the source's loops over a range recur on the rounds left, with the source's own
-- bounds (1024 doublings, `max_iter` bisections). The event loop may go on for ever, since handlers
-- schedule events; it takes fuel, says whether it ended by its own test, and what is proved of it
-- holds for every amount.
--
-- Exceptions that the source does not catch end the run: the diagnostics in a telemetry record, a lost
-- connection where the routing is sent, the generator's refusal. What a run leaves behind then is not
-- modelled, except in the handlers of connections, which the service outlives.
--
-- Not modelled: the encoding and the sockets of the distributed run, the start and the stop of its
-- processes; the random routing of src/controller/feasibility.py, what the diagnostics only report and
-- the snapshots of telemetry, random instances, the reading of YAML, and the pacing of the engine to
-- the wall clock; the command line, the dashboard and the scripts are input and output.
pub mod Common
pub mod Num
pub mod Model
pub mod Control
pub mod Simulation
pub mod Distributed
pub mod Telemetry
pub mod Tests
