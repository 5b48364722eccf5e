-- ===== src/Simulation/Events.antt =====
-- src/simulation/events.py. No code sets `payload`, so it is left out.
use traffic_emulator.Common.{ℕ, Option}

pub data EventType : Type 0 where
  source_arrival access_service_start access_service_complete : EventType
  broker_arrival broker_service_start broker_service_complete : EventType
  controller_tick : EventType

-- Events compare by their timestamps alone.
pub record Event (R : Type 0) : Type 0 where
  pub timestamp : R
  pub event_type : EventType
  pub source_id : Option ℕ
  pub broker_id : Option ℕ
  pub request_id : Option ℕ
