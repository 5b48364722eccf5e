-- ===== src/Simulation/Handler/Attended/Serving.antt =====
-- Which station an event serves.
use traffic_emulator.Common.{
  ℕ, ◌+◌, ◌≤◌, ◌≡◌, refl, true, false, Option, none, some, arith, subst, Result, ok, Error,
  or_raise, ◌>>=◌,
}
use traffic_emulator.Control.Diagnostics.Certificate.{OrRaises}
use traffic_emulator.Simulation.Events.{Event, EventType}
use traffic_emulator.Simulation.Handler.{at_access, at_broker}
use traffic_emulator.Simulation.Handler.Attended.{
  Station, link, server, is_link_service, is_server_service, serves, none_given,
}

-- What is looked up is there, or the handler raises.
pub looked_up :
    {A B : Type 0} (P : B → Type 0) (o : Option A) (e : Error) (later : A → Result B)
    → ((a : A) → o ≡ some a → OrRaises P (later a))
    → OrRaises P (or_raise o e >>= later)
looked_up P none e later k = tt
looked_up P (some a) e later k = k a refl

pub of_ok : {A : Type 0} (P : A → Type 0) (m : Result A) (a : A) → OrRaises P m → m ≡ ok a → P a
of_ok P m a h e = subst (OrRaises P) e h

module _ {R : Type 0} where
  -- an event that serves the same link, or the same server
  pub same_link :
      (event : Event R) (kind : EventType) (t : R) (i j r : ℕ)
      → is_link_service kind ≡ true
      → is_server_service event.event_type ≡ false
      → event.source_id ≡ some i
      → event.broker_id ≡ some j
      → (s : Station) → serves s event ≤ none_given s + serves s (at_access kind t i j r)
  same_link event kind t i j r after before hi hj (server k) = rw before (omega arith)
  same_link event kind t i j r after before hi hj (link k l) = rw (after, hi, hj) (ground arith)

  pub same_server :
      (event : Event R) (kind : EventType) (t : R) (j r : ℕ)
      → is_server_service kind ≡ true
      → is_link_service event.event_type ≡ false
      → event.broker_id ≡ some j
      → (s : Station) → serves s event ≤ none_given s + serves s (at_broker kind t j r)
  same_server event kind t j r after before hj (link k l) = rw before (omega arith)
  same_server event kind t j r after before hj (server k) = rw (after, hj) (ground arith)

  pub own_link :
      (event : Event R) (i j : ℕ)
      → is_link_service event.event_type ≡ true
      → event.source_id ≡ some i
      → event.broker_id ≡ some j
      → serves (link i j) event ≡ 1
  own_link event i j kind hi hj = rw (kind, hi, hj) (ground arith)

  pub own_server :
      (event : Event R) (j : ℕ)
      → is_server_service event.event_type ≡ true
      → event.broker_id ≡ some j
      → serves (server j) event ≡ 1
  own_server event j kind hj = rw (kind, hj) (ground arith)

  -- an event that serves none
  pub serves_none :
      (event : Event R)
      → is_link_service event.event_type ≡ false
      → is_server_service event.event_type ≡ false
      → (s : Station) → serves s event ≡ 0
  serves_none event no_link no_server (link i j) = rw no_link refl
  serves_none event no_link no_server (server j) = rw no_server refl
