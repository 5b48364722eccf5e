-- ===== src/Simulation/Handler/Attended/Run.antt =====
-- In a run no queue stalls.
use traffic_emulator.Common.{ℕ, zero, suc, ◌≡◌, Bool, false, some, List, [], ◌∷◌, map, get_elem?}
use traffic_emulator.Common.Sums.{get2}
use traffic_emulator.Num.{Num}
use traffic_emulator.Num.Elementary.{Elementary}
use traffic_emulator.Simulation.Queues.{Queue, fresh, init}
use traffic_emulator.Simulation.Engine.{Heap, IsHeap}
use traffic_emulator.Simulation.Handler.{Handler}
use traffic_emulator.Simulation.Handler.Attended.{link, server}
use traffic_emulator.Simulation.Handler.Attended.Services.{Attended}

module _ {R : Type 0} where
  fresh_idle :
      (mus : List R) (j : ℕ) {q : Queue R}
      → get_elem? (map fresh mus) j ≡ some q
      → q.is_busy ≡ false
  fresh_idle [] j h = cc
  fresh_idle (mu ∷ mus) zero h = cc
  fresh_idle (mu ∷ mus) (suc j) h = fresh_idle mus j h

  fresh_rows_idle :
      (rows : List (List R)) (i j : ℕ) {q : Queue R}
      → get2 (map (map fresh) rows) i j ≡ some q
      → q.is_busy ≡ false
  fresh_rows_idle [] i j h = cc
  fresh_rows_idle (mus ∷ rows) zero j h = fresh_idle mus j h
  fresh_rows_idle (mus ∷ rows) (suc i) j h = fresh_rows_idle rows i j h

module _ {R G H : Type 0} ⦃n : Num R⦄ ⦃p : Heap R H⦄ (heap : IsHeap R H) where
  -- At the start every station is idle.
  pub init-Attended :
      (links : List (List R)) (mus : List R) (keep_requests : Bool) (h : Handler R G H)
      → h.state ≡ init links mus keep_requests
      → Attended heap h
  unfolding init
  init-Attended links mus keep_requests h start (link i j) q found is_busy =
      cc (fresh_rows_idle links i j (rw start at found))
  init-Attended links mus keep_requests h start (server j) q found is_busy =
      cc (fresh_idle mus j (rw start at found))
