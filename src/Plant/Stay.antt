-- ===== src/Plant/Stay.antt =====
-- What the steps of a part's stay at a station do to the machines, from the process barrier on: each
-- barrier's event as the consumer delivers it, and the two timers.
use circular_manu_system.Station
use circular_manu_system.Base.{List, [], ap, none, some, ℕ, ◌++◌, ◌∙◌, ◌∷◌, ◌≡◌}
use circular_manu_system.Base.Quad.{Corner, corner2, corner4, corner_number}
use circular_manu_system.Base.Text.{Text, codes}
use circular_manu_system.Cep.{deliver_event}
use circular_manu_system.Cep.Keeps.{fused_with}
use circular_manu_system.Corner.{pos_barrier}
use circular_manu_system.Events.{
  Barrier, SensorEvent, Station, at_corner, at_station, from_gpio, place, same, same_refl,
  station_number,
}
use circular_manu_system.Logger.{Row}
use circular_manu_system.Logger.Log.{row}
use circular_manu_system.Machines.{Machines, calls, fire_station, get_station, on_shop, process}
use circular_manu_system.Plant.Entry.{logged_rows}
use circular_manu_system.Shop.{Shop, Timer, log, to_influx}
use circular_manu_system.Station.{
  StationCall, StationController, StationState, advancing_to_exit, entering, entry_barrier,
  exit_barrier, process_barrier, processing, processing_complete, station_id,
}
use circular_manu_system.Station.Cycle.{
  exit_of, finishes, processing_of, reaches_exit, rows, same_process, starts,
}

-- The pins of the process and of the exit barriers.
abbrev pub process_pin : Station → ℕ
process_pin Station.station1 = 27
process_pin Station.station2 = 6

abbrev pub exit_pin : Station → ℕ
exit_pin Station.station1 = 22
exit_pin Station.station2 = 13

-- A station's exit is the position of this corner.
abbrev pub next_corner : Station → Corner
next_corner Station.station1 = corner4
next_corner Station.station2 = corner2

abbrev pub passing : Barrier → Station → ℕ → SensorEvent
passing b k t = record {
  timestamp = t;
  barrier_id = b;
  location = place at_station (station_number k);
  source = from_gpio;
}

abbrev pub arriving : Station → ℕ → SensorEvent
arriving k t = record {
  timestamp = t;
  barrier_id = pos_barrier (next_corner k);
  location = place at_corner (corner_number (next_corner k));
  source = from_gpio;
}

-- The part is at the station, in a state and with the timers given.
pub record Holds (k : Station) (p : Text) (st : StationState) (ts : List (Timer StationCall))
    (c : StationController) : Type 0 where
  pub state : c.state ≡ st
  pub timers : c.timers ≡ ts
  pub part : c.current_part ≡ some p
  pub own : c.station ≡ k

-- One more row in the log.
abbrev pub Logs : Row → Machines → Machines → Type 0
Logs r m m' = logged_rows m' ≡ logged_rows m ++ r ∷ []

module _ (k : Station) (p : Text) (c : StationController) (s : Shop) where
  starts_at :
      (t now : ℕ)
      → Holds k p entering [] c
      → let w =
          Station.process_event (fused_with (passing (process_barrier k) k t) none) now (c, s) in
        Holds k p processing (processing_of c now ∷ []) w.0
        × (rows w.1
            ≡ rows s ++ row now (station_id k) p (codes "PROCESS_START") (codes "START") ∷ [])
  starts_at t now h =
      let (state, timers, part, kept, log) =
        starts (fused_with (passing (process_barrier k) k t) none) p now c s
          (ap (λ j. same (process_barrier k) (entry_barrier j)) h.own ∙ same_process k)
          (ap (λ j. same (process_barrier k) (process_barrier j)) h.own
            ∙ same_refl (process_barrier k))
          h.state h.timers h.part in
      (
        record { state = state; timers = timers; part = part; own = kept ∙ h.own },
        log
            ∙ ap
                (λ j.
                  rows s ++ row now (station_id j) p (codes "PROCESS_START") (codes "START") ∷ [])
                h.own,
      )

  finishes_at :
      (t : Timer StationCall) (now : ℕ)
      → t.call ≡ processing_complete
      → Holds k p processing (t ∷ []) c
      → let w = Station.fire t now (c, s) in
        Holds k p advancing_to_exit [] w.0
        × (rows w.1
            ≡ rows s ++ row now (station_id k) p (codes "PROCESS_END") (codes "FINISH") ∷ [])
  finishes_at t now call h =
      let (state, timers, part, kept, log) = finishes p t now c s h.timers call h.part in
      (
        record { state = state; timers = timers; part = part; own = kept ∙ h.own },
        log
            ∙ ap
                (λ j.
                  rows s ++ row now (station_id j) p (codes "PROCESS_END") (codes "FINISH") ∷ [])
                h.own,
      )

  pub leaves_at :
      (t now : ℕ)
      → Holds k p advancing_to_exit [] c
      → let w = Station.process_event (fused_with (passing (exit_barrier k) k t) none) now (c, s) in
        (w.0.timers ≡ exit_of c t now ∷ [])
        × (w.0.current_part ≡ some p)
        × (w.0.station ≡ k)
        × (rows w.1 ≡ rows s)
  leaves_at t now h =
      let (timers, part, kept, log) =
        reaches_exit (fused_with (passing (exit_barrier k) k t) none) p now c s
          (ap (λ j. same (exit_barrier k) (exit_barrier j)) h.own ∙ same_refl (exit_barrier k))
          h.state h.timers h.part in
      (timers, part, kept ∙ h.own, log)

pub start-Holds :
    (k : Station) (p : Text) (t now : ℕ) (m : Machines)
    → Holds k p entering [] (get_station k m)
    → let m' = deliver_event calls (passing (process_barrier k) k t) none now m in
      Holds k p processing (processing_of (get_station k m) now ∷ []) (get_station k m')
      × Logs (row now (station_id k) p (codes "PROCESS_START") (codes "START")) m m'
unfolding deliver_event process on_shop to_influx
start-Holds Station.station1 p t now m h = starts_at Station.station1 p m.station1 m.shop t now h
start-Holds Station.station2 p t now m h = starts_at Station.station2 p m.station2 m.shop t now h

pub finish-Holds :
    (k : Station) (p : Text) (t : Timer StationCall) (now : ℕ) (m : Machines)
    → t.call ≡ processing_complete
    → Holds k p processing (t ∷ []) (get_station k m)
    → let m' = fire_station k t now m in
      Holds k p advancing_to_exit [] (get_station k m')
      × Logs (row now (station_id k) p (codes "PROCESS_END") (codes "FINISH")) m m'
unfolding fire_station
finish-Holds Station.station1 p t now m call h =
    finishes_at Station.station1 p m.station1 m.shop t now call h
finish-Holds Station.station2 p t now m call h =
    finishes_at Station.station2 p m.station2 m.shop t now call h
