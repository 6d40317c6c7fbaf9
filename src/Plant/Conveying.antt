-- ===== src/Plant/Conveying.antt =====
-- The motors of the stations in the runs of the line, against the states of the stations.
use mathlib.Core.Path.{subst}
use circular_manu_system.Corner
use circular_manu_system.Plant
use circular_manu_system.Station
use circular_manu_system.Base.{Bool, Option, arith, false, none, refl, sym, true, ℕ, ◌==◌, ◌∙◌, ◌≡◌}
use circular_manu_system.Base.Quad.{Corner, get}
use circular_manu_system.Cep.{Fsm, corner_fsm, station_fsm}
use circular_manu_system.Cep.Keeps.{Keeps, fused_with, run_round-Keeps}
use circular_manu_system.Corner.{CornerController}
use circular_manu_system.Corner.Apart.{IsOther, fire-Untouched, process_event-Untouched}
use circular_manu_system.Events.{FusedEvent, Station}
use circular_manu_system.Influx.{InfluxDbWriter, write_sensor_event}
use circular_manu_system.Machines.{
  Config, Machines, calls, fire_corner, fire_station, get_station, on_shop, process, put_corner,
  put_station,
}
use circular_manu_system.Motors.{Hat, has_name, throttle}
use circular_manu_system.Plant.{
  Plant, Run, Step, consume, consumes, corner_timer, here, interrupt, interrupts, monitor,
  monitoring, monitors, next, poll, polls, scan_tag, scans, station_timer,
}
use circular_manu_system.Plant.Safety.{no_condition}
use circular_manu_system.Plant.Steering.{beginning, start_rests}
use circular_manu_system.Shop.{Shop, log, to_influx}
use circular_manu_system.Shop.Throttles.{Untouched}
use circular_manu_system.Station.{StationController}
use circular_manu_system.Station.Apart.{fire-Still, process_event-Still}
use circular_manu_system.Station.Drive.{
  Runs, fire-Runs, fire-station, process_event-Runs, process_event-station, station_expected,
}

pub record Conveyed (k : Station) (m : Machines) : Type 0 where
  pub named1 : m.station1.station ≡ Station.station1
  pub named2 : m.station2.station ≡ Station.station2
  pub runs : Runs (get_station k m) m.shop

Untouched-Runs :
    (c : StationController) (s s' : Shop)
    → Untouched (Station.motor_num c.station) s s'
    → Runs c s
    → Runs c s'
Untouched-Runs c s s' u h = record { drive = u.0 ∙ h.drive; hardware = u.1 ∙ h.hardware }

-- What a step of station `j` leaves of station `k`.
put_station-Conveyed :
    (j k : Station) (w : StationController × Shop) (m : Machines)
    → w.0.station ≡ j
    → (j ≡ k → Runs w.0 w.1)
    → ((n : ℕ) → Station.motor_num j == n ≡ false → Untouched n m.shop w.1)
    → Conveyed k m
    → Conveyed k (put_station j w m)
unfolding put_station
put_station-Conveyed Station.station1 Station.station1 w m is_j own other h = record {
  named1 = is_j;
  named2 = h.named2;
  runs = own refl;
}
put_station-Conveyed Station.station2 Station.station2 w m is_j own other h = record {
  named1 = h.named1;
  named2 = is_j;
  runs = own refl;
}
put_station-Conveyed Station.station1 Station.station2 w m is_j own other h = record {
  named1 = is_j;
  named2 = h.named2;
  runs =
      Untouched-Runs m.station2 m.shop w.1
        (other (Station.motor_num m.station2.station) (rw h.named2)) h.runs;
}
put_station-Conveyed Station.station2 Station.station1 w m is_j own other h = record {
  named1 = h.named1;
  named2 = is_j;
  runs =
      Untouched-Runs m.station1 m.shop w.1
        (other (Station.motor_num m.station1.station) (rw h.named1)) h.runs;
}

-- The same for a step of a corner.
put_corner-Conveyed :
    (j : Corner) (k : Station) (w : CornerController × Shop) (m : Machines)
    → ((s : Station) → Untouched (Station.motor_num s) m.shop w.1)
    → Conveyed k m
    → Conveyed k (put_corner j w m)
unfolding put_corner
put_corner-Conveyed j Station.station1 w m other h = record {
  named1 = h.named1;
  named2 = h.named2;
  runs = Untouched-Runs m.station1 m.shop w.1 (other m.station1.station) h.runs;
}
put_corner-Conveyed j Station.station2 w m other h = record {
  named1 = h.named1;
  named2 = h.named2;
  runs = Untouched-Runs m.station2 m.shop w.1 (other m.station2.station) h.runs;
}

not_pusher : (c : CornerController) (s : Station) → IsOther (Station.motor_num s) c
not_pusher c s = ground arith

station_motor : (k : Station) → has_name (Station.motor_num k) ≡ true
unfolding has_name
station_motor Station.station1 = refl
station_motor Station.station2 = refl

-- The station of a machine is its own.
station_named : (j k : Station) (m : Machines) → Conveyed k m → (get_station j m).station ≡ j
station_named Station.station1 k m h = h.named1
station_named Station.station2 k m h = h.named2

process-Conveyed :
    (k : Station) (f : Fsm) (e : FusedEvent) (now : ℕ) (m : Machines)
    → Conveyed k m
    → Conveyed k (process f e now m)
unfolding process
process-Conveyed k (station_fsm j) e now m h =
    let c = get_station j m in
    let is_j = station_named j k m h in
    put_station-Conveyed j k (Station.process_event e now (c, m.shop)) m
      (process_event-station e now c m.shop ∙ is_j)
      (λ eq.
        process_event-Runs e now c m.shop
          (subst (λ i. Runs (get_station i m) m.shop) (sym eq) h.runs))
      (λ n apart. process_event-Still n e now c m.shop (rw is_j apart)) h
process-Conveyed k (corner_fsm j) e now m h =
    put_corner-Conveyed j k (Corner.process_event e now (get m.corners j, m.shop)) m
      (λ s.
        process_event-Untouched (Station.motor_num s) e now (get m.corners j) m.shop
          (not_pusher (get m.corners j) s))
      h

-- A change of the shop that leaves the motors alone.
same_motors :
    (k : Station) (act : Shop → Shop) (m : Machines)
    → (act m.shop).motors ≡ m.shop.motors
    → Conveyed k m
    → Conveyed k (on_shop act m)
unfolding on_shop
same_motors Station.station1 act m e h = record {
  named1 = h.named1;
  named2 = h.named2;
  runs = Untouched-Runs m.station1 m.shop (act m.shop) (rw e (refl, refl)) h.runs;
}
same_motors Station.station2 act m e h = record {
  named1 = h.named1;
  named2 = h.named2;
  runs = Untouched-Runs m.station2 m.shop (act m.shop) (rw e (refl, refl)) h.runs;
}

calls-Conveyed : (k : Station) → Keeps calls (λ e. Unit {0}) (Conveyed k)
unfolding to_influx log
calls-Conveyed k = record {
  processes = λ e part f now m l found h. process-Conveyed k f (fused_with e part) now m h;
  writes = λ b l m h. same_motors k (to_influx (write_sensor_event b l)) m refl h;
  logs = λ part id activity now m h. same_motors k (log part id activity none now) m refl h;
}

Step-Conveyed :
    (k : Station) {p q : Plant} → Step p q → Conveyed k p.machines → Conveyed k q.machines
unfolding interrupt poll scan_tag consume monitor to_influx fire_station fire_corner
Step-Conveyed k (interrupts channel t) h = h
Step-Conveyed k (polls b value t is_pin) h = h
Step-Conveyed k (scans n simulation reading t) h = h
Step-Conveyed k {p} (consumes now) h =
    run_round-Keeps (calls-Conveyed k) now p.gpio_queue.items p.mcp_queue.items p.nfc_queue.items
      p.consumer p.machines (no_condition _) (no_condition _) (no_condition _) h
Step-Conveyed k {p} (monitors now on) h =
    same_motors k (to_influx (monitoring now p)) p.machines refl h
Step-Conveyed k {p} (station_timer j t now pending) h =
    let m = p.machines in
    let c = get_station j m in
    let is_j = station_named j k m h in
    put_station-Conveyed j k (Station.fire t now (c, m.shop)) m (fire-station t now c m.shop ∙ is_j)
      (λ eq. fire-Runs t now c m.shop (subst (λ i. Runs (get_station i m) m.shop) (sym eq) h.runs))
      (λ n apart. fire-Still n t now c m.shop (rw is_j apart)) h
Step-Conveyed k {p} (corner_timer j t now pending) h =
    let m = p.machines in
    put_corner-Conveyed j k (Corner.fire t now (get m.corners j, m.shop)) m
      (λ s.
        fire-Untouched (Station.motor_num s) t now (get m.corners j) m.shop
          (not_pusher (get m.corners j) s))
      h

Run-Conveyed : (k : Station) {p q : Plant} → Run p q → Conveyed k p.machines → Conveyed k q.machines
Run-Conveyed k here h = h
Run-Conveyed k (next r s) h = Step-Conveyed k s (Run-Conveyed k r h)

module _ (config : Config) (faulty : ℕ → Bool) (hat1 hat2 : Hat) (writer : Option InfluxDbWriter)
    (now : ℕ) where
  init-Conveyed :
      (k : Station)
      → faulty (Station.motor_num k) ≡ false
      → Conveyed k (beginning config faulty hat1 hat2 writer now).machines
  unfolding Plant.init Corner.init Station.init
  init-Conveyed Station.station1 fine =
      let (d, h) =
        start_rests faulty hat1 hat2 writer now 3 config.corner_config.conveyor_speed (ground arith)
          (station_motor Station.station1) fine in
      record { named1 = refl; named2 = refl; runs = record { drive = d; hardware = h } }
  init-Conveyed Station.station2 fine =
      let (d, h) =
        start_rests faulty hat1 hat2 writer now 4 config.corner_config.conveyor_speed (ground arith)
          (station_motor Station.station2) fine in
      record { named1 = refl; named2 = refl; runs = record { drive = d; hardware = h } }

  -- In every run from the start over motor boards that answer, if setting the throttle of a
  -- station's motor does not fail, that throttle is the station's clamped speed while a part is
  -- entering, advancing to the exit or exiting, and 0 in the three other states, whatever the
  -- other machines do.
  pub station_drive :
      {p : Plant} (k : Station)
      → faulty (Station.motor_num k) ≡ false
      → Run (beginning config faulty hat1 hat2 writer now) p
      → let c = get_station k p.machines in
        throttle p.machines.shop.motors (Station.motor_num k)
        ≡ station_expected c.state c.motor_speed
  station_drive {p} k fine r =
      let end = Run-Conveyed k r (init-Conveyed k fine) in
      let c = get_station k p.machines in
      subst
        (λ j.
          throttle p.machines.shop.motors (Station.motor_num j)
          ≡ station_expected c.state c.motor_speed)
        (station_named k k p.machines end) end.runs.drive
