-- ===== src/Plant/Leave.antt =====
-- What the exit of a part does to the machines: the event of the exit barrier, which is also that of the
-- next corner's position, and the timer that frees the station.
use circular_manu_system.Corner
use circular_manu_system.Station
use circular_manu_system.Base.{List, [], ap, arith, false, none, refl, some, ℕ, ◌++◌, ◌∙◌, ◌∷◌, ◌≡◌}
use circular_manu_system.Base.Quad.{Corner, corner2, corner4}
use circular_manu_system.Base.Text.{Text, codes}
use circular_manu_system.Cep.{deliver_event}
use circular_manu_system.Cep.Keeps.{fused_with}
use circular_manu_system.Cep.Sole.{both}
use circular_manu_system.Corner.{CornerController, pos_barrier, ret_barrier}
use circular_manu_system.Events.{FusedEvent, Station, same, same_iff}
use circular_manu_system.Logger.{Row}
use circular_manu_system.Logger.Log.{row}
use circular_manu_system.Logger.Tag.{infer_tag}
use circular_manu_system.Machines.{Machines, calls, fire_station, get_station, on_shop, process}
use circular_manu_system.Plant.Entry.{logged_rows}
use circular_manu_system.Plant.Stay.{Holds, Logs, arriving, leaves_at, passing}
use circular_manu_system.Shop.{Shop, Timer, set_motor, stop_motor, to_influx}
use circular_manu_system.Station.{
  StationCall, StationController, advancing_to_exit, exit_barrier, exit_complete, station_id,
}
use circular_manu_system.Station.Cycle.{clears, exit_of, rows}

-- A corner logs only at the limit switches of its pusher.
not_retracted : (j i : Corner) → same (pos_barrier j) (ret_barrier i) ≡ false
not_retracted j i = ground (arith, same_iff (pos_barrier j) (ret_barrier i))

position_logs_nothing :
    (e : FusedEvent) (now : ℕ) (c : CornerController) (s : Shop)
    → same e.barrier_id (ret_barrier c.corner) ≡ false
    → rows (Corner.process_event e now (c, s)).1 ≡ rows s
unfolding Corner.process_event to_influx stop_motor set_motor
position_logs_nothing e now c s miss = ground arith

arriving_silent :
    (k : Station) (t now : ℕ) (m : Machines)
    → let m' = deliver_event calls (arriving k t) none now m in
      (get_station k m' ≡ get_station k m) × (logged_rows m' ≡ logged_rows m)
unfolding deliver_event process on_shop to_influx
arriving_silent Station.station1 t now m = (
  refl,
  position_logs_nothing (fused_with (arriving Station.station1 t) none) now m.corners.at4 m.shop
      (not_retracted corner4 m.corners.at4.corner),
)
arriving_silent Station.station2 t now m = (
  refl,
  position_logs_nothing (fused_with (arriving Station.station2 t) none) now m.corners.at2 m.shop
      (not_retracted corner2 m.corners.at2.corner),
)

-- The part is on its way out.
pub record GoesOut (k : Station) (p : Text) (ts : List (Timer StationCall)) (m m' : Machines)
    : Type 0 where
  pub timers : (get_station k m').timers ≡ ts
  pub part : (get_station k m').current_part ≡ some p
  pub own : (get_station k m').station ≡ k
  pub log : logged_rows m' ≡ logged_rows m

exit_passed :
    (k : Station) (p : Text) (t now : ℕ) (m : Machines)
    → Holds k p advancing_to_exit [] (get_station k m)
    → GoesOut k p
        (exit_of (get_station k m) t now ∷ [])
        m
        (deliver_event calls (passing (exit_barrier k) k t) none now m)
unfolding deliver_event process on_shop to_influx
exit_passed Station.station1 p t now m h =
    let (timers, part, own, log) = leaves_at Station.station1 p m.station1 m.shop t now h in
    record { timers = timers; part = part; own = own; log = log }
exit_passed Station.station2 p t now m h =
    let (timers, part, own, log) = leaves_at Station.station2 p m.station2 m.shop t now h in
    record { timers = timers; part = part; own = own; log = log }

-- The exit barrier's event is also that of the next corner's position.
pub exit-GoesOut :
    (k : Station) (p : Text) (t now : ℕ) (m : Machines)
    → Holds k p advancing_to_exit [] (get_station k m)
    → GoesOut k p
        (exit_of (get_station k m) t now ∷ [])
        m
        (both calls now (passing (exit_barrier k) k t) (arriving k t) m)
exit-GoesOut k p t now m h =
    let g = exit_passed k p t now m h in
    let m1 = deliver_event calls (passing (exit_barrier k) k t) none now m in
    let (same_station, same_log) = arriving_silent k t now m1 in
    record {
      timers = ap (λ (c : StationController). c.timers) same_station ∙ g.timers;
      part = ap (λ (c : StationController). c.current_part) same_station ∙ g.part;
      own = ap (λ (c : StationController). c.station) same_station ∙ g.own;
      log = same_log ∙ g.log;
    }

-- The station is free again, after one more row.
pub record Free (k : Station) (r : Row) (m m' : Machines) : Type 0 where
  pub state : (get_station k m').state ≡ Station.idle
  pub timers : (get_station k m').timers ≡ []
  pub part : (get_station k m').current_part ≡ none
  pub log : Logs r m m'

pub clear-Free :
    (k : Station) (x : ℕ) (p : Text) (exited : ℕ) (t : Timer StationCall) (now : ℕ) (m : Machines)
    → t.call ≡ exit_complete exited
    → (get_station k m).timers ≡ t ∷ []
    → (get_station k m).current_part ≡ some (x ∷ p)
    → (get_station k m).station ≡ k
    → Free k
        (row now (station_id k) (x ∷ p) (codes "EXIT") (infer_tag (codes "EXIT")))
        m
        (fire_station k t now m)
unfolding fire_station
clear-Free Station.station1 x p exited t now m call timers part own =
    let a = clears x p exited t now m.station1 m.shop timers call part in
    record {
      state = a.0;
      timers = a.1;
      part = a.2;
      log =
          a.3
          ∙ ap
              (λ j.
                logged_rows m
                ++ row now (station_id j) (x ∷ p) (codes "EXIT") (infer_tag (codes "EXIT")) ∷ [])
              own;
    }
clear-Free Station.station2 x p exited t now m call timers part own =
    let a = clears x p exited t now m.station2 m.shop timers call part in
    record {
      state = a.0;
      timers = a.1;
      part = a.2;
      log =
          a.3
          ∙ ap
              (λ j.
                logged_rows m
                ++ row now (station_id j) (x ∷ p) (codes "EXIT") (infer_tag (codes "EXIT")) ∷ [])
              own;
    }
