-- ===== src/Logger/Flow.antt =====
-- physical_system/data_logger.py: one part's way through the stations.
use circular_manu_system.Base.{
  List, Option, Option-cases, [], arith, false, is_some, none, refl, true, ℕ, ◌+◌, ◌-◌, ◌∷◌, ◌≡◌,
}
use circular_manu_system.Base.Lists.{lookup, lookup-erase}
use circular_manu_system.Base.Text.{Text, codes, text_eq, text_eq_iff, text_eq_refl}
use circular_manu_system.Events.{Station, station1, station2}
use circular_manu_system.Logger.{
  DataLogger, enter, entry_key, exit, place_metrics, station_metrics, update_kpis,
  update_realtime_metrics, which_station,
}
use circular_manu_system.Logger.History.{Entry, log_all, log_entry}
use circular_manu_system.Logger.Log.{logged, point_cycle_time}

-- Under the key of a part and a station, an exit leaves no time of entry.
exit-entry_times :
    (p id : Text) (s : Station) (now : ℕ) (d : DataLogger)
    → lookup (entry_key p id) (exit p id s now d).station_entry_times ≡ none
unfolding exit
exit-entry_times p id station1 now d = ground (
  arith,
  Option-cases (lookup (entry_key p id) d.station_entry_times),
  lookup-erase (entry_key p id) (entry_key p id) d.station_entry_times,
  text_eq_refl (entry_key p id),
)
exit-entry_times p id station2 now d = ground (
  arith,
  Option-cases (lookup (entry_key p id) d.station_entry_times),
  lookup-erase (entry_key p id) (entry_key p id) d.station_entry_times,
  text_eq_refl (entry_key p id),
)

is_exit-not-enter : (a : Text) → text_eq a (codes "EXIT") ≡ true → text_eq a (codes "ENTER") ≡ false
is_exit-not-enter a h = rw ((text_eq_iff a (codes "EXIT")).0 h) (unfold text_eq in refl)

place_metrics-exit :
    (p id activity : Text) (now : ℕ) (d : DataLogger)
    → text_eq activity (codes "EXIT") ≡ true
    → is_some (which_station id) ≡ true
    → lookup (entry_key p id) (place_metrics p id activity now d).station_entry_times ≡ none
unfolding place_metrics station_metrics
place_metrics-exit p id activity now d x k = ground (
  arith,
  is_exit-not-enter activity x,
  exit-entry_times p id station1 now d,
  exit-entry_times p id station2 now d,
)

logged-exit :
    (p id activity : Text) (tag : Option Text) (now : ℕ) (d : DataLogger)
    → text_eq activity (codes "EXIT") ≡ true
    → is_some (which_station id) ≡ true
    → lookup (entry_key p id) (logged p id activity tag now d).station_entry_times ≡ none
unfolding logged update_realtime_metrics
logged-exit p id activity tag now d x k = place_metrics-exit p id activity now _ x k

-- The cycle time that log_event looks up for its InfluxDB point after the metrics have been
-- updated is always absent.
pub point_cycle_time-none :
    (p id activity : Text) (tag : Option Text) (now : ℕ) (d : DataLogger)
    → point_cycle_time p id activity now (logged p id activity tag now d) ≡ none
unfolding point_cycle_time
point_cycle_time-none p id activity tag now d = ground (arith, logged-exit p id activity tag now d)

abbrev pub entry_at : Text → Text → Text → ℕ → Entry
entry_at p id activity t = record {
  part_id = p;
  station_id = id;
  activity = activity;
  tag = none;
  time = t;
}

-- The log of a part that passes station 1 and then station 2.
abbrev pub lap : Text → ℕ → ℕ → ℕ → ℕ → List Entry
lap p t1 t2 t3 t4 =
    entry_at p (codes "S1") (codes "ENTER") t1
    ∷ entry_at p (codes "S1") (codes "EXIT") t2
    ∷ entry_at p (codes "S2") (codes "ENTER") t3
    ∷ entry_at p (codes "S2") (codes "EXIT") t4
    ∷ []

wip-enter1 :
    (p : Text) (t : ℕ) (d : DataLogger)
    → (log_entry (entry_at p (codes "S1") (codes "ENTER") t) d).current_wip ≡ d.current_wip + 1
unfolding logged update_kpis update_realtime_metrics place_metrics station_metrics enter
    which_station text_eq
wip-enter1 p t d = refl

wip-enter2 :
    (p : Text) (t : ℕ) (d : DataLogger)
    → (log_entry (entry_at p (codes "S2") (codes "ENTER") t) d).current_wip ≡ d.current_wip + 1
unfolding logged update_kpis update_realtime_metrics place_metrics station_metrics enter
    which_station text_eq
wip-enter2 p t d = refl

wip-exit1 :
    (p : Text) (t : ℕ) (d : DataLogger)
    → (log_entry (entry_at p (codes "S1") (codes "EXIT") t) d).current_wip ≡ d.current_wip
unfolding logged update_kpis update_realtime_metrics place_metrics station_metrics exit
    which_station text_eq
wip-exit1 p t d =
    ground (arith, Option-cases (lookup (entry_key p (codes "S1")) d.station_entry_times))

wip-exit2 :
    (p : Text) (t : ℕ) (d : DataLogger)
    → (log_entry (entry_at p (codes "S2") (codes "EXIT") t) d).current_wip ≡ d.current_wip - 1
unfolding logged update_kpis update_realtime_metrics place_metrics station_metrics exit
    which_station text_eq
wip-exit2 p t d =
    ground (arith, Option-cases (lookup (entry_key p (codes "S2")) d.station_entry_times))

-- A part that enters and leaves station 1 and then enters and leaves station 2 leaves the current
-- count of parts in the system one higher than before.
pub lap_wip :
    (p : Text) (t1 t2 t3 t4 : ℕ) (d : DataLogger)
    → (log_all (lap p t1 t2 t3 t4) d).current_wip ≡ d.current_wip + 1
unfolding log_all
lap_wip p t1 t2 t3 t4 d = omega (
  arith,
  wip-enter1 p t1 d,
  wip-exit1 p t2 (log_entry (entry_at p (codes "S1") (codes "ENTER") t1) d),
  wip-enter2,
  wip-exit2,
)
