-- ===== src/Logger/Counts.antt =====
-- The counters of the data logger.
use circular_manu_system.Base.{List, [], arith, ℕ, ◌+◌, ◌∷◌, ◌≤◌}
use circular_manu_system.Base.Int.{ℤ}
use circular_manu_system.Base.Lists.{length, length-append}
use circular_manu_system.Base.Text.{Text}
use circular_manu_system.Events.{Station, station1, station2}
use circular_manu_system.Logger.{DataLogger, enter, exit, init, push_bounded, update_kpis}

pub record InBounds (d : DataLogger) : Type 0 where
  pub split : d.station1_count + d.station2_count ≤ d.total_parts
  pub peak : d.current_wip ≤ d.max_wip
  pub window1 : length d.cycle_times_s1 ≤ 100
  pub window2 : length d.cycle_times_s2 ≤ 100

length-push_bounded : (x : ℤ) (xs : List ℤ) → length xs ≤ 100 → length (push_bounded x xs) ≤ 100
unfolding push_bounded
length-push_bounded x [] h = omega arith
length-push_bounded x (y ∷ ys) h = ground (arith, length-append ys (x ∷ []))

pub init-InBounds : (now : ℕ) → InBounds (init now)
unfolding init
init-InBounds now = omega arith

pub update_kpis-InBounds :
    (station_id activity : Text) (d : DataLogger)
    → InBounds d
    → InBounds (update_kpis station_id activity d)
unfolding update_kpis
update_kpis-InBounds station_id activity d h = ground arith

pub enter-InBounds :
    (part_id station_id : Text) (s : Station) (now : ℕ) (d : DataLogger)
    → InBounds d
    → InBounds (enter part_id station_id s now d)
unfolding enter
enter-InBounds part_id station_id station1 now d h = ground arith
enter-InBounds part_id station_id station2 now d h = ground arith

pub exit-InBounds :
    (part_id station_id : Text) (s : Station) (now : ℕ) (d : DataLogger)
    → InBounds d
    → InBounds (exit part_id station_id s now d)
unfolding exit
exit-InBounds part_id station_id station1 now d h = grind (arith, length-push_bounded)
exit-InBounds part_id station_id station2 now d h = grind (arith, length-push_bounded)
