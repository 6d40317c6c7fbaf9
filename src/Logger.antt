-- ===== src/Logger.antt =====
-- physical_system/data_logger.py: the event log and the running metrics.
-- Times are microseconds since the epoch; a difference of two readings is an integer, since the
-- wall clock may be set back. A row keeps the reading that the source formats as a string.
pub mod Tag
pub mod Log
pub mod Counts
pub mod Peak
pub mod BusyTimes
pub mod Within
pub mod Percent
pub mod Kpis
pub mod History
pub mod Flow
pub mod Report
pub mod File
use Prim.Native.Nat.{max}
use circular_manu_system.Base.{
  Bool, List, Option, [], if◌then◌else◌, ltb, none, some, ℕ, ◌++◌, ◌+◌, ◌-◌, ◌∷◌,
}
use circular_manu_system.Base.Int.{pos, sub_ℕ, ℤ, ◌+ℤ◌}
use circular_manu_system.Base.Lists.{erase, insert, keep, length, lookup}
use circular_manu_system.Base.Quad.{
  Corner, Quad, all_four, corner1, corner2, corner3, corner4, get, put,
}
use circular_manu_system.Base.Text.{Text, codes, text_eq}
use circular_manu_system.Events.{Station, station1, station2}

pub record Row : Type 0 where
  pub time : ℕ
  pub station_id : Text
  pub part_id : Text
  pub activity : Text
  pub tag : Text

-- An entry of `station_states` or `corner_states`.
pub record Busy : Type 0 where
  pub busy_since : Option ℕ
  pub total_busy_time : ℤ

pub record DataLogger : Type 0 where
  pub rows : List Row
  pub total_parts : ℕ
  pub station1_count : ℕ
  pub station2_count : ℕ
  pub system_start_time : ℕ
  pub station_entry_times : List (Text × ℕ)
  pub current_wip : ℕ
  pub max_wip : ℕ
  pub cycle_times_s1 : List ℤ
  pub cycle_times_s2 : List ℤ
  pub state_s1 : Busy
  pub state_s2 : Busy
  pub corner_states : Quad Busy
  pub event_timestamps : List (ℕ × Text × Text)

abbrev free : Busy
free = record { busy_since = none; total_busy_time = pos 0 }

unfoldable pub init : ℕ → DataLogger
init now = record {
  rows = [];
  total_parts = 0;
  station1_count = 0;
  station2_count = 0;
  system_start_time = now;
  station_entry_times = [];
  current_wip = 0;
  max_wip = 0;
  cycle_times_s1 = [];
  cycle_times_s2 = [];
  state_s1 = free;
  state_s2 = free;
  corner_states = all_four free;
  event_timestamps = [];
}

-- `station_id in ['S1', 'S2']`, and which of the two it is.
unfoldable pub which_station : Text → Option Station
which_station id =
    if text_eq id (codes "S1")
    then some station1
    else if text_eq id (codes "S2")
    then some station2
    else none

-- Whether `station_id` is the id of a corner, and of which.
unfoldable pub which_corner : Text → Option Corner
which_corner id =
    if text_eq id (codes "C1")
    then some corner1
    else if text_eq id (codes "C2")
    then some corner2
    else if text_eq id (codes "C3")
    then some corner3
    else if text_eq id (codes "C4")
    then some corner4
    else none

count_exit : Option Station → DataLogger → DataLogger
count_exit none d = d
count_exit (some station1) d = record d { station1_count = d.station1_count + 1 }
count_exit (some station2) d = record d { station2_count = d.station2_count + 1 }

unfoldable pub update_kpis : Text → Text → DataLogger → DataLogger
unfolding count_exit
update_kpis station_id activity d =
    if text_eq activity (codes "EXIT")
    then count_exit (which_station station_id) (record d { total_parts = d.total_parts + 1 })
    else d

-- `f"{part_id}_{station_id}"`
unfoldable pub entry_key : Text → Text → Text
entry_key part_id station_id = part_id ++ codes "_" ++ station_id

pub start_busy : ℕ → Busy → Busy
start_busy now b = elim b.busy_since [ none ↦ record b { busy_since = some now } | some t ↦ b ]

pub end_busy : ℕ → Busy → Busy
end_busy now b = elim b.busy_since [
  | none ↦ b
  | some t ↦ record { busy_since = none; total_busy_time = b.total_busy_time +ℤ sub_ℕ now t }
]

abbrev pub station_busy : Station → DataLogger → Busy
station_busy station1 d = d.state_s1
station_busy station2 d = d.state_s2

abbrev set_station_busy : Station → Busy → DataLogger → DataLogger
set_station_busy station1 b d = record d { state_s1 = b }
set_station_busy station2 b d = record d { state_s2 = b }

-- The branch of `ENTER` at a station.
pub enter : Text → Text → Station → ℕ → DataLogger → DataLogger
unfolding start_busy
enter part_id station_id s now d =
    set_station_busy s (start_busy now (station_busy s d)) (record d {
      station_entry_times = insert (entry_key part_id station_id) now d.station_entry_times;
      current_wip = d.current_wip + 1;
      max_wip = max d.max_wip (d.current_wip + 1);
    })

pop_first : List ℤ → List ℤ
pop_first [] = []
pop_first (x ∷ xs) = xs

-- `append`, and `pop(0)` beyond a hundred values.
unfoldable pub push_bounded : ℤ → List ℤ → List ℤ
unfolding pop_first
push_bounded x xs =
    let longer = xs ++ x ∷ [] in if ltb 100 (length longer) then pop_first longer else longer

pub record_cycle : Station → Text → Option ℕ → ℕ → DataLogger → DataLogger
record_cycle s key none now d = d
record_cycle station1 key (some t) now d = record d {
  cycle_times_s1 = push_bounded (sub_ℕ now t) d.cycle_times_s1;
  station_entry_times = erase key d.station_entry_times;
}
record_cycle station2 key (some t) now d = record d {
  cycle_times_s2 = push_bounded (sub_ℕ now t) d.cycle_times_s2;
  station_entry_times = erase key d.station_entry_times;
}

-- `if station_id == 'S2': current_wip = max(0, current_wip - 1)`
pub leave_system : Station → DataLogger → DataLogger
leave_system station1 d = d
leave_system station2 d = record d { current_wip = d.current_wip - 1 }

-- The branch of `EXIT` at a station.
pub exit : Text → Text → Station → ℕ → DataLogger → DataLogger
unfolding record_cycle leave_system end_busy
exit part_id station_id s now d =
    let key = entry_key part_id station_id in
    let d' = leave_system s (record_cycle s key (lookup key d.station_entry_times) now d) in
    set_station_busy s (end_busy now (station_busy s d')) d'

abbrev set_corner_busy : Corner → Busy → DataLogger → DataLogger
set_corner_busy c b d = record d { corner_states = put d.corner_states c b }

pub station_metrics : Text → Text → Text → Station → ℕ → DataLogger → DataLogger
unfolding enter exit
station_metrics part_id station_id activity s now d =
    if text_eq activity (codes "ENTER")
    then enter part_id station_id s now d
    else if text_eq activity (codes "EXIT")
    then exit part_id station_id s now d
    else d

pub corner_metrics : Text → Corner → ℕ → DataLogger → DataLogger
unfolding start_busy end_busy
corner_metrics activity c now d =
    if text_eq activity (codes "PUSH_START")
    then set_corner_busy c (start_busy now (get d.corner_states c)) d
    else if text_eq activity (codes "PUSH_COMPLETE")
    then set_corner_busy c (end_busy now (get d.corner_states c)) d
    else d

-- `e[0] > current_time - 3600`
abbrev recent : ℕ → ℕ × Text × Text → Bool
recent now (t, station_id, activity) = ltb now (t + 3_600_000_000)

unfoldable pub place_metrics : Text → Text → Text → ℕ → DataLogger → DataLogger
unfolding station_metrics corner_metrics
place_metrics part_id station_id activity now d = elim (which_station station_id) [
  | some s ↦ station_metrics part_id station_id activity s now d
  | none ↦ elim (which_corner station_id) [ some c ↦ corner_metrics activity c now d | none ↦ d ]
]

unfoldable pub update_realtime_metrics : Text → Text → Text → ℕ → DataLogger → DataLogger
update_realtime_metrics part_id station_id activity now d =
    place_metrics part_id station_id activity now (record d {
      event_timestamps = keep (recent now) (d.event_timestamps ++ (now, station_id, activity) ∷ []);
    })
