-- ===== src/Logger/Kpis.antt =====
-- `get_kpis` of the data logger. The source's quotients of floats are kept as fractions of integers
-- in microseconds; a fraction with denominator 0 does not occur.
use Prim.Native.Nat.{min}
use circular_manu_system.Base.{List, [], if◌then◌else◌, ltb, none, some, suc, zero, ℕ, ◌*◌, ◌∷◌}
use circular_manu_system.Base.Int.{Ratio, negsuc, pos, sub_ℕ, times, whole, ℤ, ◌+ℤ◌}
use circular_manu_system.Base.Lists.{length}
use circular_manu_system.Base.Quad.{Corner, Quad, corner1, corner2, corner3, corner4, get}
use circular_manu_system.Logger.{Busy, DataLogger}

pub record Kpis : Type 0 where
  pub total_parts : ℕ
  pub station1_count : ℕ
  pub station2_count : ℕ
  pub throughput_per_hour : Ratio
  pub avg_cycle_time_s1 : Ratio
  pub avg_cycle_time_s2 : Ratio
  pub current_wip : ℕ
  pub max_wip : ℕ
  pub station1_utilization : Ratio
  pub station2_utilization : Ratio
  pub corner_utilization : Quad Ratio
  pub event_rate_per_minute : Ratio
  pub runtime : ℤ

abbrev sum : List ℤ → ℤ
sum [] = pos 0
sum (x ∷ xs) = x +ℤ sum xs

-- `sum(xs) / len(xs) if xs else 0`
average : List ℤ → Ratio
average [] = whole (pos 0)
average (x ∷ xs) = record { numerator = sum (x ∷ xs); denominator = length (x ∷ xs) }

-- `parts / runtime * 3600`, once the system has run for more than a minute
throughput : ℕ → ℤ → Ratio
throughput parts (negsuc n) = whole (pos 0)
throughput parts (pos n) =
    if ltb 60_000_000 n
    then record { numerator = pos (parts * 3_600_000_000); denominator = n }
    else whole (pos 0)

-- The busy time of a resource, with the stretch that is not over yet.
unfoldable pub busy_time : ℕ → Busy → ℤ
busy_time now b = elim b.busy_since [
  | none ↦ b.total_busy_time
  | some t ↦ b.total_busy_time +ℤ sub_ℕ now t
]

-- `total_busy / runtime * 100 if runtime > 0 else 0`
unfoldable pub utilization : ℤ → ℤ → Ratio
utilization busy (negsuc n) = whole (pos 0)
utilization busy (pos zero) = whole (pos 0)
utilization busy (pos (suc n)) = record { numerator = times 100 busy; denominator = suc n }

-- `len(events) / (min(runtime, 3600) / 60) if runtime > 0 else 0`
event_rate : ℕ → ℤ → Ratio
event_rate events (negsuc n) = whole (pos 0)
event_rate events (pos zero) = whole (pos 0)
event_rate events (pos (suc n)) = record {
  numerator = pos (events * 60_000_000);
  denominator = min (suc n) 3_600_000_000;
}

unfoldable pub get_kpis : ℕ → DataLogger → Kpis
unfolding average throughput event_rate
get_kpis now d = record {
  total_parts = d.total_parts;
  station1_count = d.station1_count;
  station2_count = d.station2_count;
  throughput_per_hour = throughput d.total_parts runtime;
  avg_cycle_time_s1 = average d.cycle_times_s1;
  avg_cycle_time_s2 = average d.cycle_times_s2;
  current_wip = d.current_wip;
  max_wip = d.max_wip;
  station1_utilization = utilization (busy_time now d.state_s1) runtime;
  station2_utilization = utilization (busy_time now d.state_s2) runtime;
  corner_utilization = record {
    at1 = of_corner corner1;
    at2 = of_corner corner2;
    at3 = of_corner corner3;
    at4 = of_corner corner4;
  };
  event_rate_per_minute = event_rate (length d.event_timestamps) runtime;
  runtime = runtime;
}
  where
    runtime : ℤ
    runtime = sub_ℕ now d.system_start_time

    of_corner : Corner → Ratio
    of_corner c = utilization (busy_time now (get d.corner_states c)) runtime
