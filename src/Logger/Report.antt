-- ===== src/Logger/Report.antt =====
-- physical_system/data_logger.py: the dictionary that get_kpis returns, and print_kpis. A KPI that is
-- a time is in microseconds.
use circular_manu_system.Base.{List, [], if◌then◌else◌, ◌∷◌}
use circular_manu_system.Base.Int.{Ratio, ltb_ℤ, pos, whole}
use circular_manu_system.Base.Text.{Text, codes}
use circular_manu_system.Influx.{Value, fraction, number}
use circular_manu_system.Logger.Kpis.{Kpis}

-- `runtime / 60`
runtime_minutes : Kpis → Ratio
runtime_minutes k = record { numerator = k.runtime; denominator = 60 }

-- The items of the dictionary, in its order.
unfoldable pub kpi_items : Kpis → List (Text × Value)
unfolding runtime_minutes
kpi_items k =
    (codes "total_parts", number (pos k.total_parts))
    ∷ (codes "station1_count", number (pos k.station1_count))
    ∷ (codes "station2_count", number (pos k.station2_count))
    ∷ (codes "throughput_per_hour", fraction k.throughput_per_hour)
    ∷ (codes "avg_cycle_time_s1", fraction k.avg_cycle_time_s1)
    ∷ (codes "avg_cycle_time_s2", fraction k.avg_cycle_time_s2)
    ∷ (codes "current_wip", number (pos k.current_wip))
    ∷ (codes "max_wip", number (pos k.max_wip))
    ∷ (codes "station1_utilization", fraction k.station1_utilization)
    ∷ (codes "station2_utilization", fraction k.station2_utilization)
    ∷ (codes "corner1_utilization", fraction k.corner_utilization.at1)
    ∷ (codes "corner2_utilization", fraction k.corner_utilization.at2)
    ∷ (codes "corner3_utilization", fraction k.corner_utilization.at3)
    ∷ (codes "corner4_utilization", fraction k.corner_utilization.at4)
    ∷ (codes "event_rate_per_minute", fraction k.event_rate_per_minute)
    ∷ (codes "runtime_seconds", fraction (whole k.runtime))
    ∷ (codes "runtime_minutes", fraction (runtime_minutes k))
    ∷ []

real_time_lines : Kpis → List (Text × Value)
unfolding runtime_minutes
real_time_lines k =
    (codes "Throughput", fraction k.throughput_per_hour)
    ∷ (codes "Avg Cycle Time (S1)", fraction k.avg_cycle_time_s1)
    ∷ (codes "Avg Cycle Time (S2)", fraction k.avg_cycle_time_s2)
    ∷ (codes "Current WIP", number (pos k.current_wip))
    ∷ (codes "Max WIP", number (pos k.max_wip))
    ∷ (codes "Station 1 Utilization", fraction k.station1_utilization)
    ∷ (codes "Station 2 Utilization", fraction k.station2_utilization)
    ∷ (codes "Event Rate", fraction k.event_rate_per_minute)
    ∷ (codes "Runtime", fraction (runtime_minutes k))
    ∷ []

-- The labels and values of the report; the second part after the first minute only.
unfoldable pub print_kpis : Kpis → List (Text × Value)
unfolding real_time_lines
print_kpis k =
    (codes "Station 1 processed", number (pos k.station1_count))
    ∷ (codes "Station 2 processed", number (pos k.station2_count))
    ∷ (codes "Total parts", number (pos k.total_parts))
    ∷ (if ltb_ℤ (pos 60_000_000) k.runtime then real_time_lines k else [])
