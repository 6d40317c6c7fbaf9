-- ===== src/Logger/Percent.antt =====
-- The utilizations that `get_kpis` reports, over a history of calls of `log_event` whose times do
-- not go back.
use circular_manu_system.Base.{List, arith, ℕ, ◌*◌}
use circular_manu_system.Base.Int.{Ratio, pos, sub_ℕ, times, ◌≤ℤ◌}
use circular_manu_system.Base.Quad.{Corner, corner1, corner2, corner3, corner4, get}
use circular_manu_system.Logger.{Busy, DataLogger, init}
use circular_manu_system.Logger.BusyTimes.{Within, busy_time-Within}
use circular_manu_system.Logger.History.{Entry, log_all}
use circular_manu_system.Logger.Kpis.{busy_time, get_kpis, utilization}
use circular_manu_system.Logger.Within.{AllWithin, Ordered, init-AllWithin, log_all-AllWithin}

-- Between 0 and 100 percent.
abbrev pub IsPercent : Ratio → Type 0
IsPercent r = (pos 0 ≤ℤ r.numerator) × (r.numerator ≤ℤ pos (100 * r.denominator))

utilization-IsPercent :
    (start now : ℕ) (b : Busy)
    → Within start now b
    → IsPercent (utilization (busy_time now b) (sub_ℕ now start))
unfolding utilization times
utilization-IsPercent start now b h = ground (arith, busy_time-Within start now b h)

corner_kpi-IsPercent :
    (now : ℕ) (d : DataLogger) (c : Corner)
    → AllWithin now d
    → IsPercent (get (get_kpis now d).corner_utilization c)
unfolding get_kpis
corner_kpi-IsPercent now d corner1 h =
    utilization-IsPercent d.system_start_time now (get d.corner_states corner1)
      (h.within_corner corner1)
corner_kpi-IsPercent now d corner2 h =
    utilization-IsPercent d.system_start_time now (get d.corner_states corner2)
      (h.within_corner corner2)
corner_kpi-IsPercent now d corner3 h =
    utilization-IsPercent d.system_start_time now (get d.corner_states corner3)
      (h.within_corner corner3)
corner_kpi-IsPercent now d corner4 h =
    utilization-IsPercent d.system_start_time now (get d.corner_states corner4)
      (h.within_corner corner4)

-- After any history of calls of log_event on a new data logger, if the clock never goes back, from
-- the start over each call to the report, then the utilizations that get_kpis reports of the two
-- stations and the four corners are between 0 and 100 percent.
pub get_kpis-IsPercent :
    (start now : ℕ) (es : List Entry)
    → Ordered start es now
    → let k = get_kpis now (log_all es (init start)) in
      IsPercent k.station1_utilization
      × IsPercent k.station2_utilization
      × ((c : Corner) → IsPercent (get k.corner_utilization c))
unfolding get_kpis
get_kpis-IsPercent start now es o =
    let d = log_all es (init start) in
    let h = log_all-AllWithin start now es (init start) o (init-AllWithin start) in
    (
      utilization-IsPercent d.system_start_time now d.state_s1 h.within1,
      utilization-IsPercent d.system_start_time now d.state_s2 h.within2,
      λ c. corner_kpi-IsPercent now d c h,
    )
