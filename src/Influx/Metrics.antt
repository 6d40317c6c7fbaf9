-- ===== src/Influx/Metrics.antt =====
-- physical_system/influxdb_writer.py: write_kpis and write_cep_stats.
use mathlib.Core.List.{map}
use circular_manu_system.Base.{
  List, Option, [], if◌then◌else◌, none, some, suc, zero, ℕ, ◌&&◌, ◌*◌, ◌++◌, ◌∷◌,
}
use circular_manu_system.Base.Int.{Ratio, pos, whole}
use circular_manu_system.Base.Lists.{lookup}
use circular_manu_system.Base.Text.{Text, codes}
use circular_manu_system.Influx.{InfluxDbWriter, Point, Value, fraction, number, text, write}

-- `isinstance(value, (int, float))`, and `float(value)`.
unfoldable pub as_float : Value → Option Ratio
as_float (text t) = none
as_float (number n) = some (whole n)
as_float (fraction r) = some r

kpi_point : ℕ → Text → Ratio → Point
kpi_point now kpi_name value = record {
  measurement = codes "manufacturing_kpis";
  time = some now;
  tags = (codes "kpi_name", kpi_name) ∷ [];
  fields = (codes "value", fraction value) ∷ [];
}

point_of : ℕ → Text → Option Ratio → List Point
unfolding kpi_point
point_of now kpi_name none = []
point_of now kpi_name (some value) = kpi_point now kpi_name value ∷ []

-- The loop of `write_kpis` over the items of the dictionary.
unfoldable pub kpi_points : ℕ → List (Text × Value) → List Point
unfolding point_of as_float
kpi_points now [] = []
kpi_points now ((kpi_name, value) ∷ rest) =
    point_of now kpi_name (as_float value) ++ kpi_points now rest

-- `write(record=points)`, under the writer's test and `try`.
unfoldable pub write_all : List Point → InfluxDbWriter → InfluxDbWriter
write_all ps w = if w.connected && w.accepting then record w { points = w.points ++ ps } else w

-- `if points:` before the write
unfoldable pub write_some : List Point → InfluxDbWriter → InfluxDbWriter
write_some [] w = w
write_some (p ∷ ps) w = write_all (p ∷ ps) w

unfoldable pub write_kpis : ℕ → List (Text × Value) → InfluxDbWriter → InfluxDbWriter
unfolding write_some
write_kpis now kpis w = write_some (kpi_points now kpis) w

-- `int(value)` of the statistics, which are counters.
count_field : Text × ℕ → Text × Value
count_field (key, n) = (key, number (pos n))

-- `stats.get(key, 0)`
or_zero : Option ℕ → ℕ
or_zero none = 0
or_zero (some n) = n

-- `(fused / total) * 100`, if `total > 0`.
unfoldable pub rate : ℕ → ℕ → Option Ratio
rate fused zero = none
rate fused (suc n) = some (record { numerator = pos (fused * 100); denominator = suc n })

unfoldable pub fusion_rate : List (Text × ℕ) → Option Ratio
unfolding or_zero rate
fusion_rate stats =
    rate (or_zero (lookup (codes "fused_events") stats))
      (or_zero (lookup (codes "total_gpio") stats))

rate_field : Option Ratio → List (Text × Value)
rate_field none = []
rate_field (some r) = (codes "fusion_rate_pct", fraction r) ∷ []

unfoldable pub cep_point : List (Text × ℕ) → Point
unfolding count_field rate_field
cep_point stats = record {
  measurement = codes "cep_statistics";
  time = none;
  tags = [];
  fields = map count_field stats ++ rate_field (fusion_rate stats);
}

unfoldable pub write_cep_stats : List (Text × ℕ) → InfluxDbWriter → InfluxDbWriter
write_cep_stats stats w = write (cep_point stats) w
