-- ===== src/Plant/Monitoring.antt =====
-- What a round of the monitoring loop writes to InfluxDB.
use mathlib.Core.List.{append-nil, append_assoc}
use circular_manu_system.Base.{
  Bool-cases, List, Option, [], ap, if◌then◌else◌, inl, inr, none, refl, some, sym, true, ℕ, ◌&&◌,
  ◌++◌, ◌∙◌, ◌∷◌, ◌≡◌,
}
use circular_manu_system.Base.Int.{pos}
use circular_manu_system.Base.Lists.{length}
use circular_manu_system.Base.Text.{Text, codes}
use circular_manu_system.Cep.Statistics.{stats_items}
use circular_manu_system.Influx.{
  InfluxDbWriter, Point, Value, number, when_present, write, write_system_status,
}
use circular_manu_system.Influx.Metrics.{
  cep_point, kpi_points, write_all, write_cep_stats, write_kpis, write_some,
}
use circular_manu_system.Logger.Kpis.{get_kpis}
use circular_manu_system.Logger.Report.{kpi_items}
use circular_manu_system.Machines.{on_shop}
use circular_manu_system.Plant.{Plant, Status, get_status, monitor, monitoring, report_status}
use circular_manu_system.Shop.{to_influx}
use circular_manu_system.Station.Names.{status_busy-one}
use circular_manu_system.Station.Status.{station_status}

-- The point that `write_system_status` makes of a status in which no state is `'IDLE'`.
abbrev always_busy : Status → Point
always_busy s = record {
  measurement = codes "system_status";
  time = none;
  tags = [];
  fields =
      (codes "queue_gpio", number (pos s.gpio_size))
      ∷ (codes "queue_mcp", number (pos s.mcp_size))
      ∷ (codes "queue_nfc", number (pos s.nfc_size))
      ∷ (codes "station1_busy", number (pos 1))
      ∷ (codes "station2_busy", number (pos 1))
      ∷ (codes "system_healthy", number (pos 1))
      ∷ [];
}

-- One point for each KPI, then the status, then the statistics.
abbrev pub round_points : ℕ → Plant → List Point
round_points now p =
    kpi_points now (kpi_items (get_kpis now p.machines.shop.data_logger))
    ++ always_busy (get_status p) ∷ cep_point (stats_items p.consumer.stats) ∷ []

one_by_one :
    (ps qs : List Point) (w : InfluxDbWriter)
    → write_all qs (write_all ps w) ≡ write_all (ps ++ qs) w
unfolding write_all
one_by_one ps qs w = elim (Bool-cases (w.connected && w.accepting)) [
  | inl on ↦ rw (on, on, append_assoc) refl
  | inr off ↦ rw (off, off) refl
]

write_one : (p : Point) (w : InfluxDbWriter) → write p w ≡ write_all (p ∷ []) w
unfolding write write_all
write_one p w = refl

nothing_to_write : (w : InfluxDbWriter) → write_all [] w ≡ w
unfolding write_all
nothing_to_write w = elim (Bool-cases (w.connected && w.accepting)) [
  | inl on ↦ rw (on, append-nil) refl
  | inr off ↦ rw off refl
]

write_some_lem : (ps : List Point) (w : InfluxDbWriter) → write_some ps w ≡ write_all ps w
unfolding write_some
write_some_lem [] w = sym (nothing_to_write w)
write_some_lem (p ∷ ps) w = refl

write_kpis_lem :
    (now : ℕ) (kpis : List (Text × Value)) (w : InfluxDbWriter)
    → write_kpis now kpis w ≡ write_all (kpi_points now kpis) w
unfolding write_kpis
write_kpis_lem now kpis w = write_some_lem (kpi_points now kpis) w

report_status_lem :
    (p : Plant) (w : InfluxDbWriter)
    → report_status (get_status p) w ≡ write (always_busy (get_status p)) w
unfolding report_status write_system_status get_status station_status
report_status_lem p w =
    rw (status_busy-one p.machines.station1.state, status_busy-one p.machines.station2.state) refl

monitoring_lem :
    (now : ℕ) (p : Plant) (w : InfluxDbWriter)
    → monitoring now p w ≡ write_all (round_points now p) w
unfolding monitoring write_cep_stats
monitoring_lem now p w =
    let kpis = kpi_points now (kpi_items (get_kpis now p.machines.shop.data_logger)) in
    let busy = always_busy (get_status p) in
    let stats = cep_point (stats_items p.consumer.stats) in
    let kpis_written =
      write_kpis_lem now (kpi_items (get_kpis now p.machines.shop.data_logger)) w in
    let busy_written =
      report_status_lem p _
      ∙ write_one busy _
      ∙ ap (write_all (busy ∷ [])) kpis_written
      ∙ one_by_one kpis (busy ∷ []) w in
    write_one stats _
    ∙ ap (write_all (stats ∷ [])) busy_written
    ∙ one_by_one (kpis ++ busy ∷ []) (stats ∷ []) w
    ∙ ap (λ ps. write_all ps w) (append_assoc kpis (busy ∷ []) (stats ∷ []))

abbrev pub with_writer : Option InfluxDbWriter → Plant → Plant
with_writer w p = record p {
  machines = record p.machines { shop = record p.machines.shop { influx_writer = w } };
}

round_points-length : (now : ℕ) (p : Plant) → length (round_points now p) ≡ 19
unfolding kpi_points kpi_items
round_points-length now p = refl

write_all_connected :
    (ps : List Point) (w : InfluxDbWriter)
    → w.connected ≡ true
    → write_all ps w ≡ record w { points = if w.accepting then w.points ++ ps else w.points }
unfolding write_all
write_all_connected ps w on = elim (Bool-cases w.accepting) [
  | inl yields ↦ rw (on, yields) refl
  | inr refuses ↦ rw (on, refuses) refl
]

-- With a connected InfluxDB writer, a round of the monitoring changes nothing but the writer's
-- points: if the client accepts, it adds in this order one point for each KPI, a status that calls
-- both stations busy whatever their states, and the consumer's statistics, 19 points in all; and
-- none if it does not.
pub monitor_lem :
    (now : ℕ) (p : Plant) (w : InfluxDbWriter)
    → p.machines.shop.influx_writer ≡ some w
    → w.connected ≡ true
    → (monitor now p
        ≡ with_writer
            (some (record w {
              points = if w.accepting then w.points ++ round_points now p else w.points;
            }))
            p)
      × (length (round_points now p) ≡ 19)
unfolding monitor on_shop to_influx
monitor_lem now p w there on =
    let written = monitoring_lem now p w ∙ write_all_connected (round_points now p) w on in
    (
      ap (λ o. with_writer (when_present (monitoring now p) o) p) there
          ∙ ap (λ v. with_writer (some v) p) written,
      round_points-length now p,
    )
