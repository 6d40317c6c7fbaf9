-- ===== src/Plant/Accounted.antt =====
-- The consumer's counters in every run, and the fusion rate that the monitoring reports.
use circular_manu_system.Base.{
  Option, arith, inl, inr, none, refl, some, suc, zero, ℕ, ◌≡◌, ◌≤◌, ◌⊎◌,
}
use circular_manu_system.Base.Int.{Ratio}
use circular_manu_system.Base.Lists.{lookup}
use circular_manu_system.Base.Text.{text_eq}
use circular_manu_system.Cep.{Stats}
use circular_manu_system.Cep.Accounting.{Balanced, init-Balanced, run_round-Balanced}
use circular_manu_system.Cep.Statistics.{stats_items}
use circular_manu_system.Influx.{InfluxDbWriter}
use circular_manu_system.Influx.Metrics.{fusion_rate, rate}
use circular_manu_system.Logger.Percent.{IsPercent}
use circular_manu_system.Machines.{Config, calls}
use circular_manu_system.Motors.{MotorController}
use circular_manu_system.Plant.{
  Plant, Run, Step, consume, consumes, corner_timer, get_status, here, init, interrupt, interrupts,
  monitor, monitors, next, poll, polls, scan_tag, scans, station_timer,
}

Step-Balanced : {p q : Plant} → Step p q → Balanced p.consumer → Balanced q.consumer
unfolding interrupt poll scan_tag consume monitor
Step-Balanced (interrupts channel t) h = h
Step-Balanced (polls b value t is_pin) h = h
Step-Balanced (scans k simulation reading t) h = h
Step-Balanced {p} (consumes now) h =
    run_round-Balanced calls now p.gpio_queue.items p.mcp_queue.items p.nfc_queue.items p.consumer
      p.machines h
Step-Balanced (monitors now on) h = h
Step-Balanced (station_timer k t now pending) h = h
Step-Balanced (corner_timer k t now pending) h = h

Run-Balanced : {p q : Plant} → Run p q → Balanced p.consumer → Balanced q.consumer
Run-Balanced here h = h
Run-Balanced (next r s) h = Step-Balanced s (Run-Balanced r h)

-- No rate without an event, and a percentage otherwise.
abbrev pub IsRateOf : ℕ → Option Ratio → Type 0
IsRateOf total o = ((total ≡ 0) × (o ≡ none)) ⊎ ((r : Ratio) × (o ≡ some r) × IsPercent r)

rate-IsRateOf : (fused total : ℕ) → fused ≤ total → IsRateOf total (rate fused total)
unfolding rate
rate-IsRateOf fused zero h = inl (refl, refl)
rate-IsRateOf fused (suc n) h = inr (_, refl, ground arith)

fusion_rate-IsRateOf :
    (s : Stats)
    → s.fused_events ≤ s.total_gpio
    → IsRateOf s.total_gpio (fusion_rate (stats_items s))
unfolding fusion_rate lookup text_eq
fusion_rate-IsRateOf s h = rate-IsRateOf s.fused_events s.total_gpio h

-- In every run from the start, the events that are fused, orphaned or pending are at most all
-- events, and the reads that are ghosts or pending at most all reads; and the fusion rate that is
-- computed of the status is absent only if there has been no event, and between 0 and 100 percent
-- otherwise.
pub fusion_rate-IsPercent :
    (config : Config) (motors : MotorController) (writer : Option InfluxDbWriter) (now : ℕ)
    {p : Plant}
    → Run (init config motors writer now) p
    → Balanced p.consumer
      × IsRateOf
          (get_status p).cep_stats.total_gpio
          (fusion_rate (stats_items (get_status p).cep_stats))
unfolding init get_status
fusion_rate-IsPercent config motors writer now {p} r =
    let end = Run-Balanced r (init-Balanced config.fusion_window config.expiry_timeout) in
    (end, fusion_rate-IsRateOf p.consumer.stats (omega (arith, end.of_gpio)))
