-- ===== src/Cep/Expiry/Kept.antt =====
-- What `_expire_events` reports and keeps.
use mathlib.Core.List.{append-nil, append_assoc}
use circular_manu_system.Base.{
  Bool-cases, List, [], arith, false, if◌then◌else◌, inl, inr, not, suc, ℕ, ◌++◌, ◌+◌, ◌∷◌, ◌≡◌,
}
use circular_manu_system.Base.Lists.{keep, length}
use circular_manu_system.Cep.{Calls, Consumer}
use circular_manu_system.Cep.Expiry.{
  expire_events, is_old, mark_ghosts, mark_orphans, report_ghost, report_orphan,
}
use circular_manu_system.Cep.Removal.{delete_marked-marks, length-marks, marks}
use circular_manu_system.Events.{NfcEvent, SensorEvent}

module _ {W : Type 0} (calls : Calls W) where
  -- One error is logged for each event that is too old, in order.
  pub report_orphans : ℕ → ℕ → List SensorEvent → W → W
  report_orphans expiry now [] w = w
  report_orphans expiry now (e ∷ es) w =
      report_orphans expiry now es
        (if is_old expiry now e.timestamp then report_orphan calls e now w else w)

  pub report_ghosts : ℕ → ℕ → List NfcEvent → W → W
  report_ghosts expiry now [] w = w
  report_ghosts expiry now (e ∷ es) w =
      report_ghosts expiry now es
        (if is_old expiry now e.timestamp then report_ghost calls e now w else w)

  mark_orphans_lem :
      (expiry now i : ℕ) (es : List SensorEvent) (marked : List ℕ) (w : W)
      → mark_orphans calls expiry now i es (marked, w) ≡ (
        marked ++ marks (λ e. is_old expiry now e.timestamp) i es,
        report_orphans expiry now es w,
      )
  unfolding mark_orphans marks report_orphans report_orphan
  mark_orphans_lem expiry now i [] marked w = ground (arith, append-nil marked)
  mark_orphans_lem expiry now i (e ∷ es) marked w =
      elim (Bool-cases (is_old expiry now e.timestamp)) [
        | inl old ↦ ground (
          arith,
          mark_orphans_lem expiry now (suc i) es (marked ++ i ∷ []) (report_orphan calls e now w),
          append_assoc marked (i ∷ [])
              (marks (λ (e : SensorEvent). is_old expiry now e.timestamp) (suc i) es),
        )
        | inr fresh ↦ ground (arith, mark_orphans_lem expiry now (suc i) es marked w)
      ]

  mark_ghosts_lem :
      (expiry now i : ℕ) (es : List NfcEvent) (marked : List ℕ) (w : W)
      → mark_ghosts calls expiry now i es (marked, w)
        ≡ (marked ++ marks (λ e. is_old expiry now e.timestamp) i es, report_ghosts expiry now es w)
  unfolding mark_ghosts marks report_ghosts report_ghost
  mark_ghosts_lem expiry now i [] marked w = ground (arith, append-nil marked)
  mark_ghosts_lem expiry now i (e ∷ es) marked w =
      elim (Bool-cases (is_old expiry now e.timestamp)) [
        | inl old ↦ ground (
          arith,
          mark_ghosts_lem expiry now (suc i) es (marked ++ i ∷ []) (report_ghost calls e now w),
          append_assoc marked (i ∷ [])
              (marks (λ (e : NfcEvent). is_old expiry now e.timestamp) (suc i) es),
        )
        | inr fresh ↦ ground (arith, mark_ghosts_lem expiry now (suc i) es marked w)
      ]

  -- An expiry pass keeps exactly the events and the reads that are not too old, in their order;
  -- what it adds to the two counters is what leaves the two lists; it reports the old events and
  -- then the old reads in order; and it raises nothing.
  pub expire_events_lem :
      (now : ℕ) (c : Consumer) (w : W)
      → ((expire_events calls now c w).0.pending_gpio_events
          ≡ keep (λ e. not (is_old c.delta_t_expiry now e.timestamp)) c.pending_gpio_events)
        × ((expire_events calls now c w).0.pending_nfc_events
            ≡ keep (λ e. not (is_old c.delta_t_expiry now e.timestamp)) c.pending_nfc_events)
        × ((expire_events calls now c w).0.stats.orphaned_gpio
              + length (expire_events calls now c w).0.pending_gpio_events
            ≡ c.stats.orphaned_gpio + length c.pending_gpio_events)
        × ((expire_events calls now c w).0.stats.ghost_nfc
              + length (expire_events calls now c w).0.pending_nfc_events
            ≡ c.stats.ghost_nfc + length c.pending_nfc_events)
        × ((expire_events calls now c w).1
            ≡ report_ghosts c.delta_t_expiry now c.pending_nfc_events
                (report_orphans c.delta_t_expiry now c.pending_gpio_events w))
        × ((expire_events calls now c w).2 ≡ false)
  unfolding expire_events
  expire_events_lem now c w =
      let old_gpio = λ (e : SensorEvent). is_old c.delta_t_expiry now e.timestamp in
      let old_nfc = λ (e : NfcEvent). is_old c.delta_t_expiry now e.timestamp in
      ground (
        arith,
        mark_orphans_lem c.delta_t_expiry now 0 c.pending_gpio_events [] w,
        mark_ghosts_lem c.delta_t_expiry now 0 c.pending_nfc_events []
            (report_orphans c.delta_t_expiry now c.pending_gpio_events w),
        delete_marked-marks old_gpio c.pending_gpio_events,
        delete_marked-marks old_nfc c.pending_nfc_events,
        length-marks old_gpio 0 c.pending_gpio_events,
        length-marks old_nfc 0 c.pending_nfc_events,
      )
