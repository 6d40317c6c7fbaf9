-- ===== src/Cep/Expiry.antt =====
-- `_expire_events` of the consumer, and the body of the loop of `run`.
pub mod Kept
use circular_manu_system.Base.{
  Bool, List, [], false, if◌then◌else◌, ltb, suc, true, ℕ, ◌++◌, ◌+◌, ◌||◌, ◌∷◌,
}
use circular_manu_system.Base.Lists.{length}
use circular_manu_system.Base.Text.{Text, codes}
use circular_manu_system.Cep.{Calls, Consumer, consume_events, delete_marked, fuse_events}
use circular_manu_system.Events.{Location, NfcEvent, SensorEvent}
use circular_manu_system.Events.Names.{name}
use circular_manu_system.Influx.{digit, type_name}
use circular_manu_system.Workers.Stopping.{left}

-- `age > DELTA_T_EXPIRY`, with no difference that could fall below 0.
abbrev pub is_old : ℕ → ℕ → ℕ → Bool
is_old expiry now timestamp = ltb (timestamp + expiry) now

-- `f"{location_type}{location_id}"`
unfoldable pub location_text : Location → Text
location_text l = type_name l.location_type ++ digit l.location_id

module _ {W : Type 0} (calls : Calls W) where
  unfoldable pub report_orphan : SensorEvent → ℕ → W → W
  report_orphan e now w =
      calls.log_event (codes "UNKNOWN") (location_text e.location)
        (codes "ERROR_ORPHAN_" ++ name e.barrier_id) now w

  unfoldable pub report_ghost : NfcEvent → ℕ → W → W
  report_ghost e now w =
      calls.log_event e.part_id (codes "S" ++ digit e.station_id) (codes "ERROR_GHOST_NFC") now w

  -- The first loop: the marked positions, and the world with each orphan reported.
  unfoldable pub mark_orphans : ℕ → ℕ → ℕ → List SensorEvent → List ℕ × W → List ℕ × W
  unfolding report_orphan
  mark_orphans expiry now i [] acc = acc
  mark_orphans expiry now i (e ∷ es) (marked, w) = mark_orphans expiry now (suc i) es (
      if is_old expiry now e.timestamp
      then (marked ++ i ∷ [], report_orphan e now w)
      else (marked, w))

  unfoldable pub mark_ghosts : ℕ → ℕ → ℕ → List NfcEvent → List ℕ × W → List ℕ × W
  unfolding report_ghost
  mark_ghosts expiry now i [] acc = acc
  mark_ghosts expiry now i (e ∷ es) (marked, w) = mark_ghosts expiry now (suc i) es (
      if is_old expiry now e.timestamp
      then (marked ++ i ∷ [], report_ghost e now w)
      else (marked, w))

  -- `_expire_events`, and whether a `del` raises an `IndexError`.
  unfoldable pub expire_events : ℕ → Consumer → W → Consumer × W × Bool
  expire_events now c w =
      let (orphans, w1) = mark_orphans c.delta_t_expiry now 0 c.pending_gpio_events ([], w) in
      let (kept, gpio_error) = delete_marked orphans c.pending_gpio_events in
      let (ghosts, w2) = mark_ghosts c.delta_t_expiry now 0 c.pending_nfc_events ([], w1) in
      let (left, nfc_error) = delete_marked ghosts c.pending_nfc_events in
      (
        record c {
          pending_gpio_events = kept;
          pending_nfc_events = left;
          stats = record c.stats {
            orphaned_gpio = c.stats.orphaned_gpio + length orphans;
            ghost_nfc = c.stats.ghost_nfc + length ghosts;
          };
        },
        w2,
        gpio_error || nfc_error,
      )

  -- An exception in the fusion skips the expiry.
  unfoldable pub finish_round : ℕ → Consumer × W × Bool → Consumer × W
  finish_round now (c, w, true) = (c, w)
  finish_round now (c, w, false) = let (c', w', raised) = expire_events now c w in (c', w')

  -- One round of the loop of `run`.
  unfoldable pub run_round :
      ℕ → List SensorEvent → List SensorEvent → List NfcEvent → Consumer → W → Consumer × W
  unfolding finish_round
  run_round now gpio_items mcp_items nfc_items c w =
      finish_round now (fuse_events calls now (consume_events gpio_items mcp_items nfc_items c) w)
