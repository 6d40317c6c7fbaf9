-- ===== src/Cep/Keeps.antt =====
-- Properties of the world and of the pending events, over a round of
-- physical_system/cep_consumer.py.
use circular_manu_system.Base.{
  Bool, Bool-cases, List, Option, Option-cases, [], false, if◌then◌else◌, inl, inr, none, refl,
  some, suc, true, ℕ, ◌++◌, ◌∷◌, ◌≡◌,
}
use circular_manu_system.Base.Lists.{All, All-append, All-keep}
use circular_manu_system.Base.Text.{Text}
use circular_manu_system.Cep.{
  Calls, Consumer, Fsm, Pass, consume_events, deliver_event, find_match, fsm_map, fuse_entry,
  fuse_events, fuse_from, fuse_one, hand_over, is_entry_barrier, take_gpio, take_nfc,
}
use circular_manu_system.Cep.Expiry.{
  expire_events, finish_round, is_old, mark_ghosts, mark_orphans, run_round,
}
use circular_manu_system.Cep.Expiry.Kept.{expire_events_lem}
use circular_manu_system.Cep.Fusion.{fuse_events_lem}
use circular_manu_system.Events.{Barrier, FusedEvent, Location, NfcEvent, SensorEvent}

abbrev pub fused_with : SensorEvent → Option Text → FusedEvent
fused_with e part = record {
  timestamp = e.timestamp;
  barrier_id = e.barrier_id;
  part_id = part;
  location = e.location;
}

-- `P` of the world is kept by the calls that the consumer makes for events with `Q`.
pub record Keeps {W : Type 0} (calls : Calls W) (Q : SensorEvent → Type 0) (P : W → Type 0)
    : Type 0 where
  pub processes :
      (e : SensorEvent) (part : Option Text) (fsm : Fsm) (now : ℕ) (w : W)
      → Q e
      → fsm_map e.location.location_type e.location.location_id ≡ some fsm
      → P w
      → P (calls.process_event fsm (fused_with e part) now w)
  pub writes : (b : Barrier) (l : Location) (w : W) → P w → P (calls.write_sensor_event b l w)
  pub logs :
      (part id activity : Text) (now : ℕ) (w : W) → P w → P (calls.log_event part id activity now w)

module _ {W : Type 0} {calls : Calls W} {Q : SensorEvent → Type 0} {P : W → Type 0}
    (k : Keeps calls Q P) where
  deliver_event-Keeps :
      (e : SensorEvent) (part : Option Text) (now : ℕ) (w : W)
      → Q e
      → P w
      → P (deliver_event calls e part now w)
  unfolding deliver_event
  deliver_event-Keeps e part now w q p =
      elim (Option-cases (fsm_map e.location.location_type e.location.location_id)) [
        | inl missing ↦ rw (missing, hand_over) p
        | inr (fsm, found) ↦
            rw (found, hand_over)
              (k.writes e.barrier_id e.location _ (k.processes e part fsm now w q found p))
      ]

  fuse_one-Keeps :
      (window : ℕ) (nfc : List NfcEvent) (i : ℕ) (g : SensorEvent) (now : ℕ) (p : Pass calls)
      → Q g
      → P p.world
      → P (fuse_one calls window nfc i g now p).world
  unfolding fuse_one
  fuse_one-Keeps window nfc i g now p q h = elim (Bool-cases (is_entry_barrier g.barrier_id)) [
    | inl entry ↦ elim (Option-cases (find_match window g 0 nfc)) [
      | inl missing ↦ rw (entry, missing, fuse_one, fuse_entry) h
      | inr ((j, n), found) ↦
          rw (entry, found, fuse_one, fuse_entry)
            (deliver_event-Keeps g (some n.part_id) now p.world q h)
    ]
    | inr other ↦ rw (other, fuse_one) (deliver_event-Keeps g none now p.world q h)
  ]

  fuse_from-Keeps :
      (window : ℕ) (nfc : List NfcEvent) (i : ℕ) (gs : List SensorEvent) (now : ℕ) (p : Pass calls)
      → All Q gs
      → P p.world
      → P (fuse_from calls window nfc i gs now p).world
  unfolding fuse_from
  fuse_from-Keeps window nfc i [] now p qs h = h
  fuse_from-Keeps window nfc i (g ∷ gs) now p qs h =
      fuse_from-Keeps window nfc (suc i) gs now (fuse_one calls window nfc i g now p) qs.1
        (fuse_one-Keeps window nfc i g now p qs.0 h)

  either_way : (b : Bool) (x y : List ℕ × W) → P x.1 → P y.1 → P (if b then x else y).1
  either_way true x y hx hy = hx
  either_way false x y hx hy = hy

  mark_orphans-Keeps :
      (expiry now i : ℕ) (es : List SensorEvent) (acc : List ℕ × W)
      → P acc.1
      → P (mark_orphans calls expiry now i es acc).1
  unfolding mark_orphans
  mark_orphans-Keeps expiry now i [] acc h = h
  mark_orphans-Keeps expiry now i (e ∷ es) (marked, w) h =
      mark_orphans-Keeps expiry now (suc i) es _ (
        either_way (is_old expiry now e.timestamp) (marked ++ i ∷ [], _) (marked, w)
          (k.logs _ _ _ now w h) h)

  mark_ghosts-Keeps :
      (expiry now i : ℕ) (es : List NfcEvent) (acc : List ℕ × W)
      → P acc.1
      → P (mark_ghosts calls expiry now i es acc).1
  unfolding mark_ghosts
  mark_ghosts-Keeps expiry now i [] acc h = h
  mark_ghosts-Keeps expiry now i (e ∷ es) (marked, w) h =
      mark_ghosts-Keeps expiry now (suc i) es _ (
        either_way (is_old expiry now e.timestamp) (marked ++ i ∷ [], _) (marked, w)
          (k.logs _ _ _ now w h) h)

  fuse_events-Keeps :
      (now : ℕ) (c : Consumer) (w : W)
      → All Q c.pending_gpio_events
      → P w
      → P (fuse_events calls now c w).1
  unfolding fuse_events
  fuse_events-Keeps now c w qs h =
      fuse_from-Keeps c.delta_t_fuse c.pending_nfc_events 0 c.pending_gpio_events now _ qs h

  expire_events-Keeps : (now : ℕ) (c : Consumer) (w : W) → P w → P (expire_events calls now c w).1
  unfolding expire_events
  expire_events-Keeps now c w h =
      mark_ghosts-Keeps c.delta_t_expiry now 0 c.pending_nfc_events _
        (mark_orphans-Keeps c.delta_t_expiry now 0 c.pending_gpio_events ([], w) h)

  finish-Keeps : (now : ℕ) (r : Consumer × W × Bool) → P r.1 → P (finish_round calls now r).1
  unfolding finish_round
  finish-Keeps now (c, w, true) h = h
  finish-Keeps now (c, w, false) h = expire_events-Keeps now c w h

  take_gpio-All :
      (es : List SensorEvent) (c : Consumer)
      → All Q es
      → All Q c.pending_gpio_events
      → All Q (take_gpio es c).pending_gpio_events
  unfolding take_gpio
  take_gpio-All [] c qs h = h
  take_gpio-All (e ∷ es) c qs h =
      take_gpio-All es _ qs.1 (All-append Q c.pending_gpio_events (e ∷ []) h (qs.0, tt))

  take_nfc-gpio :
      (es : List NfcEvent) (c : Consumer)
      → (take_nfc es c).pending_gpio_events ≡ c.pending_gpio_events
  unfolding take_nfc
  take_nfc-gpio [] c = refl
  take_nfc-gpio (e ∷ es) c = take_nfc-gpio es _

  consume_events-All :
      (gpio_items mcp_items : List SensorEvent) (nfc_items : List NfcEvent) (c : Consumer)
      → All Q gpio_items
      → All Q mcp_items
      → All Q c.pending_gpio_events
      → All Q (consume_events gpio_items mcp_items nfc_items c).pending_gpio_events
  unfolding consume_events
  consume_events-All gpio_items mcp_items nfc_items c qg qm h =
      rw (take_nfc-gpio nfc_items (take_gpio mcp_items (take_gpio gpio_items c)))
        (take_gpio-All mcp_items _ qm (take_gpio-All gpio_items c qg h))

  -- The world after a round.
  pub run_round-Keeps :
      (now : ℕ) (gpio_items mcp_items : List SensorEvent) (nfc_items : List NfcEvent) (c : Consumer)
      (w : W)
      → All Q gpio_items
      → All Q mcp_items
      → All Q c.pending_gpio_events
      → P w
      → P (run_round calls now gpio_items mcp_items nfc_items c w).1
  unfolding run_round
  run_round-Keeps now gpio_items mcp_items nfc_items c w qg qm qc h =
      let c' = consume_events gpio_items mcp_items nfc_items c in
      let pending = consume_events-All gpio_items mcp_items nfc_items c qg qm qc in
      finish-Keeps now (fuse_events calls now c' w) (fuse_events-Keeps now c' w pending h)

  finish-All :
      (now : ℕ) (r : Consumer × W × Bool)
      → All Q r.0.pending_gpio_events
      → All Q (finish_round calls now r).0.pending_gpio_events
  unfolding finish_round
  finish-All now (c, w, true) h = h
  finish-All now (c, w, false) h =
      rw (expire_events_lem calls now c w).0 (All-keep Q _ c.pending_gpio_events h)

  -- The events that are pending after a round.
  pub run_round-All :
      (now : ℕ) (gpio_items mcp_items : List SensorEvent) (nfc_items : List NfcEvent) (c : Consumer)
      (w : W)
      → All Q gpio_items
      → All Q mcp_items
      → All Q c.pending_gpio_events
      → All Q (run_round calls now gpio_items mcp_items nfc_items c w).0.pending_gpio_events
  unfolding run_round
  run_round-All now gpio_items mcp_items nfc_items c w qg qm qc =
      let c' = consume_events gpio_items mcp_items nfc_items c in
      let pending = consume_events-All gpio_items mcp_items nfc_items c qg qm qc in
      finish-All now (fuse_events calls now c' w)
        (rw (fuse_events_lem calls now c' w).1 (All-keep Q _ c'.pending_gpio_events pending))
