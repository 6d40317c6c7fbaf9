-- ===== src/Cep/Accounting.antt =====
-- What the counters of physical_system/cep_consumer.py count, over rounds of its loop.
use circular_manu_system.Base.{
  Bool, List, Option-cases, [], ap, arith, false, inl, inr, not, refl, some, suc, true, zero, ℕ,
  ◌+◌, ◌∷◌, ◌≡◌, ◌≤◌,
}
use circular_manu_system.Base.Lists.{keep, length, length-append}
use circular_manu_system.Cep.{
  Calls, Consumer, consume_events, delete_at, delete_each, delete_marked, find_match, fuse_events,
  init, sort_down, take_gpio, take_nfc,
}
use circular_manu_system.Cep.Expiry.{expire_events, finish_round, run_round}
use circular_manu_system.Cep.Expiry.Kept.{expire_events_lem}
use circular_manu_system.Cep.Fusion.{chosen, chosen_one, fuse_events_lem, handled}
use circular_manu_system.Events.{NfcEvent, SensorEvent}

pub record Balanced (c : Consumer) : Type 0 where
  pub of_gpio :
      c.stats.fused_events + c.stats.orphaned_gpio + length c.pending_gpio_events
      ≤ c.stats.total_gpio
  pub of_nfc : c.stats.ghost_nfc + length c.pending_nfc_events ≤ c.stats.total_nfc

pub init-Balanced : (window expiry : ℕ) → Balanced (init window expiry)
unfolding init
init-Balanced window expiry = record { of_gpio = omega arith; of_nfc = omega arith }

take_gpio-Balanced : (es : List SensorEvent) (c : Consumer) → Balanced c → Balanced (take_gpio es c)
unfolding take_gpio
take_gpio-Balanced [] c h = h
take_gpio-Balanced (e ∷ es) c h = take_gpio-Balanced es _ (record {
  of_gpio = omega (arith, length-append c.pending_gpio_events (e ∷ []), h.of_gpio);
  of_nfc = h.of_nfc;
})

take_nfc-Balanced : (es : List NfcEvent) (c : Consumer) → Balanced c → Balanced (take_nfc es c)
unfolding take_nfc
take_nfc-Balanced [] c h = h
take_nfc-Balanced (e ∷ es) c h = take_nfc-Balanced es _ (record {
  of_gpio = h.of_gpio;
  of_nfc = omega (arith, length-append c.pending_nfc_events (e ∷ []), h.of_nfc);
})

-- Each chosen read goes with an entry that leaves the list.
chosen-keep :
    (window : ℕ) (nfc : List NfcEvent) (gs : List SensorEvent)
    → length (keep (λ g. not (handled window nfc g)) gs) + length (chosen window nfc gs) ≤ length gs
unfolding keep chosen chosen_one
chosen-keep window nfc [] = omega arith
chosen-keep window nfc (g ∷ gs) = ground (
  arith,
  Option-cases (find_match window g 0 nfc),
  chosen-keep window nfc gs,
  length-append (chosen_one window nfc g) (chosen window nfc gs),
)

module _ {A : Type 0} where
  length-delete_at :
      (i : ℕ) (xs : List A) {ys : List A} → delete_at i xs ≡ some ys → length ys ≤ length xs
  unfolding delete_at
  length-delete_at i [] h = cc
  length-delete_at zero (x ∷ xs) h = ground arith
  length-delete_at (suc i) (x ∷ xs) h = elim (Option-cases (delete_at i xs)) [
    | inl missing ↦ cc (missing)
    | inr (rest, found) ↦ ground (arith, length-delete_at i xs found)
  ]

  length-delete_each : (is : List ℕ) (xs : List A) → length (delete_each is xs).0 ≤ length xs
  unfolding delete_each
  length-delete_each [] xs = omega arith
  length-delete_each (i ∷ is) xs = elim (Option-cases (delete_at i xs)) [
    | inl missing ↦ rw missing (omega arith)
    | inr (rest, found) ↦
        rw found (omega (arith, length-delete_each is rest, length-delete_at i xs found))
  ]

  length-delete_marked : (is : List ℕ) (xs : List A) → length (delete_marked is xs).0 ≤ length xs
  unfolding delete_marked
  length-delete_marked is xs = length-delete_each (sort_down is) xs

module _ {W : Type 0} (calls : Calls W) where
  -- The counters that a fusion pass leaves alone.
  fuse_events-counters :
      (now : ℕ) (c : Consumer) (w : W)
      → let s = (fuse_events calls now c w).0.stats in
        (s.orphaned_gpio ≡ c.stats.orphaned_gpio)
        × (s.ghost_nfc ≡ c.stats.ghost_nfc)
        × (s.total_gpio ≡ c.stats.total_gpio)
        × (s.total_nfc ≡ c.stats.total_nfc)
  unfolding fuse_events
  fuse_events-counters now c w = (refl, refl, refl, refl)

  fuse_events-Balanced :
      (now : ℕ) (c : Consumer) (w : W) → Balanced c → Balanced (fuse_events calls now c w).0
  fuse_events-Balanced now c w h =
      let window = c.delta_t_fuse in
      let nfc = c.pending_nfc_events in
      let gs = c.pending_gpio_events in
      let (world, gpio, left, fused, raised) = fuse_events_lem calls now c w in
      let (orphaned, ghosts, total_gpio, total_nfc) = fuse_events-counters now c w in
      let shorter = length-delete_marked (chosen window nfc gs) nfc in
      record {
        of_gpio = omega (arith, chosen-keep window nfc gs, ap length gpio, h.of_gpio);
        of_nfc = omega (arith, shorter, ap length left, h.of_nfc);
      }

  expire_events-counters :
      (now : ℕ) (c : Consumer) (w : W)
      → let s = (expire_events calls now c w).0.stats in
        (s.fused_events ≡ c.stats.fused_events)
        × (s.total_gpio ≡ c.stats.total_gpio)
        × (s.total_nfc ≡ c.stats.total_nfc)
  unfolding expire_events
  expire_events-counters now c w = (refl, refl, refl)

  expire_events-Balanced :
      (now : ℕ) (c : Consumer) (w : W) → Balanced c → Balanced (expire_events calls now c w).0
  expire_events-Balanced now c w h =
      let (gpio, nfc, orphaned, ghosts, world, raised) = expire_events_lem calls now c w in
      let (fused, total_gpio, total_nfc) = expire_events-counters now c w in
      record {
        of_gpio = omega (arith, orphaned, h.of_gpio);
        of_nfc = omega (arith, ghosts, h.of_nfc);
      }

  finish_round-Balanced :
      (now : ℕ) (r : Consumer × W × Bool) → Balanced r.0 → Balanced (finish_round calls now r).0
  unfolding finish_round
  finish_round-Balanced now (c, w, true) h = h
  finish_round-Balanced now (c, w, false) h = expire_events-Balanced now c w h

  -- A round of the consumer keeps the balance, whether or not the fusion raises.
  pub run_round-Balanced :
      (now : ℕ) (gpio_items mcp_items : List SensorEvent) (nfc_items : List NfcEvent) (c : Consumer)
      (w : W)
      → Balanced c
      → Balanced (run_round calls now gpio_items mcp_items nfc_items c w).0
  unfolding run_round consume_events
  run_round-Balanced now gpio_items mcp_items nfc_items c w h = finish_round-Balanced now _ (
      fuse_events-Balanced now _ w (
        take_nfc-Balanced nfc_items _
          (take_gpio-Balanced mcp_items _ (take_gpio-Balanced gpio_items c h))))
