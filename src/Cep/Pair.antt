-- ===== src/Cep/Pair.antt =====
-- A round of the consumer in which one entry event and the read that goes with it arrive.
use mathlib.Core.Path.{subst}
use circular_manu_system.Base.{[], refl, some, sym, true, ℕ, ◌+◌, ◌∷◌, ◌≡◌}
use circular_manu_system.Cep.{
  Calls, Consumer, consume_events, delete_at, delete_marked, deliver_event, events_match,
  find_match, fuse_events, fuse_from, fuse_one, insert_down, is_entry_barrier,
}
use circular_manu_system.Cep.Expiry.{expire_events, mark_ghosts, mark_orphans, run_round}
use circular_manu_system.Events.{NfcEvent, SensorEvent}

module _ {W : Type 0} (calls : Calls W) where
  -- The round's result: the event is delivered with the part, and nothing stays pending.
  pub record Fuses (now : ℕ) (e : SensorEvent) (n : NfcEvent) (c : Consumer) (w : W) : Type 0 where
    pub world :
        (run_round calls now (e ∷ []) [] (n ∷ []) c w).1
        ≡ deliver_event calls e (some n.part_id) now w
    pub no_gpio : (run_round calls now (e ∷ []) [] (n ∷ []) c w).0.pending_gpio_events ≡ []
    pub no_nfc : (run_round calls now (e ∷ []) [] (n ∷ []) c w).0.pending_nfc_events ≡ []
    pub counted :
        (run_round calls now (e ∷ []) [] (n ∷ []) c w).0.stats.fused_events
        ≡ c.stats.fused_events + 1

  abbrev at_rest : Consumer → Consumer
  at_rest c = record c { pending_gpio_events = []; pending_nfc_events = [] }

  from_rest :
      (now : ℕ) (e : SensorEvent) (n : NfcEvent) (c : Consumer) (w : W)
      → is_entry_barrier e.barrier_id ≡ true
      → events_match c.delta_t_fuse e n ≡ true
      → Fuses now e n (at_rest c) w
  unfolding run_round consume_events fuse_events fuse_from fuse_one find_match delete_marked
      delete_at expire_events mark_orphans mark_ghosts insert_down
  from_rest now e n c w entry match = record {
    world = rw (entry, match) refl;
    no_gpio = rw (entry, match) refl;
    no_nfc = rw (entry, match) refl;
    counted = rw (entry, match) refl;
  }

  pub pair-Fuses :
      (now : ℕ) (e : SensorEvent) (n : NfcEvent) (c : Consumer) (w : W)
      → is_entry_barrier e.barrier_id ≡ true
      → events_match c.delta_t_fuse e n ≡ true
      → c.pending_gpio_events ≡ []
      → c.pending_nfc_events ≡ []
      → Fuses now e n c w
  pair-Fuses now e n c w entry match gpio nfc =
      let same : at_rest c ≡ c =
        λ i. record c { pending_gpio_events = sym gpio i; pending_nfc_events = sym nfc i } in
      subst (λ d. Fuses now e n d w) same (from_rest now e n c w entry match)
