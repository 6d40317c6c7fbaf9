-- ===== src/Cep/Sole.antt =====
-- Rounds of the consumer in which an event that is no entry arrives, or two that a pin stands for, and
-- nothing is pending.
use mathlib.Core.Path.{subst}
use circular_manu_system.Base.{[], false, none, refl, sym, ℕ, ◌+◌, ◌∷◌, ◌≡◌}
use circular_manu_system.Cep.{
  Calls, Consumer, consume_events, delete_at, delete_each, delete_marked, deliver_event,
  fuse_events, fuse_from, fuse_one, insert_down, is_entry_barrier,
}
use circular_manu_system.Cep.Expiry.{expire_events, mark_ghosts, mark_orphans, run_round}
use circular_manu_system.Cep.Lone.{holding}
use circular_manu_system.Events.{SensorEvent}

-- What such a round leaves: the given world and no pending event.
pub record Delivers {W : Type 0} (world_after : W) (c : Consumer) (r : Consumer × W) : Type 0 where
  pub world : r.1 ≡ world_after
  pub gpio : r.0.pending_gpio_events ≡ []
  pub nfc : r.0.pending_nfc_events ≡ []
  pub window : r.0.delta_t_fuse ≡ c.delta_t_fuse

module _ {W : Type 0} (calls : Calls W) where
  -- The events are delivered at once and in order, with no part.
  abbrev pub one : ℕ → SensorEvent → W → W
  one now e w = deliver_event calls e none now w

  abbrev pub both : ℕ → SensorEvent → SensorEvent → W → W
  both now e f w = one now f (one now e w)

  held_one :
      (now : ℕ) (e : SensorEvent) (c : Consumer) (w : W)
      → is_entry_barrier e.barrier_id ≡ false
      → Delivers (one now e w) c (run_round calls now [] [] [] (holding (e ∷ []) c) w)
  unfolding run_round consume_events fuse_events fuse_from fuse_one delete_marked delete_at
      expire_events mark_orphans mark_ghosts insert_down
  held_one now e c w other = record {
    world = rw other refl;
    gpio = rw other refl;
    nfc = rw other refl;
    window = rw other refl;
  }

  held_both :
      (now : ℕ) (e f : SensorEvent) (c : Consumer) (w : W)
      → is_entry_barrier e.barrier_id ≡ false
      → is_entry_barrier f.barrier_id ≡ false
      → Delivers (both now e f w) c (run_round calls now [] [] [] (holding (e ∷ f ∷ []) c) w)
  unfolding run_round consume_events fuse_events fuse_from fuse_one delete_marked delete_at
      delete_each expire_events mark_orphans mark_ghosts insert_down
  held_both now e f c w other also = record {
    world = rw (other, also) refl;
    gpio = rw (other, also) refl;
    nfc = rw (other, also) refl;
    window = rw (other, also) refl;
  }

  held : {c : Consumer} → c.pending_gpio_events ≡ [] → c.pending_nfc_events ≡ [] → holding [] c ≡ c
  held {c} gpio nfc =
      λ i. record c { pending_gpio_events = sym gpio i; pending_nfc_events = sym nfc i }

  abbrev counted : Consumer → Consumer
  counted c = record c { stats = record c.stats { total_gpio = c.stats.total_gpio + 1 } }

  from_none :
      (now : ℕ) (e f : SensorEvent) (c : Consumer) (w : W)
      → is_entry_barrier e.barrier_id ≡ false
      → Delivers (one now e w) (holding [] c) (run_round calls now (e ∷ []) [] [] (holding [] c) w)
        × Delivers
            (one now e w)
            (holding [] c)
            (run_round calls now [] (e ∷ []) [] (holding [] c) w)
        × (is_entry_barrier f.barrier_id ≡ false
            → Delivers
                (both now e f w)
                (holding [] c)
                (run_round calls now (e ∷ f ∷ []) [] [] (holding [] c) w))
  unfolding run_round consume_events
  from_none now e f c w other =
      let d = held_one now e (counted c) w other in
      (
        record { world = d.world; gpio = d.gpio; nfc = d.nfc; window = d.window },
        record { world = d.world; gpio = d.gpio; nfc = d.nfc; window = d.window },
        λ also.
            let b = held_both now e f (counted (counted c)) w other also in
            record { world = b.world; gpio = b.gpio; nfc = b.nfc; window = b.window },
      )

  pub interrupt-Delivers :
      (now : ℕ) (e : SensorEvent) (c : Consumer) (w : W)
      → is_entry_barrier e.barrier_id ≡ false
      → c.pending_gpio_events ≡ []
      → c.pending_nfc_events ≡ []
      → Delivers (one now e w) c (run_round calls now (e ∷ []) [] [] c w)
  interrupt-Delivers now e c w other gpio nfc =
      subst (λ d. Delivers (one now e w) d (run_round calls now (e ∷ []) [] [] d w)) (held gpio nfc)
        (from_none now e e c w other).0

  pub poll-Delivers :
      (now : ℕ) (e : SensorEvent) (c : Consumer) (w : W)
      → is_entry_barrier e.barrier_id ≡ false
      → c.pending_gpio_events ≡ []
      → c.pending_nfc_events ≡ []
      → Delivers (one now e w) c (run_round calls now [] (e ∷ []) [] c w)
  poll-Delivers now e c w other gpio nfc =
      subst (λ d. Delivers (one now e w) d (run_round calls now [] (e ∷ []) [] d w)) (held gpio nfc)
        (from_none now e e c w other).1

  pub both-Deliver :
      (now : ℕ) (e f : SensorEvent) (c : Consumer) (w : W)
      → is_entry_barrier e.barrier_id ≡ false
      → is_entry_barrier f.barrier_id ≡ false
      → c.pending_gpio_events ≡ []
      → c.pending_nfc_events ≡ []
      → Delivers (both now e f w) c (run_round calls now (e ∷ f ∷ []) [] [] c w)
  both-Deliver now e f c w other also gpio nfc =
      subst (λ d. Delivers (both now e f w) d (run_round calls now (e ∷ f ∷ []) [] [] d w))
        (held gpio nfc) ((from_none now e f c w other).2 also)
