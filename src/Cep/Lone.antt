-- ===== src/Cep/Lone.antt =====
-- Rounds of the consumer in which nothing arrives and one entry event is pending, with no read.
use mathlib.Core.Path.{subst}
use circular_manu_system.Base.{
  Bool-cases, List, [], if◌then◌else◌, inl, inr, refl, sym, true, ℕ, ◌+◌, ◌∷◌, ◌≡◌,
}
use circular_manu_system.Cep.{
  Calls, Consumer, consume_events, delete_at, delete_marked, find_match, fuse_events, fuse_from,
  fuse_one, insert_down, is_entry_barrier,
}
use circular_manu_system.Cep.Expiry.{
  expire_events, is_old, mark_ghosts, mark_orphans, report_orphan, run_round,
}
use circular_manu_system.Events.{SensorEvent}

-- The only pending event is `e`, and no read is pending.
pub record Waits (e : SensorEvent) (c : Consumer) : Type 0 where
  pub gpio : c.pending_gpio_events ≡ e ∷ []
  pub nfc : c.pending_nfc_events ≡ []

abbrev pub holding : List SensorEvent → Consumer → Consumer
holding es c = record c { pending_gpio_events = es; pending_nfc_events = [] }

module _ {W : Type 0} (calls : Calls W) where
  -- What a round makes of it: the consumer keeps it while it is not too old, and reports it then.
  pub record Lone (now : ℕ) (e : SensorEvent) (c : Consumer) (w : W) (r : Consumer × W)
      : Type 0 where
    pub world :
        r.1 ≡ (if is_old c.delta_t_expiry now e.timestamp then report_orphan calls e now w else w)
    pub gpio :
        r.0.pending_gpio_events ≡ (if is_old c.delta_t_expiry now e.timestamp then [] else e ∷ [])
    pub nfc : r.0.pending_nfc_events ≡ []
    pub counted :
        r.0.stats.orphaned_gpio
        ≡ c.stats.orphaned_gpio + (if is_old c.delta_t_expiry now e.timestamp then 1 else 0)
    pub expiry : r.0.delta_t_expiry ≡ c.delta_t_expiry

  from_holding :
      (now : ℕ) (e : SensorEvent) (c : Consumer) (w : W)
      → is_entry_barrier e.barrier_id ≡ true
      → Lone now e c w (run_round calls now [] [] [] (holding (e ∷ []) c) w)
  unfolding run_round consume_events fuse_events fuse_from fuse_one find_match delete_marked
      delete_at expire_events mark_orphans mark_ghosts insert_down report_orphan
  from_holding now e c w entry = elim (Bool-cases (is_old c.delta_t_expiry now e.timestamp)) [
    | inl old ↦ record {
      world = rw (entry, old) refl;
      gpio = rw (entry, old) refl;
      nfc = rw entry refl;
      counted = rw (entry, old) refl;
      expiry = rw entry refl;
    }
    | inr fresh ↦ record {
      world = rw (entry, fresh) refl;
      gpio = rw (entry, fresh) refl;
      nfc = rw entry refl;
      counted = rw (entry, fresh) refl;
      expiry = rw entry refl;
    }
  ]

  pub Waits-Lone :
      (now : ℕ) (e : SensorEvent) (c : Consumer) (w : W)
      → is_entry_barrier e.barrier_id ≡ true
      → Waits e c
      → Lone now e c w (run_round calls now [] [] [] c w)
  Waits-Lone now e c w entry h =
      let same : holding (e ∷ []) c ≡ c =
        λ i. record c { pending_gpio_events = sym h.gpio i; pending_nfc_events = sym h.nfc i } in
      subst (λ d. Lone now e c w (run_round calls now [] [] [] d w)) same
        (from_holding now e c w entry)

  -- The round in which the event arrives.
  from_empty :
      (now : ℕ) (e : SensorEvent) (c : Consumer) (w : W)
      → is_entry_barrier e.barrier_id ≡ true
      → Lone now e c w (run_round calls now (e ∷ []) [] [] (holding [] c) w)
  unfolding run_round consume_events
  from_empty now e c w entry =
      let counted = record c.stats { total_gpio = c.stats.total_gpio + 1 } in
      let l = from_holding now e (record c { stats = counted }) w entry in
      record { world = l.world; gpio = l.gpio; nfc = l.nfc; counted = l.counted; expiry = l.expiry }

  pub arrives-Lone :
      (now : ℕ) (e : SensorEvent) (c : Consumer) (w : W)
      → is_entry_barrier e.barrier_id ≡ true
      → c.pending_gpio_events ≡ []
      → c.pending_nfc_events ≡ []
      → Lone now e c w (run_round calls now (e ∷ []) [] [] c w)
  arrives-Lone now e c w entry gpio nfc =
      let same : holding [] c ≡ c =
        λ i. record c { pending_gpio_events = sym gpio i; pending_nfc_events = sym nfc i } in
      subst (λ d. Lone now e c w (run_round calls now (e ∷ []) [] [] d w)) same
        (from_empty now e c w entry)
