-- ===== src/Plant/Passing.antt =====
-- The barriers of a station after the entry: each interrupt with the round of the consumer after it, and
-- the timer that ends the exit.
use mathlib.Core.Path.{subst}
use circular_manu_system.Base.{List, [], false, refl, some, sym, ℕ, ◌<◌, ◌==◌, ◌∷◌, ◌≡◌}
use circular_manu_system.Base.Text.{Text, codes}
use circular_manu_system.Cep.{is_entry_barrier}
use circular_manu_system.Cep.Sole.{both, both-Deliver, interrupt-Delivers, one}
use circular_manu_system.Corner.{pos_barrier}
use circular_manu_system.Events.{Station}
use circular_manu_system.Logger.Log.{row}
use circular_manu_system.Logger.Tag.{infer_tag}
use circular_manu_system.Machines.{Machines, calls, fire_station, get_station}
use circular_manu_system.Nfc.{hex}
use circular_manu_system.Plant.{Plant, consume, interrupt}
use circular_manu_system.Plant.Entry.{Quiet, entry_pin}
use circular_manu_system.Plant.Interrupts.{
  Settles, exit_items, interrupt_round, process_item, round-Settles,
}
use circular_manu_system.Plant.Leave.{Free, GoesOut, clear-Free, exit-GoesOut}
use circular_manu_system.Plant.Stay.{
  Holds, Logs, arriving, exit_pin, next_corner, passing, process_pin, start-Holds,
}
use circular_manu_system.Sensors.{bounces}
use circular_manu_system.Shop.{Timer}
use circular_manu_system.Station.{
  StationCall, advancing_to_exit, entering, exit_barrier, exit_complete, process_barrier,
  processing, station_id,
}
use circular_manu_system.Station.Cycle.{exit_of, processing_of}

pub other_pins :
    (k : Station)
    → ((process_pin k == entry_pin k) ≡ false)
      × ((exit_pin k == entry_pin k) ≡ false)
      × ((exit_pin k == process_pin k) ≡ false)
other_pins Station.station1 = (refl, refl, refl)
other_pins Station.station2 = (refl, refl, refl)

no_entries :
    (k : Station)
    → (is_entry_barrier (process_barrier k) ≡ false)
      × (is_entry_barrier (exit_barrier k) ≡ false)
      × (is_entry_barrier (pos_barrier (next_corner k)) ≡ false)
no_entries Station.station1 = (refl, refl, refl)
no_entries Station.station2 = (refl, refl, refl)

-- From any plant, the process barrier and the round after it.
pub work-Holds :
    (k : Station) (part : Text) (at now : ℕ) (p : Plant)
    → Quiet p
    → bounces p.sensors (process_pin k) at ≡ false
    → Holds k part entering [] (get_station k p.machines)
    → let q = consume now (interrupt (process_pin k) at p) in
      Holds k part processing
        (processing_of (get_station k p.machines) now ∷ [])
        (get_station k q.machines)
      × Logs
          (row now (station_id k) part (codes "PROCESS_START") (codes "START"))
          p.machines
          q.machines
      × Settles (process_pin k) p q
work-Holds k part at now p h crossed held =
    let e = passing (process_barrier k) k at in
    let (machines, quiet, _) =
      interrupt_round (process_pin k) at now (e ∷ []) (one calls now e p.machines) p h
        (process_item k at p crossed h.gpio)
        (interrupt-Delivers calls now e p.consumer p.machines (no_entries k).0 h.pending_gpio
          h.pending_nfc) in
    subst
      (λ m.
        Holds k part processing (processing_of (get_station k p.machines) now ∷ [])
          (get_station k m)
        × Logs (row now (station_id k) part (codes "PROCESS_START") (codes "START")) p.machines m
        × Settles (process_pin k) p (consume now (interrupt (process_pin k) at p)))
      (sym machines)
      (
        (start-Holds k part at now p.machines held).0,
        (start-Holds k part at now p.machines held).1,
        round-Settles (process_pin k) at now p quiet,
      )

-- From any plant, the exit barrier and the round after it.
pub leave-GoesOut :
    (k : Station) (part : Text) (at now : ℕ) (p : Plant)
    → Quiet p
    → bounces p.sensors (exit_pin k) at ≡ false
    → 1 < p.gpio_queue.maxsize
    → Holds k part advancing_to_exit [] (get_station k p.machines)
    → let q = consume now (interrupt (exit_pin k) at p) in
      GoesOut k part (exit_of (get_station k p.machines) at now ∷ []) p.machines q.machines
      × Quiet q
leave-GoesOut k part at now p h crossed room held =
    let e = passing (exit_barrier k) k at in
    let f = arriving k at in
    let (machines, quiet, _) =
      interrupt_round (exit_pin k) at now (e ∷ f ∷ []) (both calls now e f p.machines) p h
        (exit_items k at p crossed h.gpio room)
        (both-Deliver calls now e f p.consumer p.machines (no_entries k).1 (no_entries k).2
          h.pending_gpio h.pending_nfc) in
    (
      subst (GoesOut k part (exit_of (get_station k p.machines) at now ∷ []) p.machines)
          (sym machines) (exit-GoesOut k part at now p.machines held),
      quiet,
    )

-- The string of a tag with a non-empty id is not empty, so the exit is logged.
pub exit-Free :
    (k : Station) (b : ℕ) (bs : List ℕ) (exited : ℕ) (t : Timer StationCall) (now : ℕ)
    (m : Machines)
    → t.call ≡ exit_complete exited
    → (get_station k m).timers ≡ t ∷ []
    → (get_station k m).current_part ≡ some (hex (b ∷ bs))
    → (get_station k m).station ≡ k
    → Free k
        (row now (station_id k) (hex (b ∷ bs)) (codes "EXIT") (infer_tag (codes "EXIT")))
        m
        (fire_station k t now m)
unfolding hex
exit-Free k b bs exited t now m call timers part own =
    clear-Free k _ _ exited t now m call timers part own
