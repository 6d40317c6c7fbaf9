-- ===== src/Plant/Pushing.antt =====
-- The sensors of a push by corner 1 or 3: the event of the position and that of the limit switch, each
-- with the round of the consumer after it.
use mathlib.Core.Path.{subst}
use circular_manu_system.Corner
use circular_manu_system.Base.{[], ap, false, none, refl, some, sym, true, ℕ, ◌∙◌, ◌∷◌, ◌≡◌}
use circular_manu_system.Cep.{deliver_event}
use circular_manu_system.Cep.Expiry.{run_round}
use circular_manu_system.Cep.Sole.{Delivers, interrupt-Delivers, one, poll-Delivers}
use circular_manu_system.Corner.{ext_barrier, extending, feed_motor_num, may_stop_feed}
use circular_manu_system.Corner.Cycle.{Remains, approach_of}
use circular_manu_system.Events.{Station}
use circular_manu_system.Machines.{Machines, calls, get_station}
use circular_manu_system.Plant.{Plant, consume, interrupt, poll}
use circular_manu_system.Plant.Entry.{Quiet, entry_pin}
use circular_manu_system.Plant.Interrupts.{interrupt_round}
use circular_manu_system.Plant.Push.{
  Awaits, closed, comes_to_rest, extends, in_position, main_corner, not_entry, position_pin, pusher,
  sensed, switch_closed,
}
use circular_manu_system.Sensors.{bounces}

-- What the steps of the push leave for the arrival at the station.
pub record Leaves (k : Station) (p q : Plant) : Type 0 where
  pub quiet : Quiet q
  pub bounces_same :
      (seen_at : ℕ)
      → bounces q.sensors (entry_pin k) seen_at ≡ bounces p.sensors (entry_pin k) seen_at
  pub window : q.consumer.delta_t_fuse ≡ p.consumer.delta_t_fuse
  pub station : get_station k q.machines ≡ get_station k p.machines

-- The part comes to the corner, and the consumer comes round.
abbrev pub positioned : Station → ℕ → ℕ → Plant → Plant
positioned k seen_at now p = consume now (interrupt (position_pin k) seen_at p)

pub positioned-Leaves :
    (k : Station) (seen_at now : ℕ) (p : Plant)
    → Quiet p
    → bounces p.sensors (position_pin k) seen_at ≡ false
    → (pusher k p.machines).corner ≡ main_corner k
    → (pusher k p.machines).state ≡ Corner.idle
    → (pusher k p.machines).timers ≡ []
    → may_stop_feed (feed_motor_num (main_corner k)) p.machines.shop ≡ true
    → let q = positioned k seen_at now p in
      Leaves k p q
      × (q.sensors.mcp_prev_state ≡ p.sensors.mcp_prev_state)
      × ((pusher k q.machines).timers ≡ approach_of (pusher k p.machines) now ∷ [])
      × Remains (pusher k p.machines) (pusher k q.machines)
      × (q.machines.shop.collision_mgr ≡ p.machines.shop.collision_mgr)
unfolding consume interrupt
positioned-Leaves k seen_at now p h quiet own st ti safe =
    let e = in_position k seen_at in
    let s = sensed k seen_at p.sensors p.gpio_queue quiet in
    let (machines, empty, window) =
      interrupt_round (position_pin k) seen_at now (e ∷ []) (one calls now e p.machines) p h
        (s.2 h.gpio)
        (interrupt-Delivers calls now e p.consumer p.machines (not_entry k).0 h.pending_gpio
          h.pending_nfc) in
    let r = comes_to_rest k seen_at now p.machines own st ti safe in
    (
      record {
        quiet = empty;
        bounces_same = s.0;
        window = window;
        station = ap (get_station k) machines ∙ r.3;
      },
      s.1,
      ap (λ m. (pusher k m).timers) machines ∙ r.0,
      (
        ap (λ m. (pusher k m).corner) machines ∙ r.1.0,
        ap (λ m. (pusher k m).config) machines ∙ r.1.1,
      ),
      ap (λ (m : Machines). m.shop.collision_mgr) machines ∙ r.2,
    )

-- The limit switch of the pusher closes, and the consumer comes round.
abbrev pub pushed_out : Station → ℕ → ℕ → Plant → Plant
pushed_out k out_at now p = consume now (poll (ext_barrier (main_corner k)) false out_at p)

pub pushed_out-Leaves :
    (k : Station) (out_at now : ℕ) (p : Plant)
    → Quiet p
    → p.sensors.mcp_prev_state (ext_barrier (main_corner k)) ≡ some false
    → (pusher k p.machines).corner ≡ main_corner k
    → (pusher k p.machines).state ≡ extending
    → (pusher k p.machines).timers ≡ []
    → let q = pushed_out k out_at now p in Leaves k p q × Awaits k q.machines
unfolding consume poll
pushed_out-Leaves k out_at now p h released own st ti =
    let e = switch_closed k out_at in
    let s = closed k out_at p.sensors p.mcp_queue released in
    let mcp = s.1 h.mcp in
    let polled = poll (ext_barrier (main_corner k)) false out_at p in
    let same : run_round calls now [] (e ∷ []) [] p.consumer p.machines
        ≡ run_round calls now p.gpio_queue.items polled.mcp_queue.items p.nfc_queue.items p.consumer
            p.machines =
      λ i. run_round calls now (sym h.gpio i) (sym mcp i) (sym h.nfc i) p.consumer p.machines in
    let d = subst (Delivers (deliver_event calls e none now p.machines) p.consumer) same (
      poll-Delivers calls now e p.consumer p.machines (not_entry k).1 h.pending_gpio
        h.pending_nfc) in
    let r = extends k out_at now p.machines own st ti in
    (
      record {
        quiet = record {
          gpio = refl;
          mcp = refl;
          nfc = refl;
          pending_gpio = d.gpio;
          pending_nfc = d.nfc;
        };
        bounces_same = s.0;
        window = d.window;
        station = ap (get_station k) d.world ∙ r.1;
      },
      subst (Awaits k) (sym d.world) r.0,
    )
