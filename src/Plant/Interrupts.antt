-- ===== src/Plant/Interrupts.antt =====
-- One interrupt and the round of the consumer after it, in a plant where no event is on its way.
use mathlib.Core.Path.{subst}
use circular_manu_system.Base.{List, [], arith, false, refl, sym, ℕ, ◌<◌, ◌==◌, ◌∙◌, ◌∷◌, ◌≡◌}
use circular_manu_system.Cep.Expiry.{run_round}
use circular_manu_system.Cep.Sole.{Delivers}
use circular_manu_system.Events.{
  Barrier, Location, Queue, SensorEvent, Source, Station, from_gpio, put_nowait,
}
use circular_manu_system.Machines.{Machines, calls}
use circular_manu_system.Plant.{Plant, consume, interrupt}
use circular_manu_system.Plant.Entry.{Quiet, put_first}
use circular_manu_system.Plant.Stay.{arriving, exit_pin, passing, process_pin}
use circular_manu_system.Sensors.{bounces, get_barriers_for_pin, gpio_callback, put_all}
use circular_manu_system.Station.{exit_barrier, process_barrier}

-- The round hands over what the interrupt has put into the queue.
pub interrupt_round :
    (channel t now : ℕ) (es : List SensorEvent) (after : Machines) (p : Plant)
    → Quiet p
    → (interrupt channel t p).gpio_queue.items ≡ es
    → Delivers after p.consumer (run_round calls now es [] [] p.consumer p.machines)
    → let q = consume now (interrupt channel t p) in
      (q.machines ≡ after) × Quiet q × (q.consumer.delta_t_fuse ≡ p.consumer.delta_t_fuse)
unfolding consume interrupt
interrupt_round channel t now es after p h items d =
    let crossed = interrupt channel t p in
    let same : run_round calls now es [] [] p.consumer p.machines
        ≡ run_round calls now crossed.gpio_queue.items p.mcp_queue.items p.nfc_queue.items
            p.consumer p.machines =
      λ i. run_round calls now (sym items i) (sym h.mcp i) (sym h.nfc i) p.consumer p.machines in
    let r = subst (Delivers after p.consumer) same d in
    (
      r.world,
      record { gpio = refl; mcp = refl; nfc = refl; pending_gpio = r.gpio; pending_nfc = r.nfc },
      r.window,
    )

-- An interrupt is remembered for its own pin only.
pub interrupt_elsewhere :
    (channel t pin at : ℕ) (p : Plant)
    → (pin == channel) ≡ false
    → bounces (interrupt channel t p).sensors pin at ≡ bounces p.sensors pin at
unfolding interrupt gpio_callback bounces
interrupt_elsewhere channel t pin at p other = ground arith

put_all-maxsize :
    (from : Source) (t : ℕ) (bs : List (Barrier × Location)) (q : Queue SensorEvent)
    → (put_all from t bs q).maxsize ≡ q.maxsize
unfolding put_all put_nowait
put_all-maxsize from t [] q = refl
put_all-maxsize from t ((b, l) ∷ rest) q = put_all-maxsize from t rest _ ∙ ground arith

pub interrupt-maxsize :
    (channel t : ℕ) (p : Plant) → (interrupt channel t p).gpio_queue.maxsize ≡ p.gpio_queue.maxsize
unfolding interrupt gpio_callback
interrupt-maxsize channel t p =
    ground (arith, put_all-maxsize from_gpio t (get_barriers_for_pin channel) p.gpio_queue)

pub process_item :
    (k : Station) (t : ℕ) (p : Plant)
    → bounces p.sensors (process_pin k) t ≡ false
    → p.gpio_queue.items ≡ []
    → (interrupt (process_pin k) t p).gpio_queue.items ≡ passing (process_barrier k) k t ∷ []
unfolding interrupt gpio_callback put_all get_barriers_for_pin
process_item Station.station1 t p quiet e = rw quiet (put_first _ p.gpio_queue e)
process_item Station.station2 t p quiet e = rw quiet (put_first _ p.gpio_queue e)

put_two :
    {A : Type 0} (a b : A) (q : Queue A)
    → q.items ≡ []
    → 1 < q.maxsize
    → (put_nowait b (put_nowait a q)).items ≡ a ∷ b ∷ []
unfolding put_nowait
put_two a b q e room = ground arith

pub exit_items :
    (k : Station) (t : ℕ) (p : Plant)
    → bounces p.sensors (exit_pin k) t ≡ false
    → p.gpio_queue.items ≡ []
    → 1 < p.gpio_queue.maxsize
    → (interrupt (exit_pin k) t p).gpio_queue.items
      ≡ passing (exit_barrier k) k t ∷ arriving k t ∷ []
unfolding interrupt gpio_callback put_all get_barriers_for_pin
exit_items Station.station1 t p quiet e room = rw quiet (put_two _ _ p.gpio_queue e room)
exit_items Station.station2 t p quiet e room = rw quiet (put_two _ _ p.gpio_queue e room)

-- What an interrupt and a round leave for the next step: nothing is on its way, another pin is
-- debounced as before, and the queue has its size.
pub record Settles (channel : ℕ) (p q : Plant) : Type 0 where
  pub quiet : Quiet q
  pub calm :
      (pin at : ℕ) → (pin == channel) ≡ false → bounces q.sensors pin at ≡ bounces p.sensors pin at
  pub size : q.gpio_queue.maxsize ≡ p.gpio_queue.maxsize

abbrev pub with_machines : Machines → Plant → Plant
with_machines m p = record p { machines = m }

pub with_machines-Settles :
    (channel : ℕ) (m : Machines) (p q : Plant)
    → Settles channel p q
    → Settles channel p (with_machines m q)
with_machines-Settles channel m p q l = record {
  quiet = record {
    gpio = l.quiet.gpio;
    mcp = l.quiet.mcp;
    nfc = l.quiet.nfc;
    pending_gpio = l.quiet.pending_gpio;
    pending_nfc = l.quiet.pending_nfc;
  };
  calm = l.calm;
  size = l.size;
}

pub round-Settles :
    (channel t now : ℕ) (p : Plant)
    → Quiet (consume now (interrupt channel t p))
    → Settles channel p (consume now (interrupt channel t p))
unfolding consume
round-Settles channel t now p quiet = record {
  quiet = quiet;
  calm = λ pin at other. interrupt_elsewhere channel t pin at p other;
  size = interrupt-maxsize channel t p;
}
