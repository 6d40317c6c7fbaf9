-- ===== src/Plant/Jam.antt =====
-- A corner that waits for the confirmation of a push, in the runs of the line: which events reach
-- it.
use mathlib.Core.Path.{subst}
use circular_manu_system.Corner
use circular_manu_system.Base.{Bool-cases, Option, arith, false, inl, inr, some, sym, true, ℕ, ◌≡◌}
use circular_manu_system.Base.Lists.{In}
use circular_manu_system.Base.Quad.{Corner, get, get-put, same_corner}
use circular_manu_system.Base.Text.{Text}
use circular_manu_system.Cep.{Fsm, corner_fsm, fsm_map, station_fsm}
use circular_manu_system.Cep.Keeps.{Keeps, fused_with, run_round-Keeps}
use circular_manu_system.Corner.{
  CornerCall, CornerController, confirmation_sensor, waiting_for_confirmation,
}
use circular_manu_system.Corner.Invariant.{
  approaching, asking, confirming, jammed, pulling_back, reaching_out,
}
use circular_manu_system.Events.{Barrier, FusedEvent, SensorEvent, Station, same, same_iff}
use circular_manu_system.Events.Names.{name}
use circular_manu_system.Influx.{InfluxDbWriter}
use circular_manu_system.Machines.{
  Config, Machines, calls, fire_corner, fire_station, on_shop, process, put_corner,
}
use circular_manu_system.Motors.{MotorController}
use circular_manu_system.Plant.{
  Plant, Run, Step, consume, consumes, corner_timer, here, init, interrupt, interrupts, monitor,
  monitors, next, poll, polls, scan_tag, scans, station_timer,
}
use circular_manu_system.Plant.Invariant.{Inv, fire_corner-Inv, fire_station-Inv, process-Inv}
use circular_manu_system.Plant.Located.{Located, Run-Located, init-Located}
use circular_manu_system.Plant.Safety.{Run-Inv, Step-Inv, calls-Inv, init-Inv, reserved, state_of}
use circular_manu_system.Sensors.Laws.{IsLocated, location_of}
use circular_manu_system.Shop.{Shop, Timer, to_influx}

pub unroutable :
    (b : Barrier) (k : Corner)
    → fsm_map (location_of b).location_type (location_of b).location_id ≡ some (corner_fsm k)
    → same b (confirmation_sensor k) ≡ false
unfolding location_of
unroutable b k h = ground (arith, same_iff b (confirmation_sensor k))

pub record Stuck (k : Corner) (m : Machines) : Type 0 where
  pub inv : Inv m
  pub waits : (get m.corners k).state ≡ waiting_for_confirmation

pub same_corner_sound : (j k : Corner) → same_corner j k ≡ true → j ≡ k
same_corner_sound j k h = ground arith

-- An event that does not confirm leaves a waiting corner in its state.
process_event_waits :
    (e : FusedEvent) (now : ℕ) (c : CornerController) (s : Shop)
    → c.state ≡ waiting_for_confirmation
    → same e.barrier_id (confirmation_sensor c.corner) ≡ false
    → (Corner.process_event e now (c, s)).0.state ≡ waiting_for_confirmation
unfolding Corner.process_event
process_event_waits e now c s w n = ground arith

-- So does the timer that may still run.
fire_waits :
    (t : Timer CornerCall) (now : ℕ) (c : CornerController) (s : Shop)
    → In t c.timers
    → Corner.Invariant.Rests c s
    → c.state ≡ waiting_for_confirmation
    → (Corner.fire t now (c, s)).0.state ≡ waiting_for_confirmation
unfolding Corner.fire
fire_waits t now c s p (Corner.Invariant.resting st ti oc wa) w = absurd (ground arith)
fire_waits t now c s p (approaching u st ti ca ha oc wa) w = absurd (ground arith)
fire_waits t now c s p (asking u st ti ca oc wa) w = absurd (ground arith)
fire_waits t now c s p (reaching_out st ti oc wa) w = absurd (ground arith)
fire_waits t now c s p (confirming u st ti ca ha oc wa) w = ground arith
fire_waits t now c s p (jammed st ti oc wa) w = absurd (ground arith)
fire_waits t now c s p (pulling_back st ti oc wa) w = absurd (ground arith)

-- The state of corner `k` after a step of corner `j`.
put_waits :
    (j k : Corner) (w : CornerController × Shop) (m : Machines)
    → (j ≡ k → w.0.state ≡ waiting_for_confirmation)
    → (get m.corners k).state ≡ waiting_for_confirmation
    → (get (put_corner j w m).corners k).state ≡ waiting_for_confirmation
unfolding put_corner
put_waits j k w m own other = elim (Bool-cases (same_corner j k)) [
  | inl hit ↦ rw (get-put m.corners j k w.0, hit) (own (same_corner_sound j k hit))
  | inr miss ↦ rw (get-put m.corners j k w.0, miss) other
]

process-Stuck :
    (k : Corner) (e : SensorEvent) (part : Option Text) (f : Fsm) (now : ℕ) (m : Machines)
    → IsLocated e
    → fsm_map e.location.location_type e.location.location_id ≡ some f
    → Stuck k m
    → Stuck k (process f (fused_with e part) now m)
unfolding process
process-Stuck k e part (station_fsm Station.station1) now m l found h = record {
  inv = process-Inv (station_fsm Station.station1) (fused_with e part) now m h.inv;
  waits = h.waits;
}
process-Stuck k e part (station_fsm Station.station2) now m l found h = record {
  inv = process-Inv (station_fsm Station.station2) (fused_with e part) now m h.inv;
  waits = h.waits;
}
process-Stuck k e part (corner_fsm j) now m l found h = record {
  inv = process-Inv (corner_fsm j) (fused_with e part) now m h.inv;
  waits =
      put_waits j k (Corner.process_event (fused_with e part) now (get m.corners j, m.shop)) m
        (λ eq.
          process_event_waits (fused_with e part) now (get m.corners j) m.shop
            (subst (λ i. (get m.corners i).state ≡ waiting_for_confirmation) (sym eq) h.waits)
            (subst (λ i. same e.barrier_id (confirmation_sensor i) ≡ false) (sym (h.inv.names j))
              (unroutable e.barrier_id j (
                subst (λ i. fsm_map i.location_type i.location_id ≡ some (corner_fsm j)) l found))))
        h.waits;
}

calls-Stuck : (k : Corner) → Keeps calls IsLocated (Stuck k)
unfolding on_shop
calls-Stuck k = record {
  processes = λ e part f now m l found h. process-Stuck k e part f now m l found h;
  writes = λ b l m h. record { inv = calls-Inv.writes b l m h.inv; waits = h.waits };
  logs = λ part id activity now m h. record {
    inv = calls-Inv.logs part id activity now m h.inv;
    waits = h.waits;
  };
}

pub Step-Stuck :
    (k : Corner) {p q : Plant} → Step p q → Located p → Stuck k p.machines → Stuck k q.machines
unfolding interrupt poll scan_tag consume monitor on_shop to_influx fire_station fire_corner
Step-Stuck k (interrupts channel t) l h = h
Step-Stuck k (polls name value t is_pin) l h = h
Step-Stuck k (scans n simulation reading t) l h = h
Step-Stuck k {p} (consumes now) l h =
    run_round-Keeps (calls-Stuck k) now p.gpio_queue.items p.mcp_queue.items p.nfc_queue.items
      p.consumer p.machines l.in_gpio_queue l.in_mcp_queue l.in_consumer h
Step-Stuck k {p} (monitors now on) l h = record {
  inv = Step-Inv {p = p} (monitors now on) h.inv;
  waits = h.waits;
}
Step-Stuck k {p} (station_timer Station.station1 t now pending) l h = record {
  inv = fire_station-Inv Station.station1 t now p.machines pending h.inv;
  waits = h.waits;
}
Step-Stuck k {p} (station_timer Station.station2 t now pending) l h = record {
  inv = fire_station-Inv Station.station2 t now p.machines pending h.inv;
  waits = h.waits;
}
Step-Stuck k {p} (corner_timer j t now pending) l h = record {
  inv = fire_corner-Inv j t now p.machines pending h.inv;
  waits =
      put_waits j k (Corner.fire t now (get p.machines.corners j, p.machines.shop)) p.machines
        (λ eq.
          fire_waits t now (get p.machines.corners j) p.machines.shop pending (h.inv.corner_rests j)
            (subst (λ i. (get p.machines.corners i).state ≡ waiting_for_confirmation) (sym eq)
              h.waits))
        h.waits;
}

pub Run-Stuck :
    (k : Corner) {p q : Plant} → Run p q → Located p → Stuck k p.machines → Stuck k q.machines
Run-Stuck k here l h = h
Run-Stuck k (next r s) l h = Step-Stuck k s (Run-Located r l) (Run-Stuck k r l h)

-- In every run from the start, a corner that has reached the state of waiting for its confirmation
-- stays in that state, and stays reserved, however the run goes on.
pub jam_forever :
    (config : Config) (motors : MotorController) (writer : Option InfluxDbWriter) (now : ℕ)
    {p q : Plant} (k : Corner)
    → Run (init config motors writer now) p
    → state_of p k ≡ waiting_for_confirmation
    → Run p q
    → (state_of q k ≡ waiting_for_confirmation)
      × (get q.machines.shop.collision_mgr.corners_occupied k ≡ true)
jam_forever config motors writer now {p} {q} k r w s =
    let start : Stuck k p.machines = record {
      inv = Run-Inv r (init-Inv config motors writer now);
      waits = w;
    } in
    let end = Run-Stuck k s (Run-Located r (init-Located config motors writer now)) start in
    (end.waits, reserved q.machines k end.inv (rw end.waits))
