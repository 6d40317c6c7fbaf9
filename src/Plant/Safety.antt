-- ===== src/Plant/Safety.antt =====
-- The state machines in the runs of the line, and which pushers may be out.
use mathlib.Core.Path.{subst}
use circular_manu_system.Collision
use circular_manu_system.Corner
use circular_manu_system.Base.{
  Bool, Bool-cases, List, Option, [], arith, false, inl, inr, refl, sym, true, ℕ, ◌∷◌, ◌≡◌,
}
use circular_manu_system.Base.Lists.{All, All-map}
use circular_manu_system.Base.Quad.{Corner, corner1, get}
use circular_manu_system.Cep.Keeps.{Keeps, fused_with, run_round-Keeps}
use circular_manu_system.Collision.{adjacent_corners}
use circular_manu_system.Collision.Laws.{Clear, init-Clear}
use circular_manu_system.Corner.{
  CornerController, CornerState, extending, pushing, retracting, waiting_for_confirmation,
}
use circular_manu_system.Corner.Invariant.{
  approaching, asking, confirming, jammed, occupied, pulling_back, reaching_out,
}
use circular_manu_system.Events.{SensorEvent, Station}
use circular_manu_system.Events.Names.{name}
use circular_manu_system.Influx.{InfluxDbWriter}
use circular_manu_system.Machines.{Config, Machines, calls, on_shop}
use circular_manu_system.Motors.{MotorController}
use circular_manu_system.Plant.{
  Plant, Run, Step, consume, consumes, corner_timer, here, init, interrupt, interrupts, monitor,
  monitors, next, poll, polls, scan_tag, scans, station_timer,
}
use circular_manu_system.Plant.Invariant.{
  Inv, Rests-shop, fire_corner-Inv, fire_station-Inv, process-Inv,
}
use circular_manu_system.Shop.{Shop, log, set_motor, to_influx}
use circular_manu_system.Station.Invariant.{init-Rests}

pub on_shop-Inv :
    (act : Shop → Shop) (m : Machines)
    → (act m.shop).collision_mgr ≡ m.shop.collision_mgr
    → Inv m
    → Inv (on_shop act m)
unfolding on_shop
on_shop-Inv act m e h = record {
  rests1 = h.rests1;
  rests2 = h.rests2;
  corner_rests = λ k. Rests-shop (get m.corners k) m.shop (act m.shop) e (h.corner_rests k);
  names = h.names;
  clear = subst (λ q. Clear q.corners_occupied) (sym e) h.clear;
}

pub calls-Inv : Keeps calls (λ e. Unit {0}) Inv
unfolding to_influx log
calls-Inv = record {
  processes = λ e part fsm now m q found h. process-Inv fsm (fused_with e part) now m h;
  writes = λ b l m h. on_shop-Inv _ m refl h;
  logs = λ part id activity now m h. on_shop-Inv _ m refl h;
}

pub no_condition : (es : List SensorEvent) → All (λ e. Unit {0}) es
no_condition [] = tt
no_condition (e ∷ es) = (tt, no_condition es)

pub Step-Inv : {p q : Plant} → Step p q → Inv p.machines → Inv q.machines
unfolding interrupt poll scan_tag consume monitor to_influx
Step-Inv (interrupts channel t) h = h
Step-Inv (polls name value t is_pin) h = h
Step-Inv (scans k simulation reading t) h = h
Step-Inv {p} (consumes now) h =
    run_round-Keeps calls-Inv now p.gpio_queue.items p.mcp_queue.items p.nfc_queue.items p.consumer
      p.machines (no_condition _) (no_condition _) (no_condition _) h
Step-Inv {p} (monitors now on) h = on_shop-Inv _ p.machines refl h
Step-Inv {p} (station_timer k t now pending) h = fire_station-Inv k t now p.machines pending h
Step-Inv {p} (corner_timer k t now pending) h = fire_corner-Inv k t now p.machines pending h

-- Every run keeps the invariant of the machines: each station and each corner has exactly the
-- timer of its state, a station holds a part exactly from its entry to its exit, a corner is
-- reserved exactly while its pusher may be out and its handshake flag stands exactly while the
-- handshake may time out, each corner stands at its own number, and no two adjacent corners are
-- reserved.
pub Run-Inv : {p q : Plant} → Run p q → Inv p.machines → Inv q.machines
Run-Inv here h = h
Run-Inv (next r s) h = Step-Inv s (Run-Inv r h)

init_corners :
    (config : Config) (motors : MotorController) (writer : Option InfluxDbWriter) (now : ℕ)
    (k : Corner)
    → Corner.Invariant.Rests
        (get (init config motors writer now).machines.corners k)
        (init config motors writer now).machines.shop
unfolding init Corner.init Collision.init set_motor
init_corners config motors writer now corner1 = Corner.Invariant.resting refl refl refl refl
init_corners config motors writer now _ = Corner.Invariant.resting refl refl refl refl

init_names :
    (config : Config) (motors : MotorController) (writer : Option InfluxDbWriter) (now : ℕ)
    (k : Corner)
    → (get (init config motors writer now).machines.corners k).corner ≡ k
unfolding init Corner.init
init_names config motors writer now corner1 = refl
init_names config motors writer now _ = refl

pub init-Inv :
    (config : Config) (motors : MotorController) (writer : Option InfluxDbWriter) (now : ℕ)
    → Inv (init config motors writer now).machines
unfolding init Corner.init Collision.init set_motor
init-Inv config motors writer now = record {
  rests1 = init-Rests Station.station1 config.station1_process_time config.station_speed;
  rests2 = init-Rests Station.station2 config.station2_process_time config.station_speed;
  corner_rests = init_corners config motors writer now;
  names = init_names config motors writer now;
  clear = init-Clear;
}

-- The pusher is out of its rest position, or may be.
abbrev pub is_out : CornerState → Bool
is_out extending = true
is_out pushing = true
is_out waiting_for_confirmation = true
is_out retracting = true
is_out _ = false

-- A corner whose pusher is out has reserved its corner.
pub out-occupied :
    (c : CornerController) (s : Shop)
    → Corner.Invariant.Rests c s
    → is_out c.state ≡ true
    → occupied c s ≡ true
out-occupied c s (Corner.Invariant.resting st ti oc wa) h = ground arith
out-occupied c s (approaching t st ti ca ha oc wa) h = ground arith
out-occupied c s (asking t st ti ca oc wa) h = ground arith
out-occupied c s (reaching_out st ti oc wa) h = oc
out-occupied c s (confirming t st ti ca ha oc wa) h = oc
out-occupied c s (jammed st ti oc wa) h = oc
out-occupied c s (pulling_back st ti oc wa) h = oc

abbrev pub state_of : Plant → Corner → CornerState
state_of p k = (get p.machines.corners k).state

pub reserved :
    (m : Machines) (k : Corner)
    → Inv m
    → is_out (get m.corners k).state ≡ true
    → get m.shop.collision_mgr.corners_occupied k ≡ true
reserved m k h out =
    subst (λ j. get m.shop.collision_mgr.corners_occupied j ≡ true) (h.names k)
      (out-occupied (get m.corners k) m.shop (h.corner_rests k) out)

not_out :
    (m : Machines) (k : Corner)
    → Inv m
    → get m.shop.collision_mgr.corners_occupied k ≡ false
    → is_out (get m.corners k).state ≡ false
not_out m k h free = elim (Bool-cases (is_out (get m.corners k).state)) [
  | inl out ↦ cc (reserved m k h out)
  | inr rest ↦ rest
]

-- In every run of the threads from the start, in any order and at any times, while the pusher of a
-- corner is extending, pushing, waiting for the confirmation or retracting, the pusher of neither
-- adjacent corner is in one of these states.
pub exclusive :
    (config : Config) (motors : MotorController) (writer : Option InfluxDbWriter) (now : ℕ)
    (p : Plant) (k : Corner)
    → Run (init config motors writer now) p
    → is_out (state_of p k) ≡ true
    → All (λ adj. is_out (state_of p adj) ≡ false) (adjacent_corners k)
exclusive config motors writer now p k r out =
    let h = Run-Inv r (init-Inv config motors writer now) in
    All-map (λ adj free. not_out p.machines adj h free) (adjacent_corners k)
      (h.clear k (reserved p.machines k h out))
