-- ===== src/Program/Abandoned.antt =====
-- How the program ends if its threads have not all been started.
use circular_manu_system.Corner
use circular_manu_system.Plant
use circular_manu_system.System
use circular_manu_system.Base.{
  Bool, Option, ap, arith, false, inl, inr, refl, true, ℕ, ◌&&◌, ◌∙◌, ◌≡◌, ◌⊎◌,
}
use circular_manu_system.Base.Ending.{raises}
use circular_manu_system.Base.Int.{ℤ}
use circular_manu_system.Events.{same}
use circular_manu_system.Influx.{InfluxDbWriter}
use circular_manu_system.Machines.{Config, Machines}
use circular_manu_system.Motors.{Hat, clamp, has_name, throttle}
use circular_manu_system.Motors.Laws.{reaches, throttle-set_speed}
use circular_manu_system.Motors.Shutdown.{init_rests}
use circular_manu_system.Plant.{Plant}
use circular_manu_system.Plant.Steering.{beginning, line_shop}
use circular_manu_system.Program.{
  Cause, early_signal, fatal_error, late_signal, leave, let_run, main, on_system, shutdown_handler,
  try_block,
}
use circular_manu_system.Program.Exits.{ran}
use circular_manu_system.Shop.{Shop, set_motor}
use circular_manu_system.Shop.Throttles.{set_motor-Untouched}
use circular_manu_system.System.{Spawns, System, start}
use circular_manu_system.System.Starting.{Unstarted, start-refused}
use circular_manu_system.System.Stopping.{stop-created}
use circular_manu_system.Workers.{created}
use circular_manu_system.Workers.Stopping.{made}

-- A system whose consumer has not been started is not stopped: the program ends by an exception.
stop_fails :
    (can : Spawns) (threads : Plant → Plant) (cause : Cause) (now : ℕ) (s u : System) (m : Machines)
    → try_block can threads cause now s ≡ u
    → u.cep_thread.phase ≡ created
    → u.plant.machines ≡ m
    → (t : System) × (main can threads cause now s ≡ raises t) × (t.plant.machines ≡ m)
unfolding main
stop_fails can threads cause now s u m e new p =
    let (t, ends, plant, again) = stop-created now u new in
    (t, ap (System.stop now) e ∙ ends, ap (λ q. q.machines) plant ∙ p)

early_handler :
    (threads : Plant → Plant) (now : ℕ) (s : System)
    → s.cep_thread.phase ≡ created
    → ((shutdown_handler now (let_run threads s)).cep_thread.phase ≡ created)
      × ((shutdown_handler now (let_run threads s)).plant ≡ threads s.plant)
unfolding shutdown_handler let_run
early_handler threads now s new =
    let (t, ends, plant, again) = stop-created now (let_run threads s) new in rw ends (again, plant)

-- The ways out on which `stop` raises leave the line as the threads have left it.
pub main_abandons :
    (can : Spawns) (threads : Plant → Plant) (cause : Cause) (now : ℕ) (s : System)
    → Unstarted s
    → (cause ≡ early_signal) ⊎ (can.nfc1 && can.nfc2 && can.cep ≡ false)
    → (t : System) × (main can threads cause now s ≡ raises t)
      × (t.plant.machines ≡ (threads s.plant).machines)
unfolding try_block leave on_system let_run
main_abandons can threads early_signal now s f why =
    let (new, plant) = early_handler threads now s f.cep in
    stop_fails can threads early_signal now s _ (ran threads s) refl new
      (ap (λ q. q.machines) plant)
main_abandons can threads late_signal now s f (inl early) = cc
main_abandons can threads late_signal now s f (inr refused) =
    let (t, ends, plant, new) = start-refused can s f refused in
    stop_fails can threads late_signal now s (let_run threads t) (ran threads s) (rw ends refl) new
      (ap (λ q. (threads q).machines) plant)
main_abandons can threads fatal_error now s f (inl early) = cc
main_abandons can threads fatal_error now s f (inr refused) =
    let (t, ends, plant, new) = start-refused can s f refused in
    stop_fails can threads fatal_error now s (let_run threads t) (ran threads s) (rw ends refl) new
      (ap (λ q. (threads q).machines) plant)

set_motor-reached :
    (n : ℕ) (speed : ℤ) (s : Shop)
    → reaches s.motors n ≡ true
    → throttle (set_motor n speed s).motors n ≡ clamp speed
unfolding set_motor
set_motor-reached n speed s h = ground (arith, throttle-set_speed n n speed s.motors)

-- The constructors of the corners start the main conveyors.
start_conveys :
    (config : Config) (faulty : ℕ → Bool) (hat1 hat2 : Hat) (writer : Option InfluxDbWriter)
    (now : ℕ)
    → faulty 1 ≡ false
    → throttle (beginning config faulty hat1 hat2 writer now).machines.shop.motors 1
      ≡ clamp config.corner_config.conveyor_speed
unfolding Plant.init Corner.init has_name
start_conveys config faulty hat1 hat2 writer now fine =
    let s = line_shop faulty hat1 hat2 writer now in
    let speed = config.corner_config.conveyor_speed in
    let same = (set_motor-Untouched 1 2 speed (set_motor 1 speed s) (ground arith)).0 in
    let reached = (init_rests faulty hat1 hat2 1 (ground arith) fine).1 in
    same ∙ set_motor-reached 1 speed s reached

-- From a line as it is constructed over motor boards that answer, if the program is refused the
-- consumer's thread or a reader's, or is signalled before a thread is started, and nothing else
-- moves the line, then it ends by an exception of its last call of stop, and the first main
-- conveyor, if setting its throttle does not fail, still runs at the clamped conveyor speed.
pub conveyors_left_on :
    (config : Config) (faulty : ℕ → Bool) (hat1 hat2 : Hat) (writer : Option InfluxDbWriter)
    (start : ℕ) (can : Spawns) (threads : Plant → Plant) (cause : Cause) (now : ℕ) (s : System)
    → s.plant ≡ beginning config faulty hat1 hat2 writer start
    → Unstarted s
    → (threads s.plant).machines ≡ s.plant.machines
    → (cause ≡ early_signal) ⊎ (can.nfc1 && can.nfc2 && can.cep ≡ false)
    → faulty 1 ≡ false
    → (t : System) × (main can threads cause now s ≡ raises t)
      × (throttle t.plant.machines.shop.motors 1 ≡ clamp config.corner_config.conveyor_speed)
conveyors_left_on config faulty hat1 hat2 writer start can threads cause now s made f untouched why
      fine =
    let (t, ends, same) = main_abandons can threads cause now s f why in
    (
      t,
      ends,
      ap (λ m. throttle m.shop.motors 1) (same ∙ untouched ∙ ap (λ p. p.machines) made)
          ∙ start_conveys config faulty hat1 hat2 writer start fine,
    )
