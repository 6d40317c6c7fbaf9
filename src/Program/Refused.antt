-- ===== src/Program/Refused.antt =====
-- How the program ends if the operating system refuses the polling thread of the sensors.
use mathlib.Core.Option
use circular_manu_system.Machines
use circular_manu_system.Sensors
use circular_manu_system.System
use circular_manu_system.Base.{ap, false, if◌then◌else◌, refl, some, true, ℕ, ◌∙◌, ◌≡◌}
use circular_manu_system.Base.Ending.{Ending, is_raised, left_by, raises, returns}
use circular_manu_system.Base.Int.{pos}
use circular_manu_system.Base.Lists.{All}
use circular_manu_system.Machines.{Machines}
use circular_manu_system.Motors.{throttle}
use circular_manu_system.Motors.Laws.{reaches}
use circular_manu_system.Plant.{Plant, monitoring}
use circular_manu_system.Program.{
  fatal_error, late_signal, leave, let_run, main, on_system, program, shutdown_handler, try_block,
}
use circular_manu_system.Program.Exits.{ran, stopped_twice}
use circular_manu_system.Sensors.Setup.{init-refused}
use circular_manu_system.System.{Spawns, System, start}
use circular_manu_system.System.Config.{ConfigFile, Surroundings, init-Unstarted, init-wiring}
use circular_manu_system.System.Starting.{Unstarted, start-Started, start-returns}
use circular_manu_system.System.Stopping.{Started, stop-Started, stop-refused}

-- The sensors of a running system, after `start`, whose thread was refused.
abbrev Refused : System → Type 0
Refused s = Started s × (is_raised (Sensors.Setup.stop s.wiring) ≡ true)

start-Refused :
    (can : Spawns) (s : System)
    → Unstarted s
    → is_raised (Sensors.Setup.stop s.wiring) ≡ true
    → can.nfc1 ≡ true
    → can.nfc2 ≡ true
    → can.cep ≡ true
    → Refused (left_by (start can s)) × ((left_by (start can s)).plant ≡ s.plant)
start-Refused can s f refused nfc1 nfc2 cep =
    let (h, p, wiring) = start-Started can s f nfc1 nfc2 cep in
    ((h, ap (λ w. is_raised (Sensors.Setup.stop w)) wiring ∙ refused), p)

-- What goes on from the `try` block.
after_error :
    (threads : Plant → Plant) (now : ℕ) (e : Ending System)
    → leave fatal_error now (on_system (let_run threads) e) ≡ let_run threads (left_by e)
unfolding leave on_system
after_error threads now (returns s) = refl
after_error threads now (raises s) = refl

after_signal :
    (threads : Plant → Plant) (now : ℕ) (e : Ending System)
    → leave late_signal now (on_system (let_run threads) e) ≡ (
        if is_raised e
        then let_run threads (left_by e)
        else shutdown_handler now (let_run threads (left_by e)))
unfolding leave on_system
after_signal threads now (returns s) = refl
after_signal threads now (raises s) = refl

-- An exception in the loop: the only call of `stop` ends before the machines.
error_abandons :
    (can : Spawns) (threads : Plant → Plant) (now : ℕ) (s : System)
    → Unstarted s
    → is_raised (Sensors.Setup.stop s.wiring) ≡ true
    → can.nfc1 ≡ true
    → can.nfc2 ≡ true
    → can.cep ≡ true
    → (t : System) × (main can threads fatal_error now s ≡ raises t)
      × (t.plant.machines ≡ ran threads s)
unfolding main try_block let_run
error_abandons can threads now s f refused nfc1 nfc2 cep =
    let ((h, still_refused), p) = start-Refused can s f refused nfc1 nfc2 cep in
    let begun = left_by (start can s) in
    let (t, ends, plant, again, joinable) =
      stop-refused now (let_run threads begun)
        (record { nfc1 = h.nfc1; nfc2 = h.nfc2; cep = h.cep }) still_refused in
    (
      t,
      ap (System.stop now) (after_error threads now (start can s)) ∙ ends,
      ap (λ q. q.machines) plant ∙ ap (λ q. (threads q).machines) p,
    )

-- A signal: the handler's call of `stop` ends before the machines, and the last one comes to them.
signal_halts :
    (can : Spawns) (threads : Plant → Plant) (now n : ℕ) (s : System)
    → Unstarted s
    → is_raised (Sensors.Setup.stop s.wiring) ≡ true
    → can.nfc1 ≡ true
    → can.nfc2 ≡ true
    → can.cep ≡ true
    → can.monitoring ≡ true
    → reaches (ran threads s).shop.motors n ≡ true
    → (t : System) × (main can threads late_signal now s ≡ returns t)
      × (throttle t.plant.machines.shop.motors n ≡ pos 0)
unfolding main try_block let_run shutdown_handler
signal_halts can threads now n s f refused nfc1 nfc2 cep monitoring reached =
    let ((h, still_refused), p) = start-Refused can s f refused nfc1 nfc2 cep in
    let begun = left_by (start can s) in
    let started = start-returns can s f nfc1 nfc2 cep monitoring in
    let (u, breaks, plant, again, joinable) =
      stop-refused now (let_run threads begun)
        (record { nfc1 = h.nfc1; nfc2 = h.nfc2; cep = h.cep }) still_refused in
    let (t, ends, halted) = stop-Started now u again joinable in
    let left_as = ap (λ q. q.machines) plant ∙ ap (λ q. (threads q).machines) p in
    (
      t,
      ap (System.stop now) (
            after_signal threads now (start can s)
            ∙ ap
                (λ b.
                  if b then let_run threads begun else shutdown_handler now (let_run threads begun))
                started
            ∙ ap left_by breaks)
          ∙ ends,
      ap (λ m. throttle m.shop.motors n) (halted.machines ∙ ap Machines.stop left_as)
          ∙ (stopped_twice n (ran threads s) reached).0,
    )

-- If the system can be constructed in hardware mode, the expander and its pins can be set up but
-- the operating system refuses the polling thread, and the program is given its four other
-- threads, then an exception in its loop ends it by an exception of its only call of stop, with
-- the state machines and the motors as the threads have left them; and after a signal in its loop,
-- whose handler's call of stop fails, the last call of stop returns, with every motor standing
-- still that a call can then reach.
pub polling_refused :
    (file : ConfigFile) (around : Surroundings) (begun : ℕ) (can : Spawns) (threads : Plant → Plant)
    (now n : ℕ) {s : System}
    → System.Config.init file false around begun ≡ some s
    → around.gpio_available ≡ true
    → around.board.expander_fails ≡ false
    → All (λ name. around.board.mcp_pin_fails name ≡ false) Sensors.mcp_pins
    → around.board.thread_fails ≡ true
    → can.nfc1 ≡ true
    → can.nfc2 ≡ true
    → can.cep ≡ true
    → can.monitoring ≡ true
    → reaches (ran threads s).shop.motors n ≡ true
    → ((t : System) × (program false file around begun can threads fatal_error now
          ≡ some (raises t))
        × (t.plant.machines ≡ ran threads s))
      × ((t : System) × (program false file around begun can threads late_signal now
            ≡ some (returns t))
          × (throttle t.plant.machines.shop.motors n ≡ pos 0))
unfolding program
polling_refused file around begun can threads now n {s} built available found pins refused nfc1 nfc2
      cep monitoring reached =
    let fresh = init-Unstarted file false around begun built in
    let made : s.wiring ≡ Sensors.Setup.init false true around.board =
      init-wiring file false around begun built
      ∙ ap (λ b. Sensors.Setup.init false b around.board) available in
    let breaks =
      ap (λ w. is_raised (Sensors.Setup.stop w)) made
      ∙ init-refused around.board found pins refused in
    let (t, ends, left_as) = error_abandons can threads now s fresh breaks nfc1 nfc2 cep in
    let (u, halts, still) =
      signal_halts can threads now n s fresh breaks nfc1 nfc2 cep monitoring reached in
    (
      (t, ap (Option.map (main can threads fatal_error now)) built ∙ ap some ends, left_as),
      (u, ap (Option.map (main can threads late_signal now)) built ∙ ap some halts, still),
    )
