-- ===== src/Program/Exits.antt =====
-- How the program ends: on which ways out the line comes to rest.
use mathlib.Core.Option
use mathlib.Core.Path.{subst}
use circular_manu_system.Machines
use circular_manu_system.System
use circular_manu_system.Base.{
  Bool, ap, arith, false, inl, inr, refl, some, sym, true, ℕ, ◌∙◌, ◌≡◌, ◌≢◌, ◌⊎◌,
}
use circular_manu_system.Base.Ending.{Ending, left_by, raises, returns}
use circular_manu_system.Base.Int.{pos}
use circular_manu_system.Base.Quad.{corner1}
use circular_manu_system.Machines.{Machines}
use circular_manu_system.Motors.{throttle}
use circular_manu_system.Motors.Laws.{reaches}
use circular_manu_system.Plant.{Plant}
use circular_manu_system.Plant.Shutdown.{stop_lem}
use circular_manu_system.Program.{
  Cause, early_signal, fatal_error, late_signal, leave, let_run, main, on_system, program,
  shutdown_handler, try_block,
}
use circular_manu_system.Sensors.Setup.{Joinable, init-Joinable}
use circular_manu_system.System.{Spawns, System}
use circular_manu_system.System.Config.{ConfigFile, Surroundings, init-Unstarted, init-wiring}
use circular_manu_system.System.Starting.{Unstarted, start-Started}
use circular_manu_system.System.Stopping.{Started, Told, stop-Started}

-- The plant after the threads have run.
abbrev pub ran : (Plant → Plant) → System → Machines
ran threads s = (threads s.plant).machines

-- What the `try` block leaves to the last call of `stop`: the line as the threads left it, or as the
-- signal handler stopped it.
record LeftAs (m : Machines) (s : System) : Type 0 where
  started : Started s
  sensors : Joinable s.wiring.polling
  machines : (s.plant.machines ≡ m) ⊎ (s.plant.machines ≡ Machines.stop m)

let_run-LeftAs :
    (threads : Plant → Plant) (m : Machines) (s : System)
    → Started s
    → Joinable s.wiring.polling
    → ran threads s ≡ m
    → LeftAs m (let_run threads s)
unfolding let_run
let_run-LeftAs threads m s h joinable e = record {
  sensors = joinable;
  started = record { nfc1 = h.nfc1; nfc2 = h.nfc2; cep = h.cep };
  machines = inl e;
}

handler-LeftAs :
    (now : ℕ) (m : Machines) (s : System)
    → LeftAs m s
    → s.plant.machines ≡ m
    → LeftAs m (shutdown_handler now s)
unfolding shutdown_handler
handler-LeftAs now m s h e =
    let (t, ends, halted) = stop-Started now s h.started h.sensors in
    rw ends (record {
      started = halted.joined;
      sensors = halted.sensors;
      machines = inr (halted.machines ∙ ap Machines.stop e);
    })

leave-LeftAs :
    (threads : Plant → Plant) (cause : Cause) (now : ℕ) (m : Machines) (e : Ending System)
    → Started (left_by e)
    → Joinable (left_by e).wiring.polling
    → ran threads (left_by e) ≡ m
    → cause ≢ early_signal
    → LeftAs m (leave cause now (on_system (let_run threads) e))
unfolding leave on_system let_run
leave-LeftAs threads early_signal now m e h joinable p late = absurd (late refl)
leave-LeftAs threads late_signal now m (returns s) h joinable p late =
    handler-LeftAs now m (let_run threads s) (let_run-LeftAs threads m s h joinable p) p
leave-LeftAs threads late_signal now m (raises s) h joinable p late =
    let_run-LeftAs threads m s h joinable p
leave-LeftAs threads fatal_error now m (returns s) h joinable p late =
    let_run-LeftAs threads m s h joinable p
leave-LeftAs threads fatal_error now m (raises s) h joinable p late =
    let_run-LeftAs threads m s h joinable p

try_block-LeftAs :
    (can : Spawns) (threads : Plant → Plant) (cause : Cause) (now : ℕ) (s : System)
    → Unstarted s
    → Joinable s.wiring.polling
    → can.nfc1 ≡ true
    → can.nfc2 ≡ true
    → can.cep ≡ true
    → cause ≢ early_signal
    → LeftAs (ran threads s) (try_block can threads cause now s)
unfolding try_block
try_block-LeftAs can threads early_signal now s f sensors nfc1 nfc2 cep late = absurd (late refl)
try_block-LeftAs can threads cause now s f sensors nfc1 nfc2 cep late =
    let (h, p, wiring) = start-Started can s f nfc1 nfc2 cep in
    leave-LeftAs threads cause now (ran threads s) (System.start can s) h
      (subst (λ w. Joinable w.polling) (sym wiring) sensors) (ap (λ q. (threads q).machines) p) late

-- A motor that can be reached stands still after the machines have been stopped, once or twice.
pub stopped_twice :
    (n : ℕ) (m : Machines)
    → reaches m.shop.motors n ≡ true
    → (throttle (Machines.stop m).shop.motors n ≡ pos 0)
      × (throttle (Machines.stop (Machines.stop m)).shop.motors n ≡ pos 0)
stopped_twice n m h =
    ground (arith, (stop_lem n corner1 m).0, (stop_lem n corner1 (Machines.stop m)).0)

-- The ways out of `main` after the three threads have been started.
pub main_halts :
    (can : Spawns) (threads : Plant → Plant) (cause : Cause) (now n : ℕ) (s : System)
    → Unstarted s
    → Joinable s.wiring.polling
    → can.nfc1 ≡ true
    → can.nfc2 ≡ true
    → can.cep ≡ true
    → cause ≢ early_signal
    → reaches (ran threads s).shop.motors n ≡ true
    → (t : System) × (main can threads cause now s ≡ returns t)
      × (throttle t.plant.machines.shop.motors n ≡ pos 0)
      × Told t.cep_thread
      × Told t.nfc1_thread.thread
      × Told t.nfc2_thread.thread
unfolding main
main_halts can threads cause now n s f sensors nfc1 nfc2 cep late reached =
    let u = try_block can threads cause now s in
    let left = try_block-LeftAs can threads cause now s f sensors nfc1 nfc2 cep late in
    let (t, ends, halted) = stop-Started now u left.started left.sensors in
    let still = stopped_twice n (ran threads s) reached in
    let at_rest : throttle t.plant.machines.shop.motors n ≡ pos 0 = elim left.machines [
      | inl once ↦
          ap (λ m. throttle m.shop.motors n) (halted.machines ∙ ap Machines.stop once) ∙ still.0
      | inr twice ↦
          ap (λ m. throttle m.shop.motors n) (halted.machines ∙ ap Machines.stop twice) ∙ still.1
    ] in
    (t, ends, at_rest, halted.cep, halted.nfc1, halted.nfc2)

-- If the system can be constructed from the configuration file, no set-up is refused its polling
-- thread, the program is given the consumer's thread and both readers' threads, whether or not the
-- monitoring's, and it ends by a signal in its loop or by an exception, then whatever the threads
-- have made of the line, it returns with every motor standing still that a call can then reach,
-- and with the three threads told to stop.
pub program_halts :
    (is_mac : Bool) (file : ConfigFile) (around : Surroundings) (begun : ℕ) (can : Spawns)
    (threads : Plant → Plant) (cause : Cause) (now n : ℕ) {s : System}
    → System.Config.init file is_mac around begun ≡ some s
    → can.nfc1 ≡ true
    → can.nfc2 ≡ true
    → can.cep ≡ true
    → around.board.thread_fails ≡ false
    → cause ≢ early_signal
    → reaches (ran threads s).shop.motors n ≡ true
    → (t : System) × (program is_mac file around begun can threads cause now ≡ some (returns t))
      × (throttle t.plant.machines.shop.motors n ≡ pos 0)
      × Told t.cep_thread
      × Told t.nfc1_thread.thread
      × Told t.nfc2_thread.thread
unfolding program
program_halts is_mac file around begun can threads cause now n {s} built nfc1 nfc2 cep polling late
      reached =
    let (t, ends, still, cep_told, nfc1_told, nfc2_told) =
      main_halts can threads cause now n s (init-Unstarted file is_mac around begun built)
        (subst (λ w. Joinable w.polling) (sym (init-wiring file is_mac around begun built))
          (init-Joinable is_mac around.gpio_available around.board polling))
        nfc1 nfc2 cep late reached in
    (
      t,
      ap (Option.map (main can threads cause now)) built ∙ ap some ends,
      still,
      cep_told,
      nfc1_told,
      nfc2_told,
    )
