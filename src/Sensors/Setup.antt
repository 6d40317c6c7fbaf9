-- ===== src/Sensors/Setup.antt =====
-- physical_system/sensor_reader.py: the set-up of the pins and of the expander, and stop.
-- Whether GPIO, the bus and the expander raise is an argument.
use circular_manu_system.Sensors
use circular_manu_system.Workers
use circular_manu_system.Base.{
  Bool, Bool-cases, List, Option, [], arith, false, if◌then◌else◌, inl, inr, none, not, refl, some,
  true, ℕ, ◌&&◌, ◌+◌, ◌||◌, ◌∷◌, ◌≡◌, ◌⊎◌,
}
use circular_manu_system.Base.Ending.{Ending, is_raised, left_by, raises, returns, ◌>>=◌}
use circular_manu_system.Base.Lists.{All}
use circular_manu_system.Corner.Invariant.{without}
use circular_manu_system.Events.{Barrier}
use circular_manu_system.Workers.{Worker, can_join, created, spawned}

-- The state of the reader's hardware and of its polling thread. `interrupts` are the pins with
-- event detection; `cleaned` counts the calls of `GPIO.cleanup`.
pub record Wiring : Type 0 where
  pub simulation : Bool
  pub interrupts : List ℕ
  pub mcp_pins : List Barrier
  pub polling : Option Worker
  pub cleaned : ℕ

-- The loops of the two set-ups: up to the first item that raises, and whether one did.
unfoldable pub until_failure : {A : Type 0} → (A → Bool) → List A → List A × Bool
until_failure fails [] = ([], false)
until_failure fails (x ∷ xs) =
    let (done, broke) = until_failure fails xs in if fails x then ([], true) else (x ∷ done, broke)

-- What is given from outside: the set of the eight pins of the constants STATION1_ENTRY to
-- CORNER3_POS, in the order in which it is gone through; whether the library sets its mode, whether
-- a pin can be set up, whether the expander is found, whether one of its pins can be set up, and
-- whether the operating system refuses the polling thread.
pub record Board : Type 0 where
  pub pin_order : List ℕ
  pub mode_fails : Bool
  pub pin_fails : ℕ → Bool
  pub expander_fails : Bool
  pub mcp_pin_fails : Barrier → Bool
  pub thread_fails : Bool

-- `_setup_gpio_interrupts`
unfoldable pub setup_gpio_interrupts : Board → Wiring → Wiring
setup_gpio_interrupts b w =
    if b.mode_fails
    then record w { simulation = true }
    else let (pins, broke) = until_failure b.pin_fails b.pin_order in
      record w { interrupts = pins; simulation = w.simulation || broke }

-- The end of `_setup_mcp_polling`: `mcp_running` and `mcp_thread` are set before the thread is
-- started, and stay if `start` raises, which is caught.
start_polling : Bool → Wiring → Wiring
start_polling refused w = record w {
  polling =
      some (record {
        phase = if refused then created else spawned;
        running = true;
        stop_event = false;
      });
  simulation = w.simulation || refused;
}

-- `_setup_mcp_polling`: the thread is started once all pins are set up.
unfoldable pub setup_mcp_polling : Board → Wiring → Wiring
unfolding start_polling
setup_mcp_polling b w =
    if b.expander_fails
    then record w { simulation = true }
    else let (pins, broke) = until_failure b.mcp_pin_fails Sensors.mcp_pins in
      if broke
      then record w { mcp_pins = pins; simulation = true }
      else start_polling b.thread_fails (record w { mcp_pins = pins })

-- `__init__`; `available` is `HARDWARE_AVAILABLE`.
unfoldable pub init : Bool → Bool → Board → Wiring
init simulation available b =
    if simulation || not available
    then bare true
    else setup_mcp_polling b (setup_gpio_interrupts b (bare false))
  where
    bare : Bool → Wiring
    bare without = record {
      simulation = without;
      interrupts = [];
      mcp_pins = [];
      polling = none;
      cleaned = 0;
    }

-- `if self.mcp_running: …`: `join` raises a RuntimeError for a thread that has not been started.
join_polling : Worker → Wiring → Ending Wiring
join_polling t w =
    if can_join t
    then returns (record w { polling = some (Workers.stop t) })
    else raises (record w { polling = some (Workers.stop t) })

stop_polling : Option Worker → Wiring → Ending Wiring
unfolding join_polling
stop_polling none w = returns w
stop_polling (some t) w = if t.running then join_polling t w else returns w

-- `if not self.simulation: …`: `GPIO.cleanup` takes the event detection off all pins.
clean_pins : Wiring → Ending Wiring
clean_pins w =
    if w.simulation
    then returns w
    else returns (record w { interrupts = []; cleaned = w.cleaned + 1 })

unfoldable pub stop : Wiring → Ending Wiring
unfolding stop_polling clean_pins
stop w = do v ← stop_polling w.polling w; clean_pins v

unfoldable pub cleanup : Wiring → Ending Wiring
cleanup w = stop w

-- The polling thread, if there is one, is started or has been told to stop.
abbrev pub Joinable : Option Worker → Type 0
Joinable none = Unit
Joinable (some t) = (can_join t ≡ true) ⊎ (t.running ≡ false)

joins :
    (o : Option Worker) (w : Wiring)
    → w.polling ≡ o
    → (Joinable o → is_raised (stop_polling o w) ≡ false)
      × Joinable (left_by (stop_polling o w)).polling
unfolding stop_polling Workers.stop
joins none w e = (λ h. refl, rw e tt)
joins (some t) w e = elim (Bool-cases t.running) [
  | inr off ↦ (λ h. rw off refl, rw (off, e) (inr off))
  | inl on ↦ elim (Bool-cases (can_join t)) [
    | inl started ↦ (λ h. rw (on, started) refl, rw (on, started) (inr refl))
    | inr new ↦ (λ h. ground (arith, h), rw (on, new) (inr refl))
  ]
]

clean_pins-polling :
    (w : Wiring)
    → (is_raised (clean_pins w) ≡ false) × ((left_by (clean_pins w)).polling ≡ w.polling)
unfolding clean_pins
clean_pins-polling w = ground arith

-- What a call of `stop` does to the thread: no exception leaves it if the thread may be joined, and
-- the next call may join it in any case.
pub stop-Joinable :
    (w : Wiring)
    → (Joinable w.polling → is_raised (stop w) ≡ false) × Joinable (left_by (stop w)).polling
unfolding stop
stop-Joinable w = by_ending (stop_polling w.polling w) (joins w.polling w refl)
  where
    by_ending :
        (e : Ending Wiring)
        → (Joinable w.polling → is_raised e ≡ false) × Joinable (left_by e).polling
        → (Joinable w.polling → is_raised (e >>= clean_pins) ≡ false)
          × Joinable (left_by (e >>= clean_pins)).polling
    by_ending (returns v) (fine, next) =
        (λ h. (clean_pins-polling v).0, rw (clean_pins-polling v).1 next)
    by_ending (raises v) (fine, next) = (fine, next)

-- Where nothing fails, every item is set up.
until_failure-none :
    {A : Type 0} (fails : A → Bool) (xs : List A)
    → All (λ x. fails x ≡ false) xs
    → until_failure fails xs ≡ (xs, false)
unfolding until_failure
until_failure-none fails [] h = refl
until_failure-none fails (x ∷ xs) h = rw (h.0, until_failure-none fails xs h.1) refl

-- If no thread is refused, the set-up leaves no thread, or one that is started.
pub init-Joinable :
    (simulation available : Bool) (b : Board)
    → b.thread_fails ≡ false
    → Joinable (init simulation available b).polling
unfolding init setup_gpio_interrupts setup_mcp_polling
init-Joinable simulation available b given = ground arith

-- If GPIO can be set up, and every pin of it and of the expander, then after the set-up and stop
-- in hardware mode: if the expander is found and the polling thread is given, stop returns, that
-- thread is told to stop, and no pin keeps its event detection; if the thread is refused, stop
-- raises, with the thread told to stop; in that case and if the expander is not found, when there
-- is no thread and stop returns, the reader is in simulation mode and every pin of GPIO keeps its
-- event detection; and a second call of stop raises nothing.
pub stop-init :
    (b : Board)
    → b.mode_fails ≡ false
    → All (λ pin. b.pin_fails pin ≡ false) b.pin_order
    → All (λ name. b.mcp_pin_fails name ≡ false) Sensors.mcp_pins
    → let e = stop (init false true b) in
      (is_raised e ≡ (not b.expander_fails && b.thread_fails))
      × ((left_by e).simulation ≡ (b.expander_fails || b.thread_fails))
      × ((left_by e).interrupts ≡ (if b.expander_fails || b.thread_fails then b.pin_order else []))
      × ((left_by e).polling ≡ (
          if b.expander_fails
          then none
          else some (record {
            phase = if b.thread_fails then created else spawned;
            running = false;
            stop_event = true;
          })))
      × (is_raised (stop (left_by e)) ≡ false)
unfolding stop init setup_gpio_interrupts setup_mcp_polling Workers.stop
stop-init b mode pins expander =
    let all_pins = until_failure-none b.pin_fails b.pin_order pins in
    let all_names = until_failure-none b.mcp_pin_fails Sensors.mcp_pins expander in
    elim (Bool-cases b.expander_fails) [
      | inl missing ↦ rw (mode, all_pins, missing) (refl, refl, refl, refl, refl)
      | inr found ↦ elim (Bool-cases b.thread_fails) [
        | inl refused ↦
            rw (mode, all_pins, found, all_names, refused) (refl, refl, refl, refl, refl)
        | inr given ↦ rw (mode, all_pins, found, all_names, given) (refl, refl, refl, refl, refl)
      ]
    ]

-- A refused polling thread makes the next call of `stop` raise, however GPIO is set up.
pub init-refused :
    (b : Board)
    → b.expander_fails ≡ false
    → All (λ name. b.mcp_pin_fails name ≡ false) Sensors.mcp_pins
    → b.thread_fails ≡ true
    → is_raised (stop (init false true b)) ≡ true
unfolding stop init setup_mcp_polling
init-refused b found expander refused =
    rw (found, until_failure-none b.mcp_pin_fails Sensors.mcp_pins expander, refused) refl
