-- ===== src/System/Stopping.antt =====
-- physical_system/system_manager.py: how `stop` ends, before and after the threads are started.
use circular_manu_system.Influx
use circular_manu_system.Machines
use circular_manu_system.Mqtt
use circular_manu_system.Nfc
use circular_manu_system.Sensors
use circular_manu_system.Workers
use circular_manu_system.Base.{arith, false, refl, true, ℕ, ◌≡◌}
use circular_manu_system.Base.Ending.{is_raised, left_by, raises, raises-eq, returns, returns-eq}
use circular_manu_system.Machines.{Machines}
use circular_manu_system.Sensors.Setup.{Joinable, Wiring, stop-Joinable}
use circular_manu_system.System.{
  System, print_report, stop, stop_machines, tell_consumer, tell_readers,
}
use circular_manu_system.Workers.{Worker, can_join, created}

-- The three threads that `stop` joins have been started.
pub record Started (s : System) : Type 0 where
  pub nfc1 : can_join s.nfc1_thread.thread ≡ true
  pub nfc2 : can_join s.nfc2_thread.thread ≡ true
  pub cep : can_join s.cep_thread ≡ true

pub stop-created :
    (now : ℕ) (s : System)
    → s.cep_thread.phase ≡ created
    → (t : System) × (stop now s ≡ raises t) × (t.plant ≡ s.plant) × (t.cep_thread.phase ≡ created)
unfolding stop Workers.stop
stop-created now s new = (tell_consumer s, ground arith, refl, new)

-- A worker that has been told to stop.
abbrev pub Told : Worker → Type 0
Told w = (w.running ≡ false) × (w.stop_event ≡ true)

pub record Halted (m : Machines) (t : System) : Type 0 where
  pub machines : t.plant.machines ≡ Machines.stop m
  pub nfc1 : Told t.nfc1_thread.thread
  pub nfc2 : Told t.nfc2_thread.thread
  pub cep : Told t.cep_thread
  pub joined : Started t
  pub sensors : Joinable t.wiring.polling

-- `stop` of the sensors, and once more in the clean-up.
sensors_twice :
    (w : Wiring)
    → Joinable w.polling
    → (v : Wiring) × (u : Wiring) × (Sensors.Setup.stop w ≡ returns v)
      × (Sensors.Setup.stop v ≡ returns u)
      × Joinable u.polling
sensors_twice w h =
    let v = left_by (Sensors.Setup.stop w) in
    let once = stop-Joinable w in
    let twice = stop-Joinable v in
    (
      v,
      left_by (Sensors.Setup.stop v),
      returns-eq (Sensors.Setup.stop w) (once.0 h),
      returns-eq (Sensors.Setup.stop v) (twice.0 once.1),
      twice.1,
    )

pub stop-Started :
    (now : ℕ) (s : System)
    → Started s
    → Joinable s.wiring.polling
    → (t : System) × (stop now s ≡ returns t) × Halted s.plant.machines t
unfolding stop Workers.stop Nfc.Reader.stop Sensors.Setup.cleanup
stop-Started now s h sensors =
    let (v, u, once, twice, joinable) = sensors_twice s.wiring sensors in
    let told = tell_readers (tell_consumer s) in
    (
      print_report now (record (stop_machines told) {
        wiring = u;
        influx_client = Influx.Connection.cleanup s.influx_client;
        mqtt = Mqtt.cleanup s.mqtt;
      }),
      rw (h.cep, h.nfc1, h.nfc2, once, twice) refl,
      record {
        machines = refl;
        nfc1 = (refl, refl);
        nfc2 = (refl, refl);
        cep = (refl, refl);
        joined = record { nfc1 = h.nfc1; nfc2 = h.nfc2; cep = h.cep };
        sensors = joinable;
      },
    )

-- If the polling thread has not been started, `stop` ends at the sensors.
pub stop-refused :
    (now : ℕ) (s : System)
    → Started s
    → is_raised (Sensors.Setup.stop s.wiring) ≡ true
    → (t : System) × (stop now s ≡ raises t)
      × (t.plant ≡ s.plant)
      × Started t
      × Joinable t.wiring.polling
unfolding stop Workers.stop Nfc.Reader.stop
stop-refused now s h refused =
    let told = tell_readers (tell_consumer s) in
    let v = left_by (Sensors.Setup.stop s.wiring) in
    (
      record told { wiring = v },
      rw (h.cep, h.nfc1, h.nfc2, raises-eq (Sensors.Setup.stop s.wiring) refused) refl,
      refl,
      record { nfc1 = h.nfc1; nfc2 = h.nfc2; cep = h.cep },
      (stop-Joinable s.wiring).1,
    )
