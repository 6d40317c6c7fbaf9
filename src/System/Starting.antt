-- ===== src/System/Starting.antt =====
-- physical_system/system_manager.py: how `start` ends, with the threads that the system gives.
use circular_manu_system.Base.{Bool, Bool-cases, arith, false, inl, inr, refl, true, ◌&&◌, ◌≡◌}
use circular_manu_system.Base.Ending.{is_raised, left_by, raises}
use circular_manu_system.Cep.Sole.{one}
use circular_manu_system.Plant.{is_connected, monitoring}
use circular_manu_system.System.{Spawns, System, spawn_reader, start, start_monitoring}
use circular_manu_system.System.Stopping.{Started}
use circular_manu_system.Workers.{created, spawn}

-- No thread has been started yet.
pub record Unstarted (s : System) : Type 0 where
  pub nfc1 : s.nfc1_thread.thread.phase ≡ created
  pub nfc2 : s.nfc2_thread.thread.phase ≡ created
  pub cep : s.cep_thread.phase ≡ created

-- A system whose first threads have been started.
one_reader : System → System
one_reader s = record s { nfc1_thread = spawn_reader s.nfc1_thread }

both_readers : System → System
unfolding one_reader
both_readers s = record s {
  nfc1_thread = spawn_reader s.nfc1_thread;
  nfc2_thread = spawn_reader s.nfc2_thread;
}

all_three : System → System
all_three s = record s {
  nfc1_thread = spawn_reader s.nfc1_thread;
  nfc2_thread = spawn_reader s.nfc2_thread;
  cep_thread = spawn s.cep_thread;
}

-- With a thread for the consumer and for each reader, `start` starts them.
start-eq-monitoring :
    (can : Spawns) (s : System)
    → Unstarted s
    → can.nfc1 ≡ true
    → can.nfc2 ≡ true
    → can.cep ≡ true
    → start can s ≡ start_monitoring can.monitoring (all_three s)
unfolding start spawn all_three
start-eq-monitoring can s f nfc1 nfc2 cep = rw (nfc1, nfc2, cep, f.nfc1, f.nfc2, f.cep) refl

-- The monitoring's thread, started, refused or not wanted, changes no other field.
start_monitoring-Started :
    (given : Bool) (s : System)
    → Started s
    → Started (left_by (start_monitoring given s))
      × ((left_by (start_monitoring given s)).plant ≡ s.plant)
      × ((left_by (start_monitoring given s)).wiring ≡ s.wiring)
unfolding start_monitoring
start_monitoring-Started given s h =
    elim (Bool-cases (is_connected s.plant.machines.shop.influx_writer)) [
      | inl on ↦ elim (Bool-cases given) [
        | inl yields ↦
            rw (on, yields) (record { nfc1 = h.nfc1; nfc2 = h.nfc2; cep = h.cep }, refl, refl)
        | inr refuses ↦
            rw (on, refuses) (record { nfc1 = h.nfc1; nfc2 = h.nfc2; cep = h.cep }, refl, refl)
      ]
      | inr off ↦ rw off (h, refl, refl)
    ]

all_three-Started : (s : System) → Started (all_three s)
unfolding all_three spawn spawn_reader
all_three-Started s = record { nfc1 = refl; nfc2 = refl; cep = refl }

pub start-refused :
    (can : Spawns) (s : System)
    → Unstarted s
    → can.nfc1 && can.nfc2 && can.cep ≡ false
    → (t : System) × (start can s ≡ raises t) × (t.plant ≡ s.plant) × (t.cep_thread.phase ≡ created)
unfolding start both_readers one_reader
start-refused can s f refused = elim (Bool-cases can.nfc1) [
  | inr none1 ↦ (s, rw none1 refl, refl, f.cep)
  | inl one ↦ elim (Bool-cases can.nfc2) [
    | inr none2 ↦ (one_reader s, rw (one, none2, f.nfc1) refl, refl, f.cep)
    | inl two ↦
        let none3 : can.cep ≡ false = ground (arith, one, two, refused) in
        (both_readers s, rw (one, two, none3, f.nfc1, f.nfc2) refl, refl, f.cep)
  ]
]

pub start-Started :
    (can : Spawns) (s : System)
    → Unstarted s
    → can.nfc1 ≡ true
    → can.nfc2 ≡ true
    → can.cep ≡ true
    → Started (left_by (start can s))
      × ((left_by (start can s)).plant ≡ s.plant)
      × ((left_by (start can s)).wiring ≡ s.wiring)
unfolding all_three
start-Started can s f nfc1 nfc2 cep =
    rw (start-eq-monitoring can s f nfc1 nfc2 cep)
      (start_monitoring-Started can.monitoring (all_three s) (all_three-Started s))

-- With a thread for the monitoring too, `start` returns.
pub start-returns :
    (can : Spawns) (s : System)
    → Unstarted s
    → can.nfc1 ≡ true
    → can.nfc2 ≡ true
    → can.cep ≡ true
    → can.monitoring ≡ true
    → is_raised (start can s) ≡ false
unfolding start_monitoring
start-returns can s f nfc1 nfc2 cep monitoring =
    rw (start-eq-monitoring can s f nfc1 nfc2 cep, monitoring) (ground arith)
