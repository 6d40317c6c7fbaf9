-- ===== src/Nfc/Reader.antt =====
-- physical_system/nfc_reader.py: class NFCReaderThread, its set-up, its loop and stop.
-- What the buses and the chip do during the set-up is an argument.
use circular_manu_system.Workers
use circular_manu_system.Base.{
  Bool, List, Option, [], arith, false, if◌then◌else◌, not, true, ℕ, ◌++◌, ◌==◌, ◌||◌, ◌∷◌, ◌≡◌,
}
use circular_manu_system.Corner.Invariant.{without}
use circular_manu_system.Events.{NfcEvent, Queue, put_nowait}
use circular_manu_system.Nfc.{Reading, scan}
use circular_manu_system.Workers.{Worker, new_worker}
use circular_manu_system.Workers.Loop.{run_loop}

pub record NfcReader : Type 0 where
  pub reader_num : ℕ
  pub station_id : ℕ
  pub simulation : Bool
  pub has_chip : Bool
  pub thread : Worker

-- How far `_init_hardware` comes: a bus or the driver's constructor raises, or
-- `SAM_configuration` raises once the chip is assigned, or all goes well.
pub data ChipSetup : Type 0 where
  bus_failed configuration_failed ready : ChipSetup

set_up : ChipSetup → NfcReader → NfcReader
set_up bus_failed r = record r { simulation = true }
set_up configuration_failed r = record r { has_chip = true; simulation = true }
set_up ready r = record r { has_chip = true }

-- `_init_hardware`; a number other than 1 and 2 raises a ValueError before there is a chip.
unfoldable pub init_hardware : ChipSetup → NfcReader → NfcReader
unfolding set_up
init_hardware setup r =
    if r.reader_num == 1 || r.reader_num == 2
    then set_up setup r
    else record r { simulation = true }

-- `__init__`; `available` is `HARDWARE_AVAILABLE`.
unfoldable pub init : ℕ → ℕ → Bool → Bool → ChipSetup → NfcReader
unfolding init_hardware
init reader_num station_id simulation available setup =
    if simulation || not available then bare true else init_hardware setup (bare false)
  where
    bare : Bool → NfcReader
    bare without = record {
      reader_num = reader_num;
      station_id = station_id;
      simulation = without;
      has_chip = false;
      thread = new_worker;
    }

unfoldable pub stop : NfcReader → NfcReader
stop r = record r { thread = Workers.stop r.thread }

-- The queue that both readers put into and the consumer empties, with what the consumer has taken.
pub record Shared : Type 0 where
  pub taken : List NfcEvent
  pub queue : Queue NfcEvent

-- What the other threads do to the queue: the consumer takes what is there, and the other reader
-- puts a read.
pub data Move : Type 0 where
  takes : Move
  puts : NfcEvent → Move

unfoldable pub move : Move → Shared → Shared
move takes s = record { taken = s.taken ++ s.queue.items; queue = record s.queue { items = [] } }
move (puts n) s = record s { queue = put_nowait n s.queue }

unfoldable pub move_all : List Move → Shared → Shared
move_all [] s = s
move_all (m ∷ ms) s = move_all ms (move m s)

-- What is given to a reader from outside: in round `i` the driver answers `reading i`, the clock
-- then shows `time i`, and the other threads have made the moves `before i` by then.
pub record Scene : Type 0 where
  pub reading : ℕ → Reading
  pub time : ℕ → ℕ
  pub before : ℕ → List Move

unfoldable pub read_round : NfcReader → Scene → ℕ → Shared → Shared
read_round r scene i s =
    let t = move_all (scene.before i) s in
    record t {
      queue = scan r.reader_num r.station_id r.simulation (scene.reading i) (scene.time i) t.queue;
    }

-- `run`
unfoldable pub run : ℕ → (ℕ → Worker) → NfcReader → Scene → Shared → Option Shared
unfolding read_round
run fuel flags r scene s = run_loop flags (read_round r scene) fuel 0 s

pub init-thread :
    (reader_num station_id : ℕ) (simulation available : Bool) (setup : ChipSetup)
    → (init reader_num station_id simulation available setup).thread ≡ new_worker
unfolding init
init-thread reader_num station_id simulation available bus_failed = ground arith
init-thread reader_num station_id simulation available configuration_failed = ground arith
init-thread reader_num station_id simulation available ready = ground arith

-- A reader out of simulation has a chip to ask.
pub init-has_chip :
    (reader_num station_id : ℕ) (simulation available : Bool) (setup : ChipSetup)
    → (init reader_num station_id simulation available setup).simulation ≡ false
    → (init reader_num station_id simulation available setup).has_chip ≡ true
unfolding init
init-has_chip reader_num station_id simulation available bus_failed h = ground arith
init-has_chip reader_num station_id simulation available configuration_failed h = ground arith
init-has_chip reader_num station_id simulation available ready h = ground arith
