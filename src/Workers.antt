-- ===== src/Workers.antt =====
-- The threads that the program starts: physical_system/cep_consumer.py and
-- physical_system/nfc_reader.py, run and stop, and what they use of threading.Thread.
-- A thread's loop is `while self.running and not self.stop_event.is_set()`, and its first statement
-- is `self.running = True`.
pub mod Loop
pub mod Stopping
use circular_manu_system.Base.{Bool, false, not, true, ◌&&◌, ◌≡◌}

-- Not started; started, its first statement still to come; in its loop; out of it.
pub data Phase : Type 0 where
  created spawned looping finished : Phase

pub record Worker : Type 0 where
  pub phase : Phase
  pub running : Bool
  pub stop_event : Bool

abbrev pub new_worker : Worker
new_worker = record { phase = created; running = false; stop_event = false }

-- Whether `start` and `join` raise no RuntimeError: a thread is started once, and joined afterwards.
abbrev pub can_start : Worker → Bool
can_start w = elim w.phase [ created ↦ true | _ ↦ false ]

abbrev pub can_join : Worker → Bool
can_join w = not (can_start w)

unfoldable pub spawn : Worker → Worker
spawn w = record w { phase = spawned }

-- `stop`
unfoldable pub stop : Worker → Worker
stop w = record w { running = false; stop_event = true }

abbrev pub goes_on : Worker → Bool
goes_on w = w.running && not w.stop_event

-- What happens to a started thread: its first statement, a round of its loop, the end of the loop,
-- and a call of `stop` by another thread, at any time.
pub data WorkerStep (w : Worker) : Worker → Type 0 where
  begins : w.phase ≡ spawned → WorkerStep w (record w { phase = looping; running = true })
  rounds : w.phase ≡ looping → goes_on w ≡ true → WorkerStep w w
  leaves : w.phase ≡ looping → goes_on w ≡ false → WorkerStep w (record w { phase = finished })
  stops : WorkerStep w (stop w)
