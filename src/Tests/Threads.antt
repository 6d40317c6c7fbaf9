-- ===== src/Tests/Threads.antt =====
-- The threads, the monitoring, and the ends of the program, on a small system.
use circular_manu_system.Cep
use circular_manu_system.Nfc
use circular_manu_system.Workers
use circular_manu_system.Base.{
  [], arith, false, inl, ltb, refl, some, true, ℕ, ◌++◌, ◌+◌, ◌<◌, ◌∷◌, ◌≡◌,
}
use circular_manu_system.Base.Text.{codes}
use circular_manu_system.Cep.Accounting.{Balanced, init-Balanced}
use circular_manu_system.Cep.Running.{Supply, run-Balanced}
use circular_manu_system.Cep.Statistics.{print_statistics}
use circular_manu_system.Events.{NfcEvent, is_full, put_nowait}
use circular_manu_system.Nfc.{tag}
use circular_manu_system.Nfc.Reader.{
  NfcReader, Scene, Shared, move, move_all, puts, read_round, ready, takes,
}
use circular_manu_system.Nfc.Reads.{HasRoom, by, reads_from, run-reads}
use circular_manu_system.Tests.Fusing.{at_entry, noted, part_a}
use circular_manu_system.Workers.{Worker, begins, goes_on, leaves, looping, new_worker, spawn}
use circular_manu_system.Workers.Loop.{rounds_from}
use circular_manu_system.Workers.Stopping.{
  History, Progresses, all_made, all_own, followed_by, left, nothing_yet, stopped_ends,
}

abbrev flags_until : ℕ → ℕ → Worker
flags_until n i = record { phase = looping; running = ltb i n; stop_event = false }

until_two : (i : ℕ) → i < 2 → goes_on (flags_until 2 i) ≡ true
until_two i h = ground arith

abbrev through : Worker
through = record { phase = Workers.finished; running = true; stop_event = true }

-- A thread that is told to stop before its first statement.
stopped_history : History (Workers.stop (spawn new_worker)) through
unfolding spawn Workers.stop
stopped_history = followed_by (followed_by nothing_yet (begins refl)) (leaves refl refl)

stopped_ends_example :
    (all_made stopped_history ≡ 0)
    × (all_own stopped_history + left through ≡ left (spawn new_worker))
    × Progresses through
stopped_ends_example = stopped_ends (spawn new_worker) stopped_history

abbrev reader : NfcReader
reader = Nfc.Reader.init 1 1 false true ready

-- The same tag in two rounds; before the second the consumer takes what is there, and then the other
-- reader puts a read.
abbrev other_read : NfcEvent
other_read = record { timestamp = 5; station_id = 2; part_id = codes "04"; reader_num = 2 }

abbrev scene : Scene
scene = record {
  reading = λ i. tag (4 ∷ 171 ∷ []);
  time = λ i. i;
  before = λ i. takes ∷ puts other_read ∷ [];
}

abbrev nothing_read : Shared
nothing_read = record { taken = []; queue = record { maxsize = 20; items = [] } }

run-reads_example :
    (t : Shared) × (Nfc.Reader.run 5 (flags_until 2) reader scene nothing_read ≡ some t)
    × (by 1 t ≡ by 1 nothing_read ++ reads_from reader scene 2 0)
unfolding HasRoom Nfc.Reader.init is_full move_all move put_nowait read_round Nfc.scan
    Nfc.blocking_read_tag Nfc.hex
run-reads_example =
    run-reads 2 5 (flags_until 2) reader scene nothing_read (omega arith)
      (λ i below. (ground arith, refl)) (inl refl) refl (λ i. (tt, (refl, tt))) (refl, (refl, tt))

abbrev supply : Supply
supply = record {
  now = λ i. 2_000_000;
  gpio_items = λ i. at_entry 1_000_000 ∷ [];
  mcp_items = λ i. [];
  nfc_items = λ i. part_a ∷ [];
}

run-Balanced_example :
    let end = rounds_from (Cep.Running.round noted supply) 2 0 (Cep.init 2_000_000 5_000_000, []) in
    (Cep.Running.run noted supply 5 (flags_until 2) (Cep.init 2_000_000 5_000_000) []
      ≡ some (end, print_statistics end.0.stats))
    × Balanced end.0
run-Balanced_example =
    run-Balanced noted supply 2 5 (flags_until 2) (Cep.init 2_000_000 5_000_000) [] (omega arith)
      until_two refl (init-Balanced 2_000_000 5_000_000)
