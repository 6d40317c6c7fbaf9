-- ===== src/Cep/Running.antt =====
-- physical_system/cep_consumer.py: the whole of run, with the statistics that it prints at its end.
use mathlib.Core.Option
use circular_manu_system.Base.{List, Option, ap, false, some, true, ℕ, ◌<◌, ◌≡◌}
use circular_manu_system.Base.Int.{Ratio}
use circular_manu_system.Base.Text.{Text}
use circular_manu_system.Cep.{Calls, Consumer}
use circular_manu_system.Cep.Accounting.{Balanced, run_round-Balanced}
use circular_manu_system.Cep.Expiry.{run_round}
use circular_manu_system.Cep.Statistics.{print_statistics}
use circular_manu_system.Events.{NfcEvent, SensorEvent}
use circular_manu_system.Workers.{Worker, goes_on}
use circular_manu_system.Workers.Loop.{
  rounds_from, rounds_from-Keeps, run_loop, run_loop_ends_at_zero,
}

-- What the queues hold at each round, and what the clock shows.
pub record Supply : Type 0 where
  pub now : ℕ → ℕ
  pub gpio_items : ℕ → List SensorEvent
  pub mcp_items : ℕ → List SensorEvent
  pub nfc_items : ℕ → List NfcEvent

module _ {W : Type 0} (calls : Calls W) (supply : Supply) where
  unfoldable pub round : ℕ → Consumer × W → Consumer × W
  round i (c, w) =
      run_round calls (supply.now i) (supply.gpio_items i) (supply.mcp_items i) (supply.nfc_items i)
        c w

  -- The consumer, the world and the printed lines at the end of `run`.
  unfoldable pub run :
      ℕ → (ℕ → Worker) → Consumer → W → Option ((Consumer × W) × List (Text × Ratio))
  run fuel flags c w =
      Option.map (λ (end : Consumer × W). (end, print_statistics end.0.stats))
        (run_loop flags round fuel 0 (c, w))

  -- If a round of the consumer's loop finds that it is to stop and no earlier round does, then
  -- with more fuel than rounds the loop ends after exactly the rounds before and prints the
  -- statistics of that state; and if the counters balance at its beginning, they do at its end:
  -- the events that are fused, orphaned or pending are at most all events, and the reads that are
  -- ghosts or pending at most all reads.
  pub run-Balanced :
      (k fuel : ℕ) (flags : ℕ → Worker) (c : Consumer) (w : W)
      → k < fuel
      → ((i : ℕ) → i < k → goes_on (flags i) ≡ true)
      → goes_on (flags k) ≡ false
      → Balanced c
      → let end = rounds_from round k 0 (c, w) in
        (run fuel flags c w ≡ some (end, print_statistics end.0.stats)) × Balanced end.0
  unfolding run round
  run-Balanced k fuel flags c w enough on off h = (
    ap (Option.map (λ (end : Consumer × W). (end, print_statistics end.0.stats)))
        (run_loop_ends_at_zero flags round k fuel (c, w) enough on off),
    rounds_from-Keeps round (λ (s : Consumer × W). Balanced s.0)
        (λ i s b.
          run_round-Balanced calls (supply.now i) (supply.gpio_items i) (supply.mcp_items i)
            (supply.nfc_items i) s.0 s.1 b)
        k 0 (c, w) h,
  )
