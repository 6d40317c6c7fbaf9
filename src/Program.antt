-- ===== src/Program.antt =====
-- physical_system/main.py: the entry point, with its signal handler.
-- The threads run while the main thread sleeps between its polls; what they do to the plant is an
-- argument, `threads`.
use mathlib.Core.Option
pub mod Exits
pub mod Abandoned
pub mod Refused
use circular_manu_system.System
use circular_manu_system.Base.{Bool, Option, ltb, ℕ, ◌||◌}
use circular_manu_system.Base.Ending.{Ending, left_by, raises, returns}
use circular_manu_system.Plant.{Plant, Status}
use circular_manu_system.System.{Spawns, System, start}
use circular_manu_system.System.Config.{ConfigFile, Surroundings}

-- What ends the program: a signal inside the `try` block before a thread is started, a signal in the
-- loop, or an exception in the loop.
pub data Cause : Type 0 where
  early_signal late_signal fatal_error : Cause

-- `any(queue_sizes.values())`: whether a poll of the loop logs the sizes.
unfoldable pub logs_sizes : Status → Bool
logs_sizes s = ltb 0 s.gpio_size || ltb 0 s.mcp_size || ltb 0 s.nfc_size

-- `shutdown_handler`: what `stop` raises is caught, and the program exits.
unfoldable pub shutdown_handler : ℕ → System → System
shutdown_handler now s = left_by (System.stop now s)

unfoldable pub let_run : (Plant → Plant) → System → System
let_run threads s = record s { plant = threads s.plant }

-- The end of the `try` block: what leaves it is caught or is the exit, so that only the state goes on.
unfoldable pub leave : Cause → ℕ → Ending System → System
leave late_signal now (returns s) = shutdown_handler now s
leave late_signal now (raises s) = s
leave _ now e = left_by e

unfoldable pub on_system : (System → System) → Ending System → Ending System
on_system act (returns s) = returns (act s)
on_system act (raises s) = raises (act s)

-- The `try` block.
unfoldable pub try_block : Spawns → (Plant → Plant) → Cause → ℕ → System → System
unfolding leave on_system let_run
try_block can threads early_signal now s = shutdown_handler now (let_run threads s)
try_block can threads cause now s =
    leave cause now (on_system (let_run threads) (System.start can s))

-- `main`, from the constructed system: the `finally` block stops it once more. `raises` means that
-- the program ends by an exception out of that block.
unfoldable pub main : Spawns → (Plant → Plant) → Cause → ℕ → System → Ending System
main can threads cause now s = System.stop now (try_block can threads cause now s)

-- The whole program; `none` means that the constructor raises. On a Mac it is a simulation.
unfoldable pub program :
    Bool
    → ConfigFile
    → Surroundings
    → ℕ
    → Spawns
    → (Plant → Plant)
    → Cause
    → ℕ
    → Option (Ending System)
program is_mac file around start can threads cause now =
    Option.map (main can threads cause now) (System.Config.init file is_mac around start)
