-- ===== src/Station/Invariant.antt =====
-- The state of a station between two steps: which part it holds, and which timer it waits for.
use circular_manu_system.Base.{
  Bool-cases, Option-cases, [], arith, inl, inr, none, refl, some, ℕ, ◌+◌, ◌∷◌, ◌≡◌,
}
use circular_manu_system.Base.Int.{ℤ}
use circular_manu_system.Base.Lists.{In, keep}
use circular_manu_system.Base.Text.{Text}
use circular_manu_system.Events.{FusedEvent, Station, same}
use circular_manu_system.Shop.{Shop, Timer, cancel}
use circular_manu_system.Station.{
  StationCall, StationController, advancing_to_exit, entering, entry_barrier, exit_barrier,
  exit_complete, exiting, fire, idle, init, process_barrier, process_event, processing,
  processing_complete,
}

abbrev Holds : StationController → Type 0
Holds c = ((p : Text) × (c.current_part ≡ some p)) × ((t : ℕ) × (c.entry_timestamp ≡ some t))

-- A station holds a part exactly in the states after its entry, and has one timer, that of its
-- state, exactly while it processes the part or lets it leave.
pub data Rests (c : StationController) : Type 0 where
  resting :
      c.state ≡ idle → c.timers ≡ [] → c.current_part ≡ none → c.entry_timestamp ≡ none → Rests c
  taking_in : c.state ≡ entering → c.timers ≡ [] → Holds c → Rests c
  at_work :
      (t : Timer StationCall)
      → c.state ≡ processing
      → c.timers ≡ t ∷ []
      → t.call ≡ processing_complete
      → c.process_timer ≡ some t.handle
      → Holds c
      → Rests c
  moving_out : c.state ≡ advancing_to_exit → c.timers ≡ [] → Holds c → Rests c
  leaving :
      (t : Timer StationCall) (exited : ℕ)
      → c.state ≡ exiting
      → c.timers ≡ t ∷ []
      → t.call ≡ exit_complete exited
      → Holds c
      → Rests c

pub init-Rests : (s : Station) (process_time : ℕ) (speed : ℤ) → Rests (init s process_time speed)
unfolding init
init-Rests s process_time speed = resting refl refl refl refl

pub process_event-Rests :
    (e : FusedEvent) (now : ℕ) (c : StationController) (s : Shop)
    → Rests c
    → Rests (process_event e now (c, s)).0
unfolding process_event
process_event-Rests e now c s (resting st ti pa en) =
    elim (Bool-cases (same e.barrier_id (entry_barrier c.station))) [
      | inl hit ↦ elim (Option-cases e.part_id) [
        | inl p ↦ resting (ground arith) (ground arith) (ground arith) (ground arith)
        | inr (p, h) ↦
            taking_in (ground arith) (ground arith) ((p, ground arith), (e.timestamp, ground arith))
      ]
      | inr miss ↦ resting (ground arith) (ground arith) (ground arith) (ground arith)
    ]
process_event-Rests e now c s (taking_in st ti h) =
    elim (Bool-cases (same e.barrier_id (entry_barrier c.station))) [
      | inl jitter ↦ taking_in (ground arith) (ground arith) (ground arith)
      | inr other ↦ elim (Bool-cases (same e.barrier_id (process_barrier c.station))) [
        | inl hit ↦
            at_work
              (record {
                handle = c.started;
                due = now + c.process_time;
                call = processing_complete;
              })
              (ground arith) (ground arith) refl (ground arith) (ground arith)
        | inr miss ↦ taking_in (ground arith) (ground arith) (ground arith)
      ]
    ]
process_event-Rests e now c s (at_work t st ti ca pr h) =
    at_work t (ground arith) (ground arith) ca (ground arith) (ground arith)
process_event-Rests e now c s (moving_out st ti h) =
    elim (Bool-cases (same e.barrier_id (exit_barrier c.station))) [
      | inl hit ↦
          leaving
            (record { handle = c.started; due = now + 1_000_000; call = exit_complete e.timestamp })
            e.timestamp (ground arith) (ground arith) refl (ground arith)
      | inr miss ↦ moving_out (ground arith) (ground arith) (ground arith)
    ]
process_event-Rests e now c s (leaving t exited st ti ca h) =
    leaving t exited (ground arith) (ground arith) ca (ground arith)

-- The pending timers of a controller.
abbrev pub Pending : Timer StationCall → StationController → Type 0
Pending t c = In t c.timers

pub fire-Rests :
    (t : Timer StationCall) (now : ℕ) (c : StationController) (s : Shop)
    → Pending t c
    → Rests c
    → Rests (fire t now (c, s)).0
unfolding fire cancel keep
fire-Rests t now c s p (resting st ti pa en) = absurd (ground arith)
fire-Rests t now c s p (taking_in st ti h) = absurd (ground arith)
fire-Rests t now c s p (at_work u st ti ca pr h) =
    moving_out (ground arith) (ground arith) (ground arith)
fire-Rests t now c s p (moving_out st ti h) = absurd (ground arith)
fire-Rests t now c s p (leaving u exited st ti ca h) =
    resting (ground arith) (ground arith) (ground arith) (ground arith)
