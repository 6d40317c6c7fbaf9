-- ===== src/Workers/Stopping.antt =====
-- Calls of `stop` against the steps of a thread, whose first statement sets `running` again.
use circular_manu_system.Workers
use circular_manu_system.Base.{arith, inl, inr, refl, true, ℕ, ◌+◌, ◌<◌, ◌≡◌, ◌⊎◌}
use circular_manu_system.Workers.{
  Phase, Worker, WorkerStep, begins, created, finished, leaves, looping, rounds, spawned, stop,
  stops,
}

-- The number of rounds in a step, and in a history of steps.
abbrev pub made : {v w : Worker} → WorkerStep v w → ℕ
made (begins p) = 0
made (rounds p g) = 1
made (leaves p g) = 0
made stops = 0

pub data History (v : Worker) : Worker → Type 0 where
  nothing_yet : History v v
  followed_by : {w u : Worker} → History v w → WorkerStep w u → History v u

abbrev pub all_made : {v w : Worker} → History v w → ℕ
all_made nothing_yet = 0
all_made (followed_by h s) = all_made h + made s

step-stop_event : {v w : Worker} → WorkerStep v w → v.stop_event ≡ true → w.stop_event ≡ true
unfolding stop
step-stop_event (begins p) e = e
step-stop_event (rounds p g) e = e
step-stop_event (leaves p g) e = e
step-stop_event stops e = refl

history-stop_event : {v w : Worker} → History v w → v.stop_event ≡ true → w.stop_event ≡ true
history-stop_event nothing_yet e = e
history-stop_event (followed_by h s) e = step-stop_event s (history-stop_event h e)

made-zero : {v w : Worker} (s : WorkerStep v w) → v.stop_event ≡ true → made s ≡ 0
made-zero (begins p) e = refl
made-zero (rounds p g) e = absurd (ground arith)
made-zero (leaves p g) e = refl
made-zero stops e = refl

no_round : (v : Worker) {w : Worker} (h : History (Workers.stop v) w) → all_made h ≡ 0
unfolding Workers.stop
no_round v nothing_yet = refl
no_round v (followed_by h s) = omega (arith, no_round v h, made-zero s (history-stop_event h refl))

-- The steps that a thread that does no round can still make by itself.
abbrev pub left : Worker → ℕ
left w = elim w.phase [ created ↦ 0 | spawned ↦ 2 | looping ↦ 1 | finished ↦ 0 ]

-- The steps that the thread itself makes.
abbrev own : {v w : Worker} → WorkerStep v w → ℕ
own (begins p) = 1
own (rounds p g) = 1
own (leaves p g) = 1
own stops = 0

abbrev pub all_own : {v w : Worker} → History v w → ℕ
all_own nothing_yet = 0
all_own (followed_by h s) = all_own h + own s

own-left : {v w : Worker} (s : WorkerStep v w) → v.stop_event ≡ true → own s + left w ≡ left v
unfolding Workers.stop
own-left (begins p) e = rw p (omega arith)
own-left (rounds p g) e = absurd (ground arith)
own-left (leaves p g) e = rw p (omega arith)
own-left stops e = omega arith

all_own-left :
    (v : Worker) {w : Worker} (h : History (Workers.stop v) w) → all_own h + left w ≡ left v
unfolding Workers.stop
all_own-left v nothing_yet = omega arith
all_own-left v (followed_by h s) =
    omega (arith, all_own-left v h, own-left s (history-stop_event h refl))

-- A started thread that is not through has a step that brings it nearer to its end.
abbrev pub Progresses : Worker → Type 0
Progresses w = (left w ≡ 0) ⊎ ((u : Worker) × WorkerStep w u × (left u < left w))

progress : (w : Worker) → w.stop_event ≡ true → Progresses w
progress w e = by_phase w.phase refl
  where
    by_phase : (q : Phase) → w.phase ≡ q → Progresses w
    by_phase created p = inl (rw p)
    by_phase spawned p =
        inr (record w { phase = looping; running = true }, begins p, rw p (omega arith))
    by_phase looping p =
        inr (record w { phase = finished }, leaves p (ground arith), rw p (omega arith))
    by_phase finished p = inl (rw p)

-- After stop has been called for a thread, in every history of its steps and of further calls of
-- stop, the thread starts no round of its loop, each of its own steps brings it nearer to its end,
-- which is at most two steps away, and while it is not at its end there is such a step, also if
-- stop comes before the thread's first statement.
pub stopped_ends :
    (v : Worker) {w : Worker} (h : History (Workers.stop v) w)
    → (all_made h ≡ 0) × (all_own h + left w ≡ left v) × Progresses w
unfolding Workers.stop
stopped_ends v {w} h = (no_round v h, all_own-left v h, progress w (history-stop_event h refl))
