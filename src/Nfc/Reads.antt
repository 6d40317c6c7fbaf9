-- ===== src/Nfc/Reads.antt =====
-- What a reader's loop puts into the queue that it shares, against a description of its reads.
use mathlib.Core.List.{append-nil, append_assoc}
use circular_manu_system.Base.{
  ==_iff, Bool, Bool-cases, List, [], ap, arith, false, if◌then◌else◌, inl, inr, refl, some, suc,
  sym, true, zero, ℕ, ◌++◌, ◌<◌, ◌==◌, ◌∙◌, ◌∷◌, ◌≡◌, ◌⊎◌,
}
use circular_manu_system.Base.Lists.{All, keep, keep-append}
use circular_manu_system.Events.{NfcEvent, is_full, put_nowait}
use circular_manu_system.Nfc.{Reading, blocking_read_tag, hex, no_tag, put_read, raised, scan, tag}
use circular_manu_system.Nfc.Reader.{
  Move, NfcReader, Scene, Shared, move, move_all, puts, read_round, run, takes,
}
use circular_manu_system.Workers.{Worker, goes_on}
use circular_manu_system.Workers.Loop.{rounds_from, run_loop_ends_at_zero}

-- The event of one answer of the driver.
abbrev pub event_of : NfcReader → Reading → ℕ → List NfcEvent
event_of r (tag (b ∷ bs)) t =
    record {
      timestamp = t;
      station_id = r.station_id;
      part_id = hex (b ∷ bs);
      reader_num = r.reader_num;
    }
    ∷ []
event_of r _ t = []

-- The events of the rounds from round `i` on, as many as the first number says.
unfoldable pub reads_from : NfcReader → Scene → ℕ → ℕ → List NfcEvent
reads_from r scene zero i = []
reads_from r scene (suc k) i =
    event_of r (scene.reading i) (scene.time i) ++ reads_from r scene k (suc i)

-- The reads of one reader among all that were in the queue, taken or not.
abbrev pub by : ℕ → Shared → List NfcEvent
by num s = keep (λ n. n.reader_num == num) (s.taken ++ s.queue.items)

-- The moves are not this reader's own.
abbrev pub ByOthers : ℕ → Move → Type 0
ByOthers num takes = Unit
ByOthers num (puts n) = (n.reader_num == num) ≡ false

-- In none of the rounds the queue is full when the reader comes to put its event.
unfoldable pub HasRoom : NfcReader → Scene → ℕ → ℕ → Shared → Type 0
HasRoom r scene zero i s = Unit
HasRoom r scene (suc k) i s =
    (is_full (move_all (scene.before i) s).queue ≡ false)
    × HasRoom r scene k (suc i) (read_round r scene i s)

keep_more :
    (test : NfcEvent → Bool) (xs ys : List NfcEvent) (n : NfcEvent)
    → keep test (xs ++ (ys ++ n ∷ [])) ≡ keep test (xs ++ ys) ++ (if test n then n ∷ [] else [])
unfolding keep
keep_more test xs ys n =
    ap (keep test) (sym (append_assoc xs ys (n ∷ []))) ∙ keep-append test (xs ++ ys) (n ∷ [])

move-by : (num : ℕ) (m : Move) (s : Shared) → ByOthers num m → by num (move m s) ≡ by num s
unfolding move put_nowait
move-by num takes s h = ap (keep (λ n. n.reader_num == num)) (append-nil (s.taken ++ s.queue.items))
move-by num (puts n) s h = elim (Bool-cases (is_full s.queue)) [
  | inl full ↦ rw full refl
  | inr room ↦ rw room (
      keep_more (λ e. e.reader_num == num) s.taken s.queue.items n
      ∙ ap (λ b. by num s ++ (if b then n ∷ [] else [])) h
      ∙ append-nil (by num s))
]

move_all-by :
    (num : ℕ) (ms : List Move) (s : Shared)
    → All (ByOthers num) ms
    → by num (move_all ms s) ≡ by num s
unfolding move_all
move_all-by num [] s h = refl
move_all-by num (m ∷ ms) s h = move_all-by num ms (move m s) h.1 ∙ move-by num m s h.0

scan-by :
    (r : NfcReader) (answer : Reading) (t : ℕ) (s : Shared)
    → r.simulation ≡ false
    → is_full s.queue ≡ false
    → by r.reader_num
        (record s { queue = scan r.reader_num r.station_id r.simulation answer t s.queue })
      ≡ by r.reader_num s ++ event_of r answer t
unfolding scan put_read blocking_read_tag put_nowait hex
scan-by r (tag []) t s real room = rw real (sym (append-nil (by r.reader_num s)))
scan-by r (tag (b ∷ bs)) t s real room =
    let n : NfcEvent = record {
      timestamp = t;
      station_id = r.station_id;
      part_id = hex (b ∷ bs);
      reader_num = r.reader_num;
    } in
    rw (real, room)
      (keep_more (λ e. e.reader_num == r.reader_num) s.taken s.queue.items n
        ∙ ap (λ c. by r.reader_num s ++ (if c then n ∷ [] else []))
            ((==_iff r.reader_num r.reader_num).1 refl))
scan-by r no_tag t s real room = rw real (sym (append-nil (by r.reader_num s)))
scan-by r raised t s real room = rw real (sym (append-nil (by r.reader_num s)))

rounds-by :
    (r : NfcReader) (scene : Scene) (k i : ℕ) (s : Shared)
    → r.simulation ≡ false
    → ((j : ℕ) → All (ByOthers r.reader_num) (scene.before j))
    → HasRoom r scene k i s
    → by r.reader_num (rounds_from (read_round r scene) k i s)
      ≡ by r.reader_num s ++ reads_from r scene k i
unfolding rounds_from reads_from HasRoom read_round
rounds-by r scene zero i s real others room = sym (append-nil (by r.reader_num s))
rounds-by r scene (suc k) i s real others room =
    let t = move_all (scene.before i) s in
    let here = event_of r (scene.reading i) (scene.time i) in
    let later = reads_from r scene k (suc i) in
    rounds-by r scene k (suc i) (read_round r scene i s) real others room.1
    ∙ ap (λ es. es ++ later)
        (scan-by r (scene.reading i) (scene.time i) t real room.0
          ∙ ap (λ es. es ++ here) (move_all-by r.reader_num (scene.before i) s (others i)))
    ∙ append_assoc (by r.reader_num s) here later

-- If a reader that is not in simulation is running and not told to stop at the tests of its first
-- rounds, and is not running or told to stop at the next, and if in each of these rounds the queue
-- has room when the reader comes to put, then with more fuel than rounds its loop ends, and
-- whatever the consumer has taken and the other reader has put in between, the reads of this
-- reader that have been in the queue are those before and then one for each round in which the
-- driver returned a non-empty tag, in order, with the time of that round, the tag's hexadecimal
-- string, and the reader's station and number.
pub run-reads :
    (k fuel : ℕ) (flags : ℕ → Worker) (r : NfcReader) (scene : Scene) (s : Shared)
    → k < fuel
    → ((i : ℕ) → i < k → ((flags i).running ≡ true) × ((flags i).stop_event ≡ false))
    → ((flags k).running ≡ false) ⊎ ((flags k).stop_event ≡ true)
    → r.simulation ≡ false
    → ((i : ℕ) → All (ByOthers r.reader_num) (scene.before i))
    → HasRoom r scene k 0 s
    → (t : Shared) × (run fuel flags r scene s ≡ some t)
      × (by r.reader_num t ≡ by r.reader_num s ++ reads_from r scene k 0)
unfolding run
run-reads k fuel flags r scene s enough on off real others room =
    let still_on : (i : ℕ) → i < k → goes_on (flags i) ≡ true =
      λ i below. rw ((on i below).0, (on i below).1) refl in
    (
      rounds_from (read_round r scene) k 0 s,
      run_loop_ends_at_zero flags (read_round r scene) k fuel s enough still_on
          (ground (arith, off)),
      rounds-by r scene k 0 s real others room,
    )
