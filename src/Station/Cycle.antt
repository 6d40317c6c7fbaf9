-- ===== src/Station/Cycle.antt =====
-- One part's way through a station, if each event reaches it: the protocol that the state machine
-- is written for, and the rows that it leaves in the event log.
use mathlib.Core.List.{append_assoc}
use circular_manu_system.Base.{
  List, Option, [], arith, false, none, refl, some, true, ℕ, ◌++◌, ◌+◌, ◌∙◌, ◌∷◌, ◌≡◌,
}
use circular_manu_system.Base.Lists.{keep}
use circular_manu_system.Base.Text.{Text, codes, is_in, to_upper}
use circular_manu_system.Events.{
  Barrier, FusedEvent, Station, at_station, place, s1_entry, s1_process, s2_entry, s2_process, same,
  same_iff, same_refl, station1, station2,
}
use circular_manu_system.Logger.{Row}
use circular_manu_system.Logger.History.{rows-logged}
use circular_manu_system.Logger.Log.{log_event, or_inferred, row}
use circular_manu_system.Logger.Tag.{infer_tag}
use circular_manu_system.Shop.{Shop, Timer, cancel, log, set_motor, stop_motor, to_influx}
use circular_manu_system.Station.{
  StationCall, StationController, Work, advancing_to_exit, entering, entry_barrier, exit_barrier,
  exit_complete, fire, idle, motor_num, process_barrier, process_event, processing,
  processing_complete, station_id,
}

abbrev pub rows : Shop → List Row
rows s = s.data_logger.rows

pub rows-log :
    (p id activity : Text) (tag : Option Text) (now : ℕ) (s : Shop)
    → rows (log p id activity tag now s)
      ≡ rows s ++ row now id p activity (or_inferred tag activity) ∷ []
unfolding log log_event
rows-log p id activity tag now s = rows-logged p id activity tag now s.data_logger

abbrev event : Barrier → Option Text → ℕ → FusedEvent
event b part t = record {
  timestamp = t;
  barrier_id = b;
  part_id = part;
  location = place at_station 0;
}

pub same_process : (k : Station) → same (process_barrier k) (entry_barrier k) ≡ false
same_process station1 = ground (arith, same_iff s1_process s1_entry)
same_process station2 = ground (arith, same_iff s2_process s2_entry)

abbrev pub processing_of : StationController → ℕ → Timer StationCall
processing_of c now = record {
  handle = c.started;
  due = now + c.process_time;
  call = processing_complete;
}

abbrev pub exit_of : StationController → ℕ → ℕ → Timer StationCall
exit_of c seen now = record { handle = c.started; due = now + 1_000_000; call = exit_complete seen }

pub enters :
    (e : FusedEvent) (p : Text) (now : ℕ) (c : StationController) (s : Shop)
    → same e.barrier_id (entry_barrier c.station) ≡ true
    → e.part_id ≡ some p
    → c.state ≡ idle
    → let w = process_event e now (c, s) in
      (w.0.state ≡ entering)
      × (w.0.timers ≡ c.timers)
      × (w.0.current_part ≡ some p)
      × (w.0.station ≡ c.station)
      × (rows w.1
          ≡ rows s
            ++ row now (station_id c.station) p (codes "ENTER") (infer_tag (codes "ENTER")) ∷ [])
unfolding process_event to_influx set_motor or_inferred
enters e p now c s hit given st =
    ground (arith, rows-log p (station_id c.station) (codes "ENTER") none now s)

pub starts :
    (e : FusedEvent) (p : Text) (now : ℕ) (c : StationController) (s : Shop)
    → same e.barrier_id (entry_barrier c.station) ≡ false
    → same e.barrier_id (process_barrier c.station) ≡ true
    → c.state ≡ entering
    → c.timers ≡ []
    → c.current_part ≡ some p
    → let w = process_event e now (c, s) in
      (w.0.state ≡ processing)
      × (w.0.timers ≡ processing_of c now ∷ [])
      × (w.0.current_part ≡ some p)
      × (w.0.station ≡ c.station)
      × (rows w.1
          ≡ rows s ++ row now (station_id c.station) p (codes "PROCESS_START") (codes "START") ∷ [])
unfolding process_event to_influx stop_motor or_inferred
starts e p now c s miss hit st ti pa = ground (
  arith,
  rows-log p (station_id c.station) (codes "PROCESS_START") (some (codes "START")) now
      (stop_motor (motor_num c.station) s),
)

pub finishes :
    (p : Text) (t : Timer StationCall) (now : ℕ) (c : StationController) (s : Shop)
    → c.timers ≡ t ∷ []
    → t.call ≡ processing_complete
    → c.current_part ≡ some p
    → let w = fire t now (c, s) in
      (w.0.state ≡ advancing_to_exit)
      × (w.0.timers ≡ [])
      × (w.0.current_part ≡ some p)
      × (w.0.station ≡ c.station)
      × (rows w.1
          ≡ rows s ++ row now (station_id c.station) p (codes "PROCESS_END") (codes "FINISH") ∷ [])
unfolding fire to_influx set_motor or_inferred cancel keep
finishes p t now c s ti ca pa =
    ground
      (arith, rows-log p (station_id c.station) (codes "PROCESS_END") (some (codes "FINISH")) now s)

pub reaches_exit :
    (e : FusedEvent) (p : Text) (now : ℕ) (c : StationController) (s : Shop)
    → same e.barrier_id (exit_barrier c.station) ≡ true
    → c.state ≡ advancing_to_exit
    → c.timers ≡ []
    → c.current_part ≡ some p
    → let w = process_event e now (c, s) in
      (w.0.timers ≡ exit_of c e.timestamp now ∷ [])
      × (w.0.current_part ≡ some p)
      × (w.0.station ≡ c.station)
      × (rows w.1 ≡ rows s)
unfolding process_event to_influx set_motor stop_motor
reaches_exit e p now c s hit st ti pa = ground arith

pub clears :
    (x : ℕ) (p : Text) (seen : ℕ) (t : Timer StationCall) (now : ℕ) (c : StationController)
    (s : Shop)
    → c.timers ≡ t ∷ []
    → t.call ≡ exit_complete seen
    → c.current_part ≡ some (x ∷ p)
    → let w = fire t now (c, s) in
      (w.0.state ≡ idle)
      × (w.0.timers ≡ [])
      × (w.0.current_part ≡ none)
      × (rows w.1
          ≡ rows s
            ++ row now (station_id c.station) (x ∷ p) (codes "EXIT") (infer_tag (codes "EXIT"))
              ∷ [])
unfolding fire to_influx stop_motor or_inferred cancel keep
clears x p seen t now c s ti ca pa = ground (
  arith,
  rows-log (x ∷ p) (station_id c.station) (codes "EXIT") none now
      (stop_motor (motor_num c.station) s),
)

pub four_rows :
    (l l1 l2 l3 l4 : List Row) (a b c d : Row)
    → l1 ≡ l ++ a ∷ []
    → l2 ≡ l1 ++ b ∷ []
    → l3 ≡ l2 ++ c ∷ []
    → l4 ≡ l3 ++ d ∷ []
    → l4 ≡ l ++ a ∷ b ∷ c ∷ d ∷ []
four_rows l l1 l2 l3 l4 a b c d h1 h2 h3 h4 = simp (h4, h3, h2, h1, append_assoc)

pub enter_tag : infer_tag (codes "ENTER") ≡ codes "START"
unfolding infer_tag is_in to_upper
enter_tag = refl

pub exit_tag : infer_tag (codes "EXIT") ≡ codes "FINISH"
unfolding infer_tag is_in to_upper
exit_tag = refl

-- A part is read at the entry, seen at the process barrier, processed, seen at the exit, and let
-- out, at the five times.
module _ (t1 t2 t3 t4 t5 : ℕ) where
  pub entered : Text → Work → Work
  entered p w = process_event (event (entry_barrier w.0.station) (some p) t1) t1 w

  pub working : Text → Work → Work
  working p w =
      process_event (event (process_barrier (entered p w).0.station) none t2) t2 (entered p w)

  pub finished : Text → Work → Work
  finished p w = fire (processing_of (entered p w).0 t2) t3 (working p w)

  pub seen : Text → Work → Work
  seen p w = process_event (event (exit_barrier (finished p w).0.station) none t4) t4 (finished p w)

  unfoldable pub visit : Text → Work → Work
  visit p w = fire (exit_of (finished p w).0 t4 t4) t5 (seen p w)

  unfoldable pub visit_rows : Text → Text → List Row
  visit_rows id p =
      row t1 id p (codes "ENTER") (codes "START")
      ∷ row t2 id p (codes "PROCESS_START") (codes "START")
      ∷ row t3 id p (codes "PROCESS_END") (codes "FINISH")
      ∷ row t5 id p (codes "EXIT") (codes "FINISH")
      ∷ []

  -- From the idle state with no timer, the fused entry event of a part with a non-empty id, the
  -- process barrier, the processing timer, the exit barrier and the exit timer bring a station
  -- back to the idle state, with no timer and no part, and add exactly the four rows ENTER,
  -- PROCESS_START, PROCESS_END and EXIT of that part to the log, at their times and with their
  -- tags.
  pub visit_completes :
      (x : ℕ) (q : Text) (c : StationController) (s : Shop)
      → c.state ≡ idle
      → c.timers ≡ []
      → ((visit (x ∷ q) (c, s)).0.state ≡ idle)
        × ((visit (x ∷ q) (c, s)).0.timers ≡ [])
        × ((visit (x ∷ q) (c, s)).0.current_part ≡ none)
        × (rows (visit (x ∷ q) (c, s)).1 ≡ rows s ++ visit_rows (station_id c.station) (x ∷ q))
  unfolding visit seen finished working entered visit_rows
  visit_completes x q c s st ti =
      let p = x ∷ q in
      let w = entered p (c, s) in
      let a =
        enters (event (entry_barrier c.station) (some p) t1) p t1 c s
          (same_refl (entry_barrier c.station)) refl st in
      let b =
        starts (event (process_barrier w.0.station) none t2) p t2 w.0 w.1 (same_process w.0.station)
          (same_refl (process_barrier w.0.station)) a.0 (a.1 ∙ ti) a.2 in
      let y = working p (c, s) in
      let d = finishes p (processing_of w.0 t2) t3 y.0 y.1 b.1 refl b.2 in
      let z = finished p (c, s) in
      let e =
        reaches_exit (event (exit_barrier z.0.station) none t4) p t4 z.0 z.1
          (same_refl (exit_barrier z.0.station)) d.0 d.1 d.2 in
      let v = seen p (c, s) in
      let f = clears x q t4 (exit_of z.0 t4 t4) t5 v.0 v.1 e.0 refl e.1 in
      let id = station_id c.station in
      (
        f.0,
        f.1,
        f.2,
        four_rows (rows s) (rows w.1) (rows y.1) (rows v.1) (rows (visit p (c, s)).1)
            (row t1 id p (codes "ENTER") (codes "START"))
            (row t2 id p (codes "PROCESS_START") (codes "START"))
            (row t3 id p (codes "PROCESS_END") (codes "FINISH"))
            (row t5 id p (codes "EXIT") (codes "FINISH")) (cc (a.4, enter_tag)) (cc (a.3, b.4))
            (cc (b.3, a.3, e.3, d.4)) (cc (e.2, d.3, b.3, a.3, exit_tag, f.3)),
      )
