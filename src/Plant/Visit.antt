-- ===== src/Plant/Visit.antt =====
-- A part's whole way through a station, over the pins, the queues, the consumer and the timers.
use circular_manu_system.Station
use circular_manu_system.Base.{
  List, [], ap, arith, false, none, refl, ℕ, ◌++◌, ◌<◌, ◌∙◌, ◌∷◌, ◌≡◌, ◌≤◌,
}
use circular_manu_system.Base.Text.{Text, codes}
use circular_manu_system.Cep.{time_diff}
use circular_manu_system.Events.{Station}
use circular_manu_system.Logger.Log.{row}
use circular_manu_system.Machines.{Machines, fire_station, get_station}
use circular_manu_system.Nfc.{hex, tag}
use circular_manu_system.Plant.{Plant, consume, interrupt, scan_tag}
use circular_manu_system.Plant.Entry.{
  Quiet, arrival, arrival_round, deliver-Enters, enter_row, entry_pin, logged_rows,
}
use circular_manu_system.Plant.Interrupts.{
  Settles, round-Settles, with_machines, with_machines-Settles,
}
use circular_manu_system.Plant.Passing.{exit-Free, leave-GoesOut, other_pins, work-Holds}
use circular_manu_system.Plant.Stay.{Holds, Logs, exit_pin, finish-Holds, process_pin}
use circular_manu_system.Sensors.{bounces}
use circular_manu_system.Shop.{log}
use circular_manu_system.Station.{StationController, advancing_to_exit, entering, station_id}
use circular_manu_system.Station.Cycle.{
  enter_tag, exit_of, exit_tag, four_rows, processing_of, visit_rows,
}

pub record VisitTimes : Type 0 where
  pub read_at : ℕ
  pub entry_at : ℕ
  pub to_station : ℕ
  pub process_at : ℕ
  pub to_process : ℕ
  pub done_at : ℕ
  pub exit_at : ℕ
  pub to_exit : ℕ
  pub clear_at : ℕ

-- The tag is read and the entry barrier crossed; the process barrier is crossed; the processing ends.
abbrev pub entered : Station → VisitTimes → ℕ → List ℕ → Plant → Plant
entered k t b bs p = arrival k t.read_at t.entry_at b bs t.to_station p

abbrev pub working : Station → VisitTimes → ℕ → List ℕ → Plant → Plant
working k t b bs p =
    consume t.to_process (interrupt (process_pin k) t.process_at (entered k t b bs p))

abbrev pub finished : Station → VisitTimes → ℕ → List ℕ → Plant → Plant
finished k t b bs p =
    with_machines
      (fire_station k (processing_of (get_station k (entered k t b bs p).machines) t.to_process)
        t.done_at (working k t b bs p).machines)
      (working k t b bs p)

-- The exit barrier is crossed, and the part is out.
abbrev pub leaving : Station → VisitTimes → ℕ → List ℕ → Plant → Plant
leaving k t b bs p = consume t.to_exit (interrupt (exit_pin k) t.exit_at (finished k t b bs p))

abbrev pub visited : Station → VisitTimes → ℕ → List ℕ → Plant → Plant
visited k t b bs p =
    with_machines
      (fire_station k (exit_of (get_station k (finished k t b bs p).machines) t.exit_at t.to_exit)
        t.clear_at (leaving k t b bs p).machines)
      (leaving k t b bs p)

-- The station is idle, with no timer.
pub record Ready (k : Station) (c : StationController) : Type 0 where
  pub state : c.state ≡ Station.idle
  pub timers : c.timers ≡ []
  pub own : c.station ≡ k

module _ (k : Station) (t : VisitTimes) (b : ℕ) (bs : List ℕ) (p : Plant) where
  abbrev part : Text
  part = hex (b ∷ bs)

  entered-Holds :
      Quiet p
      → Ready k (get_station k p.machines)
      → bounces p.sensors (entry_pin k) t.entry_at ≡ false
      → time_diff t.entry_at t.read_at ≤ p.consumer.delta_t_fuse
      → let q = entered k t b bs p in
        Holds k part entering [] (get_station k q.machines)
        × Logs (enter_row t.to_station part k) p.machines q.machines
        × Settles (entry_pin k) p q
  unfolding consume scan_tag
  entered-Holds h r crossed near =
      let (machines, _, quiet) =
        arrival_round k t.read_at t.entry_at b bs t.to_station p h crossed near in
      let e = deliver-Enters k t.entry_at part t.to_station p.machines r.state r.own in
      let l =
        round-Settles (entry_pin k) t.entry_at t.to_station
          (scan_tag k false (tag (b ∷ bs)) t.read_at p) quiet in
      (
        record {
          state = ap (λ (m : Machines). (get_station k m).state) machines ∙ e.state;
          timers = ap (λ (m : Machines). (get_station k m).timers) machines ∙ e.timers ∙ r.timers;
          part = ap (λ (m : Machines). (get_station k m).current_part) machines ∙ e.part_is;
          own = ap (λ (m : Machines). (get_station k m).station) machines ∙ e.own;
        },
        ap logged_rows machines ∙ e.log,
        record { quiet = l.quiet; calm = l.calm; size = l.size },
      )

  -- When the processing has ended, the log has the first three rows.
  finished-Holds :
      Quiet p
      → Ready k (get_station k p.machines)
      → bounces p.sensors (entry_pin k) t.entry_at ≡ false
      → bounces p.sensors (process_pin k) t.process_at ≡ false
      → time_diff t.entry_at t.read_at ≤ p.consumer.delta_t_fuse
      → let q = entered k t b bs p in
        let w = working k t b bs p in
        let f = finished k t b bs p in
        Holds k part advancing_to_exit [] (get_station k f.machines)
        × Logs (enter_row t.to_station part k) p.machines q.machines
        × Logs
            (row t.to_process (station_id k) part (codes "PROCESS_START") (codes "START"))
            q.machines
            w.machines
        × Logs
            (row t.done_at (station_id k) part (codes "PROCESS_END") (codes "FINISH"))
            w.machines
            f.machines
        × Settles (entry_pin k) p q
        × Settles (process_pin k) q f
  finished-Holds h r crossed processed near =
      let q = entered k t b bs p in
      let w = working k t b bs p in
      let (held, log, l) = entered-Holds h r crossed near in
      let calm = l.calm (process_pin k) t.process_at (other_pins k).0 ∙ processed in
      let (held1, log1, l1) = work-Holds k part t.process_at t.to_process q l.quiet calm held in
      let timer = processing_of (get_station k q.machines) t.to_process in
      let (held2, log2) = finish-Holds k part timer t.done_at w.machines refl held1 in
      (
        held2,
        log,
        log1,
        log2,
        l,
        with_machines-Settles (process_pin k) (fire_station k timer t.done_at w.machines) q w l1,
      )

  -- If no event is on its way, the queue of the interrupts has room for two, and a station is idle
  -- with no timer, then after the read of a tag with a non-empty id, the interrupts of the
  -- station's entry, process and exit pins, the first within the fusion window of the read and
  -- none debounced, each with a round of the consumer, and the two timers, each after the round
  -- that starts it, the station is idle again with no timer and no part, the log has exactly the
  -- four rows ENTER, PROCESS_START, PROCESS_END and EXIT of that part more, although the exit is
  -- handed to the next corner as well, and again no event is on its way.
  pub visit_logged :
      Quiet p
      → Ready k (get_station k p.machines)
      → 1 < p.gpio_queue.maxsize
      → bounces p.sensors (entry_pin k) t.entry_at ≡ false
      → bounces p.sensors (process_pin k) t.process_at ≡ false
      → bounces p.sensors (exit_pin k) t.exit_at ≡ false
      → time_diff t.entry_at t.read_at ≤ p.consumer.delta_t_fuse
      → let q = visited k t b bs p in
        ((get_station k q.machines).state ≡ Station.idle)
        × ((get_station k q.machines).timers ≡ [])
        × ((get_station k q.machines).current_part ≡ none)
        × (logged_rows q.machines
            ≡ logged_rows p.machines
              ++ visit_rows t.to_station t.to_process t.done_at t.exit_at t.clear_at
                  (station_id k)
                  part)
        × Quiet q
  unfolding visit_rows
  visit_logged h r room crossed processed passed near =
      let q = entered k t b bs p in
      let w = working k t b bs p in
      let f = finished k t b bs p in
      let v = leaving k t b bs p in
      let (held, log, log1, log2, l, l1) = finished-Holds h r crossed processed near in
      let calm =
        l1.calm (exit_pin k) t.exit_at (other_pins k).2
        ∙ l.calm (exit_pin k) t.exit_at (other_pins k).1
        ∙ passed in
      let (out, quiet) =
        leave-GoesOut k part t.exit_at t.to_exit f l1.quiet calm
          (omega (arith, room, l1.size, l.size)) held in
      let free =
        exit-Free k b bs t.exit_at (exit_of (get_station k f.machines) t.exit_at t.to_exit)
          t.clear_at v.machines refl out.timers out.part out.own in
      (
        free.state,
        free.timers,
        free.part,
        four_rows (logged_rows p.machines) (logged_rows q.machines) (logged_rows w.machines)
            (logged_rows v.machines) (logged_rows (visited k t b bs p).machines)
            (row t.to_station (station_id k) part (codes "ENTER") (codes "START"))
            (row t.to_process (station_id k) part (codes "PROCESS_START") (codes "START"))
            (row t.done_at (station_id k) part (codes "PROCESS_END") (codes "FINISH"))
            (row t.clear_at (station_id k) part (codes "EXIT") (codes "FINISH"))
            (cc (log, enter_tag)) log1 (out.log ∙ log2) (cc (free.log, exit_tag)),
        record {
          gpio = quiet.gpio;
          mcp = quiet.mcp;
          nfc = quiet.nfc;
          pending_gpio = quiet.pending_gpio;
          pending_nfc = quiet.pending_nfc;
        },
      )
