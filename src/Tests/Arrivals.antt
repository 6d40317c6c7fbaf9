-- ===== src/Tests/Arrivals.antt =====
-- Parts that come to station 1 and 2 and to corner 1, from the pins and the tags on.
use circular_manu_system.Cep
use circular_manu_system.Collision
use circular_manu_system.Corner
use circular_manu_system.Plant
use circular_manu_system.Sensors
use circular_manu_system.Station
use circular_manu_system.Base.{[], arith, none, refl, some, true, ◌++◌, ◌+◌, ◌∷◌, ◌≡◌}
use circular_manu_system.Collision.{is_conveyor_safe_to_stop, request_corner}
use circular_manu_system.Events.{Barrier-discrete, Station, corner1_ext, same}
use circular_manu_system.Machines.{init_machines, put_corner}
use circular_manu_system.Nfc.{hex}
use circular_manu_system.Plant.{Plant, poll}
use circular_manu_system.Plant.Entry.{Quiet, arrival, arrival_enters, enter_row, logged_rows}
use circular_manu_system.Plant.Handover.{PushTimes, handed_over, handover_unconfirmed}
use circular_manu_system.Plant.Orphan.{orphan_row, untagged, untagged_reported}
use circular_manu_system.Plant.Push.{Awaits}
use circular_manu_system.Plant.Visit.{VisitTimes, visit_logged, visited}
use circular_manu_system.Sensors.{bounces, poll_pin}
use circular_manu_system.Shop.{set_motor}
use circular_manu_system.Station.{entering, station_id}
use circular_manu_system.Station.Cycle.{visit_rows}
use circular_manu_system.Tests.Line.{p0}

-- The tag is read at 10.0 s, the barrier is crossed at 10.1 s, and the consumer comes at 10.2 s.
arrival_enters_example :
    let q = arrival Station.station1 10_000_000 10_100_000 4 (161 ∷ []) 10_200_000 p0 in
    (q.machines.station1.state ≡ entering)
    × (q.machines.station1.current_part ≡ some (hex (4 ∷ 161 ∷ [])))
    × (logged_rows q.machines
        ≡ logged_rows p0.machines
          ++ enter_row 10_200_000 (hex (4 ∷ 161 ∷ [])) Station.station1 ∷ [])
    × (q.consumer.stats.fused_events ≡ p0.consumer.stats.fused_events + 1)
    × Quiet q
unfolding Plant.init Cep.init Sensors.init Station.init bounces Corner.init
arrival_enters_example =
    arrival_enters Station.station1 10_000_000 10_100_000 4 (161 ∷ []) 10_200_000 p0
      (record { gpio = refl; mcp = refl; nfc = refl; pending_gpio = refl; pending_nfc = refl }) refl
      (omega arith) refl refl

-- The barrier is crossed at 10.1 s; the consumer comes at 10.2 s and at 15.2 s.
untagged_reported_example :
    let q = untagged Station.station1 10_100_000 10_200_000 15_200_000 p0 in
    (q.machines.station1 ≡ p0.machines.station1)
    × (logged_rows q.machines
        ≡ logged_rows p0.machines ++ orphan_row 15_200_000 Station.station1 ∷ [])
    × (q.consumer.stats.orphaned_gpio ≡ p0.consumer.stats.orphaned_gpio + 1)
    × Quiet q
unfolding Plant.init Cep.init Sensors.init Station.init bounces Corner.init
untagged_reported_example =
    untagged_reported Station.station1 10_100_000 10_200_000 15_200_000 p0
      (record { gpio = refl; mcp = refl; nfc = refl; pending_gpio = refl; pending_nfc = refl }) refl
      (omega arith) (omega arith)

-- Corner 1 after a first poll of its limit switch, and the times of a push.
abbrev polled : Plant
polled = poll corner1_ext true 1_000_000 p0

abbrev push_times : PushTimes
push_times = record {
  at_sensor = 10_000_000;
  to_corner = 10_020_000;
  push_at = 10_520_000;
  out_at = 11_500_000;
  to_pusher = 11_520_000;
  read_at = 12_000_000;
  at_station = 12_100_000;
  to_station = 12_120_000;
}

handover_unconfirmed_example :
    let q = handed_over Station.station1 push_times 4 (161 ∷ []) polled in
    (q.machines.station1.state ≡ entering)
    × (q.machines.station1.current_part ≡ some (hex (4 ∷ 161 ∷ [])))
    × Awaits Station.station1 q.machines
    × Quiet q
unfolding Plant.init Cep.init Sensors.init Station.init bounces Corner.init Collision.init poll
    init_machines put_corner request_corner poll_pin same Barrier-discrete Corner.may_stop_feed
    is_conveyor_safe_to_stop set_motor
handover_unconfirmed_example =
    handover_unconfirmed Station.station1 push_times 4 (161 ∷ []) polled
      (record { gpio = refl; mcp = refl; nfc = refl; pending_gpio = refl; pending_nfc = refl })
      (record {
        corner_is = refl;
        corner_idle = refl;
        no_timer = refl;
        station_is = refl;
        station_idle = refl;
      })
      refl refl refl (omega arith) refl refl

abbrev visit_times : VisitTimes
visit_times = record {
  read_at = 20_000_000;
  entry_at = 20_100_000;
  to_station = 20_120_000;
  process_at = 22_000_000;
  to_process = 22_020_000;
  done_at = 29_020_000;
  exit_at = 31_000_000;
  to_exit = 31_020_000;
  clear_at = 32_020_000;
}

visit_logged_example :
    let q = visited Station.station2 visit_times 4 (161 ∷ []) p0 in
    (q.machines.station2.state ≡ Station.idle)
    × (q.machines.station2.timers ≡ [])
    × (q.machines.station2.current_part ≡ none)
    × (logged_rows q.machines
        ≡ logged_rows p0.machines
          ++ visit_rows 20_120_000 22_020_000 29_020_000 31_000_000 32_020_000
              (station_id Station.station2)
              (hex (4 ∷ 161 ∷ [])))
    × Quiet q
unfolding Plant.init Cep.init Sensors.init Station.init bounces Corner.init
visit_logged_example =
    visit_logged Station.station2 visit_times 4 (161 ∷ []) p0
      (record { gpio = refl; mcp = refl; nfc = refl; pending_gpio = refl; pending_nfc = refl })
      (record { state = refl; timers = refl; own = refl }) (omega arith) refl refl refl
      (omega arith)
