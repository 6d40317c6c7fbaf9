-- ===== src/Tests/Line.antt =====
-- A push of corner 1 in the whole system, from the light barrier to the wait for the confirmation.
use circular_manu_system.Cep
use circular_manu_system.Collision
use circular_manu_system.Corner
use circular_manu_system.Machines
use circular_manu_system.Motors
use circular_manu_system.Plant
use circular_manu_system.Sensors
use circular_manu_system.Station
use circular_manu_system.Base.{
  [], arith, false, if◌then◌else◌, inl, none, refl, some, true, ◌∷◌, ◌≡◌,
}
use circular_manu_system.Base.Int.{pos}
use circular_manu_system.Base.Lists.{All, In, keep, lookup}
use circular_manu_system.Base.Quad.{corner1, corner2, corner4, get}
use circular_manu_system.Base.Text.{text_eq}
use circular_manu_system.Cep.{
  consume_events, delete_marked, deliver_event, events_match, find_match, fuse_events, fuse_from,
  fuse_one,
}
use circular_manu_system.Cep.Accounting.{Balanced}
use circular_manu_system.Cep.Expiry.{expire_events, mark_ghosts, mark_orphans, run_round}
use circular_manu_system.Cep.Statistics.{stats_items}
use circular_manu_system.Collision.{is_conveyor_safe_to_stop, request_corner, set_handshake_wait}
use circular_manu_system.Corner.{CornerCall, extending, waiting_for_confirmation}
use circular_manu_system.Corner.Drive.{expected}
use circular_manu_system.Events.{Barrier-discrete, Station, corner1_ext, is_full, put_nowait, same}
use circular_manu_system.Influx.Metrics.{fusion_rate}
use circular_manu_system.Logger.Log.{log_event, logged}
use circular_manu_system.Machines.{Machines, default_config, fire_corner, on_shop, process}
use circular_manu_system.Motors.{throttle}
use circular_manu_system.Motors.Laws.{reaches}
use circular_manu_system.Nfc.{blocking_read_tag, hex, hex_digit, scan, tag}
use circular_manu_system.Plant.{
  Plant, Run, consume, consumes, corner_timer, here, interrupt, interrupts, next, poll, polls,
  scan_tag, scans,
}
use circular_manu_system.Plant.Accounted.{IsRateOf, fusion_rate-IsPercent}
use circular_manu_system.Plant.Conveying.{station_drive}
use circular_manu_system.Plant.Invariant.{Inv}
use circular_manu_system.Plant.Jam.{jam_forever}
use circular_manu_system.Plant.Located.{Located, Run-Located, init-Located}
use circular_manu_system.Plant.Safety.{Run-Inv, exclusive, init-Inv, is_out, state_of}
use circular_manu_system.Plant.Shutdown.{stop_lem, stopped}
use circular_manu_system.Plant.Steering.{pusher_drive}
use circular_manu_system.Sensors.{get_barriers_for_pin, gpio_callback, mcp_pins, poll_pin, put_all}
use circular_manu_system.Shop.{Timer, cancel, log, set_motor, stop_motor, to_influx}
use circular_manu_system.Station.{entering}
use circular_manu_system.Station.Drive.{station_expected}
use circular_manu_system.Tests.{motors, no_fault, still}

abbrev pub p0 : Plant
p0 = Plant.init default_config motors none 0

abbrev pub p1 : Plant
p1 = interrupt 21 10_100_000 p0

abbrev pub p2 : Plant
p2 = consume 10_200_000 p1

abbrev approach : Timer CornerCall
approach = record { handle = 0; due = 10_700_000; call = CornerCall.final_approach_complete }

abbrev pub p3 : Plant
p3 = record p2 { machines = fire_corner corner1 approach 10_700_000 p2.machines }

abbrev pub p4 : Plant
p4 = poll corner1_ext true 10_800_000 p3

abbrev pub p5 : Plant
p5 = poll corner1_ext false 10_900_000 p4

abbrev pub p6 : Plant
p6 = consume 11_000_000 p5

-- The line's facts: the approach is timed, the pusher goes out, and the confirmation is awaited.
push_of_corner1 :
    ((get p2.machines.corners corner1).timers ≡ approach ∷ [])
    × (state_of p3 corner1 ≡ extending)
    × (state_of p6 corner1 ≡ waiting_for_confirmation)
    × (p3.machines.shop.collision_mgr.corners_occupied.at1 ≡ true)
    × (fusion_rate (stats_items (Plant.get_status p6).cep_stats)
        ≡ some (record { numerator = pos 0; denominator = 2 }))
unfolding fusion_rate lookup text_eq Plant.get_status Plant.init interrupt poll consume fire_corner
    run_round fuse_events delete_marked fuse_from consume_events gpio_callback poll_pin Sensors.init
    put_all get_barriers_for_pin put_nowait is_full Cep.init fuse_one expire_events mark_ghosts
    mark_orphans deliver_event on_shop process to_influx stop_motor set_motor log log_event logged
    same Barrier-discrete Corner.process_event Corner.fire is_conveyor_safe_to_stop request_corner
    set_handshake_wait Corner.init Collision.init Motors.init Motors.set_speed keep
push_of_corner1 = (refl, refl, refl, refl, refl)

r2 : Run p0 p2
r2 = next (next here (interrupts 21 10_100_000)) (consumes 10_200_000)

r3 : Run p0 p3
r3 = next r2 (corner_timer corner1 approach 10_700_000 (rw push_of_corner1.0 (inl refl)))

r6 : Run p0 p6
r6 =
    next
      (next (next r3 (polls corner1_ext true 10_800_000 pin))
        (polls corner1_ext false 10_900_000 pin))
      (consumes 11_000_000)
  where
    pin : In corner1_ext mcp_pins
    pin = ground arith

-- The part reaches station 1, and the consumer takes the event.
abbrev pub p8 : Plant
p8 = consume 11_200_000 (interrupt 17 11_100_000 p6)

r8 : Run p6 p8
r8 = next (next here (interrupts 17 11_100_000)) (consumes 11_200_000)

exclusive_example : All (λ adj. is_out (state_of p3 adj) ≡ false) (corner2 ∷ corner4 ∷ [])
exclusive_example = exclusive default_config motors none 0 p3 corner1 r3 (rw push_of_corner1.1)

jam_forever_example :
    (state_of p8 corner1 ≡ waiting_for_confirmation)
    × (get p8.machines.shop.collision_mgr.corners_occupied corner1 ≡ true)
jam_forever_example = jam_forever default_config motors none 0 corner1 r6 push_of_corner1.2 r8

Run-Inv_example : Inv p6.machines
Run-Inv_example = Run-Inv r6 (init-Inv default_config motors none 0)

fusion_rate-IsPercent_example :
    Balanced p6.consumer
    × IsRateOf p6.consumer.stats.total_gpio (fusion_rate (stats_items p6.consumer.stats))
unfolding Plant.get_status
fusion_rate-IsPercent_example = fusion_rate-IsPercent default_config motors none 0 r6

Run-Located_example : Located p6
Run-Located_example = Run-Located r6 (init-Located default_config motors none 0)

pusher_drive_example :
    throttle p3.machines.shop.motors 5
    ≡ expected (state_of p3 corner1) (get p3.machines.corners corner1).config.push_speed
pusher_drive_example = pusher_drive default_config no_fault still still none 0 corner1 refl r3

-- A part is read and seen at the entry of station 1.
abbrev pub p9 : Plant
p9 =
    consume 10_200_000
      (interrupt 17 10_100_000 (scan_tag Station.station1 false (tag (4 ∷ 161 ∷ [])) 10_000_000 p0))

entering_station1 : p9.machines.station1.state ≡ entering
unfolding Plant.init interrupt poll consume fire_corner run_round fuse_events delete_marked
    fuse_from consume_events gpio_callback poll_pin Sensors.init put_all get_barriers_for_pin
    put_nowait is_full Cep.init fuse_one expire_events mark_ghosts mark_orphans deliver_event
    on_shop process to_influx stop_motor set_motor log log_event logged same Barrier-discrete
    Corner.process_event Station.process_event scan_tag scan blocking_read_tag hex hex_digit
    events_match find_match Station.init Corner.fire is_conveyor_safe_to_stop request_corner
    set_handshake_wait Corner.init Collision.init Motors.init Motors.set_speed keep
entering_station1 = refl

r9 : Run p0 p9
r9 =
    next
      (next (next here (scans Station.station1 false (tag (4 ∷ 161 ∷ [])) 10_000_000))
        (interrupts 17 10_100_000))
      (consumes 10_200_000)

station_drive_example :
    throttle p9.machines.shop.motors 3
    ≡ station_expected p9.machines.station1.state p9.machines.station1.motor_speed
station_drive_example =
    station_drive default_config no_fault still still none 0 Station.station1 refl r9

-- The line is stopped while the pusher of corner 1 goes out.
stop_lem_example :
    (throttle (Machines.stop p3.machines).shop.motors 5
      ≡ (if reaches p3.machines.shop.motors 5 then pos 0 else throttle p3.machines.shop.motors 5))
    × ((stopped corner1 p3.machines).timers
        ≡ cancel (get p3.machines.corners corner1).handshake_timer (
            cancel
              (get p3.machines.corners corner1).approach_timer
              (get p3.machines.corners corner1).timers))
    × ((Machines.stop p3.machines).shop.collision_mgr ≡ p3.machines.shop.collision_mgr)
stop_lem_example = stop_lem 5 corner1 p3.machines
