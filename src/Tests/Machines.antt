-- ===== src/Tests/Machines.antt =====
-- A corner, a station, the reservations and the motors.
use circular_manu_system.Collision
use circular_manu_system.Corner
use circular_manu_system.Logger
use circular_manu_system.Motors
use circular_manu_system.Station
use circular_manu_system.Base.{[], false, none, refl, ◌++◌, ◌∷◌, ◌≡◌}
use circular_manu_system.Base.Int.{pos}
use circular_manu_system.Base.Lists.{In}
use circular_manu_system.Base.Quad.{corner2}
use circular_manu_system.Base.Text.{codes}
use circular_manu_system.Collision.{
  clear_handshake_wait, release_corner, request_corner, set_handshake_wait,
}
use circular_manu_system.Corner.{CornerConfig, CornerController, CornerState, try_to_push}
use circular_manu_system.Corner.Cycle.{transfer, transfer_completes}
use circular_manu_system.Corner.Stop.{init-Fresh, push_after_stop, retry}
use circular_manu_system.Events.{station1}
use circular_manu_system.Machines.{default_config}
use circular_manu_system.Motors.{MotorController, clamp, throttle}
use circular_manu_system.Motors.Laws.{throttle-set_speed}
use circular_manu_system.Station.{StationController, StationState, station_id}
use circular_manu_system.Station.Cycle.{visit, visit_completes, visit_rows}
use circular_manu_system.Tests.{motors, no_fault, shop, still}

abbrev corner_config : CornerConfig
corner_config = default_config.corner_config

abbrev corner : CornerController
corner = (Corner.init corner2 corner_config shop).0

abbrev station : StationController
station = Station.init station1 5_000_000 (pos 400)

visit_completes_example :
    let w = visit 10 20 30 40 50 (codes "P1") (station, shop) in
    (w.0.state ≡ StationState.idle)
    × (w.0.timers ≡ [])
    × (w.0.current_part ≡ none)
    × (w.1.data_logger.rows ≡ [] ++ visit_rows 10 20 30 40 50 (station_id station1) (codes "P1"))
unfolding Station.init Logger.init
visit_completes_example = visit_completes 10 20 30 40 50 80 (49 ∷ []) station shop refl refl

transfer_completes_example :
    let w = transfer 11_000_000 12_000_000 13_000_000 14_000_000 15_000_000 (corner, shop) in
    (w.0.state ≡ CornerState.idle)
    × (w.0.timers ≡ [])
    × (w.1.collision_mgr
        ≡ release_corner corner2 15_000_000 (
            clear_handshake_wait corner2
              (set_handshake_wait corner2 (request_corner corner2 12_000_000 Collision.init).1)))
unfolding Corner.init Collision.init request_corner Corner.may_stop_feed
transfer_completes_example =
    transfer_completes 11_000_000 12_000_000 13_000_000 14_000_000 15_000_000 corner shop refl refl
      refl refl

-- Within the first second no corner is free, and later every corner is.
push_after_stop_example :
    let c' = (Corner.stop (try_to_push 500_000 (corner, shop))).0 in
    In (retry 500_000 corner) c'.timers
    × (throttle (Corner.fire (retry 500_000 corner) 11_000_000 (c', shop)).1.motors 6
        ≡ clamp (pos 700))
unfolding Corner.init Collision.init Motors.init Motors.set_speed request_corner
push_after_stop_example =
    push_after_stop 500_000 11_000_000 corner shop shop (init-Fresh corner2 corner_config shop) refl
      refl refl refl

throttle-set_speed_example : throttle (Motors.set_speed 3 (pos 1500) motors).0 3 ≡ pos 1000
unfolding Motors.init Motors.set_speed clamp throttle
throttle-set_speed_example = throttle-set_speed 3 3 (pos 1500) motors

abbrev boards : MotorController
boards = record { simulation = false; hat1 = still; hat2 = still; faulty = no_fault }
