-- ===== src/Machines.antt =====
-- physical_system/system_manager.py: the state machines wired to what they share, what the consumer
-- and the timers call on them, and what `stop` does to them.
use circular_manu_system.Corner
use circular_manu_system.Station
use circular_manu_system.Base.{[], none, ℕ}
use circular_manu_system.Base.Int.{pos, ℤ}
use circular_manu_system.Base.Quad.{Corner, Quad, corner1, corner2, corner3, corner4, get, put}
use circular_manu_system.Cep.{Calls, Fsm, corner_fsm, station_fsm}
use circular_manu_system.Corner.{
  CornerCall, CornerConfig, CornerController, CornerState, handshake_timeout,
}
use circular_manu_system.Events.{FusedEvent, Station}
use circular_manu_system.Influx.{write_sensor_event}
use circular_manu_system.Motors.{stop_all}
use circular_manu_system.Shop.{Shop, Timer, log, to_influx}
use circular_manu_system.Station.{StationCall, StationController}

-- The state machines and what they share.
pub record Machines : Type 0 where
  pub shop : Shop
  pub station1 : StationController
  pub station2 : StationController
  pub corners : Quad CornerController

abbrev pub get_station : Station → Machines → StationController
get_station Station.station1 m = m.station1
get_station Station.station2 m = m.station2

unfoldable pub put_station : Station → StationController × Shop → Machines → Machines
put_station Station.station1 (c, s) m = record m { station1 = c; shop = s }
put_station Station.station2 (c, s) m = record m { station2 = c; shop = s }

unfoldable pub put_corner : Corner → CornerController × Shop → Machines → Machines
put_corner k (c, s) m = record m { corners = put m.corners k c; shop = s }

-- `fsm.process_event(fused_event)`
unfoldable pub process : Fsm → FusedEvent → ℕ → Machines → Machines
unfolding put_station put_corner
process (station_fsm k) e now m =
    put_station k (Station.process_event e now (get_station k m, m.shop)) m
process (corner_fsm k) e now m =
    put_corner k (Corner.process_event e now (get m.corners k, m.shop)) m

unfoldable pub on_shop : (Shop → Shop) → Machines → Machines
on_shop act m = record m { shop = act m.shop }

abbrev pub calls : Calls Machines
calls = record {
  process_event = process;
  write_sensor_event = λ b l. on_shop (to_influx (write_sensor_event b l));
  log_event = λ part id activity now. on_shop (log part id activity none now);
}

unfoldable pub fire_station : Station → Timer StationCall → ℕ → Machines → Machines
unfolding put_station
fire_station k t now m = put_station k (Station.fire t now (get_station k m, m.shop)) m

unfoldable pub fire_corner : Corner → Timer CornerCall → ℕ → Machines → Machines
unfolding put_corner
fire_corner k t now m = put_corner k (Corner.fire t now (get m.corners k, m.shop)) m

pub record Config : Type 0 where
  pub station_speed : ℤ
  pub station1_process_time : ℕ
  pub station2_process_time : ℕ
  pub corner_config : CornerConfig
  pub fusion_window : ℕ
  pub expiry_timeout : ℕ

-- `_default_config`, in thousandths and microseconds.
abbrev pub default_config : Config
default_config = record {
  station_speed = pos 400;
  station1_process_time = 5_000_000;
  station2_process_time = 7_000_000;
  corner_config = record {
    push_speed = pos 700;
    final_delay = 500_000;
    handshake_timeout = 5_000_000;
    conveyor_speed = pos 500;
  };
  fusion_window = 2_000_000;
  expiry_timeout = 5_000_000;
}

add_corner : Corner → Config → Machines → Machines
unfolding put_corner
add_corner k config m = put_corner k (Corner.init k config.corner_config m.shop) m

no_corner : Corner → CornerConfig → CornerController
no_corner k config = record {
  corner = k;
  config = config;
  state = CornerState.idle;
  approach_timer = none;
  handshake_timer = none;
  timers = [];
  started = 0;
}

-- `for i in range(1, 5): … self.corners.append(corner)`
unfoldable pub init_machines : Config → Shop → Machines
unfolding add_corner no_corner
init_machines config s =
    add_corner corner4 config
      (add_corner corner3 config (add_corner corner2 config (add_corner corner1 config empty)))
  where
    empty : Machines
    empty = record {
      shop = s;
      station1 = Station.init Station.station1 config.station1_process_time config.station_speed;
      station2 = Station.init Station.station2 config.station2_process_time config.station_speed;
      corners = record {
        at1 = no_corner corner1 config.corner_config;
        at2 = no_corner corner2 config.corner_config;
        at3 = no_corner corner3 config.corner_config;
        at4 = no_corner corner4 config.corner_config;
      };
    }

-- The FSMs and motors part of `stop`: the timers that a field refers to are cancelled, and all
-- motors are stopped.
stop_station : Station → Machines → Machines
unfolding put_station
stop_station k m = put_station k (Station.stop (get_station k m, m.shop)) m

stop_corner : Corner → Machines → Machines
unfolding put_corner
stop_corner k m = put_corner k (Corner.stop (get m.corners k, m.shop)) m

unfoldable pub stop : Machines → Machines
unfolding stop_station stop_corner
stop m =
    on_shop (λ s. record s { motors = stop_all s.motors })
      (stop_corner corner4 (
        stop_corner corner3 (
          stop_corner corner2 (
            stop_corner corner1
              (stop_station Station.station2 (stop_station Station.station1 m))))))
