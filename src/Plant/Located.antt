-- ===== src/Plant/Located.antt =====
-- The locations of the events that are on their way, in the runs of the line.
use circular_manu_system.Cep
use circular_manu_system.Base.{Option, ℕ}
use circular_manu_system.Base.Lists.{All}
use circular_manu_system.Cep.Keeps.{Keeps, run_round-All}
use circular_manu_system.Events.Names.{name}
use circular_manu_system.Influx.{InfluxDbWriter}
use circular_manu_system.Machines.{Config, calls}
use circular_manu_system.Motors.{MotorController}
use circular_manu_system.Plant.{
  Plant, Run, Step, consume, consumes, corner_timer, here, init, interrupt, interrupts, monitor,
  monitors, next, poll, polls, scan_tag, scans, station_timer,
}
use circular_manu_system.Sensors.Laws.{IsLocated, gpio_callback-IsLocated, poll_pin-IsLocated}

pub record Located (p : Plant) : Type 0 where
  pub in_gpio_queue : All IsLocated p.gpio_queue.items
  pub in_mcp_queue : All IsLocated p.mcp_queue.items
  pub in_consumer : All IsLocated p.consumer.pending_gpio_events

pub init-Located :
    (config : Config) (motors : MotorController) (writer : Option InfluxDbWriter) (now : ℕ)
    → Located (init config motors writer now)
unfolding init Cep.init
init-Located config motors writer now = record {
  in_gpio_queue = tt;
  in_mcp_queue = tt;
  in_consumer = tt;
}

-- The consumer's round keeps the events whatever the calls do, so no property of the world is used.
any_world : Keeps calls IsLocated (λ m. Unit {0})
any_world = record {
  processes = λ e part fsm now w q found h. tt;
  writes = λ b l w h. tt;
  logs = λ part id activity now w h. tt;
}

pub Step-Located : {p q : Plant} → Step p q → Located p → Located q
unfolding interrupt poll scan_tag consume monitor
Step-Located {p} (interrupts channel t) h = record {
  in_gpio_queue = gpio_callback-IsLocated channel t p.sensors p.gpio_queue h.in_gpio_queue;
  in_mcp_queue = h.in_mcp_queue;
  in_consumer = h.in_consumer;
}
Step-Located {p} (polls name value t is_pin) h = record {
  in_gpio_queue = h.in_gpio_queue;
  in_mcp_queue = poll_pin-IsLocated name value t p.sensors p.mcp_queue is_pin h.in_mcp_queue;
  in_consumer = h.in_consumer;
}
Step-Located (scans k simulation reading t) h = record {
  in_gpio_queue = h.in_gpio_queue;
  in_mcp_queue = h.in_mcp_queue;
  in_consumer = h.in_consumer;
}
Step-Located {p} (consumes now) h = record {
  in_gpio_queue = tt;
  in_mcp_queue = tt;
  in_consumer =
      run_round-All any_world now p.gpio_queue.items p.mcp_queue.items p.nfc_queue.items p.consumer
        p.machines h.in_gpio_queue h.in_mcp_queue h.in_consumer;
}
Step-Located (monitors now on) h = record {
  in_gpio_queue = h.in_gpio_queue;
  in_mcp_queue = h.in_mcp_queue;
  in_consumer = h.in_consumer;
}
Step-Located (station_timer k t now p) h = record {
  in_gpio_queue = h.in_gpio_queue;
  in_mcp_queue = h.in_mcp_queue;
  in_consumer = h.in_consumer;
}
Step-Located (corner_timer k t now p) h = record {
  in_gpio_queue = h.in_gpio_queue;
  in_mcp_queue = h.in_mcp_queue;
  in_consumer = h.in_consumer;
}

-- Every run keeps this: each event in the two sensor queues and in the consumer's list carries the
-- location that the tables give to its barrier.
pub Run-Located : {p q : Plant} → Run p q → Located p → Located q
Run-Located here h = h
Run-Located (next r s) h = Step-Located s (Run-Located r h)
