-- ===== src/System/Config.antt =====
-- physical_system/system_manager.py: _load_config, and __init__ from the configuration to the whole
-- system. What YAML reads from the file, and how the hardware and the servers answer, are arguments.
use mathlib.Core.Option
use mathlib.Core.Path.{subst}
use circular_manu_system.Nfc
use circular_manu_system.Plant
use circular_manu_system.Sensors
use circular_manu_system.Base.{
  Bool, Option, Option-cases, [], ap, if◌then◌else◌, inl, inr, none, refl, some, sym, true, ℕ, ◌&&◌,
  ◌≡◌,
}
use circular_manu_system.Influx.{InfluxDbWriter}
use circular_manu_system.Influx.Connection.{Client, no_client}
use circular_manu_system.Machines.{Config, default_config}
use circular_manu_system.Motors.{MotorController}
use circular_manu_system.Mqtt.{MqttHandler}
use circular_manu_system.Nfc.Reader.{ChipSetup, init-thread}
use circular_manu_system.Plant.{Plant}
use circular_manu_system.Sensors.Setup.{Board}
use circular_manu_system.System.{System}
use circular_manu_system.System.Starting.{Unstarted}
use circular_manu_system.Workers.{new_worker}

-- The sections of a configuration. `machines` stands for those that the state machines read, whose
-- `fusion_window` and `expiry_timeout` are not looked at; `cep` has its own two entries.
pub record Sections : Type 0 where
  pub machines : Config
  pub cep : Option (ℕ × ℕ)
  pub has_logging : Bool
  pub has_mqtt : Bool

-- What `open` and `yaml.safe_load` do: there is no file; it cannot be read or parsed; it is empty,
-- so that `None` is loaded; or it holds sections.
pub data ConfigFile : Type 0 where
  missing unreadable blank : ConfigFile
  holds : Sections → ConfigFile

-- `_default_config`
abbrev pub default_sections : Sections
default_sections = record {
  machines = default_config;
  cep = some (2_000_000, 5_000_000);
  has_logging = true;
  has_mqtt = true;
}

unfoldable pub load_config : ConfigFile → Option Sections
load_config missing = some default_sections
load_config unreadable = some default_sections
load_config blank = none
load_config (holds c) = some c

-- `if 'cep' not in self.config`, with the two windows of the consumer.
windows : Option (ℕ × ℕ) → Config → Config
windows none c = record c { fusion_window = 2_000_000; expiry_timeout = 5_000_000 }
windows (some (fusion, expiry)) c = record c { fusion_window = fusion; expiry_timeout = expiry }

-- `config['logging']['event_file']` and `config['mqtt']['broker_host']` raise a KeyError if there is
-- no such section; `'cep' not in None` raises a TypeError. Nothing drives a motor before.
configured : Option Sections → Option Config
unfolding windows
configured none = none
configured (some c) = if c.has_logging && c.has_mqtt then some (windows c.cep c.machines) else none

-- How everything outside answers while the system is constructed.
pub record Surroundings : Type 0 where
  pub motors : MotorController
  pub influx_importable : Bool
  pub influx : InfluxDbWriter × Client
  pub mqtt : MqttHandler
  pub board : Board
  pub gpio_available : Bool
  pub nfc_available : Bool
  pub chip1 : ChipSetup
  pub chip2 : ChipSetup

-- `from influxdb_writer import InfluxDBWriter` under its `try`.
writer_of : Bool → InfluxDbWriter → Option InfluxDbWriter
writer_of importable w = if importable then some w else none

construct : Bool → Surroundings → ℕ → Config → System
unfolding writer_of
construct simulation around now config = record {
  plant = Plant.init config around.motors (writer_of around.influx_importable around.influx.0) now;
  wiring = Sensors.Setup.init simulation around.gpio_available around.board;
  nfc1_thread = Nfc.Reader.init 1 1 simulation around.nfc_available around.chip1;
  nfc2_thread = Nfc.Reader.init 2 2 simulation around.nfc_available around.chip2;
  cep_thread = new_worker;
  monitoring_thread = none;
  influx_client = if around.influx_importable then around.influx.1 else no_client;
  mqtt = around.mqtt;
  printed = [];
}

-- `SystemManager.__init__`; `none` means that it raises.
unfoldable pub init : ConfigFile → Bool → Surroundings → ℕ → Option System
unfolding load_config configured construct
init file simulation around now =
    Option.map (construct simulation around now) (configured (load_config file))

-- A system that has been constructed has started no thread.
construct-Unstarted :
    (simulation : Bool) (around : Surroundings) (now : ℕ) (config : Config)
    → Unstarted (construct simulation around now config)
unfolding construct
construct-Unstarted simulation around now config = record {
  nfc1 = ap (λ w. w.phase) (init-thread 1 1 simulation around.nfc_available around.chip1);
  nfc2 = ap (λ w. w.phase) (init-thread 2 2 simulation around.nfc_available around.chip2);
  cep = refl;
}

pub init-Unstarted :
    (file : ConfigFile) (simulation : Bool) (around : Surroundings) (now : ℕ) {s : System}
    → init file simulation around now ≡ some s
    → Unstarted s
unfolding init
init-Unstarted file simulation around now {s} e =
    elim (Option-cases (configured (load_config file))) [
      | inl nothing ↦ cc (nothing)
      | inr (config, found) ↦
          let same : construct simulation around now config ≡ s = cc (found) in
          subst Unstarted same (construct-Unstarted simulation around now config)
    ]

-- The sensors of a system that has been constructed.
pub init-wiring :
    (file : ConfigFile) (simulation : Bool) (around : Surroundings) (now : ℕ) {s : System}
    → init file simulation around now ≡ some s
    → s.wiring ≡ Sensors.Setup.init simulation around.gpio_available around.board
unfolding init construct
init-wiring file simulation around now {s} e = elim (Option-cases (configured (load_config file))) [
  | inl nothing ↦ cc (nothing)
  | inr (config, found) ↦
      let same : construct simulation around now config ≡ s = cc (found) in
      sym (ap (λ r. r.wiring) same)
]
