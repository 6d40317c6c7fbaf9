-- ===== src/Lib.antt =====
-- A model of the control program of a circular manufacturing line (physical_system/), with the
-- theorems that make it correct and those that show where it is not.
--
-- The line has two stations, four corners with pushers between them, and eight motors. Light
-- barriers and limit switches raise interrupts or are polled, and NFC readers scan the parts. These
-- producers fill three bounded queues. One consumer thread takes the events from the queues, fuses
-- the entry events of a station with the reads of that station, reports what has waited too long,
-- and hands each event to the state machine of its location. The state machines drive the motors,
-- start timers, reserve corners with the collision manager, and write to the data logger and to
-- InfluxDB.
--
-- Files, each with its child modules for what is proved about it:
--   Workers    the threads of physical_system/cep_consumer.py and physical_system/nfc_reader.py: run,
--              stop and the test of their loops
--   Events     the tables of physical_system/sensor_reader.py, the dictionaries of the events, and
--              queue.Queue as the program uses it
--   Sensors    physical_system/sensor_reader.py: _gpio_callback, _get_barriers_for_pin and
--              _mcp_poll_loop; Sensors.Setup has __init__, the two set-ups, stop and cleanup
--   Nfc        physical_system/nfc_reader.py: _blocking_read_tag and the body of run; Nfc.Reader has
--              the set-up, run over the queue that the readers share, and stop, and Nfc.Part the
--              class Part
--   Parts      physical_system/part_uid_dict.py
--   Cep        physical_system/cep_consumer.py: _consume_events, _fuse_events, _events_match and
--              _deliver_event; Cep.Expiry has _expire_events and the body of the loop, Cep.Running
--              the whole of run, and Cep.Statistics the statistics
--   Station    physical_system/station_controller.py: each handler, callback, stop and get_status
--   Corner     physical_system/corner_controller.py: each handler, callback, stop and get_status;
--              Corner.Tables has the states and what a corner's number gives it
--   Collision  physical_system/collision_manager.py
--   Motors     physical_system/motor_controller.py
--   Logger     physical_system/data_logger.py: the metrics; Logger.Log has log_event, Logger.Tag
--              _infer_tag, Logger.Kpis get_kpis, Logger.Report the report, and Logger.File the file
--   Influx     physical_system/influxdb_writer.py: the points that are written; Influx.Metrics has
--              write_kpis and write_cep_stats, and Influx.Connection the connection
--   Shop       the objects that the state machines share, and threading.Timer
--   Machines   physical_system/system_manager.py: the state machines wired to what they share, and
--              what stop does to them
--   Plant      physical_system/system_manager.py: all objects wired together, get_status, the
--              monitoring, the steps of the threads and the runs
--   System     physical_system/system_manager.py: the threads, start and stop; System.Config has
--              _load_config and the construction
--   Program    physical_system/main.py
--   Mqtt       physical_system/mqtt_handler.py: the callbacks, the published messages and cleanup
--   Base       numbers, text, lists, the four corners and how methods end, for all of the above
--   Tests      concrete runs, with an instance of each theorem that has a condition
--
-- State is passed explicitly: a method takes its object and what it shares, and returns both. A part
-- of the state that the program keeps in a dictionary with fixed keys is a record or a function; one
-- with any keys is an association list. Text is a list of code points. A time is a number of
-- microseconds, and a motor speed a number of thousandths, so that 1.0 is 1000; the default
-- configuration is stated in these units. A method that reads the clock more than once in one step
-- reads the same time. Where the source compares a difference of times with a bound, the model adds
-- the bound to the other side, since a difference of natural numbers would stop at 0.
--
-- A step of the line is what one thread does between two waits: an interrupt, the poll of one pin, a
-- scan for a tag, one round of the consumer or of the monitoring, or the callback of a timer; such a
-- step is taken to be atomic: in the source a corner is released a few statements before its state
-- changes, with no lock over both, and another thread may run between. Steps come in any order and at any times, so a timer may fire early or late. A timer that
-- has been started and has neither fired nor been cancelled is an entry of its controller's list, and
-- a field that holds a timer holds its handle. A loop over a list or a range is a recursion on it. The
-- loop of a thread, which ends when it is told to stop, is a recursion on fuel; more fuel than the
-- rounds before the first test that fails is enough, as the theorems on it say.
--
-- Outside code is a parameter. A motor board has a flag for each motor that says whether setting its
-- throttle raises an exception; InfluxDB has a flag that says whether it accepts a write; an NFC
-- driver's answer, a pin's level and the time of each step are arguments. An exception that the
-- program catches is a result: a failed deletion ends the fusion and skips the expiry of that round.
--
-- What the operating system, the hardware and the servers do at the start is given too: which threads
-- can be started, the polling thread of the sensors included, which pins and chips can be set up, whether InfluxDB passes the health check, and what
-- the configuration file holds. What the threads make of the line until the program ends is an argument
-- of its last part.
--
-- Not modelled: the console log, the text that csv, json and the format strings make of values, YAML,
-- and Testing/, a script that prints the levels of pins. A join waits for at most two seconds, after
-- which stop goes on; the model goes on at once, so a thread that is late is one that still takes steps.
-- The loss of precision of floating-point times is not modelled either, and quotients are fractions.
-- str.upper is modelled on the letters of ASCII, which are all that the program's activities have.
pub mod Base
pub mod Workers
pub mod Events
pub mod Motors
pub mod Collision
pub mod Influx
pub mod Logger
pub mod Shop
pub mod Station
pub mod Corner
pub mod Sensors
pub mod Cep
pub mod Nfc
pub mod Parts
pub mod Mqtt
pub mod Machines
pub mod Plant
pub mod System
pub mod Program
pub mod Tests
