-- ===== src/Influx/Connection.antt =====
-- physical_system/influxdb_writer.py: __init__, _connect and cleanup.
-- What the library and the server do on the way is an argument.
use circular_manu_system.Base.{Bool, [], arith, false, if◌then◌else◌, not, true, ◌↔◌, ◌≡◌, ◌⊎◌}
use circular_manu_system.Influx.{InfluxDbWriter}

-- How `_connect` goes: a key is missing or the client raises, or the server health the health
-- check, with `pass` or with another status.
pub data Attempt : Type 0 where
  connect_failed bucket_missing : Attempt
  health : Bool → Attempt

-- `client`, which a failed health check leaves and an exception drops, and whether it is closed.
pub record Client : Type 0 where
  pub present : Bool
  pub closed : Bool

abbrev pub no_client : Client
no_client = record { present = false; closed = false }

abbrev fresh_client : Client
fresh_client = record { present = true; closed = false }

writer_with : Bool → Bool → InfluxDbWriter
writer_with connected accepting = record {
  connected = connected;
  accepting = accepting;
  points = [];
}

-- `_connect`
unfoldable pub connect : Attempt → Bool → InfluxDbWriter × Client
unfolding writer_with
connect connect_failed accepting = (writer_with false accepting, no_client)
connect bucket_missing accepting = (writer_with true false, no_client)
connect (health passes) accepting = (writer_with passes accepting, fresh_client)

-- `__init__`: without the library or without the key `influxdb` nothing is tried.
unfoldable pub init : Bool → Bool → Bool → Attempt → InfluxDbWriter × Client
unfolding writer_with connect
init available configured accepting attempt =
    if not available
    then (writer_with false accepting, no_client)
    else if not configured
    then (writer_with false accepting, no_client)
    else connect attempt accepting

-- `cleanup`: what `close` raises is dropped.
unfoldable pub cleanup : Client → Client
cleanup c = if c.present then record c { closed = true } else c

-- A writer is connected exactly if the library is there, the configuration names a server, and the
-- server passes the health check, whether or not there is a bucket.
pub init-connected :
    (available configured accepting : Bool) (attempt : Attempt)
    → ((init available configured accepting attempt).0.connected ≡ true) ↔ (
        (available ≡ true)
        × (configured ≡ true)
        × ((attempt ≡ health true) ⊎ (attempt ≡ bucket_missing)))
unfolding init
init-connected available configured accepting connect_failed = ground arith
init-connected available configured accepting bucket_missing = ground arith
init-connected available configured accepting (health true) = ground arith
init-connected available configured accepting (health false) = ground arith
