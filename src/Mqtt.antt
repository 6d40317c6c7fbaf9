-- ===== src/Mqtt.antt =====
-- physical_system/mqtt_handler.py: what is published to the broker, and when.
-- The network loop of the client library calls the two callbacks, at any time.
pub mod Sessions
use circular_manu_system.Base.{
  Bool, List, [], false, if◌then◌else◌, not, true, ℕ, ◌&&◌, ◌++◌, ◌==◌, ◌||◌, ◌∷◌,
}
use circular_manu_system.Base.Text.{Text, codes}
use circular_manu_system.Station.{station_id}

-- A message as it is handed to the client: the topic, the text fields and the quality of service.
-- The time stamp and the JSON text are left out.
pub record Message : Type 0 where
  pub topic : Text
  pub fields : List (Text × Text)
  pub qos : ℕ

-- `client` is whether there is one; `accepting`, whether `publish` raises nothing; `looping`,
-- whether the network loop is running; `published`, what the client has been given.
pub record MqttHandler : Type 0 where
  pub client : Bool
  pub connected : Bool
  pub accepting : Bool
  pub looping : Bool
  pub published : List Message

-- `__init__`: `available` is `MQTT_AVAILABLE`, and `reached` says that `connect` raises nothing.
unfoldable pub init : Bool → Bool → Bool → MqttHandler
init available reached accepting = record {
  client = available && reached;
  connected = false;
  accepting = accepting;
  looping = available && reached;
  published = [];
}

-- `_on_connect`: a code other than 0 is only logged.
unfoldable pub on_connect : ℕ → MqttHandler → MqttHandler
on_connect rc h = if rc == 0 then record h { connected = true } else h

-- `_on_disconnect`, whatever the code.
unfoldable pub on_disconnect : ℕ → MqttHandler → MqttHandler
on_disconnect rc h = record h { connected = false }

publish : Message → MqttHandler → MqttHandler
publish m h =
    if not h.client || not h.connected
    then h
    else if h.accepting
    then record h { published = h.published ++ m ∷ [] }
    else h

unfoldable pub event_message : Text → Text → Text → Message
event_message part_id station activity = record {
  topic = codes "manufacturing/events/" ++ station;
  fields =
      (codes "part_id", part_id)
      ∷ (codes "station_id", station)
      ∷ (codes "activity", activity)
      ∷ [];
  qos = 1;
}

unfoldable pub publish_event : Text → Text → Text → MqttHandler → MqttHandler
unfolding publish
publish_event part_id station activity h = publish (event_message part_id station activity) h

-- The value of a KPI, as text.
unfoldable pub kpi_message : Text → Text → Message
kpi_message kpi_name value = record {
  topic = codes "manufacturing/kpis/" ++ kpi_name;
  fields = (codes "kpi", kpi_name) ∷ (codes "value", value) ∷ [];
  qos = 0;
}

unfoldable pub publish_kpi : Text → Text → MqttHandler → MqttHandler
unfolding publish
publish_kpi kpi_name value h = publish (kpi_message kpi_name value) h

-- `cleanup`: the network loop is stopped and the client told to disconnect.
unfoldable pub cleanup : MqttHandler → MqttHandler
cleanup h = if h.client then record h { looping = false } else h
