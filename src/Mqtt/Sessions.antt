-- ===== src/Mqtt/Sessions.antt =====
-- physical_system/mqtt_handler.py: the callbacks and the calls of a handler, over a history.
use mathlib.Core.List.{append-nil, append_assoc}
use circular_manu_system.Mqtt
use circular_manu_system.Base.{
  Bool, List, [], arith, false, refl, sym, true, ℕ, ◌++◌, ◌==◌, ◌||◌, ◌∙◌, ◌∷◌, ◌≡◌,
}
use circular_manu_system.Base.Text.{Text}
use circular_manu_system.Mqtt.{
  Message, MqttHandler, event_message, kpi_message, on_connect, on_disconnect, publish_event,
  publish_kpi,
}

-- The messages of a whole history of callbacks and calls: those that are published while the last
-- callback was a successful connection.

pub data Call : Type 0 where
  connects disconnects : ℕ → Call
  publishes : Text → Text → Text → Call
  reports : Text → Text → Call

pub step : Call → MqttHandler → MqttHandler
step (connects rc) h = on_connect rc h
step (disconnects rc) h = on_disconnect rc h
step (publishes p s a) h = publish_event p s a h
step (reports k v) h = publish_kpi k v h

pub play : List Call → MqttHandler → MqttHandler
play [] h = h
play (c ∷ cs) h = play cs (step c h)

-- The messages that should come out, from whether there is a session.
unfoldable pub expected_messages : Bool → List Call → List Message
expected_messages online [] = []
expected_messages online (connects rc ∷ cs) = expected_messages (online || rc == 0) cs
expected_messages online (disconnects rc ∷ cs) = expected_messages false cs
expected_messages true (publishes p s a ∷ cs) = event_message p s a ∷ expected_messages true cs
expected_messages false (publishes p s a ∷ cs) = expected_messages false cs
expected_messages true (reports k v ∷ cs) = kpi_message k v ∷ expected_messages true cs
expected_messages false (reports k v ∷ cs) = expected_messages false cs

play_from :
    (cs : List Call) (h : MqttHandler) (online : Bool)
    → h.client ≡ true
    → h.accepting ≡ true
    → h.connected ≡ online
    → (play cs h).published ≡ h.published ++ expected_messages online cs
unfolding play step expected_messages on_connect on_disconnect publish_event publish_kpi
    event_message kpi_message
play_from [] h online cl ac co = sym (append-nil h.published)
play_from (connects rc ∷ cs) h online cl ac co =
    ground (arith, play_from cs (on_connect rc h) (online || rc == 0))
play_from (disconnects rc ∷ cs) h online cl ac co =
    ground (arith, play_from cs (on_disconnect rc h) false)
play_from (publishes p s a ∷ cs) h true cl ac co = ground (
  arith,
  play_from cs (publish_event p s a h) true,
  append_assoc h.published (event_message p s a ∷ []) (expected_messages true cs),
)
play_from (publishes p s a ∷ cs) h false cl ac co =
    ground (arith, play_from cs (publish_event p s a h) false)
play_from (reports k v ∷ cs) h true cl ac co = ground (
  arith,
  play_from cs (publish_kpi k v h) true,
  append_assoc h.published (kpi_message k v ∷ []) (expected_messages true cs),
)
play_from (reports k v ∷ cs) h false cl ac co =
    ground (arith, play_from cs (publish_kpi k v h) false)

step_silent :
    (c : Call) (h : MqttHandler)
    → h.client ≡ false
    → ((step c h).client ≡ false) × ((step c h).published ≡ h.published)
unfolding step on_connect on_disconnect publish_event publish_kpi
step_silent c h off = ground arith

play_silent :
    (cs : List Call) (h : MqttHandler) → h.client ≡ false → (play cs h).published ≡ h.published
unfolding play
play_silent [] h off = refl
play_silent (c ∷ cs) h off =
    let (still_off, same_messages) = step_silent c h off in
    play_silent cs (step c h) still_off ∙ same_messages

-- Over any history of callbacks and calls of a new handler whose client accepts every message, the
-- published messages are those of the calls made while the last callback with an effect was a
-- successful connection, in order; and without the library or with a failed connect none is
-- published.
pub play_lem :
    (cs : List Call)
    → ((play cs (Mqtt.init true true true)).published ≡ expected_messages false cs)
      × ((play cs (Mqtt.init false true true)).published ≡ [])
      × ((play cs (Mqtt.init true false true)).published ≡ [])
unfolding Mqtt.init
play_lem cs = (play_from cs _ false refl refl refl, play_silent cs _ refl, play_silent cs _ refl)
