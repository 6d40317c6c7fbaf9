-- ===== src/Sensors/Edges.antt =====
-- What the polling of a pin puts into its queue, over a sequence of samples.
use mathlib.Core.List.{map, append-nil, append_assoc}
use circular_manu_system.Base.{
  Bool, List, [], ap, arith, false, if◌then◌else◌, none, not, refl, some, sym, true, ℕ, ◌&&◌, ◌++◌,
  ◌+◌, ◌<◌, ◌∙◌, ◌∷◌, ◌≡◌, ◌≤◌,
}
use circular_manu_system.Base.Lists.{length, length-append}
use circular_manu_system.Events.{Barrier, Queue, SensorEvent, put_nowait, same_iff}
use circular_manu_system.Events.Names.{name}
use circular_manu_system.Sensors.{SensorReader, mcp_event, poll_pin, remember, rises}

-- A sample of a pin: `pin.value`, which is low while the sensor is active, and the time.
abbrev pub Sample : Type 0
Sample = Bool × ℕ

unfoldable pub poll_samples :
    Barrier → List Sample → SensorReader → Queue SensorEvent → SensorReader × Queue SensorEvent
poll_samples name [] r q = (r, q)
poll_samples name ((value, t) ∷ samples) r q =
    let (r', q') = poll_pin name value t r q in poll_samples name samples r' q'

-- The times at which a level that was high is found low.
unfoldable pub falls : Bool → List Sample → List ℕ
falls before [] = []
falls before ((value, t) ∷ samples) =
    let rest = falls value samples in if before && not value then t ∷ rest else rest

remembered :
    (name : Barrier) (current : Bool) (r : SensorReader)
    → (remember name current r).mcp_prev_state name ≡ some current
unfolding remember
remembered name current r = rw ((same_iff name name).1 refl) refl

put_with_room :
    (e : SensorEvent) (q : Queue SensorEvent)
    → length q.items < q.maxsize
    → put_nowait e q ≡ record q { items = q.items ++ e ∷ [] }
unfolding put_nowait
put_with_room e q room = ground arith

-- What one poll puts, at each level before and now.
polled : Barrier → Bool → Bool → ℕ → Queue SensorEvent → Queue SensorEvent
polled name before value t q =
    if rises (some (not before)) (not value) then put_nowait (mcp_event name t) q else q

poll_pin_lem :
    (name : Barrier) (before value : Bool) (t : ℕ) (r : SensorReader) (q : Queue SensorEvent)
    → r.mcp_prev_state name ≡ some (not before)
    → poll_pin name value t r q ≡ (remember name (not value) r, polled name before value t q)
unfolding poll_pin polled
poll_pin_lem name before value t r q p =
    ap
      (λ o. (
        remember name (not value) r,
        if rises o (not value) then put_nowait (mcp_event name t) q else q,
      ))
      p

abbrev then_poll : Barrier → List Sample → SensorReader × Queue SensorEvent → List SensorEvent
then_poll name samples (r, q) = (poll_samples name samples r q).1.items

from_level :
    (name : Barrier) (before : Bool) (samples : List Sample) (r : SensorReader)
    (q : Queue SensorEvent)
    → r.mcp_prev_state name ≡ some (not before)
    → length q.items + length (falls before samples) ≤ q.maxsize
    → (poll_samples name samples r q).1.items
      ≡ q.items ++ map (mcp_event name) (falls before samples)
unfolding poll_samples falls polled
from_level name before [] r q p room = sym (append-nil q.items)
from_level name true ((false, t) ∷ samples) r q p room =
    let e = mcp_event name t in
    let more : Queue SensorEvent = record q { items = q.items ++ e ∷ [] } in
    ap (then_poll name samples) (poll_pin_lem name true false t r q p)
    ∙ ap (λ q'. then_poll name samples (remember name true r, q')) (put_with_room e q (omega arith))
    ∙ from_level name false samples (remember name true r) more (remembered name true r)
        (omega (arith, length-append q.items (e ∷ [])))
    ∙ append_assoc q.items (e ∷ []) (map (mcp_event name) (falls false samples))
from_level name true ((true, t) ∷ samples) r q p room =
    ap (then_poll name samples) (poll_pin_lem name true true t r q p)
    ∙ from_level name true samples (remember name false r) q (remembered name false r) room
from_level name false ((true, t) ∷ samples) r q p room =
    ap (then_poll name samples) (poll_pin_lem name false true t r q p)
    ∙ from_level name true samples (remember name false r) q (remembered name false r) room
from_level name false ((false, t) ∷ samples) r q p room =
    ap (then_poll name samples) (poll_pin_lem name false false t r q p)
    ∙ from_level name false samples (remember name true r) q (remembered name true r) room

-- If a pin has not been polled yet and its queue has room for them, polling a sequence of samples
-- puts exactly one event for each sample that is low after a sample that is high, at its time and
-- in order.
pub poll_samples_lem :
    (name : Barrier) (value : Bool) (t : ℕ) (samples : List Sample) (r : SensorReader)
    (q : Queue SensorEvent)
    → r.mcp_prev_state name ≡ none
    → length q.items + length (falls value samples) ≤ q.maxsize
    → (poll_samples name ((value, t) ∷ samples) r q).1.items
      ≡ q.items ++ map (mcp_event name) (falls value samples)
unfolding poll_samples poll_pin
poll_samples_lem name value t samples r q p room =
    ap
      (λ o.
        (poll_samples name samples (remember name (not value) r)
          (if rises o (not value) then put_nowait (mcp_event name t) q else q)).1.items)
      p
    ∙ from_level name value samples (remember name (not value) r) q (remembered name (not value) r)
        room
