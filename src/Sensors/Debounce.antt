-- ===== src/Sensors/Debounce.antt =====
-- What the debouncing of a pin keeps out of the queue.
use circular_manu_system.Base.{
  ==_iff, Bool-cases, List, [], arith, false, inl, inr, not, refl, ℕ, ◌+◌, ◌<◌, ◌==◌, ◌∷◌, ◌≡◌,
}
use circular_manu_system.Base.Lists.{All, All-map, keep}
use circular_manu_system.Events.{Queue, SensorEvent}
use circular_manu_system.Sensors.{SensorReader, gpio_callback}

abbrev pub Interrupt : Type 0
Interrupt = ℕ × ℕ

-- The callbacks of a list of interrupts, each a channel and a time.
unfoldable pub call_all :
    List Interrupt → SensorReader × Queue SensorEvent → SensorReader × Queue SensorEvent
call_all [] (r, q) = (r, q)
call_all ((channel, t) ∷ rest) (r, q) = call_all rest (gpio_callback channel t r q)

bounced :
    (channel t : ℕ) (r : SensorReader) (q : Queue SensorEvent)
    → t < r.last_trigger_time channel + r.debounce_time
    → gpio_callback channel t r q ≡ (r, q)
unfolding gpio_callback
bounced channel t r q soon = ground arith

others :
    (channel other t : ℕ) (r : SensorReader) (q : Queue SensorEvent)
    → other == channel ≡ false
    → let r' = (gpio_callback other t r q).0 in
      (r'.last_trigger_time channel ≡ r.last_trigger_time channel)
      × (r'.debounce_time ≡ r.debounce_time)
unfolding gpio_callback
others channel other t r q e = ground arith

-- For a list of interrupts that all come within the debounce time after the last accepted
-- interrupt of a channel, the callbacks leave the reader and the queue as if the interrupts of
-- that channel had not happened.
pub call_all-debounced :
    (channel : ℕ) (calls : List Interrupt) (r : SensorReader) (q : Queue SensorEvent)
    → All (λ i. i.1 < r.last_trigger_time channel + r.debounce_time) calls
    → call_all calls (r, q) ≡ call_all (keep (λ i. not (i.0 == channel)) calls) (r, q)
unfolding call_all keep
call_all-debounced channel [] r q soon = refl
call_all-debounced channel ((other, t) ∷ calls) r q soon = elim (Bool-cases (other == channel)) [
  | inl hit ↦
      let same_channel : other ≡ channel = (==_iff other channel).0 hit in
      let ignored : gpio_callback other t r q ≡ (r, q) =
        bounced other t r q (rw same_channel soon.0) in
      rw (hit, ignored) (call_all-debounced channel calls r q soon.1)
  | inr miss ↦
      let (r', q') = gpio_callback other t r q in
      let (last, window) = others channel other t r q miss in
      rw miss
        (call_all-debounced channel calls r' q' (All-map (λ i h. rw (last, window) h) calls soon.1))
]
