-- ===== src/Events/Examples.antt =====
-- The theorems on the event bus applied to a bus with one place.
use caddybuddy.Events.Reach.{
  publishes, reads, subscribes, at_start, after_step, Reachable-IsValid, shutdown-closes,
}
use caddybuddy.Events.Bus.{put, add, publish, contains, next, shutdown, subscribe, Bus}
use caddybuddy.Events.Limits.{IsValid}
use caddybuddy.Prelude.{ℕ, ◌≡◌, refl, true, false, ◌||◌, [], arith}

-- No stream has been created: a number without a stream counts as closed.
abbrev empty_bus : Bus ℕ
empty_bus = record {
  streams = λ i. record { queue = []; is_active = false; is_closed = true };
  created = 0;
  subscribers = [];
  pending_subscribers = [];
  max_subscribers = 1;
  queue_size = 2;
}

empty_bus-IsValid : IsValid empty_bus
unfolding contains
empty_bus-IsValid = record {
  total = omega arith;
  positive = omega arith;
  waiting = λ i unclosed idle. ground arith;
  left = λ i closed. (refl, refl);
  small = λ i. omega arith;
}

-- A client subscribes and reads, and an event comes.
abbrev subscribed_once : Bus ℕ
subscribed_once = (subscribe empty_bus).0

abbrev read_once : Bus ℕ
read_once = (next 0 subscribed_once).0

Reachable-IsValid_example : IsValid (publish 7 read_once)
Reachable-IsValid_example =
    Reachable-IsValid empty_bus (publish 7 read_once) empty_bus-IsValid
      (after_step (after_step (after_step at_start subscribes) (reads 0)) (publishes 7))

was_pending :
    (contains 0 subscribed_once.subscribers || contains 0 subscribed_once.pending_subscribers)
    ≡ true
unfolding subscribe contains add put
was_pending = refl

shutdown-closes_example : ((shutdown subscribed_once).streams 0).is_closed ≡ true
shutdown-closes_example = shutdown-closes subscribed_once 0 was_pending
