-- ===== src/Events/Bus.antt =====
-- The streams by their number, and the two sets of the bus.
use caddybuddy.Prelude.{
  ℕ, suc, ◌+◌, Bool, true, false, ◌||◌, Option, none, some, List, [], ◌∷◌, ◌++◌, leb, ◌==◌,
  if◌then◌else◌, length,
}

-- `_queue`, where `none` is the end marker, `_active` and `_closed`
pub record Stream {ℓ} (E : Type ℓ) : Type ℓ where
  pub queue : List (Option E)
  pub is_active : Bool
  pub is_closed : Bool

-- Streams are numbered in the order of their creation; `created` is the number of the next one.
pub record Bus {ℓ} (E : Type ℓ) : Type ℓ where
  pub streams : ℕ → Stream E
  pub created : ℕ
  pub subscribers : List ℕ
  pub pending_subscribers : List ℕ
  pub max_subscribers : ℕ
  pub queue_size : ℕ

unfoldable pub contains : ℕ → List ℕ → Bool
contains i [] = false
contains i (j ∷ js) = i == j || contains i js

-- `set.add` and `set.discard`
unfoldable pub add : ℕ → List ℕ → List ℕ
unfolding contains
add i js = if contains i js then js else i ∷ js

unfoldable pub discard : ℕ → List ℕ → List ℕ
discard i [] = []
discard i (j ∷ js) = let rest = discard i js in if i == j then rest else j ∷ rest

module _ {ℓ} {E : Type ℓ} where
  unfoldable pub put : ℕ → Stream E → (ℕ → Stream E) → ℕ → Stream E
  put i s streams j = if i == j then s else streams j

  -- `_release_subscriber`, and the stream's fields set by `_release`
  abbrev pub released : ℕ → Bus E → Bus E
  released i bus = record bus {
    streams = put i (record (bus.streams i) { is_active = false; is_closed = true }) bus.streams;
    subscribers = discard i bus.subscribers;
    pending_subscribers = discard i bus.pending_subscribers;
  }

  unfoldable pub release : ℕ → Bus E → Bus E × Bool
  release i bus =
      if (bus.streams i).is_closed
      then (bus, false)
      else (released i bus, (bus.streams i).is_active)

  -- `_close_queue`: drained, and the end marker put.
  abbrev pub drained : ℕ → Bus E → Bus E
  drained i bus = record bus {
    streams = put i (record (bus.streams i) { queue = none ∷ [] }) bus.streams;
  }

  unfoldable pub close_from_bus : ℕ → Bus E → Bus E
  unfolding release
  close_from_bus i bus = let r = release i bus in if r.1 then drained i r.0 else r.0

  -- `aclose`, and also `__del__`
  unfoldable pub aclose : ℕ → Bus E → Bus E
  unfolding release
  aclose i bus = (release i bus).0

  -- `_activate_subscriber`, and the stream's field
  abbrev pub activated : ℕ → Bus E → Bus E
  activated i bus = record bus {
    streams = put i (record (bus.streams i) { is_active = true }) bus.streams;
    subscribers = add i bus.subscribers;
    pending_subscribers = discard i bus.pending_subscribers;
  }

  abbrev pub new_stream : Stream E
  new_stream = record { queue = []; is_active = false; is_closed = false }

  abbrev pub subscribed : Bus E → Bus E
  subscribed bus = record bus {
    streams = put bus.created new_stream bus.streams;
    created = suc bus.created;
    pending_subscribers = add bus.created bus.pending_subscribers;
  }

  -- `none` where it raises `SubscriberLimitReachedError`
  unfoldable pub subscribe : Bus E → Bus E × Option ℕ
  subscribe bus =
      if leb bus.max_subscribers (length bus.subscribers + length bus.pending_subscribers)
      then (bus, none)
      else (subscribed bus, some bus.created)

  -- The start of `__anext__`, before the queue is read.
  unfoldable pub begin_next : ℕ → Bus E → Bus E
  begin_next i bus = if (bus.streams i).is_active then bus else activated i bus

  -- The read of the queue: nothing yet, the end, or an event.
  unfoldable pub take : ℕ → List (Option E) → Bus E → Bus E × Option E
  unfolding release
  take i [] bus = (bus, none)
  take i (none ∷ rest) bus = (
    (release i
        (record bus { streams = put i (record (bus.streams i) { queue = rest }) bus.streams })).0,
    none,
  )
  take i (some event ∷ rest) bus = (
    record bus { streams = put i (record (bus.streams i) { queue = rest }) bus.streams },
    some event,
  )

  -- `__anext__`: the event, or `none` where it stops or would wait.
  unfoldable pub next : ℕ → Bus E → Bus E × Option E
  unfolding begin_next take
  next i bus =
      let ready = begin_next i bus in
      if (bus.streams i).is_closed then (bus, none) else take i (ready.streams i).queue ready

  -- `deliver`: the flag says `QueueFull`.
  unfoldable pub deliver : E → ℕ → Bus E → Bus E × Bool
  deliver event i bus = if leb bus.queue_size (length (bus.streams i).queue) then (bus, true) else (
    record bus {
      streams =
          put i (record (bus.streams i) { queue = (bus.streams i).queue ++ some event ∷ [] })
            bus.streams;
    },
    false,
  )

  -- The loop of `publish`, with the dead subscribers.
  unfoldable pub deliver_all : E → List ℕ → Bus E → Bus E × List ℕ
  unfolding deliver
  deliver_all event [] bus = (bus, [])
  deliver_all event (i ∷ rest) bus =
      let d = deliver event i bus in
      let later = deliver_all event rest d.0 in (later.0, if d.1 then i ∷ later.1 else later.1)

  unfoldable pub close_each : List ℕ → Bus E → Bus E
  unfolding close_from_bus
  close_each [] bus = bus
  close_each (i ∷ rest) bus = close_each rest (close_from_bus i bus)

  unfoldable pub publish : E → Bus E → Bus E
  unfolding deliver_all close_each
  publish event bus =
      let delivered = deliver_all event bus.subscribers bus in close_each delivered.1 delivered.0

  abbrev pub cleared : Bus E → Bus E
  cleared bus = record bus { subscribers = []; pending_subscribers = [] }

  -- `_close_all_subscribers`, which `shutdown` calls
  unfoldable pub shutdown : Bus E → Bus E
  unfolding close_each
  shutdown bus = cleared (close_each (bus.subscribers ++ bus.pending_subscribers) bus)

  -- `request_shutdown` without a running loop; with one, it schedules `_close_all_subscribers`.
  unfoldable pub request_shutdown : Bus E → Bus E
  unfolding close_each
  request_shutdown bus = cleared (close_each bus.pending_subscribers bus)
