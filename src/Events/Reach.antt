-- ===== src/Events/Reach.antt =====
-- The bus after any sequence of operations.
use caddybuddy.Events.Bus.{
  take, request_shutdown, shutdown, subscribe, cleared, put, aclose, close_each, close_from_bus,
  contains, next, publish, release, Bus,
}
use caddybuddy.Events.Steps.{
  take-IsValid, publish-IsValid, aclose-IsValid, close_each-IsValid, next-IsValid,
}
use caddybuddy.Events.Limits.{subscribe-IsValid, IsValid, put-is_closed, contains-discard}
use caddybuddy.Prelude.{
  ℕ, ◌≡◌, refl, sym, ap, ◌∙◌, subst, inl, inr, true, ◌||◌, false≢true, none, List, [], ◌∷◌, ◌++◌,
  arith, ◌==◌, ==_iff, Bool-cases,
}

contains-append :
    (xs ys : List ℕ) (j : ℕ) → contains j (xs ++ ys) ≡ (contains j xs || contains j ys)
unfolding contains
contains-append [] ys j = refl
contains-append (x ∷ xs) ys j = ground (arith, contains-append xs ys j)

module _ {ℓ} {E : Type ℓ} where
  -- A closed stream stays closed.
  release-closed :
      (i j : ℕ) (bus : Bus E)
      → (bus.streams j).is_closed ≡ true
      → ((release i bus).0.streams j).is_closed ≡ true
  unfolding release put
  release-closed i j bus h = ground arith

  release-closes : (i : ℕ) (bus : Bus E) → ((release i bus).0.streams i).is_closed ≡ true
  unfolding release put
  release-closes i bus = ground arith

  release-pending :
      (i j : ℕ) (bus : Bus E)
      → contains j (release i bus).0.pending_subscribers ≡ true
      → contains j bus.pending_subscribers ≡ true
  unfolding release
  release-pending i j bus h = ground (arith, contains-discard i j bus.pending_subscribers)

  close_from_bus-is_closed :
      (i j : ℕ) (bus : Bus E)
      → ((close_from_bus i bus).streams j).is_closed ≡ ((release i bus).0.streams j).is_closed
  unfolding close_from_bus
  close_from_bus-is_closed i j bus =
      ground (arith, put-is_closed i (none ∷ []) (release i bus).0.streams j)

  close_from_bus-pending :
      (i : ℕ) (bus : Bus E)
      → (close_from_bus i bus).pending_subscribers ≡ (release i bus).0.pending_subscribers
  unfolding close_from_bus
  close_from_bus-pending i bus = ground arith

  close_each-closed :
      (ids : List ℕ) (j : ℕ) (bus : Bus E)
      → (bus.streams j).is_closed ≡ true
      → ((close_each ids bus).streams j).is_closed ≡ true
  unfolding close_each
  close_each-closed [] j bus h = h
  close_each-closed (i ∷ ids) j bus h =
      close_each-closed ids j (close_from_bus i bus)
        (close_from_bus-is_closed i j bus ∙ release-closed i j bus h)

  close_each-closes :
      (ids : List ℕ) (j : ℕ) (bus : Bus E)
      → contains j ids ≡ true
      → ((close_each ids bus).streams j).is_closed ≡ true
  unfolding close_each contains
  close_each-closes [] j bus h = ground arith
  close_each-closes (i ∷ ids) j bus h = elim (Bool-cases (j == i)) [
    | inl same ↦ close_each-closed ids j (close_from_bus i bus) (
        close_from_bus-is_closed i j bus
        ∙ subst (λ k. ((release i bus).0.streams k).is_closed ≡ true) (sym ((==_iff j i).0 same))
            (release-closes i bus))
    | inr other ↦ close_each-closes ids j (close_from_bus i bus) (ground (arith, h))
  ]

  close_each-pending :
      (ids : List ℕ) (j : ℕ) (bus : Bus E)
      → contains j (close_each ids bus).pending_subscribers ≡ true
      → contains j bus.pending_subscribers ≡ true
  unfolding close_each
  close_each-pending [] j bus h = h
  close_each-pending (i ∷ ids) j bus h = release-pending i j bus (
      sym (ap (contains j) (close_from_bus-pending i bus))
      ∙ close_each-pending ids j (close_from_bus i bus) h)

  cleared-IsValid :
      (ids : List ℕ) (bus : Bus E)
      → IsValid bus
      → ((j : ℕ) → contains j bus.pending_subscribers ≡ true → contains j ids ≡ true)
      → IsValid (cleared (close_each ids bus))
  unfolding contains
  cleared-IsValid ids bus v all_pending =
      let w = close_each-IsValid ids bus v in
      record {
        total = omega arith;
        positive = w.positive;
        waiting = λ j unclosed idle. absurd (
            false≢true (
              sym unclosed
              ∙ close_each-closes ids j bus
                  (all_pending j (close_each-pending ids j bus (w.waiting j unclosed idle)))));
        left = λ j closed. (refl, refl);
        small = w.small;
      }

  -- Shutting the bus down closes every stream that was subscribed or pending.
  pub shutdown-closes :
      (bus : Bus E) (j : ℕ)
      → (contains j bus.subscribers || contains j bus.pending_subscribers) ≡ true
      → ((shutdown bus).streams j).is_closed ≡ true
  unfolding shutdown
  shutdown-closes bus j h =
      close_each-closes (bus.subscribers ++ bus.pending_subscribers) j bus
        (contains-append bus.subscribers bus.pending_subscribers j ∙ h)

  shutdown-IsValid : (bus : Bus E) → IsValid bus → IsValid (shutdown bus)
  unfolding shutdown
  shutdown-IsValid bus v =
      cleared-IsValid (bus.subscribers ++ bus.pending_subscribers) bus v
        (λ j h. contains-append bus.subscribers bus.pending_subscribers j ∙ ground (arith, h))

  request_shutdown-IsValid : (bus : Bus E) → IsValid bus → IsValid (request_shutdown bus)
  unfolding request_shutdown
  request_shutdown-IsValid bus v = cleared-IsValid bus.pending_subscribers bus v (λ j h. h)

-- One operation leads from a bus to the next.
pub data Step {ℓ} {E : Type ℓ} : Bus E → Bus E → Type ℓ where
  subscribes : {bus : Bus E} → Step bus (subscribe bus).0
  reads : {bus : Bus E} (i : ℕ) → Step bus (next i bus).0
  -- a reader that waited for its queue goes on, also if its stream was closed meanwhile
  wakes : {bus : Bus E} (i : ℕ) → Step bus (take i (bus.streams i).queue bus).0
  closes : {bus : Bus E} (i : ℕ) → Step bus (aclose i bus)
  publishes : {bus : Bus E} (event : E) → Step bus (publish event bus)
  shuts_down : {bus : Bus E} → Step bus (shutdown bus)
  requests_shutdown : {bus : Bus E} → Step bus (request_shutdown bus)

pub data Reachable {ℓ} {E : Type ℓ} (start : Bus E) : Bus E → Type ℓ where
  at_start : Reachable start start
  after_step : {bus later : Bus E} → Reachable start bus → Step bus later → Reachable start later

module _ {ℓ} {E : Type ℓ} where
  Step-IsValid : {bus later : Bus E} → Step bus later → IsValid bus → IsValid later
  Step-IsValid (subscribes {bus}) v = subscribe-IsValid bus v
  Step-IsValid (reads {bus} i) v = next-IsValid i bus v
  Step-IsValid (wakes {bus} i) v = take-IsValid i (bus.streams i).queue bus (v.small i) v
  Step-IsValid (closes {bus} i) v = aclose-IsValid i bus v
  Step-IsValid (publishes {bus} event) v = publish-IsValid event bus v
  Step-IsValid (shuts_down {bus}) v = shutdown-IsValid bus v
  Step-IsValid (requests_shutdown {bus}) v = request_shutdown-IsValid bus v

  -- Whatever sequence of subscribing, reading, waking, closing, publishing and shutting down leads from a valid
  -- bus to another, that bus is valid too: the subscribers and the pending ones together are not more
  -- than the limit, an open stream that was never read from is pending, a closed stream is in neither
  -- set, and no queue is longer than the limit.
  pub Reachable-IsValid : (start bus : Bus E) → IsValid start → Reachable start bus → IsValid bus
  Reachable-IsValid start _ v at_start = v
  Reachable-IsValid start _ v (after_step {bus} r s) =
      Step-IsValid s (Reachable-IsValid start bus v r)
