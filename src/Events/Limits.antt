-- ===== src/Events/Limits.antt =====
-- What holds of the bus after every operation.
use caddybuddy.Events.Bus.{
  Stream, subscribed, activated, released, add, close_from_bus, contains, discard, put, release,
  subscribe, Bus,
}
use caddybuddy.Prelude.{
  ℕ, suc, ◌+◌, ◌≤◌, ◌<◌, ◌≡◌, refl, sym, ap, ◌∙◌, inl, inr, true, false, not, ◌&&◌, ◌||◌, Option,
  none, List, [], ◌∷◌, arith, leb, ◌==◌, ==_iff, Bool-cases, length,
}

pub contains-discard :
    (i j : ℕ) (js : List ℕ) → contains j (discard i js) ≡ (contains j js && not (i == j))
unfolding contains discard
contains-discard i j [] = refl
contains-discard i j (k ∷ js) = ground (arith, contains-discard i j js)

length-discard_le : (i : ℕ) (js : List ℕ) → length (discard i js) ≤ length js
unfolding discard
length-discard_le i [] = omega arith
length-discard_le i (k ∷ js) = ground (arith, length-discard_le i js)

length-discard_lt : (i : ℕ) (js : List ℕ) → contains i js ≡ true → length (discard i js) < length js
unfolding discard contains
length-discard_lt i [] h = ground arith
length-discard_lt i (k ∷ js) h = ground (arith, length-discard_lt i js, length-discard_le i js)

contains-add : (i j : ℕ) (js : List ℕ) → contains j (add i js) ≡ (j == i || contains j js)
unfolding add contains
contains-add i j js = elim (Bool-cases (contains i js)) [
  | inl here ↦ elim (Bool-cases (j == i)) [
    | inl same ↦ rw here (rw ((==_iff j i).0 same) (ground (arith, here)))
    | inr other ↦ ground arith
  ]
  | inr new ↦ ground arith
]

length-add_le : (i : ℕ) (js : List ℕ) → length (add i js) ≤ suc (length js)
unfolding add
length-add_le i js = ground arith

-- The limit on subscribers is kept, a stream that waits for its first read has its place, a closed
-- stream has none, and no queue is longer than the limit.
pub record IsValid {ℓ} {E : Type ℓ} (bus : Bus E) : Type 0 where
  pub total : length bus.subscribers + length bus.pending_subscribers ≤ bus.max_subscribers
  pub positive : 1 ≤ bus.queue_size
  pub waiting :
      (i : ℕ)
      → (bus.streams i).is_closed ≡ false
      → (bus.streams i).is_active ≡ false
      → contains i bus.pending_subscribers ≡ true
  pub left :
      (i : ℕ)
      → (bus.streams i).is_closed ≡ true
      → (contains i bus.pending_subscribers ≡ false) × (contains i bus.subscribers ≡ false)
  pub small : (i : ℕ) → length (bus.streams i).queue ≤ bus.queue_size

module _ {ℓ} {E : Type ℓ} where
  released-IsValid : (i : ℕ) (bus : Bus E) → IsValid bus → IsValid (released i bus)
  unfolding put
  released-IsValid i bus v = record {
    total = omega (
      arith,
      v.total,
      length-discard_le i bus.subscribers,
      length-discard_le i bus.pending_subscribers,
    );
    positive = v.positive;
    waiting = λ j unclosed idle.
        ground (arith, v.waiting j, contains-discard i j bus.pending_subscribers);
    left = λ j closed. ground (
      arith,
      v.left j,
      contains-discard i j bus.pending_subscribers,
      contains-discard i j bus.subscribers,
    );
    small = λ j. ground (arith, v.small i, v.small j);
  }

  pub put-is_closed :
      (i : ℕ) (q : List (Option E)) (streams : ℕ → Stream E) (j : ℕ)
      → (put i (record (streams i) { queue = q }) streams j).is_closed ≡ (streams j).is_closed
  unfolding put
  put-is_closed i q streams j = elim (Bool-cases (i == j)) [
    | inl same ↦ rw same (ap (λ k. (streams k).is_closed) ((==_iff i j).0 same))
    | inr other ↦ rw other refl
  ]

  put-is_active :
      (i : ℕ) (q : List (Option E)) (streams : ℕ → Stream E) (j : ℕ)
      → (put i (record (streams i) { queue = q }) streams j).is_active ≡ (streams j).is_active
  unfolding put
  put-is_active i q streams j = elim (Bool-cases (i == j)) [
    | inl same ↦ rw same (ap (λ k. (streams k).is_active) ((==_iff i j).0 same))
    | inr other ↦ rw other refl
  ]

  -- A stream that changes in its queue only, and by no more than the limit.
  pub requeued-IsValid :
      (i : ℕ) (q : List (Option E)) (bus : Bus E)
      → IsValid bus
      → length q ≤ bus.queue_size
      → IsValid (record bus { streams = put i (record (bus.streams i) { queue = q }) bus.streams })
  unfolding put
  requeued-IsValid i q bus v h = record {
    total = v.total;
    positive = v.positive;
    waiting = λ j unclosed idle.
        v.waiting j (sym (put-is_closed i q bus.streams j) ∙ unclosed)
          (sym (put-is_active i q bus.streams j) ∙ idle);
    left = λ j closed. v.left j (sym (put-is_closed i q bus.streams j) ∙ closed);
    small = λ j. ground (arith, v.small j);
  }

  pub release-IsValid : (i : ℕ) (bus : Bus E) → IsValid bus → IsValid (release i bus).0
  unfolding release
  release-IsValid i bus v = elim (Bool-cases (bus.streams i).is_closed) [
    | inl closed ↦ rw closed v
    | inr unclosed ↦ rw unclosed (released-IsValid i bus v)
  ]

  pub close_from_bus-IsValid : (i : ℕ) (bus : Bus E) → IsValid bus → IsValid (close_from_bus i bus)
  unfolding close_from_bus
  close_from_bus-IsValid i bus v = elim (Bool-cases (release i bus).1) [
    | inl blocked ↦ rw blocked (
        requeued-IsValid i (none ∷ []) (release i bus).0 (release-IsValid i bus v)
          (release-IsValid i bus v).positive)
    | inr gone ↦ rw gone (release-IsValid i bus v)
  ]

  pub activated-IsValid :
      (i : ℕ) (bus : Bus E)
      → (bus.streams i).is_closed ≡ false
      → (bus.streams i).is_active ≡ false
      → IsValid bus
      → IsValid (activated i bus)
  unfolding put
  activated-IsValid i bus unclosed idle v = record {
    total = omega (
      arith,
      v.total,
      length-add_le i bus.subscribers,
      length-discard_lt i bus.pending_subscribers (v.waiting i unclosed idle),
    );
    positive = v.positive;
    waiting = λ j open_now waits.
        ground (arith, v.waiting j, contains-discard i j bus.pending_subscribers);
    left = λ j closed. ground (
      arith,
      v.left j,
      contains-discard i j bus.pending_subscribers,
      contains-add i j bus.subscribers,
    );
    small = λ j. ground (arith, v.small i, v.small j);
  }

  subscribed-IsValid :
      (bus : Bus E)
      → leb bus.max_subscribers (length bus.subscribers + length bus.pending_subscribers) ≡ false
      → IsValid bus
      → IsValid (subscribed bus)
  unfolding put
  subscribed-IsValid bus room v = record {
    total = ground (arith, v.total, length-add_le bus.created bus.pending_subscribers);
    positive = v.positive;
    waiting = λ j open_now waits.
        ground (arith, v.waiting j, contains-add bus.created j bus.pending_subscribers);
    left = λ j closed. ground (arith, v.left j, contains-add bus.created j bus.pending_subscribers);
    small = λ j. ground (arith, v.small j);
  }

  pub subscribe-IsValid : (bus : Bus E) → IsValid bus → IsValid (subscribe bus).0
  unfolding subscribe put
  subscribe-IsValid bus v =
      elim (Bool-cases
        (leb bus.max_subscribers (length bus.subscribers + length bus.pending_subscribers))) [
          | inl full ↦ rw full v
          | inr room ↦ rw room (subscribed-IsValid bus room v)
        ]
