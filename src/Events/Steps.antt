-- ===== src/Events/Steps.antt =====
-- Reading, publishing and closing streams keep the bus valid.
use caddybuddy.Events.Bus.{
  aclose, begin_next, close_each, close_from_bus, deliver, deliver_all, next, publish, take, Bus,
}
use caddybuddy.Events.Limits.{
  activated-IsValid, close_from_bus-IsValid, requeued-IsValid, IsValid, release-IsValid,
}
use caddybuddy.Prelude.{
  ℕ, ◌≤◌, ◌≡◌, refl, inl, inr, Bool, true, false, Option, none, some, List, [], ◌∷◌, ◌++◌, arith,
  leb, if◌then◌else◌, Bool-cases, length, length-append,
}

either_way {ℓ κ} :
    {A : Type ℓ} (P : A → Type κ) (b : Bool) (x y : A)
    → (b ≡ true → P x)
    → (b ≡ false → P y)
    → P (if b then x else y)
either_way P true x y f g = f refl
either_way P false x y f g = g refl

module _ {ℓ} {E : Type ℓ} where
  pub aclose-IsValid : (i : ℕ) (bus : Bus E) → IsValid bus → IsValid (aclose i bus)
  unfolding aclose
  aclose-IsValid i bus v = release-IsValid i bus v

  pub close_each-IsValid : (ids : List ℕ) (bus : Bus E) → IsValid bus → IsValid (close_each ids bus)
  unfolding close_each
  close_each-IsValid [] bus v = v
  close_each-IsValid (i ∷ ids) bus v =
      close_each-IsValid ids (close_from_bus i bus) (close_from_bus-IsValid i bus v)

  deliver-IsValid :
      (event : E) (i : ℕ) (bus : Bus E) → IsValid bus → IsValid (deliver event i bus).0
  unfolding deliver
  deliver-IsValid event i bus v =
      elim (Bool-cases (leb bus.queue_size (length (bus.streams i).queue))) [
        | inl full ↦ rw full v
        | inr room ↦ rw room (
            requeued-IsValid i ((bus.streams i).queue ++ some event ∷ []) bus v
              (ground (arith, length-append (bus.streams i).queue (some event ∷ []))))
      ]

  deliver_all-IsValid :
      (event : E) (ids : List ℕ) (bus : Bus E) → IsValid bus → IsValid (deliver_all event ids bus).0
  unfolding deliver_all
  deliver_all-IsValid event [] bus v = v
  deliver_all-IsValid event (i ∷ ids) bus v =
      deliver_all-IsValid event ids (deliver event i bus).0 (deliver-IsValid event i bus v)

  pub publish-IsValid : (event : E) (bus : Bus E) → IsValid bus → IsValid (publish event bus)
  unfolding publish
  publish-IsValid event bus v =
      let delivered = deliver_all event bus.subscribers bus in
      close_each-IsValid delivered.1 delivered.0 (deliver_all-IsValid event bus.subscribers bus v)

  begin_next-IsValid :
      (i : ℕ) (bus : Bus E)
      → (bus.streams i).is_closed ≡ false
      → IsValid bus
      → IsValid (begin_next i bus)
  unfolding begin_next
  begin_next-IsValid i bus unclosed v = elim (Bool-cases (bus.streams i).is_active) [
    | inl active ↦ rw active v
    | inr idle ↦ rw idle (activated-IsValid i bus unclosed idle v)
  ]

  pub take-IsValid :
      (i : ℕ) (q : List (Option E)) (bus : Bus E)
      → length q ≤ bus.queue_size
      → IsValid bus
      → IsValid (take i q bus).0
  unfolding take
  take-IsValid i [] bus h v = v
  take-IsValid i (none ∷ rest) bus h v =
      release-IsValid i _ (requeued-IsValid i rest bus v (omega (arith, h)))
  take-IsValid i (some event ∷ rest) bus h v = requeued-IsValid i rest bus v (omega (arith, h))

  pub next-IsValid : (i : ℕ) (bus : Bus E) → IsValid bus → IsValid (next i bus).0
  unfolding next
  next-IsValid i bus v =
      let ready = begin_next i bus in
      either_way (λ r. IsValid r.0) (bus.streams i).is_closed (bus, none)
        (take i (ready.streams i).queue ready) (λ closed. v)
        (λ unclosed.
          let w = begin_next-IsValid i bus unclosed v in
          take-IsValid i (ready.streams i).queue ready (w.small i) w)
