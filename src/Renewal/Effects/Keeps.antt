-- ===== src/Renewal/Effects/Keeps.antt =====
-- Invariants of coroutines over the history, with one rule for each way to build a coroutine.
use caddybuddy.Renewal.Effects.{
  raised, continue, handle, Answer, Raised, call, ok, pure, raise, try_except, try_finally, ◌>>=◌,
  Action, Eff, History,
}
use caddybuddy.Prelude.{◌≡◌, refl, ◌⊎◌, inl, inr, Bool, true, false, ◌∷◌, if◌then◌else◌, Bool-cases}

-- `m` keeps `P`, whether it returns or raises.
pub record Keeps {ℓ κ} {A : Type ℓ} (P : History → Type κ) (m : Eff A) : Type (ℓ ⊔ κ) where
  pub at : (h : History) → P h → P (m h).1

-- Whatever `m` returns satisfies `Post`.
pub record Ensures {ℓ κ} {A : Type ℓ} (Post : A → Type κ) (m : Eff A) : Type (ℓ ⊔ κ) where
  pub post : (h : History) (a : A) → (m h).0 ≡ ok a → Post a

module _ {ℓ κ} {A : Type ℓ} {P : History → Type κ} where
  pub Keeps-pure : (a : A) → Keeps P (pure a)
  unfolding pure
  Keeps-pure a = record { at = λ h p. p }

  pub Keeps-raise : (e : Raised) → Keeps P (raise {A = A} e)
  unfolding raise
  Keeps-raise e = record { at = λ h p. p }

  pub Keeps-call :
      (action : Action) (answer : History → Answer A)
      → ((h : History) → P h → P (action ∷ h))
      → Keeps P (call action answer)
  unfolding call
  Keeps-call action answer k = record { at = k }

  pub Keeps-if : (b : Bool) (m n : Eff A) → Keeps P m → Keeps P n → Keeps P (if b then m else n)
  Keeps-if true m n km kn = km
  Keeps-if false m n km kn = kn

  Keeps-handle :
      (catches : Raised → Bool) (handler : Raised → Eff A) (r : Answer A)
      → ((e : Raised) → Keeps P (handler e))
      → Keeps P (λ h. handle catches handler r h)
  Keeps-handle catches handler (ok a) k = record { at = λ h p. p }
  Keeps-handle catches handler (raised e) k = elim (Bool-cases (catches e)) [
    | inl caught ↦ record { at = λ h p. rw caught ((k e).at h p) }
    | inr other ↦ record { at = λ h p. rw other p }
  ]

  pub Keeps-try_except :
      (body : Eff A) (catches : Raised → Bool) (handler : Raised → Eff A)
      → Keeps P body
      → ((e : Raised) → Keeps P (handler e))
      → Keeps P (try_except body catches handler)
  unfolding try_except
  Keeps-try_except body catches handler kb kh = record {
    at = λ h p. let (r, h') = body h in (Keeps-handle catches handler r kh).at h' (kb.at h p);
  }

  pub Keeps-try_finally :
      (body : Eff A) (action : Action)
      → Keeps P body
      → ((h : History) → P h → P (action ∷ h))
      → Keeps P (try_finally body action)
  unfolding try_finally
  Keeps-try_finally body action kb k = record {
    at = λ h p. let (r, h') = body h in k h' (kb.at h p);
  }

module _ {ℓ κ μ} {A : Type ℓ} {B : Type μ} {P : History → Type κ} where
  pub Keeps-continue :
      (r : Answer A) (f : A → Eff B)
      → ((a : A) → r ≡ ok a → Keeps P (f a))
      → Keeps P (λ h. continue r f h)
  Keeps-continue (ok a) f k = k a refl
  Keeps-continue (raised e) f k = record { at = λ h p. p }

  -- The rest of the block may use what the first part ensures of its result.
  pub Keeps-bind-Ensures {ν} :
      (Post : A → Type ν) (m : Eff A) (f : A → Eff B)
      → Ensures Post m
      → Keeps P m
      → ((a : A) → Post a → Keeps P (f a))
      → Keeps P (m >>= f)
  unfolding ◌>>=◌
  Keeps-bind-Ensures Post m f e km kf = record {
    at = λ h p. (Keeps-continue (m h).0 f (λ a eq. kf a (e.post h a eq))).at (m h).1 (km.at h p);
  }

  pub Keeps-bind :
      (m : Eff A) (f : A → Eff B) → Keeps P m → ((a : A) → Keeps P (f a)) → Keeps P (m >>= f)
  unfolding ◌>>=◌
  Keeps-bind m f km kf = record {
    at = λ h p. (Keeps-continue (m h).0 f (λ a eq. kf a)).at (m h).1 (km.at h p);
  }

pub Answer-cases {ℓ} :
    {A : Type ℓ} (r : Answer A) → ((a : A) × (r ≡ ok a)) ⊎ ((e : Raised) × (r ≡ raised e))
Answer-cases (ok a) = inl (a, refl)
Answer-cases (raised e) = inr (e, refl)

pub ruleset keeps_rules = (Keeps-pure, Keeps-raise, Keeps-if, Keeps-try_except, Keeps-bind)

pub ruleset call_rules = (keeps_rules, Keeps-call, Keeps-try_finally)
