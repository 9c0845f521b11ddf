-- ===== src/Renewal/Effects/Yields.antt =====
-- What holds of the result and of the history when a coroutine returns.
use caddybuddy.Renewal.Effects.{
  Answer, raised, Action, Raised, ok, Eff, call, pure, raise, try_except, try_finally, ◌>>=◌,
  History,
}
use caddybuddy.Renewal.Effects.Keeps.{Answer-cases, Keeps}
use caddybuddy.Prelude.{
  ◌≡◌, refl, ◌∙◌, subst, inl, inr, Bool, true, false, ◌∷◌, if◌then◌else◌, Bool-cases,
}

-- From a history with `Pre`, what `m` returns satisfies `Post` with the history then.
pub record Yields {ℓ κ μ} {A : Type ℓ} (Pre : History → Type κ) (m : Eff A)
    (Post : A → History → Type μ) : Type (ℓ ⊔ κ ⊔ μ) where
  pub at : (h : History) (a : A) → Pre h → (m h).0 ≡ ok a → Post a (m h).1

module _ {ℓ κ μ} {A : Type ℓ} {Pre : History → Type κ} {Post : A → History → Type μ} where
  pub Yields-pure : (a : A) → ((h : History) → Pre h → Post a h) → Yields Pre (pure a) Post
  unfolding pure
  Yields-pure a k = record {
    at = λ h b p e. let same : ok a ≡ ok b = e in subst (λ x. Post x h) (cc) (k h p);
  }

  pub Yields-raise : (e : Raised) → Yields Pre (raise {A = A} e) Post
  unfolding raise
  Yields-raise e = record { at = λ h b p r. cc }

  pub Yields-call :
      (action : Action) (answer : History → Answer A)
      → ((h : History) (a : A) → Pre h → answer h ≡ ok a → Post a (action ∷ h))
      → Yields Pre (call action answer) Post
  unfolding call
  Yields-call action answer k = record { at = k }

  pub Yields-if :
      (b : Bool) (m n : Eff A)
      → (b ≡ true → Yields Pre m Post)
      → (b ≡ false → Yields Pre n Post)
      → Yields Pre (if b then m else n) Post
  Yields-if true m n km kn = km refl
  Yields-if false m n km kn = kn refl

  -- The precondition may be given up, as `Keeps` carries it on.
  pub Yields-Keeps :
      (m : Eff A) → Keeps Pre m → ((h : History) (a : A) → Pre h → Post a h) → Yields Pre m Post
  Yields-Keeps m k w = record { at = λ h a p e. w _ a (k.at h p) }

  -- The handler runs in the history that the body left.
  pub Yields-try_except :
      (body : Eff A) (catches : Raised → Bool) (handler : Raised → Eff A)
      → Yields Pre body Post
      → ((e : Raised) → Yields (λ _. Unit {0}) (handler e) Post)
      → Yields Pre (try_except body catches handler) Post
  unfolding try_except
  Yields-try_except body catches handler kb kh = record {
    at = λ h a p e. elim (Answer-cases (body h).0) [
      | inl (b, r) ↦ let seen : ok b ≡ ok a = rw r at e in rw r (kb.at h a p (r ∙ seen))
      | inr (x, r) ↦ elim (Bool-cases (catches x)) [
        | inl caught ↦ rw (r, caught) ((kh x).at (body h).1 a tt (rw (r, caught) at e))
        | inr other ↦ let seen : raised x ≡ ok a = rw (r, other) at e in cc
      ]
    ];
  }

  pub Yields-try_finally :
      (body : Eff A) (action : Action)
      → Yields Pre body Post
      → ((a : A) (h : History) → Post a h → Post a (action ∷ h))
      → Yields Pre (try_finally body action) Post
  unfolding try_finally
  Yields-try_finally body action kb k = record { at = λ h a p e. k a _ (kb.at h a p e) }

module _ {ℓ κ μ ν} {A : Type ℓ} {B : Type κ} {Pre : History → Type μ}
    {Post : B → History → Type ν} where
  pub Yields-bind {ρ} :
      (Mid : A → History → Type ρ) (m : Eff A) (f : A → Eff B)
      → Yields Pre m Mid
      → ((a : A) → Yields (Mid a) (f a) Post)
      → Yields Pre (m >>= f) Post
  unfolding ◌>>=◌
  Yields-bind Mid m f km kf = record {
    at = λ h b p e. elim (Answer-cases (m h).0) [
      | inl (a, r) ↦ rw r ((kf a).at (m h).1 b (km.at h a p r) (rw r at e))
      | inr (x, r) ↦ let seen : raised x ≡ ok b = rw r at e in cc
    ];
  }

-- Where nothing is known of the first part.
pub Yields-then {ℓ κ μ ν} :
    {A : Type ℓ} {B : Type κ} {Pre : History → Type μ} {Post : B → History → Type ν} (m : Eff A)
    (f : A → Eff B)
    → ((a : A) → Yields (λ _. Unit {0}) (f a) Post)
    → Yields Pre (m >>= f) Post
Yields-then m f k = Yields-bind (λ _ _. Unit {0}) m f (record { at = λ h a p e. tt }) k

module _ {ℓ κ μ} {A : Type ℓ} {Pre : History → Type κ} {Post : A → History → Type μ} where
  pub Yields-pre {ν} :
      {Pre' : History → Type ν} (m : Eff A)
      → ((h : History) → Pre' h → Pre h)
      → Yields Pre m Post
      → Yields Pre' m Post
  Yields-pre m w k = record { at = λ h a p e. k.at h a (w h p) e }

module _ {ℓ κ μ} {A : Type ℓ} {B : Type κ} {Post : B → History → Type μ} where
  -- The precondition says which argument it is.
  pub Yields-known :
      (f : A → Eff B) (x a : A) → Yields (λ _. Unit {0}) (f x) Post → Yields (λ _. a ≡ x) (f a) Post
  Yields-known f x a k = record { at = λ h b e r. rw e (k.at h b tt (rw e at r)) }
