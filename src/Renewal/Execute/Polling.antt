-- ===== src/Renewal/Execute/Polling.antt =====
-- The polling of the certificate storage ends.
use caddybuddy.Renewal.Effects.{
  read_clock, Eff, scan_storage, ◌>>=◌, ok, sleep, Answer, History, Action, Services,
}
use caddybuddy.Renewal.Execute.Wait.{
  fuel_for, all_complete, wait_for_local_artifacts, read, artifacts_round, poll_artifacts,
  poll_interval,
}
use caddybuddy.Text.{Text}
use caddybuddy.Renewal.Defs.{Settings}
use caddybuddy.Domains.Shape.{Runtime}
use caddybuddy.Prelude.{
  ℕ, zero, suc, ◌+◌, ◌-◌, ◌*◌, ◌/◌, ◌≤◌, ◌≡◌, refl, ◌⊎◌, inl, inr, Bool, true, false, List, ◌∷◌,
  arith, leb, leb→le, Bool-cases,
}

-- No call turns the clock back, and a sleep takes at least as long as it was asked to.
pub record SteadyClock (sv : Services) : Type 0 where
  pub grows : (action : Action) (h : History) → sv.clock h ≤ sv.clock (action ∷ h)
  pub sleeps : (n : ℕ) (h : History) → sv.clock h + n ≤ sv.clock (sleep n ∷ h)

-- Nothing cancels the coroutine.
abbrev pub IsUndisturbed : Services → Type 0
IsUndisturbed sv = (h : History) → sv.cancels h ≡ false

module _ (rt : Runtime) (sv : Services) (settings : Settings) where
  pub poll_interval_pos : 500 ≤ poll_interval rt sv settings
  unfolding poll_interval
  poll_interval_pos = ground arith

  -- It returned, and returned `true` unless the timeout had passed.
  abbrev pub Ended : ℕ → Answer Bool × History → Type 0
  Ended deadline r = (b : Bool) × (r.0 ≡ ok b) × ((b ≡ true) ⊎ (deadline ≤ sv.clock r.1))

  module _ (steady : SteadyClock sv) (quiet : IsUndisturbed sv) (domains : List Text)
      (start timeout : ℕ) where
    -- A scan found all, or the poll goes on after the pause.
    round-Ended :
        (again : Eff Bool) (h : History) (complete : Bool)
        → all_complete rt sv settings domains (read_clock ∷ h) ≡ complete
        → leb timeout (sv.clock h - start) ≡ false
        → (complete ≡ false
            → Ended
                (start + timeout)
                (again (sleep (poll_interval rt sv settings) ∷ scan_storage ∷ read_clock ∷ h)))
        → Ended (start + timeout) (artifacts_round rt sv settings domains start timeout again h)
    unfolding artifacts_round ◌>>=◌ read
    round-Ended again h true e early k =
        rw (early, quiet (read_clock ∷ h), e) (true, refl, inl refl)
    round-Ended again h false e early k =
        rw (early, quiet (read_clock ∷ h), e, quiet (scan_storage ∷ read_clock ∷ h)) (k refl)

    over-Ended :
        (again : Eff Bool) (h : History)
        → start ≤ sv.clock h
        → leb timeout (sv.clock h - start) ≡ true
        → Ended (start + timeout) (artifacts_round rt sv settings domains start timeout again h)
    unfolding artifacts_round ◌>>=◌ read
    over-Ended again h begun over = rw over (
      false,
      refl,
      inr (omega (arith, leb→le timeout (sv.clock h - start) over, steady.grows read_clock h)),
    )

    later :
        (h : History)
        → sv.clock h + poll_interval rt sv settings
          ≤ sv.clock (sleep (poll_interval rt sv settings) ∷ scan_storage ∷ read_clock ∷ h)
    later h = omega (
      arith,
      steady.grows read_clock h,
      steady.grows scan_storage (read_clock ∷ h),
      steady.sleeps (poll_interval rt sv settings) (scan_storage ∷ read_clock ∷ h),
    )

    poll_artifacts-Ended :
        (fuel : ℕ) (h : History)
        → start ≤ sv.clock h
        → start + timeout ≤ sv.clock h + fuel * poll_interval rt sv settings
        → Ended (start + timeout) (poll_artifacts rt sv settings (suc fuel) domains start timeout h)
    unfolding poll_artifacts
    poll_artifacts-Ended zero h begun enough = over-Ended _ h begun (ground arith)
    poll_artifacts-Ended (suc fuel) h begun enough =
        elim (Bool-cases (leb timeout (sv.clock h - start))) [
          | inl over ↦ over-Ended _ h begun over
          | inr early ↦
              round-Ended _ h (all_complete rt sv settings domains (read_clock ∷ h)) refl early
                (λ _. poll_artifacts-Ended fuel _ (omega (arith, later h)) (omega (arith, later h)))
        ]

  fuel_enough : (timeout p : ℕ) → 500 ≤ p → timeout ≤ suc (timeout / p) * p
  fuel_enough timeout p h = grind arith

  -- With a steady clock and where nothing cancels it, `_wait_for_local_artifacts` returns, whatever
  -- the scans answer: it does not run out of fuel and it does not raise; and where it returns `false`, the clock has reached the
  -- time of the start plus the timeout.
  pub wait_for_local_artifacts-Ended :
      SteadyClock sv
      → IsUndisturbed sv
      → (domains : List Text) (timeout : ℕ) (h : History)
      → Ended (sv.clock h + timeout) (wait_for_local_artifacts rt sv settings domains timeout h)
  unfolding wait_for_local_artifacts ◌>>=◌ read fuel_for
  wait_for_local_artifacts-Ended steady quiet domains timeout h =
      poll_artifacts-Ended steady quiet domains (sv.clock h) timeout
        (suc (timeout / poll_interval rt sv settings)) (read_clock ∷ h) (steady.grows read_clock h)
        (omega (
          arith,
          steady.grows read_clock h,
          fuel_enough timeout (poll_interval rt sv settings) poll_interval_pos,
        ))
