-- ===== src/Renewal/Execute/Parts.antt =====
-- An invariant of the parts of `execute` is one of the whole.
use caddybuddy.Renewal.Plan.{
  domains_or_raise, evaluate_info, evaluate_renewal_capability, adjust, build_plan, domains_of,
  evaluate_domains,
}
use caddybuddy.Renewal.Effects.Keeps.{
  Keeps-try_finally, Keeps-if, Keeps-try_except, Keeps-raise, Keeps-call, Keeps-bind-Ensures,
  Keeps-pure, Ensures, Keeps-bind, Keeps,
}
use caddybuddy.Renewal.Execute.Run.{
  unconfirmed, run_in, run_mode, confirm_and_run, with_lock, stale, execute_trusted, matches_plan,
  execute, target_domains,
}
use caddybuddy.Renewal.Effects.{
  release, acquire, raised, ok, continue, fetch_infos, Answer, ◌>>=◌, pure, Services, History,
}
use caddybuddy.Domains.Split.{split_domain_names}
use caddybuddy.Renewal.Defs.{value_error, Site, Capability, Settings}
use caddybuddy.Domains.Shape.{Result, Runtime}
use caddybuddy.Text.{Text}
use caddybuddy.Prelude.{
  ◌≡◌, refl, inl, inr, Bool, true, false, not, ◌&&◌, none, List, [], ◌∷◌, arith, if◌then◌else◌,
  Bool-cases,
}

-- What the trusted plan of a site comes from: the services answered, and the settings adjusted it.
abbrev pub IsAdjusted : Settings → Capability → Type 0
IsAdjusted settings trusted = (c : Capability) × (trusted ≡ adjust settings c)

module _ {P : History → Type 0} (rt : Runtime) (sv : Services) (settings : Settings) where
  domains_or_raise-Keeps : (r : Result (List Text)) → Keeps P (domains_or_raise r)
  unfolding domains_or_raise
  domains_or_raise-Keeps (Result.ok domains) = Keeps-pure domains
  domains_or_raise-Keeps (Result.err e) = Keeps-raise value_error

  domains_of-Keeps : (site : Site) → Keeps P (domains_of rt site)
  unfolding domains_of
  domains_of-Keeps site = domains_or_raise-Keeps (split_domain_names rt false site.domain)

  target_domains-Keeps :
      (site : Site) (ds : List Text) → Keeps P (target_domains rt sv settings site ds)
  unfolding target_domains
  target_domains-Keeps site [] = Keeps-bind _ _ (domains_of-Keeps site) (λ _. Keeps-pure _)
  target_domains-Keeps site (d ∷ ds) = Keeps-pure (d ∷ ds)

  evaluate-Keeps :
      (fetched : (ds : List Text) (h : History) → P h → P (fetch_infos ds ∷ h)) (ds : List Text)
      → Keeps P (evaluate_domains rt sv settings none true ds)
  unfolding evaluate_domains evaluate_info
  evaluate-Keeps fetched [] = Keeps-pure _
  evaluate-Keeps fetched (d ∷ ds) =
      Keeps-bind _ _ (Keeps-call _ _ (fetched (d ∷ ds))) (λ _. Keeps-pure _)

  pub build_plan-Keeps :
      (site : Site)
      → ((ds : List Text) (h : History) → P h → P (fetch_infos ds ∷ h))
      → Keeps P (build_plan rt sv settings site none true)
  unfolding build_plan evaluate_renewal_capability
  build_plan-Keeps site fetched =
      Keeps-bind _ _ (Keeps-bind _ _ (domains_of-Keeps site) (evaluate-Keeps fetched))
        (λ _. Keeps-pure _)

module _ (rt : Runtime) (sv : Services) (settings : Settings) where
  continue-IsAdjusted :
      (r : Answer Capability) (h : History) (a : Capability)
      → (continue r (λ c. pure (adjust settings c)) h).0 ≡ ok a
      → IsAdjusted settings a
  unfolding pure
  continue-IsAdjusted (ok c) h a e = (c, ground arith)
  continue-IsAdjusted (raised e) h a p = cc

  pub build_plan-Ensures :
      (site : Site) → Ensures (IsAdjusted settings) (build_plan rt sv settings site none true)
  unfolding build_plan ◌>>=◌
  build_plan-Ensures site = record {
    post = λ h a e.
        continue-IsAdjusted (evaluate_renewal_capability rt sv settings site none true h).0 _ a e;
  }

module _ {P : History → Type 0} (rt : Runtime) (sv : Services) (settings : Settings) where
  guarded_by_plan :
      (site : Site) (plan trusted : Capability) (confirmed : Bool)
      → (matches_plan plan trusted ≡ true
          → (targets : List Text)
          → Keeps P (execute_trusted rt sv settings trusted confirmed targets))
      → Keeps P (
          if not (matches_plan plan trusted)
          then pure stale
          else (target_domains rt sv settings site trusted.wait_domains >>= λ targets.
              execute_trusted rt sv settings trusted confirmed targets))
  guarded_by_plan site plan trusted confirmed k = elim (Bool-cases (matches_plan plan trusted)) [
    | inl same ↦
        rw same
          (Keeps-bind _ _ (target_domains-Keeps rt sv settings site trusted.wait_domains) (k same))
    | inr other ↦ rw other (Keeps-pure stale)
  ]

  -- What the planning keeps, and every execution of a trusted plan that the given plan matches.
  pub execute-Keeps :
      (site : Site) (plan : Capability) (confirmed : Bool)
      → ((ds : List Text) (h : History) → P h → P (fetch_infos ds ∷ h))
      → ((trusted : Capability)
          → IsAdjusted settings trusted
          → matches_plan plan trusted ≡ true
          → (targets : List Text)
          → Keeps P (execute_trusted rt sv settings trusted confirmed targets))
      → Keeps P (execute rt sv settings site plan confirmed)
  unfolding execute
  execute-Keeps site plan confirmed fetched k =
      Keeps-bind-Ensures (IsAdjusted settings) _ _ (build_plan-Ensures rt sv settings site)
        (build_plan-Keeps rt sv settings site fetched)
        (λ trusted a. guarded_by_plan site plan trusted confirmed (k trusted a))

  -- What the lock and the run of a plan's mode keep.
  pub trusted-Keeps :
      (trusted : Capability) (confirmed : Bool) (targets : List Text)
      → ((scope : Text) (h : History) → P h → P (acquire scope ∷ h))
      → ((scope : Text) (h : History) → P h → P (release scope ∷ h))
      → (trusted.requires_confirmation && not confirmed ≡ false
          → (domains : List Text) (primary : Text)
          → Keeps P (run_in rt sv settings trusted.mode trusted domains primary))
      → Keeps P (execute_trusted rt sv settings trusted confirmed targets)
  unfolding execute_trusted with_lock confirm_and_run run_mode
  trusted-Keeps trusted confirmed [] locks unlocks k = Keeps-pure _
  trusted-Keeps trusted confirmed (d ∷ ds) locks unlocks k =
      Keeps-try_except _ _ _
        (Keeps-bind _ _ (Keeps-call _ _ (locks _)) (λ acquired.
          Keeps-if acquired _ _
            (Keeps-try_finally _ _
              (confirmed_run (trusted.requires_confirmation && not confirmed) refl d ds k)
              (unlocks _))
            (Keeps-raise _)))
        (λ e. Keeps-pure _)
    where
      confirmed_run :
          (b : Bool)
          → (trusted.requires_confirmation && not confirmed) ≡ b
          → (d : Text) (ds : List Text)
          → (trusted.requires_confirmation && not confirmed ≡ false
              → (domains : List Text) (primary : Text)
              → Keeps P (run_in rt sv settings trusted.mode trusted domains primary))
          → Keeps P (
              if b then pure unconfirmed else run_in rt sv settings trusted.mode trusted (d ∷ ds) d)
      confirmed_run true e d ds k = Keeps-pure unconfirmed
      confirmed_run false e d ds k = k e (d ∷ ds) d
