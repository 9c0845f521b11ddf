-- ===== src/Renewal/Execute/Success.antt =====
-- A success that `execute` reports rests on a scan of the storage.
use caddybuddy.Renewal.Effects.Yields.{
  Yields-known, Yields-raise, Yields-if, Yields-bind, Yields-pure, Yields-then, Yields,
}
use caddybuddy.Renewal.Defs.{value_error, Outcome, Site, is_disabled, Capability, Settings}
use caddybuddy.Renewal.Plan.{
  domains_or_raise, get, domains_of, evaluate_info, evaluate_renewal_capability, adjust, build_plan,
  capability_of, evaluate_domains,
}
use caddybuddy.Renewal.Execute.Backed.{trusted-Backed, Backed, Confirmed, IsControlled}
use caddybuddy.Renewal.Execute.Run.{execute_trusted, stale, matches_plan, execute, target_domains}
use caddybuddy.Renewal.Effects.{◌>>=◌, History, pure, ok, Services}
use caddybuddy.Domains.Shape.{Result, Runtime}
use caddybuddy.Domains.Split.{split_domain_names}
use caddybuddy.Certificates.Defs.{CertificateInfo}
use caddybuddy.Text.{Text}
use caddybuddy.Prelude.{
  ◌≡◌, refl, Bool, true, false, not, Option, none, some, List, [], ◌∷◌, arith, if◌then◌else◌,
}

module _ (rt : Runtime) (sv : Services) (settings : Settings) where
  -- What is known of the trusted plan, where a control mode is set.
  record Plans (domains : List Text) (trusted : Capability) : Type 0 where
    waits : trusted.wait_domains ≡ domains
    controlled : IsControlled rt sv settings domains trusted.mode

  capability_of-Plans :
      (domains : List Text) (d : Text) (info : Option CertificateInfo)
      → Plans domains (capability_of settings domains d info)
  unfolding capability_of
  capability_of-Plans domains d none = record { waits = refl; controlled = tt }
  capability_of-Plans domains d (some info) = ground arith

  adjust-id :
      (c : Capability) → is_disabled settings.caddy_control_mode ≡ false → adjust settings c ≡ c
  unfolding adjust
  adjust-id c on = rw on

  evaluate-Plans :
      (d : Text) (ds : List Text)
      → Yields
          (λ _. Unit {0})
          (evaluate_domains rt sv settings none true (d ∷ ds))
          (λ c _. Plans (d ∷ ds) c)
  unfolding evaluate_domains evaluate_info
  evaluate-Plans d ds =
      Yields-then _ _ (λ infos. Yields-pure _ (λ h p. capability_of-Plans (d ∷ ds) d (get d infos)))

  known_domains :
      (r : Result (List Text)) (ds : List Text)
      → r ≡ Result.ok ds
      → Yields (λ _. Unit {0}) (domains_or_raise r) (λ ds' _. ds' ≡ ds)
  unfolding domains_or_raise
  known_domains (Result.ok ds') ds e = Yields-pure ds' (λ h p. ground arith)
  known_domains (Result.err x) ds e = Yields-raise value_error

  build_plan-Plans :
      (site : Site) (d : Text) (ds : List Text)
      → is_disabled settings.caddy_control_mode ≡ false
      → split_domain_names rt false site.domain ≡ Result.ok (d ∷ ds)
      → Yields (λ _. Unit {0}) (build_plan rt sv settings site none true) (λ c _. Plans (d ∷ ds) c)
  unfolding build_plan evaluate_renewal_capability domains_of
  build_plan-Plans site d ds on split =
      Yields-bind (λ c _. Plans (d ∷ ds) c) _ _
        (Yields-bind (λ ds' _. ds' ≡ d ∷ ds) _ _ (known_domains _ (d ∷ ds) split)
          (λ ds'.
            Yields-known (evaluate_domains rt sv settings none true) (d ∷ ds) ds'
              (evaluate-Plans d ds)))
        (λ c. Yields-pure _ (λ h p. rw (adjust-id c on) p))

  known_targets :
      (site : Site) (ws : List Text) (d : Text) (ds : List Text)
      → ws ≡ d ∷ ds
      → Yields (λ _. Unit {0}) (target_domains rt sv settings site ws) (λ ts _. ts ≡ d ∷ ds)
  unfolding target_domains
  known_targets site [] d ds e = absurd (ground arith)
  known_targets site (w ∷ ws) d ds e = Yields-pure (w ∷ ws) (λ h p. e)

  -- The plan's comparison, the targets and the run, from a trusted plan of the site.
  checked-Backed :
      (site : Site) (plan trusted : Capability) (confirmed : Bool) (d : Text) (ds : List Text)
      → Plans (d ∷ ds) trusted
      → Yields
          (λ _. Unit {0})
          (if not (matches_plan plan trusted)
            then pure stale
            else (target_domains rt sv settings site trusted.wait_domains >>= λ targets.
                execute_trusted rt sv settings trusted confirmed targets))
          (Backed rt sv settings (d ∷ ds))
  unfolding pure
  checked-Backed site plan trusted confirmed d ds plans =
      Yields-if (not (matches_plan plan trusted)) _ _
        (λ _. record { at = λ h a p e s. ground arith })
        (λ _.
          Yields-bind (λ targets _. targets ≡ d ∷ ds) _ _
            (known_targets site trusted.wait_domains d ds plans.waits)
            (λ targets.
              Yields-known (execute_trusted rt sv settings trusted confirmed) (d ∷ ds) targets
                (trusted-Backed rt sv settings d ds trusted confirmed plans.controlled)))

  -- With a control mode set, for a site whose domains are `d ∷ ds`: if `execute` returns a success,
  -- whatever the plan handed in and whatever the services answered, then of the storage scans,
  -- restarts, reloads and purges made, the last one is a scan, and it read the storage without an
  -- error and found a complete certificate artifact for each of the domains.
  pub execute-Confirmed :
      (site : Site) (plan : Capability) (confirmed : Bool) (d : Text) (ds : List Text) (h : History)
      (o : Outcome)
      → is_disabled settings.caddy_control_mode ≡ false
      → split_domain_names rt false site.domain ≡ Result.ok (d ∷ ds)
      → (execute rt sv settings site plan confirmed h).0 ≡ ok o
      → o.success ≡ true
      → Confirmed rt sv settings (d ∷ ds) (execute rt sv settings site plan confirmed h).1
  unfolding execute
  execute-Confirmed site plan confirmed d ds h o on split =
      (Yields-bind {Post = Backed rt sv settings (d ∷ ds)} (λ c _. Plans (d ∷ ds) c) _ _
          (build_plan-Plans site d ds on split)
          (λ trusted. record {
            at = λ k a plans r. (checked-Backed site plan trusted confirmed d ds plans).at k a tt r;
          })).at
        h o tt
