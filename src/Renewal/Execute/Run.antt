-- ===== src/Renewal/Execute/Run.antt =====
-- `execute`, with the comparison of the plan and the lock file.
use caddybuddy.Renewal.Defs.{
  already_running, mode_is_unavailable, acquisition_sync, wildcard_scope_required, Site,
  restart_repair, api_reload, artifact_purge, Settings, runtime_error, failed, service_error,
  Capability, Mode, Outcome, Raised, ScopeType,
}
use caddybuddy.Renewal.Effects.{
  raise, release, try_finally, acquire, call, try_except, Eff, pure, ◌>>=◌, Services,
}
use caddybuddy.Domains.Shape.{Runtime}
use caddybuddy.Renewal.Execute.Paths.{
  execute_api_reload_renewal, execute_artifact_purge, execute_acquisition_sync,
  execute_restart_repair, reported,
}
use caddybuddy.Renewal.Plan.{build_plan, domains_of, or_else}
use caddybuddy.Certificates.Cover.{normalized}
use caddybuddy.Text.{text_eq, Text}
use caddybuddy.Prelude.{
  ℕ, Bool, true, false, not, ◌&&◌, ◌||◌, Option, none, some, List, [], ◌∷◌, map, ◌==◌,
  if◌then◌else◌,
}

-- The constructors in order, to compare two of them.
abbrev mode_index : Mode → ℕ
mode_index artifact_purge = 0
mode_index api_reload = 1
mode_index restart_repair = 2
mode_index wildcard_scope_required = 3
mode_index acquisition_sync = 4
mode_index Mode.storage_unavailable = 5
mode_index Mode.unavailable = 6

abbrev same_scope_type : ScopeType → ScopeType → Bool
same_scope_type ScopeType.domain_scope ScopeType.domain_scope = true
same_scope_type ScopeType.wildcard_scope ScopeType.wildcard_scope = true
same_scope_type _ _ = false

abbrev same_bool : Bool → Bool → Bool
same_bool true b = b
same_bool false b = not b

unfoldable pub same_text? : Option Text → Option Text → Bool
same_text? none none = true
same_text? (some a) (some b) = text_eq a b
same_text? _ _ = false

unfoldable pub same_texts : List Text → List Text → Bool
same_texts [] [] = true
same_texts (a ∷ as') (b ∷ bs) = text_eq a b && same_texts as' bs
same_texts _ _ = false

-- The negation of the long test of `execute`: `reason` is not compared.
unfoldable pub matches_plan : Capability → Capability → Bool
unfolding same_text? same_texts
matches_plan plan trusted =
    mode_index plan.mode == mode_index trusted.mode
    && same_text? plan.scope_name trusted.scope_name
    && same_scope_type plan.scope_type trusted.scope_type
    && same_bool plan.requires_confirmation trusted.requires_confirmation
    && same_texts plan.wait_domains trusted.wait_domains

abbrev pub stale : Outcome
stale = failed "Renewal plan is stale or does not match the site."

abbrev pub unconfirmed : Outcome
unconfirmed = failed "Confirmation required to proceed."

-- `except CaddyServiceError` and `except RuntimeError` of `execute`.
abbrev pub is_reported : Raised → Bool
is_reported (service_error m) = true
is_reported (runtime_error m) = true
is_reported _ = false

unfoldable pub report : Raised → Outcome
report (service_error m) = reported m
report (runtime_error m) = reported m
report _ = failed ""

module _ (rt : Runtime) (sv : Services) (settings : Settings) where
  -- The branches on `plan.mode`; a mode's own message is never empty, so `_SUCCESS_MESSAGES` is
  -- not reached.
  unfoldable pub run_in : Mode → Capability → List Text → Text → Eff Outcome
  run_in restart_repair plan domains primary = execute_restart_repair rt sv settings domains
  run_in acquisition_sync plan domains primary = execute_acquisition_sync rt sv settings domains
  run_in artifact_purge plan domains primary =
      execute_artifact_purge rt sv settings domains (or_else plan.scope_name primary)
        plan.scope_type
  run_in api_reload plan domains primary = execute_api_reload_renewal rt sv settings domains
  run_in wildcard_scope_required plan domains primary =
      pure (failed "Wildcard domains require manual or DNS-01 challenge configuration.")
  run_in Mode.storage_unavailable plan domains primary =
      pure (failed "Caddy certificate storage is inaccessible. Check file permissions.")
  run_in Mode.unavailable plan domains primary =
      pure (record { success = false; message = mode_is_unavailable Mode.unavailable })

  unfoldable pub run_mode : Capability → List Text → Text → Eff Outcome
  run_mode plan domains primary = run_in plan.mode plan domains primary

  unfoldable pub confirm_and_run : Capability → List Text → Text → Bool → Eff Outcome
  confirm_and_run plan domains primary confirmed =
      if plan.requires_confirmation && not confirmed
      then pure unconfirmed
      else run_mode plan domains primary

  -- `safe_scope`
  unfoldable pub safe_scope : Text → Text
  safe_scope = map (λ ch. if sv.isalnum ch || ch == b'.' || ch == b'-' then ch else b'_')

  -- `with renewal_file_lock(...)`
  unfoldable pub with_lock : Text → Eff Outcome → Eff Outcome
  with_lock scope body = do
    acquired ← call (acquire (safe_scope scope)) sv.lock
    if acquired
        then try_finally body (release (safe_scope scope))
        else raise (runtime_error (already_running scope))

  unfoldable pub execute_trusted : Capability → Bool → List Text → Eff Outcome
  execute_trusted plan confirmed [] = pure (failed "Site has no renewal target domain.")
  execute_trusted plan confirmed (primary ∷ rest) =
      let scope = normalized rt (or_else plan.scope_name primary) in
      try_except (with_lock scope (confirm_and_run plan (primary ∷ rest) primary confirmed))
        is_reported (λ e. pure (report e))

  -- The first domain, if there is one.
  unfoldable pub fallback_targets : List Text → List Text
  fallback_targets [] = []
  fallback_targets (d ∷ ds) = normalized rt d ∷ []

  unfoldable pub target_domains : Site → List Text → Eff (List Text)
  target_domains site [] = do domains ← domains_of rt site; pure (fallback_targets domains)
  target_domains site (d ∷ ds) = pure (d ∷ ds)

  unfoldable pub execute : Site → Capability → Bool → Eff Outcome
  execute site plan confirmed = do
    trusted ← build_plan rt sv settings site none true
    if not (matches_plan plan trusted) then pure stale else do
      targets ← target_domains site trusted.wait_domains
      execute_trusted trusted confirmed targets
