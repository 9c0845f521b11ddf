-- ===== src/Renewal/Execute/ApiOnly.antt =====
-- Without a control mode nothing is restarted, reloaded through the supervisor, or purged.
use caddybuddy.Renewal.Effects.Keeps.{
  Keeps-call, Keeps-raise, Keeps-try_finally, Keeps-if, Keeps-bind, Keeps-try_except, Keeps-pure,
  Keeps,
}
use caddybuddy.Renewal.Execute.Actions.{api_reload-Keeps, acquisition-Keeps, AllowsWatching}
use caddybuddy.Renewal.Defs.{
  api_reload, acquisition_sync, ControlMode, Site, Settings, artifact_purge, Capability,
  restart_repair, Mode,
}
use caddybuddy.Renewal.Execute.Parts.{execute-Keeps}
use caddybuddy.Renewal.Execute.Run.{
  execute, run_mode, confirm_and_run, with_lock, execute_trusted, run_in,
}
use caddybuddy.Renewal.Effects.{
  History, supervisor_reload, supervisor_restart, supervisor_status, get_supervisor, Services,
  purge, Action,
}
use caddybuddy.Renewal.Plan.{downgrade, adjust, downgrade_from}
use caddybuddy.Text.{Text}
use caddybuddy.Domains.Shape.{Runtime}
use caddybuddy.Prelude.{◌≡◌, refl, Bool, List, [], ◌∷◌, All}

-- The supervisor is not called, and no artifact is purged.
abbrev pub IsApiOnly : Action → Type 0
IsApiOnly get_supervisor = ⊥
IsApiOnly supervisor_status = ⊥
IsApiOnly supervisor_restart = ⊥
IsApiOnly supervisor_reload = ⊥
IsApiOnly (purge _ _) = ⊥
IsApiOnly _ = Unit

abbrev IsApiMode : Mode → Type 0
IsApiMode restart_repair = ⊥
IsApiMode artifact_purge = ⊥
IsApiMode _ = Unit

watching : AllowsWatching (All IsApiOnly)
watching = record {
  publishing = λ a h p. (tt, p);
  configuring = λ h p. (tt, p);
  opening = λ h p. (tt, p);
  asking = λ h p. (tt, p);
  reading = λ h p. (tt, p);
  scanning = λ h p. (tt, p);
  sleeping = λ a h p. (tt, p);
  invalidating = λ a h p. (tt, p);
  fetching = λ a h p. (tt, p);
}

downgrade-IsApiMode : (m : Mode) (c : Capability) → c.mode ≡ m → IsApiMode (downgrade_from m c).mode
unfolding downgrade_from
downgrade-IsApiMode artifact_purge c e = tt
downgrade-IsApiMode restart_repair c e = tt
downgrade-IsApiMode _ c e = rw e tt

module _ (rt : Runtime) (sv : Services) (settings : Settings) where
  run_in-IsApiOnly :
      (m : Mode) (plan : Capability) (domains : List Text) (primary : Text)
      → IsApiMode m
      → Keeps (All IsApiOnly) (run_in rt sv settings m plan domains primary)
  unfolding run_in
  run_in-IsApiOnly restart_repair plan domains primary i = absurd i
  run_in-IsApiOnly artifact_purge plan domains primary i = absurd i
  run_in-IsApiOnly acquisition_sync plan domains primary i =
      acquisition-Keeps (All IsApiOnly) watching rt sv settings domains
  run_in-IsApiOnly api_reload plan domains primary i =
      api_reload-Keeps (All IsApiOnly) watching rt sv settings domains (λ h p. (tt, p))
        (λ h p. (tt, p))
  run_in-IsApiOnly _ plan domains primary i = Keeps-pure _

  trusted-IsApiOnly :
      (trusted : Capability) (confirmed : Bool) (targets : List Text)
      → IsApiMode trusted.mode
      → Keeps (All IsApiOnly) (execute_trusted rt sv settings trusted confirmed targets)
  unfolding execute_trusted with_lock confirm_and_run run_mode
  trusted-IsApiOnly trusted confirmed [] i = Keeps-pure _
  trusted-IsApiOnly trusted confirmed (d ∷ ds) i =
      Keeps-try_except _ _ _
        (Keeps-bind _ _ (Keeps-call _ _ (λ h p. (tt, p))) (λ acquired.
          Keeps-if acquired _ _
            (Keeps-try_finally _ _
              (Keeps-if _ _ _ (Keeps-pure _) (run_in-IsApiOnly trusted.mode trusted (d ∷ ds) d i))
              (λ h p. (tt, p)))
            (Keeps-raise _)))
        (λ e. Keeps-pure _)

  -- With `caddy_control_mode` disabled, whatever plan a caller hands to `execute`, confirmed or not,
  -- and whatever the services answer: if no earlier call has reached the supervisor or purged an
  -- artifact, none has after `execute`, whether it returns or raises.
  pub execute-IsApiOnly :
      (site : Site) (plan : Capability) (confirmed : Bool) (h : History)
      → settings.caddy_control_mode ≡ ControlMode.disabled
      → All IsApiOnly h
      → All IsApiOnly (execute rt sv settings site plan confirmed h).1
  unfolding adjust downgrade
  execute-IsApiOnly site plan confirmed h off =
      (execute-Keeps rt sv settings site plan confirmed (λ ds h p. (tt, p))
          (λ trusted a _ targets.
            trusted-IsApiOnly trusted confirmed targets
              (rw (a.1, off) (downgrade-IsApiMode a.0.mode a.0 refl)))).at
        h
