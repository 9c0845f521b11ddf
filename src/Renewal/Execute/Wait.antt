-- ===== src/Renewal/Execute/Wait.antt =====
-- `_with_control_timeout`, `_publish`, `_wait_for_caddy_health`, `_wait_for_local_artifacts`.
-- Each polling loop gets fuel for two rounds more than the timeout has poll intervals.
use caddybuddy.Domains.Shape.{Runtime}
use caddybuddy.Renewal.Effects.{
  Answer, raised, ok, ◌>>=◌, admin_health, History, admin_open, publish, scan_storage, sleep,
  Progress, get_caddy_config, read_clock, ◌>>◌, call, pure, Eff, Services, raise, try_except,
}
use caddybuddy.Renewal.Defs.{
  cancelled, timeout_error, is_exception, stuck, timed_out, service_error, Settings, Raised,
}
use caddybuddy.Text.{Text}
use caddybuddy.Certificates.Find.{find_certificate_for_domain}
use caddybuddy.Certificates.Defs.{CertificateInfo}
use caddybuddy.Prelude.{
  ℕ, zero, suc, ◌-◌, ◌/◌, String, Bool, true, false, not, ◌&&◌, Option, none, some, List, ltb, leb,
  if◌then◌else◌, all,
}

abbrev is_timeout : Raised → Bool
is_timeout timeout_error = true
is_timeout _ = false

unfoldable pub with_control_timeout {ℓ} : {A : Type ℓ} → Eff A → String → Eff A
unfolding try_except raise
with_control_timeout awaitable operation =
    try_except awaitable is_timeout (λ _. raise (service_error (timed_out operation)))

abbrev pub complete_in : Option CertificateInfo → Bool
complete_in none = false
complete_in (some info) = info.local_artifact_complete

module _ (rt : Runtime) (sv : Services) (settings : Settings) where
  unfoldable pub publish_progress : Progress → Eff (Unit {0})
  publish_progress action =
      if sv.has_progress
      then try_except (call (publish action) sv.progress) is_exception (λ _. pure tt)
      else pure tt

  -- What is awaited ends, or `CancelledError` is raised.
  abbrev pub unless_cancelled {ℓ} : {A : Type ℓ} → A → History → Answer A
  unless_cancelled a h = if sv.cancels h then raised cancelled else ok a

  -- `max(0.5, self.settings.cert_renewal_poll_interval_seconds)`
  unfoldable pub poll_interval : ℕ
  poll_interval =
      if ltb 500 settings.cert_renewal_poll_interval
      then settings.cert_renewal_poll_interval
      else 500

  unfoldable pub fuel_for : ℕ → ℕ
  fuel_for timeout = suc (suc (timeout / poll_interval))

  unfoldable pub read : Eff ℕ
  read = call read_clock (λ h. ok (sv.clock h))

  -- One attempt: `false` where the client or the request raises.
  unfoldable pub attempt_health : Eff Bool
  attempt_health =
      try_except (do call admin_open sv.client; call admin_health sv.health) is_exception
        (λ _. pure false)

  -- One round of the loop; `again` is the rest of it.
  unfoldable pub health_round : ℕ → ℕ → Eff Bool → Eff Bool
  health_round start timeout again = do
    time ← read
    if leb timeout (time - start) then pure false else do
      healthy ← attempt_health
      if healthy then pure true else do call (sleep poll_interval) (unless_cancelled tt); again

  unfoldable pub poll_health : ℕ → ℕ → ℕ → Eff Bool
  poll_health zero start timeout = raise stuck
  poll_health (suc fuel) start timeout = health_round start timeout (poll_health fuel start timeout)

  unfoldable pub wait_for_caddy_health : ℕ → Eff Bool
  wait_for_caddy_health timeout = do
    start ← read
    configured ← call get_caddy_config sv.admin_url
    if configured then poll_health (fuel_for timeout) start timeout else pure false

  -- The `all(...)` over the domains, on the answer to a scan that follows `h`.
  unfoldable pub all_complete : List Text → History → Bool
  all_complete domains h =
      not (sv.scan h).1
      && all (λ d. complete_in (find_certificate_for_domain rt (sv.now h d) (sv.scan h).0 d))
          domains

  unfoldable pub artifacts_round : List Text → ℕ → ℕ → Eff Bool → Eff Bool
  artifacts_round domains start timeout again = do
    time ← read
    if leb timeout (time - start) then pure false else do
      complete ← call scan_storage (λ h. unless_cancelled (all_complete domains h) h)
      if complete then pure true else do call (sleep poll_interval) (unless_cancelled tt); again

  unfoldable pub poll_artifacts : ℕ → List Text → ℕ → ℕ → Eff Bool
  poll_artifacts zero domains start timeout = raise stuck
  poll_artifacts (suc fuel) domains start timeout =
      artifacts_round domains start timeout (poll_artifacts fuel domains start timeout)

  unfoldable pub wait_for_local_artifacts : List Text → ℕ → Eff Bool
  wait_for_local_artifacts domains timeout = do
    start ← read
    poll_artifacts (fuel_for timeout) domains start timeout
