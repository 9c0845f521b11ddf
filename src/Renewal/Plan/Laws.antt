-- ===== src/Renewal/Plan/Laws.antt =====
-- Which plan a site gets, as conditions on the certificate information and the settings.
use caddybuddy.Renewal.Plan.{is_remote, is_storage_unavailable, CertificateInfo, Text}
use caddybuddy.Renewal.Defs.{
  Capability, is_disabled, artifact_purge, restart_repair, Mode, Settings,
}
use caddybuddy.Prelude.{◌≡◌, Bool, true, false, not, ◌&&◌, ◌||◌, List}

abbrev pub is_purge : Mode → Bool
is_purge artifact_purge = true
is_purge _ = false

abbrev pub is_repair : Mode → Bool
is_repair restart_repair = true
is_repair _ = false

-- Artifacts may be purged: they are there, complete, and no wildcard's, and a control mode is set.
abbrev pub may_purge : Settings → CertificateInfo → Bool
may_purge settings info =
    not (is_disabled settings.caddy_control_mode)
    && not (is_storage_unavailable info.status)
    && not info.is_wildcard
    && info.local_artifact_present
    && info.local_artifact_complete

-- The mode `restart_repair` fits: a control mode is set, the certificate is valid and its artifact is incomplete, or missing while a
-- remote check saw it.
abbrev pub may_repair : Settings → CertificateInfo → Bool
may_repair settings info =
    not (is_disabled settings.caddy_control_mode)
    && not (is_storage_unavailable info.status)
    && not info.is_wildcard
    && not (info.local_artifact_present && info.local_artifact_complete)
    && info.valid
    && (info.local_artifact_present || is_remote info.source)

pub record Decided (settings : Settings) (domains : List Text) (info : CertificateInfo)
    (c : Capability) : Type 0 where
  pub purges : is_purge c.mode ≡ may_purge settings info
  pub repairs : is_repair c.mode ≡ may_repair settings info
  pub confirms :
      c.requires_confirmation
      ≡ (may_repair settings info && settings.caddy_restart_confirmation_required)
  pub unconfirmed : is_purge c.mode ≡ true → c.requires_confirmation ≡ false
  pub waits : c.wait_domains ≡ domains
