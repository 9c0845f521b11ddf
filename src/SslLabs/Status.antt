-- ===== src/SslLabs/Status.antt =====
-- Grades and statuses of scans.
use caddybuddy.Text.{member, text, Text, text_eq}
use caddybuddy.Text.Search.{starts_with, strip}
use caddybuddy.Web.Session.{ℤ}
use caddybuddy.Prelude.{Bool, ◌&&◌, Option, none, some, List, [], ◌∷◌, if◌then◌else◌, is_nil}

abbrev pub active_statuses : List Text
active_statuses =
    text "queued" ∷ text "starting" ∷ text "dns" ∷ text "in_progress" ∷ text "rate_limited" ∷ []

abbrev pub terminal_statuses : List Text
terminal_statuses = text "ready" ∷ text "error" ∷ text "failed" ∷ []

abbrev pub failed_statuses : List Text
failed_statuses = text "error" ∷ text "failed" ∷ []

abbrev pub or_blank : Option Text → Text
or_blank none = []
or_blank (some s) = s

abbrev pub grade_ranks : List (Text × ℤ)
grade_ranks =
    (text "A+", ℤ.pos 7)
    ∷ (text "A", ℤ.pos 6)
    ∷ (text "A-", ℤ.pos 5)
    ∷ (text "B", ℤ.pos 4)
    ∷ (text "C", ℤ.pos 3)
    ∷ (text "D", ℤ.pos 2)
    ∷ (text "E", ℤ.pos 1)
    ∷ (text "F", ℤ.pos 0)
    ∷ (text "T", ℤ.negsuc 0)
    ∷ (text "M", ℤ.negsuc 0)
    ∷ (text "MIXED", ℤ.negsuc 0)
    ∷ []

unfoldable pub rank_in : Text → List (Text × ℤ) → Option ℤ
unfolding text_eq
rank_in grade [] = none
rank_in grade ((g, r) ∷ ranks) =
    let rest = rank_in grade ranks in if text_eq grade g then some r else rest

-- `str.lower` and `str.upper` are parameters.
module _ (lower upper : Text → Text) where
  unfoldable pub grade_to_rank : Option Text → Option ℤ
  unfolding rank_in strip
  grade_to_rank none = none
  grade_to_rank (some grade) = rank_in (strip (upper grade)) grade_ranks

  unfoldable pub grade_badge_class : Option Text → Text
  unfolding strip starts_with
  grade_badge_class grade =
      let normalized = strip (upper (or_blank grade)) in
      if is_nil normalized
      then text "bg-secondary"
      else if starts_with (text "A") normalized
      then text "bg-success"
      else if starts_with (text "B") normalized
      then text "bg-warning text-dark"
      else text "bg-danger"

  unfoldable pub is_ssllabs_scan_active : Option Text → Bool
  unfolding strip member
  is_ssllabs_scan_active status = member (lower (strip (or_blank status))) active_statuses

  unfoldable pub is_ssllabs_scan_terminal : Option Text → Bool
  unfolding strip member
  is_ssllabs_scan_terminal status = member (lower (strip (or_blank status))) terminal_statuses

  unfoldable pub is_ssllabs_scan_failed : Option Text → Bool
  unfolding strip member
  is_ssllabs_scan_failed status = member (lower (strip (or_blank status))) failed_statuses

  unfoldable pub ssllabs_scan_event_action : Option Text → Text
  unfolding is_ssllabs_scan_failed strip text_eq
  ssllabs_scan_event_action status =
      let normalized_status = lower (strip (or_blank status)) in
      if text_eq normalized_status (text "queued")
      then text "scan_started"
      else if text_eq normalized_status (text "ready")
      then text "scan_completed"
      else if is_ssllabs_scan_failed (some normalized_status)
      then text "scan_failed"
      else text "scan_updated"

  unfoldable pub status_badge_class : Option Text → Option Text → Text
  unfolding is_ssllabs_scan_failed is_ssllabs_scan_active text_eq starts_with
  status_badge_class status grade =
      let normalized_status = lower (or_blank status) in
      let normalized_grade = upper (or_blank grade) in
      let ready = text_eq normalized_status (text "ready") in
      if is_ssllabs_scan_failed (some normalized_status)
      then text "status-pill--offline"
      else if is_ssllabs_scan_active (some normalized_status)
      then text "status-pill--unknown"
      else if ready && starts_with (text "A") normalized_grade
      then text "status-pill--online"
      else if ready && starts_with (text "B") normalized_grade
      then text "status-pill--warning"
      else if ready
      then text "status-pill--offline"
      else text "status-pill--unknown"
