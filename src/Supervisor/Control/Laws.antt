-- ===== src/Supervisor/Control/Laws.antt =====
-- When a supervisor reports success, and when it reports that Caddy is running.
use caddybuddy.Text.Trimmed.{strip_by-core, strip_by-IsStripped, IsStripped}
use caddybuddy.Supervisor.Control.{
  is_space, strip_by, script_status, docker_status, Text, systemd_status, docker_answer,
  script_answer, status, systemd_answer, run_script, docker_reload, text, answer_of, killed,
  run_docker, failed_to_run, run_systemctl, text_eq, ControlError, ended, off, reload, Kind,
  Process, restart, run_result,
}
use caddybuddy.Supervisor.Defs.{running, RestartResult, SupervisorStatus}
use caddybuddy.Domains.Shape.{Runtime}
use caddybuddy.Text.{member, text_eq_iff}
use caddybuddy.Prelude.{
  ◌≤◌, ◌≡◌, refl, sym, ap, ◌∙◌, ◌↔◌, ◌⊎◌, inl, inr, Bool, true, false, not, ◌&&◌, Option, none,
  some, List, [], ◌∷◌, arith, Bool-cases,
}

-- The child ended with status zero and printed text.
abbrev pub ended_well : Process → Bool
ended_well (ended true (some stdout) stderr) = true
ended_well _ = false

abbrev pub is_off : Kind → Bool
is_off off = true
is_off _ = false

abbrev pub has_error : RestartResult → Bool
has_error r = elim r.error [ none ↦ false | some e ↦ true ]

run_result-success :
    (t f : ControlError) (p : Process)
    → ((run_result t f p).success ≡ ended_well p)
      × (has_error (run_result t f p) ≡ not (ended_well p))
unfolding run_result
run_result-success t f failed_to_run = (refl, refl)
run_result-success t f killed = (refl, refl)
run_result-success t f (ended b none e) = ground arith
run_result-success t f (ended true (some o) e) = (refl, refl)
run_result-success t f (ended false (some o) none) = (refl, refl)
run_result-success t f (ended false (some o) (some e)) = (refl, refl)

-- What both commands promise.
abbrev pub Reports : Kind → Process → RestartResult → Type 0
Reports k p r = (r.success ≡ (not (is_off k) && ended_well p)) × (has_error r ≡ not r.success)

-- For each kind of supervisor and whatever the child process does, `restart` and `reload` report
-- success exactly when a control mode is set and the child ended with status zero and readable
-- output, and carry an error exactly when they report no success.
pub restart-Reports :
    (k : Kind) (p : Process) → Reports k p (restart k p) × Reports k p (reload k p)
unfolding restart reload run_systemctl run_docker docker_reload run_script
restart-Reports Kind.systemd p = ground (arith, run_result-success _ _ p)
restart-Reports Kind.docker p = ground (arith, run_result-success _ _ p)
restart-Reports Kind.script p = ground (arith, run_result-success _ _ p)
restart-Reports off p = ground arith

abbrev pub is_running : SupervisorStatus → Bool
is_running running = true
is_running _ = false

abbrev pub IsOneOf : Text → List Text → Type 0
IsOneOf s [] = 1 ≤ 0
IsOneOf s (w ∷ words) = (s ≡ w) ⊎ IsOneOf s words

-- One of the words, in lower case, between white space or none.
abbrev pub IsPrinted : Runtime → List Text → Text → Type 0
IsPrinted rt words stdout =
    (core : Text) × IsStripped is_space core stdout × IsOneOf (rt.lower core) words

-- What the process did and printed, where a kind of supervisor takes it for "running".
abbrev pub SaysRunning : Runtime → Kind → Process → Type 0
SaysRunning rt Kind.systemd (ended exit_zero (some stdout) stderr) =
    IsPrinted rt (text "active" ∷ []) stdout
SaysRunning rt Kind.docker (ended true (some stdout) stderr) =
    IsPrinted rt (text "running" ∷ []) stdout
SaysRunning rt Kind.script (ended true (some stdout) stderr) =
    IsPrinted rt (text "running" ∷ text "active" ∷ text "ok" ∷ []) stdout
SaysRunning rt _ _ = 1 ≤ 0

member-IsOneOf : (s : Text) (words : List Text) → member s words ≡ true → IsOneOf s words
unfolding member
member-IsOneOf s [] h = absurd (ground (arith, h))
member-IsOneOf s (w ∷ words) h = elim (Bool-cases (text_eq s w)) [
  | inl same ↦ inl ((text_eq_iff s w).0 same)
  | inr other ↦ inr (member-IsOneOf s words (ground (arith, h, other)))
]

IsOneOf-member : (s : Text) (words : List Text) → IsOneOf s words → member s words ≡ true
unfolding member
IsOneOf-member s [] h = absurd (omega (arith, h))
IsOneOf-member s (w ∷ words) (inl same) =
    let equal = (text_eq_iff s w).1 same in ground (arith, equal)
IsOneOf-member s (w ∷ words) (inr h) = ground (arith, IsOneOf-member s words h)

answer_of-IsPrinted :
    (rt : Runtime) (words : List Text) (stdout : Text)
    → (member (answer_of rt stdout) words ≡ true) ↔ IsPrinted rt words stdout
unfolding answer_of
answer_of-IsPrinted rt words stdout = (
  λ h. (
    strip_by is_space stdout,
    strip_by-IsStripped is_space stdout,
    member-IsOneOf (rt.lower (strip_by is_space stdout)) words h,
  ),
  λ (core, around, h).
      ap (λ s. member (rt.lower s) words) (strip_by-core is_space core stdout around)
      ∙ IsOneOf-member (rt.lower core) words h,
)

-- A test that is `member` gives the same equivalence.
running_iff :
    (rt : Runtime) (b : Bool) (words : List Text) (stdout : Text)
    → b ≡ member (answer_of rt stdout) words
    → (b ≡ true) ↔ IsPrinted rt words stdout
running_iff rt b words stdout h =
    let printed = answer_of-IsPrinted rt words stdout in
    (λ same. printed.0 (sym h ∙ same), λ says. h ∙ printed.1 says)

systemd_answer-running :
    (rt : Runtime) (b : Bool) (e : Option Text) (output : Text)
    → is_running (systemd_answer rt b e output).status ≡ member output (text "active" ∷ [])
unfolding systemd_answer member
systemd_answer-running rt b e output = ground arith

docker_answer-running :
    (rt : Runtime) (output : Text)
    → is_running (docker_answer rt output).status ≡ member output (text "running" ∷ [])
unfolding docker_answer member
docker_answer-running rt output = ground arith

script_answer-running :
    (rt : Runtime) (output : Text)
    → is_running (script_answer rt output).status
      ≡ member output (text "running" ∷ text "active" ∷ text "ok" ∷ [])
unfolding script_answer
script_answer-running rt output = ground arith

-- For each kind of supervisor and whatever the child process does, `status` answers "running"
-- exactly when the process ended (for Docker and the script: with status zero) and printed, with any
-- white space around it, a text that in lower case is a word for it: "active" for systemd,
-- "running" for Docker, and "running", "active" or "ok" for the script.
pub status-running :
    (rt : Runtime) (k : Kind) (p : Process)
    → (is_running (status rt k p).status ≡ true) ↔ SaysRunning rt k p
unfolding status systemd_status docker_status script_status
status-running rt Kind.systemd failed_to_run = ground arith
status-running rt Kind.systemd killed = ground arith
status-running rt Kind.systemd (ended b none e) = ground arith
status-running rt Kind.systemd (ended b (some o) e) =
    running_iff rt _ (text "active" ∷ []) o (systemd_answer-running rt b e (answer_of rt o))
status-running rt Kind.docker failed_to_run = ground arith
status-running rt Kind.docker killed = ground arith
status-running rt Kind.docker (ended false o e) = ground arith
status-running rt Kind.docker (ended true none e) = ground arith
status-running rt Kind.docker (ended true (some o) e) =
    running_iff rt _ (text "running" ∷ []) o (docker_answer-running rt (answer_of rt o))
status-running rt Kind.script failed_to_run = ground arith
status-running rt Kind.script killed = ground arith
status-running rt Kind.script (ended true none e) = ground arith
status-running rt Kind.script (ended false none e) = ground arith
status-running rt Kind.script (ended false (some o) none) = ground arith
status-running rt Kind.script (ended false (some o) (some e)) = ground arith
status-running rt Kind.script (ended true (some o) e) =
    running_iff rt _ (text "running" ∷ text "active" ∷ text "ok" ∷ []) o
      (script_answer-running rt (answer_of rt o))
status-running rt off p = ground arith
