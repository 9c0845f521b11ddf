-- ===== src/Settings/Candidates.antt =====
-- Where a Caddyfile is looked for: `discover_caddyfile_candidates` and `suggest_caddyfile_path`.
use caddybuddy.Text.{text, Text, member, text_eq}
use caddybuddy.Settings.Location.{FilePath, Paths}
use caddybuddy.Text.Search.{strip}
use caddybuddy.Prelude.{Bool, Option, none, some, List, [], ◌∷◌, ◌++◌, if◌then◌else◌}

abbrev pub host_caddyfile_hints : List Text
host_caddyfile_hints =
    text "/etc/caddy/Caddyfile"
    ∷ text "/usr/local/etc/caddy/Caddyfile"
    ∷ text "/etc/opt/caddy/Caddyfile"
    ∷ []

abbrev pub container_caddyfile_hints : List Text
container_caddyfile_hints =
    text "/app/Caddyfile" ∷ text "/config/Caddyfile" ∷ text "/etc/caddy/Caddyfile" ∷ []

-- The loop of `_dedupe_caddyfile_candidates`, with the paths seen so far as strings.
unfoldable pub dedupe_from : Paths → List Text → List Text → List FilePath
unfolding member
dedupe_from paths seen [] = []
dedupe_from paths seen (path ∷ candidates) =
    let resolved = paths.resolve path in
    let later = dedupe_from paths (paths.str resolved ∷ seen) candidates in
    let skipped = dedupe_from paths seen candidates in
    if member (paths.str resolved) seen then skipped else resolved ∷ later

abbrev pub mounted : Option Text → List Text
mounted none = []
mounted (some path) = path ∷ []

abbrev pub normalized_runtime : (Text → Text) → Option Text → Text
normalized_runtime lower none = []
normalized_runtime lower (some location) = lower (strip location)

unfoldable pub discover_caddyfile_candidates :
    Paths → (Text → Text) → Option Text → Option Text → List FilePath
unfolding dedupe_from strip text_eq
discover_caddyfile_candidates paths lower runtime_location mounted_caddyfile_path =
    let runtime = normalized_runtime lower runtime_location in
    let candidates =
      if text_eq runtime (text "container")
      then mounted mounted_caddyfile_path ++ container_caddyfile_hints
      else if text_eq runtime (text "host")
      then host_caddyfile_hints
      else mounted mounted_caddyfile_path ++ (host_caddyfile_hints ++ container_caddyfile_hints) in
    dedupe_from paths [] candidates

-- The first path that is a file, or else the first one.
unfoldable pub first_file : Paths → (FilePath → Bool) → Text → List FilePath → Text
first_file paths is_file default [] = default
first_file paths is_file default (p ∷ candidates) =
    let later = first_file paths is_file default candidates in
    if is_file p then paths.str p else later

abbrev pub best_guess : Paths → List FilePath → Text
best_guess paths [] = []
best_guess paths (p ∷ candidates) = paths.str p

unfoldable pub suggest_caddyfile_path :
    Paths → (Text → Text) → (FilePath → Bool) → Option Text → Option Text → Text
unfolding first_file discover_caddyfile_candidates
suggest_caddyfile_path paths lower is_file runtime_location mounted_caddyfile_path =
    let candidates =
      discover_caddyfile_candidates paths lower runtime_location mounted_caddyfile_path in
    first_file paths is_file (best_guess paths candidates) candidates
