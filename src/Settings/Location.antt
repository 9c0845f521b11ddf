-- ===== src/Settings/Location.antt =====
-- `normalize_caddyfile_path`, and the Caddyfile candidates.
pub mod Laws
use caddybuddy.Text.{text, Text, text_eq}
use caddybuddy.Text.Search.{strip, has_char}
use caddybuddy.Prelude.{
  Bool, true, false, not, ◌&&◌, ◌||◌, List, [], ◌∷◌, if◌then◌else◌, is_nil, any,
}

-- A resolved path: its names, the last one first.
abbrev pub FilePath : Type 0
FilePath = List Text

-- `pathlib`: whether a path is absolute, its last name, its resolution through the file system, and a
-- resolved path as a string.
pub record Paths : Type 0 where
  pub is_absolute : Text → Bool
  pub name_of : Text → Text
  pub resolve : Text → FilePath
  pub str : FilePath → Text

pub data PathError : Type 0 where
  empty_path nul_character not_absolute not_a_caddyfile resolves_elsewhere outside_roots : PathError

pub data PathResult : Type 0 where
  path_ok : Text → PathResult
  path_error : PathError → PathResult

-- `_ALLOWED_CADDYFILE_ROOTS` before they are resolved
abbrev pub allowed_caddyfile_roots : List Text
allowed_caddyfile_roots =
    text "/app"
    ∷ text "/config"
    ∷ text "/etc/caddy"
    ∷ text "/etc/opt/caddy"
    ∷ text "/usr/local/etc/caddy"
    ∷ []

unfoldable pub same_path : FilePath → FilePath → Bool
unfolding text_eq
same_path [] [] = true
same_path [] (q ∷ qs) = false
same_path (p ∷ ps) [] = false
same_path (p ∷ ps) (q ∷ qs) = text_eq p q && same_path ps qs

-- Equal to a root or below it.
unfoldable pub is_relative_to : FilePath → FilePath → Bool
unfolding same_path
is_relative_to [] root = same_path [] root
is_relative_to (p ∷ ps) root = same_path (p ∷ ps) root || is_relative_to ps root

abbrev pub last_name : FilePath → Text
last_name [] = []
last_name (p ∷ ps) = p

unfoldable pub normalize_caddyfile_path : Paths → Text → PathResult
unfolding strip has_char text_eq is_relative_to any
normalize_caddyfile_path paths raw_path =
    let normalized = strip raw_path in
    let resolved = paths.resolve normalized in
    if is_nil normalized
    then path_error empty_path
    else if has_char 0 normalized
    then path_error nul_character
    else if not (paths.is_absolute normalized)
    then path_error not_absolute
    else if not (text_eq (paths.name_of normalized) (text "Caddyfile"))
    then path_error not_a_caddyfile
    else if not (text_eq (last_name resolved) (text "Caddyfile"))
    then path_error resolves_elsewhere
    else if not (any (λ root. is_relative_to resolved (paths.resolve root)) allowed_caddyfile_roots)
    then path_error outside_roots
    else path_ok (paths.str resolved)
