-- ===== src/Supervisor/ScriptPath.antt =====
-- `_validate_script_path` and the checks it makes of the script and the directories above it.
pub mod Laws
use caddybuddy.Prelude.{
  ℕ, zero, suc, ◌+◌, ◌-◌, ◌*◌, ◌/◌, ◌%◌, ◌^◌, ◌≤◌, ◌<◌, String, ◌≡◌, refl, sym, ap, ◌∙◌, subst, ◌≢◌,
  ◌↔◌, ◌⊎◌, inl, inr, Bool, true, false, not, ◌&&◌, ◌||◌, false≢true, Option, none, some, List, [],
  ◌∷◌, ◌++◌, map, reverse, arith, ltb, leb, ◌==◌, if◌then◌else◌, ltb→lt, lt→ltb, leb→le, ==_iff,
  Bool-cases, Option-cases, and-eq-true, length, is_nil, All, length-append, all, any, all-append,
  All-append, All-all,
}
use caddybuddy.Text.{Text, text, text_eq}

-- A resolved path, its components from the last to the first, so that `parent` is the tail; the root
-- directory, which has no component, is its own parent.
abbrev pub FilePath : Type 0
FilePath = List Text

-- `st_uid` and `st_mode`
pub record Stat : Type 0 where
  pub uid : ℕ
  pub mode : ℕ

pub data ScriptError : Type 0 where
  not_absolute does_not_exist not_a_file outside_roots stat_failed resolve_failed : ScriptError
  not_owned writable : FilePath → ScriptError

pub data Checked {ℓ} (A : Type ℓ) : Type ℓ where
  accepted : A → Checked A
  rejected : ScriptError → Checked A

-- What the operating system answers: `stat` and `resolve` are `none` where they raise `OSError`.
pub record FileSystem : Type 0 where
  pub is_absolute : Text → Bool
  pub exists : Text → Bool
  pub is_file : Text → Bool
  pub resolve : Text → Option FilePath
  pub stat : FilePath → Option Stat

-- `stat_info.st_mode & 0o022`
unfoldable pub is_group_or_other_writable : ℕ → Bool
is_group_or_other_writable mode = (mode / 16) % 2 == 1 || (mode / 2) % 2 == 1

unfoldable pub path_eq : FilePath → FilePath → Bool
path_eq [] [] = true
path_eq [] (y ∷ ys) = false
path_eq (x ∷ xs) [] = false
path_eq (x ∷ xs) (y ∷ ys) = text_eq x y && path_eq xs ys

-- `is_relative_to`
unfoldable pub is_relative_to : FilePath → FilePath → Bool
unfolding path_eq
is_relative_to root [] = path_eq [] root
is_relative_to root (c ∷ cs) = path_eq (c ∷ cs) root || is_relative_to root cs

unfoldable pub parent : FilePath → FilePath
parent [] = []
parent (c ∷ cs) = cs

-- `_ALLOWED_SCRIPT_ROOTS`, on a system where none of them is a symbolic link
abbrev pub allowed_script_roots : List FilePath
allowed_script_roots =
    (text "app" ∷ [])
    ∷ (text "caddybuddy" ∷ text "opt" ∷ [])
    ∷ (text "caddybuddy" ∷ text "lib" ∷ text "local" ∷ text "usr" ∷ [])
    ∷ (text "caddybuddy" ∷ text "etc" ∷ [])
    ∷ []

-- `_allowed_script_root_for`: the first root that the path is relative to.
unfoldable pub allowed_script_root_for : List FilePath → FilePath → Checked FilePath
unfolding is_relative_to
allowed_script_root_for [] path = rejected outside_roots
allowed_script_root_for (root ∷ roots) path =
    if is_relative_to root path then accepted root else allowed_script_root_for roots path

-- A check that raises nothing is followed by the next one.
abbrev pub and_then : Option ScriptError → Option ScriptError → Option ScriptError
and_then (some e) later = some e
and_then none later = later

unfoldable pub stat_error : FilePath → Option Stat → Option ScriptError
unfolding is_group_or_other_writable
stat_error path none = some stat_failed
stat_error path (some info) =
    if not (info.uid == 0)
    then some (not_owned path)
    else if is_group_or_other_writable info.mode
    then some (writable path)
    else none

module _ (stat : FilePath → Option Stat) where
  -- `_validate_secure_path_owner_and_mode`: `none` where it raises nothing.
  unfoldable pub secure_path_error : FilePath → Option ScriptError
  unfolding stat_error
  secure_path_error path = stat_error path (stat path)

  -- `_validate_secure_parent_dirs`: from `path` up, and not beyond `stop_at`.
  unfoldable pub parent_dirs_error : FilePath → FilePath → Option ScriptError
  unfolding secure_path_error path_eq
  parent_dirs_error stop_at [] = secure_path_error []
  parent_dirs_error stop_at (c ∷ cs) =
      let rest = parent_dirs_error stop_at cs in
      and_then (secure_path_error (c ∷ cs)) (if path_eq (c ∷ cs) stop_at then none else rest)

  unfoldable pub script_file_error : FilePath → FilePath → Option ScriptError
  unfolding secure_path_error parent_dirs_error parent
  script_file_error root path =
      and_then (secure_path_error path) (parent_dirs_error root (parent path))

-- The end of `_validate_script_path`: the resolved path, and the root it was found under.
unfoldable pub validate_below :
    (FilePath → Option Stat) → FilePath → Checked FilePath → Checked FilePath
unfolding script_file_error
validate_below stat path (rejected e) = rejected e
validate_below stat path (accepted root) = elim (script_file_error stat root path) [
  | some e ↦ rejected e
  | none ↦ accepted path
]

unfoldable pub validate_resolved : (FilePath → Option Stat) → Option FilePath → Checked FilePath
unfolding allowed_script_root_for validate_below
validate_resolved stat none = rejected resolve_failed
validate_resolved stat (some path) =
    validate_below stat path (allowed_script_root_for allowed_script_roots path)

unfoldable pub validate_script_path : FileSystem → Text → Checked FilePath
unfolding validate_resolved
validate_script_path fs script_path =
    if not (fs.is_absolute script_path)
    then rejected not_absolute
    else if not (fs.exists script_path)
    then rejected does_not_exist
    else if not (fs.is_file script_path)
    then rejected not_a_file
    else validate_resolved fs.stat (fs.resolve script_path)
