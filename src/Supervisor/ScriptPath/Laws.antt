-- ===== src/Supervisor/ScriptPath/Laws.antt =====
-- What an accepted control script guarantees.
use caddybuddy.Supervisor.ScriptPath.{
  validate_resolved, rejected, Checked, parent, allowed_script_root_for, script_file_error,
  validate_below, allowed_script_roots, accepted, Text, FileSystem, and_then,
  is_group_or_other_writable, ScriptError, Stat, is_relative_to, parent_dirs_error, path_eq,
  secure_path_error, stat_error, validate_script_path, FilePath,
}
use caddybuddy.Text.{text_eq_iff}
use mathlib.Core.List.{append_assoc, mem-cons_self, mem-cons_of_mem, Mem}
use caddybuddy.Prelude.{
  ◌≡◌, refl, sym, ap, ◌∙◌, subst, ◌≢◌, inl, inr, true, false, Option, none, some, List, [], ◌∷◌,
  ◌++◌, arith, if◌then◌else◌, Bool-cases, Option-cases, length, All, length-append,
}

-- Root owns the path, and neither its group nor others may write it.
abbrev pub IsSecure : (FilePath → Option Stat) → FilePath → Type 0
IsSecure stat path =
    (info : Stat) × (stat path ≡ some info)
    × (info.uid ≡ 0)
    × (is_group_or_other_writable info.mode ≡ false)

abbrev pub IsBelow : FilePath → FilePath → Type 0
IsBelow root path = (rel : FilePath) × (path ≡ rel ++ root)

path_eq→≡ : (a b : FilePath) → path_eq a b ≡ true → a ≡ b
unfolding path_eq
path_eq→≡ [] [] h = refl
path_eq→≡ [] (y ∷ ys) h = ground arith
path_eq→≡ (x ∷ xs) [] h = ground arith
path_eq→≡ (x ∷ xs) (y ∷ ys) h = ground (arith, text_eq_iff x y, path_eq→≡ xs ys)

is_relative_to-IsBelow :
    (root path : FilePath) → is_relative_to root path ≡ true → IsBelow root path
unfolding is_relative_to
is_relative_to-IsBelow root [] h = ([], path_eq→≡ [] root h)
is_relative_to-IsBelow root (c ∷ cs) h = elim (Bool-cases (path_eq (c ∷ cs) root)) [
  | inl e ↦ ([], path_eq→≡ (c ∷ cs) root e)
  | inr e ↦
      let below = is_relative_to-IsBelow root cs (ground (arith, e)) in
      (c ∷ below.0, ap (λ p. c ∷ p) below.1)
]

and_then-none : (a b : Option ScriptError) → and_then a b ≡ none → (a ≡ none) × (b ≡ none)
and_then-none a b h = ground arith

stat_error-IsSecure :
    (stat : FilePath → Option Stat) (path : FilePath) (o : Option Stat)
    → stat path ≡ o
    → stat_error path o ≡ none
    → IsSecure stat path
unfolding stat_error
stat_error-IsSecure stat path none e h = ground arith
stat_error-IsSecure stat path (some info) e h = (info, e, ground arith, ground arith)

secure_path_error-IsSecure :
    (stat : FilePath → Option Stat) (path : FilePath)
    → secure_path_error stat path ≡ none
    → IsSecure stat path
unfolding secure_path_error
secure_path_error-IsSecure stat path h = stat_error-IsSecure stat path (stat path) refl h

longer-not : (x : Text) (above rel stop : FilePath) → stop ≢ (x ∷ above) ++ (rel ++ stop)
longer-not x above rel stop e =
    omega (arith, ap length e, length-append (x ∷ above) (rel ++ stop), length-append rel stop)

-- Every directory from `path` up to `stop` is secure.
parent_dirs_error-IsSecure :
    (stat : FilePath → Option Stat) (stop path : FilePath)
    → parent_dirs_error stat stop path ≡ none
    → (above rel : FilePath) → path ≡ above ++ (rel ++ stop)
    → IsSecure stat (rel ++ stop)
unfolding parent_dirs_error
parent_dirs_error-IsSecure stat stop [] h [] rel e =
    subst (IsSecure stat) e (secure_path_error-IsSecure stat [] h)
parent_dirs_error-IsSecure stat stop (c ∷ cs) h [] rel e =
    subst (IsSecure stat) e (secure_path_error-IsSecure stat (c ∷ cs) (and_then-none _ _ h).0)
parent_dirs_error-IsSecure stat stop [] h (x ∷ above) rel e = ground arith
parent_dirs_error-IsSecure stat stop (c ∷ cs) h (x ∷ above) rel e =
    elim (Bool-cases (path_eq (c ∷ cs) stop)) [
      | inl stops ↦ elim (longer-not x above rel stop (sym (path_eq→≡ (c ∷ cs) stop stops) ∙ e)) [ ]
      | inr goes ↦
          parent_dirs_error-IsSecure stat stop cs
            (ground (
              arith,
              and_then-none (secure_path_error stat (c ∷ cs))
                  (if path_eq (c ∷ cs) stop then none else parent_dirs_error stat stop cs) h,
            ))
            above rel (ground (arith, e))
    ]

-- The file itself, and the directories above it.
script_file_error-IsSecure :
    (stat : FilePath → Option Stat) (root path : FilePath)
    → script_file_error stat root path ≡ none
    → (above rel : FilePath) → path ≡ above ++ (rel ++ root)
    → IsSecure stat (rel ++ root)
unfolding script_file_error parent
script_file_error-IsSecure stat root path h [] rel e =
    subst (IsSecure stat) e (secure_path_error-IsSecure stat path (and_then-none _ _ h).0)
script_file_error-IsSecure stat root [] h (x ∷ above) rel e = ground arith
script_file_error-IsSecure stat root (c ∷ cs) h (x ∷ above) rel e =
    parent_dirs_error-IsSecure stat root cs (and_then-none _ _ h).1 above rel (ground (arith, e))

allowed_script_root_for-IsBelow :
    (roots : List FilePath) (path root : FilePath)
    → allowed_script_root_for roots path ≡ accepted root
    → Mem root roots × IsBelow root path
unfolding allowed_script_root_for
allowed_script_root_for-IsBelow [] path root h = ground arith
allowed_script_root_for-IsBelow (r ∷ roots) path root h =
    elim (Bool-cases (is_relative_to r path)) [
      | inl below ↦
          let same : r ≡ root = ground arith in
          subst (λ x. Mem x (r ∷ roots) × IsBelow x path) same
            (mem-cons_self, is_relative_to-IsBelow r path below)
      | inr outside ↦
          let later = allowed_script_root_for-IsBelow roots path root (ground arith) in
          (mem-cons_of_mem r later.0, later.1)
    ]

-- The paths from `rel` below `root` up to `root` itself.
abbrev pub chain : FilePath → FilePath → List FilePath
chain root [] = root ∷ []
chain root (c ∷ rel) = ((c ∷ rel) ++ root) ∷ chain root rel

chain-All {ℓ} :
    (P : FilePath → Type ℓ) (root path : FilePath)
    → ((above rel : FilePath) → path ≡ above ++ (rel ++ root) → P (rel ++ root))
    → (above rel : FilePath) → path ≡ above ++ (rel ++ root)
    → All P (chain root rel)
chain-All P root path f above [] e = (f above [] e, tt)
chain-All P root path f above (c ∷ rel) e = (
  f above (c ∷ rel) e,
  chain-All P root path f (above ++ c ∷ []) rel
      (e ∙ sym (append_assoc above (c ∷ []) (rel ++ root))),
)

-- The path lies under an allowed root, and it and all directories above it, up to that root, are secure.
abbrev pub IsConfined : FileSystem → FilePath → Type 0
IsConfined fs path =
    (root : FilePath) × (rel : FilePath) × Mem root allowed_script_roots
    × (path ≡ rel ++ root)
    × All (IsSecure fs.stat) (chain root rel)

validate_below-IsConfined :
    (fs : FileSystem) (found path : FilePath) (c : Checked FilePath)
    → allowed_script_root_for allowed_script_roots found ≡ c
    → validate_below fs.stat found c ≡ accepted path
    → (found ≡ path) × IsConfined fs path
unfolding validate_below
validate_below-IsConfined fs found path (rejected e) q h = ground arith
validate_below-IsConfined fs found path (accepted root) q h =
    elim (Option-cases (script_file_error fs.stat root found)) [
      | inl none_raised ↦
          let same : found ≡ path = ground arith in
          let at_root = allowed_script_root_for-IsBelow allowed_script_roots found root q in
          (
            same,
            subst (IsConfined fs) same (
              root,
              at_root.1.0,
              at_root.0,
              at_root.1.1,
              chain-All (IsSecure fs.stat) root found
                  (script_file_error-IsSecure fs.stat root found none_raised) [] at_root.1.0
                  at_root.1.1,
            ),
          )
      | inr (e, raised) ↦ ground arith
    ]

validate_resolved-IsConfined :
    (fs : FileSystem) (path : FilePath) (o : Option FilePath)
    → validate_resolved fs.stat o ≡ accepted path
    → (o ≡ some path) × IsConfined fs path
unfolding validate_resolved
validate_resolved-IsConfined fs path none h = ground arith
validate_resolved-IsConfined fs path (some found) h =
    let r =
      validate_below-IsConfined fs found path (allowed_script_root_for allowed_script_roots found)
        refl h in
    (ap some r.0, r.1)

-- If `validate_script_path` accepts a script, the answer is the resolved path, it lies under an allowed
-- root, and root owns, with no write permission for group or others, the file itself and every
-- directory above it up to that allowed root.
pub validate_script_path-IsSecure :
    (fs : FileSystem) (script_path : Text) (path : FilePath)
    → validate_script_path fs script_path ≡ accepted path
    → (fs.resolve script_path ≡ some path) × IsConfined fs path
unfolding validate_script_path
validate_script_path-IsSecure fs script_path path h =
    validate_resolved-IsConfined fs path (fs.resolve script_path) (ground arith)
