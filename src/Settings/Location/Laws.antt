-- ===== src/Settings/Location/Laws.antt =====
-- Where an accepted Caddyfile path leads.
use caddybuddy.Settings.Location.{
  has_char, last_name, allowed_caddyfile_roots, text, strip, text_eq, Text, is_relative_to,
  normalize_caddyfile_path, same_path, FilePath, Paths, PathResult, PathError, path_ok, path_error,
}
use caddybuddy.Text.{text_eq_iff, member}
use caddybuddy.Prelude.{
  ◌≡◌, refl, ap, ◌∙◌, inl, inr, Bool, true, false, not, List, [], ◌∷◌, ◌++◌, arith, if◌then◌else◌,
  Bool-cases, and-eq-true, is_nil, any,
}

same_path-eq : (p q : FilePath) → same_path p q ≡ true → p ≡ q
unfolding same_path
same_path-eq [] [] h = refl
same_path-eq [] (q ∷ qs) h = ground (arith, h)
same_path-eq (p ∷ ps) [] h = ground (arith, h)
same_path-eq (p ∷ ps) (q ∷ qs) h =
    let both = and-eq-true (text_eq p q) (same_path ps qs) h in
    ap (λ x. x ∷ ps) ((text_eq_iff p q).0 both.0) ∙ ap (λ x. q ∷ x) (same_path-eq ps qs both.1)

-- A root, or below it.
abbrev pub IsBelow : FilePath → FilePath → Type 0
IsBelow root p = (names : FilePath) × (p ≡ names ++ root)

is_relative_to-IsBelow : (p root : FilePath) → is_relative_to p root ≡ true → IsBelow root p
unfolding is_relative_to
is_relative_to-IsBelow [] root h = ([], same_path-eq [] root h)
is_relative_to-IsBelow (p ∷ ps) root h = elim (Bool-cases (same_path (p ∷ ps) root)) [
  | inl same ↦ ([], same_path-eq (p ∷ ps) root same)
  | inr other ↦
      let (names, below) = is_relative_to-IsBelow ps root (ground (arith, other, h)) in
      (p ∷ names, ap (λ x. p ∷ x) below)
]

member_self : (s : Text) (r : List Text) → member s (s ∷ r) ≡ true
unfolding member
member_self s r = rw (member, (text_eq_iff s s).1 refl) refl

any-root :
    (paths : Paths) (resolved : FilePath) (roots : List Text)
    → any (λ root. is_relative_to resolved (paths.resolve root)) roots ≡ true
    → (root : Text) × (member root roots ≡ true) × IsBelow (paths.resolve root) resolved
unfolding any member
any-root paths resolved [] h = ground (arith, h)
any-root paths resolved (root ∷ roots) h =
    elim (Bool-cases (is_relative_to resolved (paths.resolve root))) [
      | inl below ↦
          (root, member_self root roots, is_relative_to-IsBelow resolved (paths.resolve root) below)
      | inr other ↦
          let (r, known, below) = any-root paths resolved roots (ground (arith, other, h)) in
          (r, ground (arith, known), below)
    ]

-- A file `Caddyfile` below one of the allowed directories, given by an absolute path.
pub record IsCaddyfile (paths : Paths) (raw_path result : Text) : Type 0 where
  pub absolute : paths.is_absolute (strip raw_path) ≡ true
  pub named : paths.name_of (strip raw_path) ≡ text "Caddyfile"
  pub leads_to : last_name (paths.resolve (strip raw_path)) ≡ text "Caddyfile"
  pub root : Text
  pub allowed : member root allowed_caddyfile_roots ≡ true
  pub below : IsBelow (paths.resolve root) (paths.resolve (strip raw_path))
  pub written : result ≡ paths.str (paths.resolve (strip raw_path))

refuses :
    (b : Bool) (e : PathError) (x : PathResult) (r : Text)
    → (if b then path_error e else x) ≡ path_ok r
    → (b ≡ false) × (x ≡ path_ok r)
refuses true e x r h = ground (arith, h)
refuses false e x r h = (refl, h)

not-false : (b : Bool) → not b ≡ false → b ≡ true
not-false true h = refl
not-false false h = ground (arith, h)

path_ok-eq : (a b : Text) → path_ok a ≡ path_ok b → b ≡ a
path_ok-eq a b h = ground (arith, h)

-- An accepted Caddyfile path is absolute, names a file `Caddyfile`, also after it is resolved, and
-- resolves to a place below one of the allowed directories; the result is the resolved path.
pub normalize_caddyfile_path-IsCaddyfile :
    (paths : Paths) (raw_path result : Text)
    → normalize_caddyfile_path paths raw_path ≡ path_ok result
    → IsCaddyfile paths raw_path result
unfolding normalize_caddyfile_path
normalize_caddyfile_path-IsCaddyfile paths raw_path result h =
    let s = strip raw_path in
    let resolved = paths.resolve s in
    let ok = path_ok (paths.str resolved) in
    let outside =
      not (any (λ root. is_relative_to resolved (paths.resolve root)) allowed_caddyfile_roots) in
    let inside = if outside then path_error PathError.outside_roots else ok in
    let elsewhere = not (text_eq (last_name resolved) (text "Caddyfile")) in
    let led = if elsewhere then path_error PathError.resolves_elsewhere else inside in
    let other = not (text_eq (paths.name_of s) (text "Caddyfile")) in
    let named = if other then path_error PathError.not_a_caddyfile else led in
    let relative = not (paths.is_absolute s) in
    let absolute = if relative then path_error PathError.not_absolute else named in
    let clean = if has_char 0 s then path_error PathError.nul_character else absolute in
    let (given, h1) = refuses (is_nil s) PathError.empty_path clean result h in
    let (no_nul, h2) = refuses (has_char 0 s) PathError.nul_character absolute result h1 in
    let (a, h3) = refuses relative PathError.not_absolute named result h2 in
    let (n, h4) = refuses other PathError.not_a_caddyfile led result h3 in
    let (l, h5) = refuses elsewhere PathError.resolves_elsewhere inside result h4 in
    let (o, h6) = refuses outside PathError.outside_roots ok result h5 in
    let (root, allowed, below) = any-root paths resolved allowed_caddyfile_roots (not-false _ o) in
    record {
      absolute = not-false (paths.is_absolute s) a;
      named =
          (text_eq_iff (paths.name_of s) (text "Caddyfile")).0
            (not-false (text_eq (paths.name_of s) (text "Caddyfile")) n);
      leads_to =
          (text_eq_iff (last_name resolved) (text "Caddyfile")).0
            (not-false (text_eq (last_name resolved) (text "Caddyfile")) l);
      root = root;
      allowed = allowed;
      below = below;
      written = path_ok-eq (paths.str resolved) result h6;
    }
