-- ===== src/Caddyfile/Sites.antt =====
-- The site blocks that are generated for domains.
use caddybuddy.Text.{Text, text}
use caddybuddy.Text.Search.{strip, before_char, after_char}
use caddybuddy.Text.Strip.{rstrip_by}
use caddybuddy.Text.Split.{split_at}
use caddybuddy.Text.Lines.{join}
use caddybuddy.Domains.Shape.{Runtime, Result}
use caddybuddy.Domains.Split.{split_domain_names}
use caddybuddy.Caddyfile.Lexical.{newline, or_empty, normalize_caddy_token, normalize_site_label}
use caddybuddy.Caddyfile.Split.{normalize_caddy_directives}
use caddybuddy.Caddyfile.Build.{proxy_line}
use caddybuddy.Prelude.{
  ℕ, Bool, true, false, ◌||◌, Option, none, some, List, [], ◌∷◌, ◌++◌, map, ◌==◌, if◌then◌else◌,
  is_nil,
}

-- The lines that reading a `StringIO` yields, which ends them at `\n` only.
unfoldable pub drop_last_empty : List Text → List Text
drop_last_empty [] = []
drop_last_empty ([] ∷ []) = []
drop_last_empty (l ∷ ls) = l ∷ drop_last_empty ls

abbrev pub is_line_break : ℕ → Bool
is_line_break c = c == 13 || c == 10

-- `_iter_text_lines`
unfoldable pub text_lines : Text → List Text
unfolding split_at drop_last_empty rstrip_by
text_lines s = map (rstrip_by is_line_break) (drop_last_empty (split_at 10 s))

unfoldable pub indent : Text → Text
unfolding strip
indent line = if is_nil (strip line) then [] else text "    " ++ line

-- The label of a site, whose name is normalized.
unfoldable pub http_label : Runtime → Text → Option Text
unfolding split_domain_names join
http_label rt name = elim (split_domain_names rt false name) [
  | Result.ok domains ↦ some (join (text ", ") (map (λ d. text "http://" ++ d) domains))
  | Result.err e ↦ none
]

abbrev pub upstream_line : Option Text → Text
upstream_line none = text "# Add Caddy directives here"
upstream_line (some []) = text "# Add Caddy directives here"
upstream_line (some (c ∷ u)) = proxy_line (c ∷ u)

unfoldable pub shown_directives : Option Text → Option Text → Text
unfolding normalize_caddy_directives normalize_caddy_token
shown_directives upstream caddy_directives =
    elim (normalize_caddy_directives (or_empty caddy_directives)) [
      | some directives ↦ directives
      | none ↦ upstream_line (normalize_caddy_token upstream)
    ]

unfoldable pub indented : Text → Text
unfolding indent text_lines join
indented directives = join newline (map indent (text_lines directives))

abbrev pub site_block : Text → Text → Text
site_block label body = label ++ (text " {" ++ newline ++ (body ++ (newline ++ text "}")))

-- The label by `ssl_enabled`; each `none` is a `ValueError`.
unfoldable pub site_label : Runtime → Text → Bool → Option Text
unfolding http_label
site_label rt name true = some name
site_label rt name false = http_label rt name

unfoldable pub build_domain_site_preview :
    Runtime → Text → Option Text → Option Text → Bool → Option Text
unfolding normalize_site_label site_label shown_directives indented
build_domain_site_preview rt name upstream caddy_directives ssl_enabled =
    elim (normalize_site_label rt name) [
      | none ↦ none
      | some normalized ↦ elim (site_label rt normalized ssl_enabled) [
        | none ↦ none
        | some label ↦
            some (site_block label (indented (shown_directives upstream caddy_directives)))
      ]
    ]

abbrev pub import_line : Bool → Text → List Text
import_line true line = line ∷ []
import_line false line = []

-- The imports go behind the first line; `body` starts with its line feed.
unfoldable pub with_imports : Bool → Bool → Text → Text
unfolding before_char after_char join
with_imports false false preview = preview
with_imports headers log preview =
    let imports =
      import_line headers (text "    import security_headers")
      ++ import_line log (text "    import default_log") in
    before_char 10 preview
    ++ (newline ++ (join newline imports ++ (newline ++ (newline ++ after_char 10 preview))))

unfoldable pub build_generated_site_block :
    Runtime → Text → Option Text → Option Text → Bool → Bool → Bool → Option Text
unfolding build_domain_site_preview with_imports
build_generated_site_block rt name upstream caddy_directives ssl_enabled headers log =
    elim (build_domain_site_preview rt name upstream caddy_directives ssl_enabled) [
      | none ↦ none
      | some preview ↦ some (with_imports headers log preview)
    ]
