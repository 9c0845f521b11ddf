-- ===== src/Caddyfile/Parse/RoundTrip.antt =====
-- A file of generated site blocks is read as these sites.
use caddybuddy.Caddyfile.Parse.Fuel.{parse_lines-plain, parse_lines-enough}
use caddybuddy.Caddyfile.Parse.{
  add_global, empty_file, is_plain, parse_caddyfile, text, is_site_label, extract_domain_from_label,
  is_snippet_header, newline, parse_lines, Runtime, Text, ParsedCaddyfile,
}
use caddybuddy.Text.Written.{
  join-split_at, split_at-IsCons, splitlines-written, split_at-ink, is_other_end, IsCons,
}
use caddybuddy.Caddyfile.Parse.Site.{add_block-site, parse_lines-written, opening_line, IsHeader}
use caddybuddy.Caddyfile.Parse.Read.{closing_line}
use caddybuddy.Caddyfile.Lexical.{has_roughly_balanced_braces}
use caddybuddy.Caddyfile.Sites.{site_block}
use caddybuddy.Text.Lines.{join, splitlines, lines_from, close_line, is_line_end}
use caddybuddy.Text.Split.{split_at, push_first}
use caddybuddy.Text.Search.{strip}
use mathlib.Core.List.{append_assoc, append-nil}
use caddybuddy.Text.Strip.{strip_by, lstrip_by, rstrip_by}
use caddybuddy.Prelude.{
  ℕ, ◌≤◌, ◌≡◌, refl, sym, ap, ◌∙◌, true, false, List, [], ◌∷◌, ◌++◌, map, arith, ◌==◌, length, All,
  any,
}

-- The label of a site by its first character and the others, and the text in its block.
pub record Site : Type 0 where
  pub first : ℕ
  pub others : Text
  pub body : Text

abbrev pub label_of : Site → Text
label_of site = site.first ∷ site.others

-- A site that can be written on lines of its own: a label that is one, and a body with balanced
-- braces; lines end at line feeds only.
pub record IsSite (rt : Runtime) (site : Site) : Type 0 where
  pub header : IsHeader site.first site.others
  pub no_snippet : is_snippet_header (label_of site) ≡ false
  pub site_label : is_site_label rt (label_of site) ≡ true
  pub balanced : has_roughly_balanced_braces site.body ≡ true
  pub one_line : any is_line_end (label_of site) ≡ false
  pub lines : any is_other_end site.body ≡ false

abbrev pub written : Site → Text
written site = site_block (label_of site) site.body

-- As `build_full_caddyfile` joins its parts.
abbrev pub file_text : List Site → Text
file_text sites = join (newline ++ newline) (map written sites)

abbrev pub read_site : Runtime → Site → Text × Text
read_site rt site = (extract_domain_from_label rt (label_of site), strip site.body)

opening_line-ends :
    (s : Text) → any is_line_end s ≡ false → any is_other_end (opening_line s) ≡ false
unfolding any is_line_end
opening_line-ends [] h = refl
opening_line-ends (c ∷ s) h = ground (arith, h, opening_line-ends s)

not_feed : (c : ℕ) (s : Text) → any is_line_end (c ∷ s) ≡ false → (c == 10) ≡ false
unfolding any is_line_end
not_feed c s h = ground (arith, h)

split_at-opening_line :
    (s : Text) → any is_line_end s ≡ false → split_at 10 (opening_line s) ≡ opening_line s ∷ []
unfolding split_at push_first any
split_at-opening_line [] h = refl
split_at-opening_line (c ∷ s) h =
    split_at-ink 10 c (opening_line s) (not_feed c s h)
    ∙ ap (push_first c) (split_at-opening_line s (ground (arith, h)))

-- The block as three lines that line feeds end.
written-lines :
    (site : Site) (t : Text)
    → written site ++ t
      ≡ opening_line (label_of site) ++ 10 ∷ (site.body ++ 10 ∷ (closing_line ++ t))
written-lines site t =
    let label = label_of site in
    append_assoc label (text " {" ++ newline ++ (site.body ++ (newline ++ text "}"))) t
    ∙ ap (λ x. label ++ (text " {" ++ newline ++ x))
        (append_assoc site.body (newline ++ text "}") t)
    ∙ sym (append_assoc label (text " {") (10 ∷ (site.body ++ 10 ∷ (closing_line ++ t))))

splitlines-site :
    (rt : Runtime) (site : Site) (t : Text)
    → IsSite rt site
    → splitlines (written site ++ 10 ∷ t)
      ≡ opening_line (label_of site) ∷ (split_at 10 site.body ++ closing_line ∷ splitlines t)
unfolding any is_line_end split_at
splitlines-site rt site t h =
    let label = opening_line (label_of site) in
    let shape : written site ++ 10 ∷ t
        ≡ label ++ 10 ∷ (site.body ++ 10 ∷ (closing_line ++ 10 ∷ t)) =
      written-lines site (10 ∷ t) in
    ap splitlines shape
    ∙ splitlines-written label (site.body ++ 10 ∷ (closing_line ++ 10 ∷ t))
        (opening_line-ends (label_of site) h.one_line)
    ∙ ap (λ x. x ++ splitlines (site.body ++ 10 ∷ (closing_line ++ 10 ∷ t)))
        (split_at-opening_line (label_of site) h.one_line)
    ∙ ap (λ x. label ∷ x)
        (splitlines-written site.body (closing_line ++ 10 ∷ t) h.lines
          ∙ ap (λ x. split_at 10 site.body ++ x) (splitlines-written closing_line t refl))

splitlines-last :
    (rt : Runtime) (site : Site)
    → IsSite rt site
    → splitlines (written site)
      ≡ opening_line (label_of site) ∷ (split_at 10 site.body ++ closing_line ∷ [])
unfolding splitlines
splitlines-last rt site h =
    let label = opening_line (label_of site) in
    let shape : written site ≡ label ++ 10 ∷ (site.body ++ 10 ∷ closing_line) =
      sym (append-nil (written site)) ∙ written-lines site [] in
    ap splitlines shape
    ∙ splitlines-written label (site.body ++ 10 ∷ closing_line)
        (opening_line-ends (label_of site) h.one_line)
    ∙ ap (λ x. x ++ splitlines (site.body ++ 10 ∷ closing_line))
        (split_at-opening_line (label_of site) h.one_line)
    ∙ ap (λ x. label ∷ x) (splitlines-written site.body closing_line h.lines)

abbrev run : Runtime → List Text → ParsedCaddyfile
run rt lines = parse_lines rt (length lines) lines

abbrev add_site : Text × Text → ParsedCaddyfile → ParsedCaddyfile
add_site site f = record f { sites = site ∷ f.sites }

length-block : (ls rest : List Text) → length rest ≤ length (ls ++ closing_line ∷ rest)
length-block [] rest = omega arith
length-block (l ∷ ls) rest = ground (arith, length-block ls rest)

-- Of the lines that the text of a body has.
run-lines :
    (rt : Runtime) (site : Site) (rest : List Text)
    → IsSite rt site
    → (lines : List Text) → IsCons lines
    → join newline lines ≡ site.body
    → run rt (opening_line (label_of site) ∷ (lines ++ closing_line ∷ rest))
      ≡ add_site (read_site rt site) (run rt rest)
run-lines rt site rest h [] cons same = elim cons [ ]
run-lines rt site rest h (l ∷ ls) cons same =
    let tail = (l ∷ ls) ++ closing_line ∷ rest in
    let label = label_of site in
    let domain = extract_domain_from_label rt label in
    let body = strip (join newline (l ∷ ls)) in
    parse_lines-written rt (length tail) site.first site.others l ls rest h.header
      (ap has_roughly_balanced_braces same ∙ h.balanced)
    ∙ add_block-site rt site.first site.others (opening_line label ∷ (l ∷ ls) ++ closing_line ∷ [])
        body (parse_lines rt (length tail) rest) h.header h.no_snippet h.site_label
    ∙ ap (add_site (domain, body)) (
        parse_lines-enough rt (length tail) (length rest) rest (length-block (l ∷ ls) rest)
          (omega arith))
    ∙ ap (λ b. add_site (domain, strip b) (run rt rest)) same

run-block :
    (rt : Runtime) (site : Site) (rest : List Text)
    → IsSite rt site
    → run rt (opening_line (label_of site) ∷ (split_at 10 site.body ++ closing_line ∷ rest))
      ≡ add_site (read_site rt site) (run rt rest)
run-block rt site rest h =
    run-lines rt site rest h (split_at 10 site.body) (split_at-IsCons 10 site.body)
      (join-split_at site.body)

run-blank : (rt : Runtime) (rest : List Text) → run rt ([] ∷ rest) ≡ add_global [] (run rt rest)
unfolding is_plain strip strip_by lstrip_by rstrip_by
run-blank rt rest = parse_lines-plain rt (length rest) [] rest refl

parse-written :
    (rt : Runtime) (site : Site)
    → IsSite rt site
    → parse_caddyfile rt (written site) ≡ add_site (read_site rt site) empty_file
unfolding parse_caddyfile parse_lines
parse-written rt site h = ap (run rt) (splitlines-last rt site h) ∙ run-block rt site [] h

parse-written_next :
    (rt : Runtime) (site : Site) (t : Text)
    → IsSite rt site
    → parse_caddyfile rt (written site ++ (newline ++ newline ++ t))
      ≡ add_site (read_site rt site) (add_global [] (parse_caddyfile rt t))
unfolding parse_caddyfile splitlines lines_from is_line_end
parse-written_next rt site t h =
    ap (run rt) (splitlines-site rt site (10 ∷ t) h)
    ∙ run-block rt site ([] ∷ splitlines t) h
    ∙ ap (add_site (read_site rt site)) (run-blank rt (splitlines t))

parse-empty : (rt : Runtime) → parse_caddyfile rt [] ≡ empty_file
unfolding parse_caddyfile splitlines lines_from close_line parse_lines
parse-empty rt = refl

-- The blank lines between as many sites.
abbrev pub gaps : List Site → List Text
gaps [] = []
gaps (s ∷ []) = []
gaps (s ∷ t ∷ sites) = [] ∷ gaps (t ∷ sites)

-- A file of site blocks, joined by blank lines as they are generated, is read as one entry for
-- each site, in order, with its domains and its body without white space at its ends, as no
-- snippet, and as the blank lines between the blocks for its global part. The labels are site
-- labels on one line that can stand in front of a brace, and the bodies have balanced braces and
-- end their lines by line feeds.
pub parse_caddyfile-file_text :
    (rt : Runtime) (sites : List Site)
    → All (IsSite rt) sites
    → parse_caddyfile rt (file_text sites)
      ≡ record { global_parts = gaps sites; snippets = []; sites = map (read_site rt) sites }
unfolding join
parse_caddyfile-file_text rt [] h = parse-empty rt
parse_caddyfile-file_text rt (s ∷ []) h = parse-written rt s h.0
parse_caddyfile-file_text rt (s ∷ t ∷ sites) h =
    parse-written_next rt s (file_text (t ∷ sites)) h.0
    ∙ ap (λ f. add_site (read_site rt s) (add_global [] f))
        (parse_caddyfile-file_text rt (t ∷ sites) h.1)
