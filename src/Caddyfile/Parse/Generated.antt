-- ===== src/Caddyfile/Parse/Generated.antt =====
-- The file of site blocks that are generated for single domains is read as these sites.
use caddybuddy.Caddyfile.Parse.Named.{
  matches_domain-IsPlain, domain-is_site_label, domain-no_snippet, domain-IsHeader,
  extract_domain_from_label-domain,
}
use caddybuddy.Caddyfile.Parse.Plain.{line_end-plain}
use caddybuddy.Caddyfile.Parse.RoundTrip.{
  parse_caddyfile-file_text, IsSite, Site, gaps, read_site, written,
}
use caddybuddy.Caddyfile.Lexical.{newline, has_roughly_balanced_braces}
use caddybuddy.Caddyfile.Parse.{strip, parse_caddyfile}
use caddybuddy.Caddyfile.Sites.{site_block}
use caddybuddy.Text.Written.{is_other_end}
use caddybuddy.Domains.Shape.{are_labels, Runtime, matches_domain}
use caddybuddy.Text.Lines.{join}
use caddybuddy.Text.{Text}
use caddybuddy.Text.Split.{split_at}
use caddybuddy.Prelude.{
  ◌≡◌, refl, sym, ap, ◌∙◌, true, false, false≢true, List, [], ◌∷◌, ◌++◌, map, All, any,
}

-- The domain and the text in the block. A body has balanced braces and ends its lines by line feeds;
-- the domain is one that `normalize_domain_name` accepts, and `str.lower` leaves it alone.
pub record IsHosted (rt : Runtime) (site : Text × Text) : Type 0 where
  pub domain : matches_domain site.0 ≡ true
  pub lowered : rt.lower site.0 ≡ site.0
  pub balanced : has_roughly_balanced_braces site.1 ≡ true
  pub lines : any is_other_end site.1 ≡ false

-- The blocks, joined as `build_full_caddyfile` joins its parts.
abbrev pub generated : List (Text × Text) → Text
generated sites = join (newline ++ newline) (map (λ site. site_block site.0 site.1) sites)

-- The blank lines between as many sites.
abbrev pub gap_lines : List (Text × Text) → List Text
gap_lines [] = []
gap_lines (s ∷ []) = []
gap_lines (s ∷ t ∷ sites) = [] ∷ gap_lines (t ∷ sites)

abbrev site_of : Text × Text → Site
site_of ([], body) = record { first = 0; others = []; body = body }
site_of (c ∷ s, body) = record { first = c; others = s; body = body }

hosted-IsSite : (rt : Runtime) (site : Text × Text) → IsHosted rt site → IsSite rt (site_of site)
unfolding matches_domain are_labels split_at
hosted-IsSite rt ([], body) h = absurd (false≢true h.domain)
hosted-IsSite rt (c ∷ s, body) h = record {
  header = domain-IsHeader c s h.domain;
  no_snippet = domain-no_snippet c s h.domain;
  site_label = domain-is_site_label rt c s h.domain h.lowered;
  balanced = h.balanced;
  one_line = line_end-plain (c ∷ s) (matches_domain-IsPlain (c ∷ s) h.domain);
  lines = h.lines;
}

hosted-written :
    (rt : Runtime) (site : Text × Text)
    → IsHosted rt site
    → written (site_of site) ≡ site_block site.0 site.1
unfolding matches_domain are_labels split_at
hosted-written rt ([], body) h = absurd (false≢true h.domain)
hosted-written rt (c ∷ s, body) h = refl

hosted-read :
    (rt : Runtime) (site : Text × Text)
    → IsHosted rt site
    → read_site rt (site_of site) ≡ (site.0, strip site.1)
unfolding matches_domain are_labels split_at
hosted-read rt ([], body) h = absurd (false≢true h.domain)
hosted-read rt (c ∷ s, body) h =
    ap (λ d. (d, strip body)) (extract_domain_from_label-domain rt c s h.domain h.lowered)

All-IsSite :
    (rt : Runtime) (sites : List (Text × Text))
    → All (IsHosted rt) sites
    → All (IsSite rt) (map site_of sites)
All-IsSite rt [] h = tt
All-IsSite rt (s ∷ sites) h = (hosted-IsSite rt s h.0, All-IsSite rt sites h.1)

map-written :
    (rt : Runtime) (sites : List (Text × Text))
    → All (IsHosted rt) sites
    → map written (map site_of sites) ≡ map (λ site. site_block site.0 site.1) sites
map-written rt [] h = refl
map-written rt (s ∷ sites) h =
    ap (λ t. t ∷ map written (map site_of sites)) (hosted-written rt s h.0)
    ∙ ap (λ ts. site_block s.0 s.1 ∷ ts) (map-written rt sites h.1)

map-read :
    (rt : Runtime) (sites : List (Text × Text))
    → All (IsHosted rt) sites
    → map (read_site rt) (map site_of sites) ≡ map (λ site. (site.0, strip site.1)) sites
map-read rt [] h = refl
map-read rt (s ∷ sites) h =
    ap (λ t. t ∷ map (read_site rt) (map site_of sites)) (hosted-read rt s h.0)
    ∙ ap (λ ts. (s.0, strip s.1) ∷ ts) (map-read rt sites h.1)

gaps-eq : (sites : List (Text × Text)) → gaps (map site_of sites) ≡ gap_lines sites
gaps-eq [] = refl
gaps-eq (s ∷ []) = refl
gaps-eq (s ∷ t ∷ sites) = ap (λ ls. [] ∷ ls) (gaps-eq (t ∷ sites))

-- A file of site blocks for single domains, joined by blank lines as they are generated, is read as
-- one site for each block, in order, with the domain itself for its name and the body without
-- white space at its ends, as no snippet, and as the blank lines between the blocks for its global
-- part. The domains are accepted by `normalize_domain_name` and left alone by `str.lower`; the
-- bodies have balanced braces and end their lines by line feeds.
pub parse_caddyfile-generated :
    (rt : Runtime) (sites : List (Text × Text))
    → All (IsHosted rt) sites
    → parse_caddyfile rt (generated sites) ≡ record {
      global_parts = gap_lines sites;
      snippets = [];
      sites = map (λ site. (site.0, strip site.1)) sites;
    }
parse_caddyfile-generated rt sites h =
    ap (λ blocks. parse_caddyfile rt (join (newline ++ newline) blocks))
      (sym (map-written rt sites h))
    ∙ parse_caddyfile-file_text rt (map site_of sites) (All-IsSite rt sites h)
    ∙ ap
        (λ g. record {
          global_parts = g;
          snippets = [];
          sites = map (read_site rt) (map site_of sites);
        })
        (gaps-eq sites)
    ∙ ap (λ ss. record { global_parts = gap_lines sites; snippets = []; sites = ss })
        (map-read rt sites h)
