-- ===== src/Domains/Examples.antt =====
-- Runs of the definitions of app/utils/domains.py.
use caddybuddy.Prelude.{ℕ, false, ◌≡◌, refl, ◌+◌, map, if◌then◌else◌, all}
use caddybuddy.Text.{text, text_eq, member, is_space, is_ascii_space, is_upper}
use caddybuddy.Text.Strip.{lstrip_by, rstrip_by, strip_by}
use caddybuddy.Text.Split.{words, split_at, split_where, push_first, drop_empty}
use caddybuddy.Text.Lines.{join}
use caddybuddy.Domains.Shape.{ok, Runtime, normalize_domain_name, matches_domain}
use caddybuddy.Domains.Split.{
  normalize_domain_list, split_domain_names, normalize_tokens, is_separator,
}

-- `str.lower` on ASCII.
unfoldable pub ascii_lower : ℕ → ℕ
unfolding is_upper
ascii_lower c = if is_upper c then c + 32 else c

abbrev pub ascii : Runtime
ascii = record { lower = map ascii_lower; is_ip = λ _. false }

run_list :
    normalize_domain_list ascii false (text " B.example.com., a.de\tb.example.com ")
    ≡ ok (text "b.example.com, a.de")
unfolding normalize_domain_list split_domain_names normalize_tokens words split_where push_first
    drop_empty strip_by lstrip_by rstrip_by is_space is_ascii_space is_separator member text_eq join
    normalize_domain_name matches_domain split_at ascii_lower all
run_list = refl
