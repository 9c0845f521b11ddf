-- ===== src/Domains/Split.antt =====
-- `split_domain_names` and `normalize_domain_list`.
use caddybuddy.Prelude.{ℕ, Bool, ◌||◌, List, [], ◌∷◌, ◌++◌, ◌==◌, if◌then◌else◌, is_nil}
use caddybuddy.Text.{Text, text, is_space, is_ascii_space, member}
use caddybuddy.Text.Strip.{strip_by}
use caddybuddy.Text.Split.{words}
use caddybuddy.Text.Lines.{join}
use caddybuddy.Domains.Shape.{
  Result, ok, err, ◌>>=◌, required_message, Runtime, normalize_domain_name,
}

-- `[\s,]`
unfoldable pub is_separator : ℕ → Bool
is_separator c = is_ascii_space c || c == b','

module _ (rt : Runtime) (reject_ip : Bool) where
  -- The loop over the tokens; `done` is `normalized_domains`, which holds the members of `seen`.
  unfoldable pub normalize_tokens : List Text → List Text → Result (List Text)
  normalize_tokens done [] = ok done
  normalize_tokens done (token ∷ rest) = normalize_domain_name rt reject_ip token >>= λ normalized.
      normalize_tokens (if member normalized done then done else done ++ normalized ∷ []) rest

  unfoldable pub split_domain_names : Text → Result (List Text)
  unfolding normalize_tokens
  split_domain_names value =
      let tokens = words is_separator (strip_by is_space value) in
      if is_nil tokens then err required_message else normalize_tokens [] tokens

  unfoldable pub normalize_domain_list : Text → Result Text
  normalize_domain_list value =
      split_domain_names value >>= λ domains. ok (join (text ", ") domains)
