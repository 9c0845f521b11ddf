-- ===== src/Web/Redirect.antt =====
-- `safe_redirect_path`: where a redirect may lead.
pub mod Laws
use caddybuddy.Text.{text, Text}
use caddybuddy.Text.Search.{starts_with}
use caddybuddy.Prelude.{
  ℕ, Bool, not, ◌&&◌, ◌||◌, Option, none, some, [], ◌∷◌, ltb, ◌==◌, if◌then◌else◌, is_nil, any,
}

-- `[\x00-\x1f\x7f\\]`
unfoldable pub is_unsafe : ℕ → Bool
is_unsafe c = ltb c 32 || c == 127 || c == 92

-- A path from the root that no browser reads as the name of a host.
unfoldable pub is_rooted : Text → Bool
unfolding starts_with
is_rooted path =
    starts_with (text "/") path
    && not (starts_with (text "//") path || starts_with (b'/' ∷ 92 ∷ []) path)

-- `unquote` is a parameter.
unfoldable pub safe_redirect_path : (Text → Text) → Option Text → Text → Text
unfolding is_rooted is_unsafe any
safe_redirect_path unquote none fallback = fallback
safe_redirect_path unquote (some path) fallback =
    if is_nil path || not (is_rooted path)
    then fallback
    else if not (is_rooted (unquote path)) || any is_unsafe path || any is_unsafe (unquote path)
    then fallback
    else path
