-- ===== src/Web/Flash.antt =====
-- `push_flash` and `pop_flashes`: messages that the next page shows.
use caddybuddy.Text.{Text}
use caddybuddy.Web.Session.{take}
use caddybuddy.Prelude.{List, [], ◌∷◌, ◌++◌, ltb, if◌then◌else◌, length}

-- The category and the text of a message.
abbrev pub Flash : Type 0
Flash = Text × Text

-- `flashes[-_MAX_FLASHES:]`
unfoldable pub last_five : List Flash → List Flash
last_five [] = []
last_five (f ∷ flashes) =
    let later = last_five flashes in if ltb 5 (length (f ∷ flashes)) then later else f ∷ flashes

unfoldable pub push_flash : Text → Text → List Flash → List Flash
unfolding last_five take
push_flash category message flashes =
    last_five (flashes ++ (take 32 category, take 500 message) ∷ [])

-- What is shown, and what the session keeps.
abbrev pub pop_flashes : List Flash → List Flash × List Flash
pop_flashes flashes = (flashes, [])
