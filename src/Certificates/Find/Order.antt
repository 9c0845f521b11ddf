-- ===== src/Certificates/Find/Order.antt =====
-- `<` on the ranks is a strict order in which "not smaller" is transitive.
use caddybuddy.Certificates.Find.{Rank, rank_lt}
use caddybuddy.Prelude.{◌≡◌, true, false, arith}

pub rank_lt_irrefl : (a : Rank) → rank_lt a a ≡ false
unfolding rank_lt
rank_lt_irrefl a = ground arith

pub rank_lt_asymm : (a b : Rank) → rank_lt a b ≡ true → rank_lt b a ≡ false
unfolding rank_lt
rank_lt_asymm a b h = ground arith

-- `b` not below `a`, and `c` not below `b`: `c` not below `a`.
pub rank_le_trans : (a b c : Rank) → rank_lt b a ≡ false → rank_lt c b ≡ false → rank_lt c a ≡ false
unfolding rank_lt
rank_le_trans a b c h k = ground arith
