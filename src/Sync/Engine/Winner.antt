-- ===== src/Sync/Engine/Winner.antt =====
-- Both replicas decide a conflict the same way.
use grandpa_bob.Base.{ℕ, ◌≡◌, false, not, arith}
use grandpa_bob.Base.Text.{Text, text_eq, text_lt_swap}
use grandpa_bob.Sync.Hashmap.{HashEntry}
use grandpa_bob.Sync.Engine.{is_theirs, tie_break, conflict_winner}

-- For two replicas with different ids, whatever their stamps and file times, each side's
-- decision is the opposite of the other's: exactly one of them pulls.
pub conflict_winner_swap :
    (la lb : ℕ) (ida idb : Text) (a b : HashEntry)
    → text_eq ida idb ≡ false
    → is_theirs (conflict_winner lb idb b a la ida)
      ≡ not (is_theirs (conflict_winner la ida a b lb idb))
unfolding conflict_winner tie_break
conflict_winner_swap la lb ida idb a b h = ground (arith, text_lt_swap ida idb)
