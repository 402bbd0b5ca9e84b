-- ===== src/Base/Decimal.antt =====
-- `String(n)` of a natural number.
pub mod Value
use Prim.Native.Nat.{ℕ, zero, suc, ◌+◌, ◌/◌, ◌%◌}
use mathlib.Core.List.{[], ◌∷◌, ◌++◌}
use grandpa_bob.Base.Tests.{ltb, if◌then◌else◌}
use grandpa_bob.Base.Text.{Text}

-- A number has at most as many digits as it says itself, and one more.
unfoldable pub decimal_from : ℕ → ℕ → Text
decimal_from zero n = []
decimal_from (suc fuel) n =
    let front = decimal_from fuel (n / 10) in
    if ltb n 10 then (48 + n) ∷ [] else front ++ (48 + n % 10) ∷ []

unfoldable pub decimal : ℕ → Text
unfolding decimal_from
decimal n = decimal_from (n + 1) n
