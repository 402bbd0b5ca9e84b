-- ===== src/Base/Js.antt =====
-- Functions of JavaScript's library that the models use and do not define: an argument of the
-- definitions that need them.
use Prim.Native.Nat.{ℕ}
use mathlib.Core.Bool.{Bool}
use mathlib.Core.Option.{Option, some}
use grandpa_bob.Base.Text.{Text}
use grandpa_bob.Base.Json.{Json, num, str}

-- `s.toLowerCase()` and `s.toUpperCase()`; `Date.parse(s)` where it is a number, in milliseconds; and whether
-- `a.localeCompare(b)` is above 0. `String(v)` of a value that is no string; and `Math.max(0, Number(v))`
-- of a value that is no natural number, where it is finite;
-- and the same where `Number(v)` is neither 0 nor NaN, for a value that is no natural number.
pub record Js : Type 0 where
  pub to_lower : Text → Text
  pub to_upper : Text → Text
  pub parse_date : Text → Option ℕ
  pub locale_after : Text → Text → Bool
  pub other_text : Json → Text
  pub other_count : Json → Option ℕ
  pub other_stamp : Json → Option ℕ

-- `String(v)`, and a count that a frame carries.
unfoldable pub to_text : Js → Json → Text
to_text js (str s) = s
to_text js v = js.other_text v

unfoldable pub to_count : Js → Json → Option ℕ
to_count js (num n) = some n
to_count js v = js.other_count v
