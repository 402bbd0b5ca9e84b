-- ===== src/Base/Decimal/Value.antt =====
-- The value of the digits: two numbers with the same digits are equal.
use Prim.Native.Nat.{ℕ, zero, suc, ◌+◌, ◌-◌, ◌*◌, ◌/◌, ◌%◌, ◌<◌, ◌≤◌}
use mathlib.Core.Path.{◌≡◌, refl, sym, ◌∙◌, ap}
use mathlib.Core.Bool.{false}
use mathlib.Core.List.{[], ◌∷◌, ◌++◌}
use native.Mathlib.Omega.{arith}
use grandpa_bob.Base.Tests.{ltb, if_elim}
use grandpa_bob.Base.Text.{Text}
use grandpa_bob.Base.Decimal.{decimal_from, decimal}

-- What `acc` and the digits after it say.
value_from : ℕ → Text → ℕ
value_from acc [] = acc
value_from acc (c ∷ s) = value_from (acc * 10 + (c - 48)) s

value_from-append_one :
    (acc : ℕ) (s : Text) (d : ℕ) → value_from acc (s ++ d ∷ []) ≡ value_from acc s * 10 + (d - 48)
unfolding value_from
value_from-append_one acc [] d = refl
value_from-append_one acc (c ∷ s) d = value_from-append_one (acc * 10 + (c - 48)) s d

value-decimal_from : (fuel n : ℕ) → n < fuel → value_from 0 (decimal_from fuel n) ≡ n
unfolding decimal_from value_from
value-decimal_from zero n h = omega (arith, h)
value-decimal_from (suc fuel) n h =
    if_elim (λ s. value_from 0 s ≡ n) (ltb n 10) {x = (48 + n) ∷ []}
      {y = decimal_from fuel (n / 10) ++ (48 + n % 10) ∷ []} (λ _. omega arith)
      (λ k.
        value_from-append_one 0 (decimal_from fuel (n / 10)) (48 + n % 10)
        ∙ digits (value-decimal_from fuel (n / 10) (smaller k)))
  where
    at_least : ltb n 10 ≡ false → 10 ≤ n
    at_least k = ground arith

    smaller : ltb n 10 ≡ false → n / 10 < fuel
    smaller k = omega (arith, at_least k, h)

    digits : {v : ℕ} → v ≡ n / 10 → v * 10 + (48 + n % 10 - 48) ≡ n
    digits e = omega (arith, e)

pub decimal_inj : (m n : ℕ) → decimal m ≡ decimal n → m ≡ n
unfolding decimal
decimal_inj m n e =
    sym (value-decimal_from (m + 1) m (omega arith))
    ∙ ap (value_from 0) e
    ∙ value-decimal_from (n + 1) n (omega arith)
