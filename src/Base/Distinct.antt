-- ===== src/Base/Distinct.antt =====
-- Lists of texts without repeats: one inside another is not longer.
use Prim.Native.Nat.{◌≤◌, ◌<◌}
use mathlib.Core.Path.{◌≡◌, refl}
use mathlib.Core.Bool.{true, false}
use mathlib.Core.List.{List, [], ◌∷◌}
use native.Mathlib.Omega.{arith}
use grandpa_bob.Base.Tests.{if◌then◌else◌, and_true}
use grandpa_bob.Base.Lists.{length, all}
use grandpa_bob.Base.Text.{Text, text_eq, text_eq_iff, includes}

unfoldable pub IsDistinct : List Text → Type 0
IsDistinct [] = Unit
IsDistinct (k ∷ ks) = (includes ks k ≡ false) × IsDistinct ks

-- Without the first `k`.
remove : Text → List Text → List Text
remove k [] = []
remove k (x ∷ xs) = let rest = remove k xs in if text_eq x k then xs else x ∷ rest

length-remove :
    (k : Text) (xs : List Text) → includes xs k ≡ true → length (remove k xs) < length xs
unfolding remove
length-remove k [] h = ground (arith, h)
length-remove k (x ∷ xs) h = ground (arith, length-remove k xs)

includes-remove :
    (k j : Text) (xs : List Text)
    → text_eq k j ≡ false
    → includes xs j ≡ true
    → includes (remove k xs) j ≡ true
unfolding remove
includes-remove k j [] d h = h
includes-remove k j (x ∷ xs) d h =
    ground (arith, text_eq_iff x k, text_eq_iff x j, text_eq_iff k j, includes-remove k j xs)

all-remove :
    (k : Text) (cs us : List Text)
    → includes cs k ≡ false
    → all (includes us) cs ≡ true
    → all (includes (remove k us)) cs ≡ true
all-remove k [] us d h = refl
all-remove k (c ∷ cs) us d h =
    ground (arith, text_eq_iff c k, text_eq_iff k c, includes-remove k c us, all-remove k cs us)

pub length-IsDistinct :
    (cs us : List Text) → IsDistinct cs → all (includes us) cs ≡ true → length cs ≤ length us
unfolding IsDistinct
length-IsDistinct [] us d h = omega arith
length-IsDistinct (c ∷ cs) us d h = omega (
  arith,
  length-remove c us (and_true _ _ h).0,
  length-IsDistinct cs (remove c us) d.1 (all-remove c cs us d.0 (and_true _ _ h).1),
)
