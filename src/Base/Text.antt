-- ===== src/Base/Text.antt =====
-- A JavaScript string is the list of its UTF-16 code units. `text` reads an ASCII literal.
use Prim.Native.Nat.{ℕ}
use Prim.Native.Char.{code}
use Prim.Native.String.{String}
use mathlib.Core.Path.{◌≡◌, refl, ap, ◌∙◌}
use mathlib.Core.Logic.{◌≢◌, ◌↔◌}
use mathlib.Core.Bool.{Bool, true, false, not, ◌&&◌, ◌||◌}
use mathlib.Core.List.{List, [], ◌∷◌, ◌++◌, append_assoc, reverse}
use native.Mathlib.Omega.{arith}
use grandpa_bob.Base.Tests.{ltb, leb, ◌==◌, if◌then◌else◌}
use grandpa_bob.Base.Lists.{all, All, filter}

abbrev pub Text : Type 0
Text = List ℕ

abbrev pub text : String → Text
text String.[] = []
text (String.◌∷◌ c s) = code c ∷ text s

-- `a === b`
unfoldable pub text_eq : Text → Text → Bool
text_eq [] [] = true
text_eq [] (b ∷ y) = false
text_eq (a ∷ x) [] = false
text_eq (a ∷ x) (b ∷ y) = (a == b) && text_eq x y

-- `a < b`, which compares code units from the left
unfoldable pub text_lt : Text → Text → Bool
text_lt [] [] = false
text_lt [] (b ∷ y) = true
text_lt (a ∷ x) [] = false
text_lt (a ∷ x) (b ∷ y) = ltb a b || ((a == b) && text_lt x y)

pub text_eq_refl : (x : Text) → text_eq x x ≡ true
unfolding text_eq
text_eq_refl [] = refl
text_eq_refl (a ∷ x) = ground (arith, text_eq_refl x)

eq_of_text_eq : (x y : Text) → text_eq x y ≡ true → x ≡ y
unfolding text_eq
eq_of_text_eq [] [] h = refl
eq_of_text_eq [] (b ∷ y) h = cc
eq_of_text_eq (a ∷ x) [] h = cc
eq_of_text_eq (a ∷ x) (b ∷ y) h = ground (arith, eq_of_text_eq x y)

pub text_eq_iff : (x y : Text) → (text_eq x y ≡ true) ↔ (x ≡ y)
text_eq_iff x y = (eq_of_text_eq x y, λ e. ground (arith, text_eq_refl x))

pub text_eq_comm : (x y : Text) → text_eq x y ≡ text_eq y x
unfolding text_eq
text_eq_comm [] [] = refl
text_eq_comm [] (b ∷ y) = refl
text_eq_comm (a ∷ x) [] = refl
text_eq_comm (a ∷ x) (b ∷ y) = ground (arith, text_eq_comm x y)

-- Of two different strings exactly one comes first.
pub text_lt_swap : (x y : Text) → text_eq x y ≡ false → text_lt y x ≡ not (text_lt x y)
unfolding text_eq text_lt
text_lt_swap [] [] h = cc
text_lt_swap [] (b ∷ y) h = refl
text_lt_swap (a ∷ x) [] h = refl
text_lt_swap (a ∷ x) (b ∷ y) h = ground (arith, text_lt_swap x y)

-- `s.startsWith(p)`
unfoldable pub starts_with : Text → Text → Bool
starts_with [] s = true
starts_with (a ∷ p) [] = false
starts_with (a ∷ p) (b ∷ s) = (a == b) && starts_with p s

pub starts_with-append : (p s : Text) → starts_with p (p ++ s) ≡ true
unfolding starts_with
starts_with-append [] s = refl
starts_with-append (a ∷ p) s = ground (arith, starts_with-append p s)

-- `s.split(c)` for a separator of one code unit
unfoldable pub split : ℕ → Text → List Text
split c [] = [] ∷ []
split c (a ∷ s) =
    let rest = split c s in
    if a == c then [] ∷ rest else elim rest [ [] ↦ (a ∷ []) ∷ [] | w ∷ ws ↦ (a ∷ w) ∷ ws ]

-- `parts.join(c)`
unfoldable pub join : ℕ → List Text → Text
join c [] = []
join c (w ∷ []) = w
join c (w ∷ v ∷ ws) = w ++ c ∷ join c (v ∷ ws)

abbrev pub Lacks : ℕ → Text → Type 0
Lacks c [] = Unit
Lacks c (a ∷ s) = (a ≢ c) × Lacks c s

pub split_one : (c : ℕ) (w : Text) → Lacks c w → split c w ≡ w ∷ []
unfolding split
split_one c [] h = refl
split_one c (a ∷ w) h = ground (arith, split_one c w h.1)

pub split-append : (c : ℕ) (w s : Text) → Lacks c w → split c (w ++ c ∷ s) ≡ w ∷ split c s
unfolding split
split-append c [] s h = ground arith
split-append c (a ∷ w) s h = ground (arith, split-append c w s h.1)

-- Splitting and joining are inverse where there is a part and no part holds the separator.
pub split-join :
    (c : ℕ) (w : Text) (ws : List Text)
    → All (Lacks c) (w ∷ ws)
    → split c (join c (w ∷ ws)) ≡ w ∷ ws
unfolding join
split-join c w [] h = split_one c w h.0
split-join c w (v ∷ ws) h =
    split-append c w (join c (v ∷ ws)) h.0 ∙ ap (λ r. w ∷ r) (split-join c v ws h.1)

pub split-join_append :
    (c : ℕ) (w : Text) (ws : List Text) (s : Text)
    → All (Lacks c) (w ∷ ws)
    → split c (join c (w ∷ ws) ++ c ∷ s) ≡ (w ∷ ws) ++ split c s
unfolding join
split-join_append c w [] s h = split-append c w s h.0
split-join_append c w (v ∷ ws) s h = rw append_assoc (
    split-append c w (join c (v ∷ ws) ++ c ∷ s) h.0
    ∙ ap (λ r. w ∷ r) (split-join_append c v ws s h.1))

-- The white space that `trim` and `\s` know.
unfoldable pub is_space : ℕ → Bool
is_space c =
    (leb 9 c && leb c 13)
    || c == 32
    || c == 160
    || c == 0x1680
    || (leb 0x2000 c && leb c 0x200a)
    || c == 0x2028
    || c == 0x2029
    || c == 0x202f
    || c == 0x205f
    || c == 0x3000
    || c == 0xfeff

unfoldable pub trim_start : Text → Text
unfolding is_space
trim_start [] = []
trim_start (a ∷ s) = let rest = trim_start s in if is_space a then rest else a ∷ s

-- `s.trim()`
unfoldable pub trim : Text → Text
unfolding trim_start
trim s = reverse (trim_start (reverse (trim_start s)))

-- `!s.trim()`
unfoldable pub is_blank : Text → Bool
unfolding is_space
is_blank s = all is_space s

-- `xs.includes(k)`
abbrev pub includes : List Text → Text → Bool
includes [] k = false
includes (x ∷ xs) k = text_eq x k || includes xs k

-- `set.add(k)`
unfoldable pub add_member : Text → List Text → List Text
add_member k xs = if includes xs k then xs else xs ++ k ∷ []

pub includes-append :
    (xs ys : List Text) (k : Text) → includes (xs ++ ys) k ≡ (includes xs k || includes ys k)
includes-append [] ys k = refl
includes-append (x ∷ xs) ys k = ground (arith, includes-append xs ys k)

pub includes-filter :
    (p : Text → Bool) (xs : List Text) (k : Text)
    → includes (filter p xs) k ≡ (includes xs k && p k)
unfolding filter
includes-filter p [] k = refl
includes-filter p (x ∷ xs) k = ground (arith, includes-filter p xs k, text_eq_iff x k)

-- A test at the string itself or at what is left after some of its first code units.
unfoldable pub at_some_tail : (Text → Bool) → Text → Bool
at_some_tail p [] = p []
at_some_tail p (a ∷ s) = p (a ∷ s) || at_some_tail p s

pub at_some_tail-append :
    (p : Text → Bool) (w s : Text) → p s ≡ true → at_some_tail p (w ++ s) ≡ true
unfolding at_some_tail
at_some_tail-append p [] [] h = h
at_some_tail-append p [] (a ∷ s) h = ground arith
at_some_tail-append p (a ∷ w) s h = ground (arith, at_some_tail-append p w s h)

-- `s.endsWith(p)`
unfoldable pub ends_with : Text → Text → Bool
unfolding at_some_tail
ends_with p s = at_some_tail (text_eq p) s
