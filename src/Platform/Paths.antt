-- ===== src/Platform/Paths.antt =====
-- web/src/platform/paths.ts: path operations on texts. The parts that `normalizeParts` keeps are a
-- stack with the last one first.
pub mod Stack
pub mod Relative
pub mod Rooted
use grandpa_bob.Base.{
  ℕ, zero, suc, ◌+◌, ◌-◌, Bool, true, false, not, ◌&&◌, ◌||◌, Option, none, some, List, [], ◌∷◌,
  ◌++◌, map, reverse, ltb, leb, ◌==◌, if◌then◌else◌, is_some, length, take, drop,
}
use grandpa_bob.Base.Text.{Text, text, text_eq, split, ends_with}
use grandpa_bob.Base.Text

abbrev pub sep : Text
sep = text "/"

abbrev pub dot : Text
dot = text "."

abbrev pub dotdot : Text
dotdot = text ".."

-- A ".." against the parts so far.
unfoldable pub up : Bool → List Text → List Text
up allow [] = if allow then dotdot ∷ [] else []
up allow (top ∷ rest) =
    if text_eq top dotdot then (if allow then dotdot ∷ top ∷ rest else top ∷ rest) else rest

unfoldable pub push : Bool → Text → List Text → List Text
unfolding up
push allow part stack =
    if text_eq part [] || text_eq part dot
    then stack
    else if text_eq part dotdot
    then up allow stack
    else part ∷ stack

unfoldable pub push_all : Bool → List Text → List Text → List Text
push_all allow [] stack = stack
push_all allow (p ∷ ps) stack = push_all allow ps (push allow p stack)

-- `normalizeParts(parts, allowAboveRoot)`
unfoldable pub normalize_parts : Bool → List Text → List Text
normalize_parts allow parts = reverse (push_all allow parts [])

unfoldable pub is_absolute : Text → Bool
is_absolute [] = false
is_absolute (c ∷ p) = c == 47

unfoldable pub ends_in_sep : Text → Bool
ends_in_sep [] = false
ends_in_sep (c ∷ []) = c == 47
ends_in_sep (c ∷ d ∷ p) = ends_in_sep (d ∷ p)

unfoldable pub normalize : Text → Text
normalize p =
    let result = Text.join 47 (normalize_parts (not (is_absolute p)) (split 47 p)) in
    let trailing = ltb 1 (length p) && ends_in_sep p in
    let rooted = if is_absolute p then 47 ∷ result else result in
    if text_eq p []
    then dot
    else if text_eq result []
    then (if is_absolute p then sep else dot)
    else if trailing && not (text_eq rooted sep)
    then rooted ++ sep
    else rooted

unfoldable pub join_parts : List Text → Text → Text
join_parts [] joined = joined
join_parts (p ∷ ps) joined =
    join_parts ps
      (if text_eq p [] then joined else if text_eq joined [] then p else joined ++ 47 ∷ p)

unfoldable pub join : List Text → Text
unfolding join_parts
join [] = dot
join (p ∷ ps) = normalize (join_parts (p ∷ ps) [])

-- The loop of `resolve`, over the arguments from the last one on: the text, and whether it is absolute.
unfoldable pub resolve_back : List Text → Text → Text × Bool
resolve_back [] resolved = (resolved, false)
resolve_back (p ∷ ps) resolved =
    let next = if text_eq resolved [] then p else p ++ 47 ∷ resolved in
    let rest = resolve_back ps (if text_eq p [] then resolved else next) in
    if not (text_eq p []) && is_absolute p then (next, true) else rest

unfoldable pub resolve : List Text → Text
unfolding resolve_back
resolve parts =
    let found = resolve_back (reverse parts) [] in
    normalize (if found.1 then found.0 else 47 ∷ found.0)

-- One ".." for every part of `from` that is left, then what is left of `to`.
unfoldable pub relative_parts : List Text → List Text → List Text
relative_parts [] ts = ts
relative_parts (f ∷ fs) [] = map (λ _. dotdot) (f ∷ fs)
relative_parts (f ∷ fs) (t ∷ ts) =
    let deeper = relative_parts fs ts in
    if text_eq f t then deeper else map (λ _. dotdot) (f ∷ fs) ++ t ∷ ts

abbrev same_kind : Bool → Bool → Bool
same_kind true b = b
same_kind false b = not b

unfoldable pub relative : Text → Text → Text
unfolding relative_parts
relative from to =
    if text_eq from to
    then []
    else if not (same_kind (is_absolute from) (is_absolute to))
    then normalize to
    else Text.join 47 (
        relative_parts (normalize_parts false (split 47 from))
          (normalize_parts false (split 47 to)))

-- Without the separators at the end.
unfoldable pub trimmed : Text → Text
trimmed [] = []
trimmed (c ∷ p) = let rest = trimmed p in if text_eq rest [] && c == 47 then [] else c ∷ rest

-- The last place of a unit, counted from `i`.
unfoldable pub last_index : ℕ → ℕ → Text → Option ℕ
last_index c i [] = none
last_index c i (a ∷ s) =
    let later = last_index c (i + 1) s in
    if is_some later then later else if a == c then some i else none

-- The separator at the start is never the one that is looked for.
unfoldable pub dirname : Text → Text
unfolding last_index trimmed
dirname [] = dot
dirname (c ∷ p) = elim (last_index 47 1 (trimmed p)) [
  | none ↦ if c == 47 then sep else dot
  | some i ↦ take i (c ∷ p)
]

unfoldable pub after_last_sep : Text → Text
unfolding last_index
after_last_sep p = elim (last_index 47 0 p) [ none ↦ p | some i ↦ drop (i + 1) p ]

unfoldable pub basename : Text → Text → Text
unfolding after_last_sep trimmed
basename p ext =
    let base = after_last_sep (trimmed p) in
    if not (text_eq ext []) && ends_with ext base && not (text_eq base ext)
    then take (length base - length ext) base
    else base

unfoldable pub extname : Text → Text
unfolding after_last_sep last_index
extname p =
    let base = after_last_sep p in
    elim (last_index 46 0 base) [ none ↦ [] | some zero ↦ [] | some (suc i) ↦ drop (suc i) base ]
