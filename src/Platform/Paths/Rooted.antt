-- ===== src/Platform/Paths/Rooted.antt =====
-- `resolve` gives an absolute path that names no way up.
use grandpa_bob.Base.{
  All-reverse, ℕ, ◌≡◌, ◌≢◌, refl, sym, ◌∙◌, ap, subst, Bool, true, false, not, ◌&&◌, ◌||◌, List, [],
  ◌∷◌, ◌++◌, reverse, arith, ◌==◌, if◌then◌else◌, length, ltb, All, All-append, Bool-cases,
  and_true, inl, inr,
}
use grandpa_bob.Base.Text.{
  Text, text_eq, text_eq_iff, split, Lacks, split-append, split-join, split-join_append,
}
use grandpa_bob.Base.Text
use grandpa_bob.Platform.Paths.{
  sep, dot, dotdot, up, push, push_all, normalize_parts, is_absolute, ends_in_sep, normalize,
  resolve_back, resolve,
}
use grandpa_bob.Platform.Paths.Stack.{IsName}
use grandpa_bob.Platform.Paths.Relative.{normalize_parts-names}

-- Neither "." nor "..".
unfoldable pub IsInside : Text → Type 0
IsInside w = (w ≢ dot) × (w ≢ dotdot)

split-Lacks : (c : ℕ) (s : Text) → All (Lacks c) (split c s)
unfolding split
split-Lacks c [] = (tt, tt)
split-Lacks c (a ∷ s) = elim (Bool-cases (a == c)) [
  | inl e ↦ rw e (tt, split-Lacks c s)
  | inr e ↦ rw e (onto (split c s) (split-Lacks c s) (ground arith))
]
  where
    onto :
        (rest : List Text)
        → All (Lacks c) rest
        → a ≢ c
        → All (Lacks c) (elim rest [ [] ↦ (a ∷ []) ∷ [] | w ∷ ws ↦ (a ∷ w) ∷ ws ])
    onto [] h k = ((k, tt), tt)
    onto (w ∷ ws) h k = ((k, h.0), h.1)

up-All : (P : Text → Type 0) (xs : List Text) → All P xs → All P (up false xs)
unfolding up
up-All P [] h = tt
up-All P (x ∷ xs) h = elim (Bool-cases (text_eq x dotdot)) [ inl e ↦ rw e h | inr e ↦ rw e h.1 ]

push_all-All :
    (P : Text → Type 0) (ps xs : List Text) → All P ps → All P xs → All P (push_all false ps xs)
unfolding push_all push
push_all-All P [] xs hp h = h
push_all-All P (p ∷ ps) xs hp h =
    push_all-All P ps (push false p xs) hp.1 (elim (Bool-cases (text_eq p [] || text_eq p dot)) [
      | inl e ↦ rw e h
      | inr e ↦ elim (Bool-cases (text_eq p dotdot)) [
        | inl d ↦ rw (e, d) (up-All P xs h)
        | inr d ↦ rw (e, d) (hp.0, h)
      ]
    ])

All-IsInside : (ws : List Text) → All IsName ws → All IsInside ws
unfolding IsName IsInside
All-IsInside [] h = tt
All-IsInside (w ∷ ws) h = ((h.0.1, h.0.2), All-IsInside ws h.1)

nothing-IsInside : IsInside []
unfolding IsInside
nothing-IsInside = (λ e. cc, λ e. cc)

-- The segments of an absolute text made of names, with and without a separator at the end.
segments :
    (ws : List Text)
    → All IsName ws
    → All (Lacks 47) ws
    → All IsInside (split 47 (47 ∷ Text.join 47 ws))
      × All IsInside (split 47 (47 ∷ Text.join 47 ws ++ sep))
unfolding split Text.join
segments [] hn hl = (
  (nothing-IsInside, (nothing-IsInside, tt)),
  (nothing-IsInside, (nothing-IsInside, (nothing-IsInside, tt))),
)
segments (w ∷ ws) hn hl = (
  subst (All IsInside)
      (sym
        (split-append 47 [] (Text.join 47 (w ∷ ws)) tt ∙ ap (λ r. [] ∷ r) (split-join 47 w ws hl)))
      (nothing-IsInside, All-IsInside (w ∷ ws) hn),
  subst (All IsInside)
      (sym (
        split-append 47 [] (Text.join 47 (w ∷ ws) ++ sep) tt
        ∙ ap (λ r. [] ∷ r) (split-join_append 47 w ws [] hl)))
      (
        nothing-IsInside,
        All-append IsInside (w ∷ ws) ([] ∷ []) (All-IsInside (w ∷ ws) hn) (nothing-IsInside, tt),
      ),
)

-- Absolute, and no segment is "." or "..".
unfoldable pub IsRooted : Text → Type 0
IsRooted r = (is_absolute r ≡ true) × All IsInside (split 47 r)

if-IsRooted : (b : Bool) (x y : Text) → IsRooted x → IsRooted y → IsRooted (if b then x else y)
if-IsRooted true x y hx hy = hx
if-IsRooted false x y hx hy = hy

rooted :
    (ws : List Text)
    → All IsName ws
    → All (Lacks 47) ws
    → IsRooted (47 ∷ Text.join 47 ws) × IsRooted (47 ∷ Text.join 47 ws ++ sep)
unfolding IsRooted is_absolute
rooted ws hn hl = let both = segments ws hn hl in ((refl, both.0), (refl, both.1))

lacking : (ps : List Text) → All (Lacks 47) ps → All (Lacks 47) (normalize_parts false ps)
unfolding normalize_parts
lacking ps g = All-reverse (Lacks 47) (push_all false ps []) (push_all-All (Lacks 47) ps [] g tt)

nonempty : (q : Text) → is_absolute q ≡ true → text_eq q [] ≡ false
unfolding is_absolute text_eq
nonempty [] k = ground arith
nonempty (c ∷ q) k = refl

normalize-IsRooted : (p : Text) → is_absolute p ≡ true → IsRooted (normalize p)
unfolding normalize Text.join
normalize-IsRooted p h =
    let ws = normalize_parts false (split 47 p) in
    let both =
      rooted ws (normalize_parts-names (split 47 p)) (lacking (split 47 p) (split-Lacks 47 p)) in
    let here : text_eq p [] ≡ false = nonempty p h in
    rw (h, here)
      (if-IsRooted (text_eq (Text.join 47 ws) []) sep _ root (
        if-IsRooted (ltb 1 (length p) && ends_in_sep p && not (text_eq (47 ∷ Text.join 47 ws) sep))
          (47 ∷ Text.join 47 ws ++ sep) _ both.1 both.0))
  where
    root : IsRooted sep
    root = (rooted [] tt tt).0

absolute-append : (p s : Text) → is_absolute p ≡ true → is_absolute (p ++ s) ≡ true
unfolding is_absolute
absolute-append [] s h = ground arith
absolute-append (c ∷ p) s h = h

later : (b : Bool) (x y : Text × Bool) → b ≡ false → (if b then x else y).1 ≡ true → y.1 ≡ true
later true x y e h = ground arith
later false x y e h = h

resolve_back-absolute :
    (ps : List Text) (r : Text)
    → (resolve_back ps r).1 ≡ true
    → is_absolute (resolve_back ps r).0 ≡ true
unfolding resolve_back
resolve_back-absolute [] r h = ground arith
resolve_back-absolute (p ∷ ps) r h = elim (Bool-cases (not (text_eq p []) && is_absolute p)) [
  | inl e ↦
      let start : is_absolute p ≡ true = (and_true (not (text_eq p [])) (is_absolute p) e).1 in
      rw e (begun (text_eq r []) start)
  | inr e ↦ rw e (
      resolve_back-absolute ps
        (if text_eq p [] then r else (if text_eq r [] then p else p ++ 47 ∷ r))
        (later (not (text_eq p []) && is_absolute p) _ _ e h))
]
  where
    begun : (b : Bool) → is_absolute p ≡ true → is_absolute (if b then p else p ++ 47 ∷ r) ≡ true
    begun true k = k
    begun false k = absolute-append p (47 ∷ r) k

-- For any parts, the path that `resolve` gives is absolute, and none of its segments is "." or "..".
pub resolve-IsRooted : (parts : List Text) → IsRooted (resolve parts)
unfolding resolve is_absolute
resolve-IsRooted parts = elim (Bool-cases (resolve_back (reverse parts) []).1) [
  | inl e ↦ rw e (
      normalize-IsRooted (resolve_back (reverse parts) []).0
        (resolve_back-absolute (reverse parts) [] e))
  | inr e ↦ rw e (normalize-IsRooted (47 ∷ (resolve_back (reverse parts) []).0) refl)
]
