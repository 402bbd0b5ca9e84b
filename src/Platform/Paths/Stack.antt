-- ===== src/Platform/Paths/Stack.antt =====
-- What the parts that are kept look like.
use grandpa_bob.Base.{
  ◌≡◌, ◌≢◌, refl, ◌∙◌, ap, Bool, true, false, ◌||◌, List, [], ◌∷◌, ◌++◌, reverse, arith, All,
  Bool-cases, inl, inr,
}
use mathlib.Core.List.{reverse-cons}
use grandpa_bob.Base.Text.{Text, text_eq, text_eq_iff}
use grandpa_bob.Platform.Paths.{dot, dotdot, up, push, push_all, normalize_parts}

-- Every part would be put on top of those below it again.
abbrev pub IsStack : Bool → List Text → Type 0
IsStack allow [] = Unit
IsStack allow (x ∷ xs) = (push allow x xs ≡ x ∷ xs) × IsStack allow xs

up-IsStack : (allow : Bool) (xs : List Text) → IsStack allow xs → IsStack allow (up allow xs)
unfolding up push text_eq
up-IsStack true [] h = (refl, tt)
up-IsStack false [] h = tt
up-IsStack true (x ∷ xs) h = elim (Bool-cases (text_eq x dotdot)) [
  | inl e ↦ rw e (rw e refl, h)
  | inr e ↦ rw e h.1
]
up-IsStack false (x ∷ xs) h = elim (Bool-cases (text_eq x dotdot)) [
  | inl e ↦ rw e h
  | inr e ↦ rw e h.1
]

push-IsStack :
    (allow : Bool) (p : Text) (xs : List Text) → IsStack allow xs → IsStack allow (push allow p xs)
unfolding push
push-IsStack allow p xs h = elim (Bool-cases (text_eq p [] || text_eq p dot)) [
  | inl e ↦ rw e h
  | inr e ↦ elim (Bool-cases (text_eq p dotdot)) [
    | inl d ↦ rw (e, d) (up-IsStack allow xs h)
    | inr d ↦ rw (e, d) (rw (e, d) refl, h)
  ]
]

pub push_all-IsStack :
    (allow : Bool) (ps xs : List Text) → IsStack allow xs → IsStack allow (push_all allow ps xs)
unfolding push_all
push_all-IsStack allow [] xs h = h
push_all-IsStack allow (p ∷ ps) xs h =
    push_all-IsStack allow ps (push allow p xs) (push-IsStack allow p xs h)

pub push_all-append :
    (allow : Bool) (ps qs xs : List Text)
    → push_all allow (ps ++ qs) xs ≡ push_all allow qs (push_all allow ps xs)
unfolding push_all
push_all-append allow [] qs xs = refl
push_all-append allow (p ∷ ps) qs xs = push_all-append allow ps qs (push allow p xs)

-- A stack is what its own parts come to.
push_all-reverse :
    (allow : Bool) (xs : List Text) → IsStack allow xs → push_all allow (reverse xs) [] ≡ xs
unfolding push_all
push_all-reverse allow [] h = refl
push_all-reverse allow (x ∷ xs) h =
    ap (λ ps. push_all allow ps []) (reverse-cons x xs)
    ∙ push_all-append allow (reverse xs) (x ∷ []) []
    ∙ ap (push allow x) (push_all-reverse allow xs h.1)
    ∙ h.0

-- Normalizing the parts a second time changes nothing, with and without leave to go above the root.
pub normalize_parts_idem :
    (allow : Bool) (ps : List Text)
    → normalize_parts allow (normalize_parts allow ps) ≡ normalize_parts allow ps
unfolding normalize_parts
normalize_parts_idem allow ps =
    ap reverse (push_all-reverse allow (push_all allow ps []) (push_all-IsStack allow ps [] tt))

-- Where it is not allowed to go above the root, no part that is kept is empty, "." or "..".
unfoldable pub IsName : Text → Type 0
IsName p = (p ≢ []) × (p ≢ dot) × (p ≢ dotdot)

push-names : (p : Text) (xs : List Text) → All IsName xs → All IsName (push false p xs)
unfolding push up IsName
push-names p xs h = elim (Bool-cases (text_eq p [] || text_eq p dot)) [
  | inl e ↦ rw e h
  | inr e ↦ elim (Bool-cases (text_eq p dotdot)) [
    | inl d ↦ rw (e, d) (popped xs h)
    | inr d ↦ rw (e, d) (named e d, h)
  ]
]
  where
    popped : (ys : List Text) → All IsName ys → All IsName (up false ys)
    popped [] g = tt
    popped (y ∷ ys) g = elim (Bool-cases (text_eq y dotdot)) [ inl e ↦ rw e g | inr e ↦ rw e g.1 ]

    named : (text_eq p [] || text_eq p dot) ≡ false → text_eq p dotdot ≡ false → IsName p
    named e d = (
      λ k. ground (arith, text_eq_iff p []),
      λ k. ground (arith, text_eq_iff p dot),
      λ k. ground (arith, text_eq_iff p dotdot),
    )

pub push_all-names : (ps xs : List Text) → All IsName xs → All IsName (push_all false ps xs)
unfolding push_all
push_all-names [] xs h = h
push_all-names (p ∷ ps) xs h = push_all-names ps (push false p xs) (push-names p xs h)
