-- ===== src/Platform/Paths/Relative.antt =====
-- Where a relative path leads, and where `resolve` cannot lead.
use grandpa_bob.Base.{
  ◌≡◌, refl, sym, ◌∙◌, ap, All-reverse, false, List, [], ◌∷◌, ◌++◌, map, reverse, arith, All,
  Bool-cases, inl, inr,
}
use mathlib.Core.List.{reverse-cons, reverse-reverse, append_assoc, append-nil}
use grandpa_bob.Base.Text.{Text, text_eq, text_eq_iff}
use grandpa_bob.Platform.Paths.{dot, dotdot, up, push, push_all, normalize_parts, relative_parts}
use grandpa_bob.Platform.Paths.Stack.{IsName, push_all-names}

abbrev ups : List Text → List Text
ups fs = map (λ _. dotdot) fs

push_name : (p : Text) (xs : List Text) → IsName p → push false p xs ≡ p ∷ xs
unfolding push IsName
push_name p xs h =
    ground (arith, text_eq_iff p [], text_eq_iff p dot, text_eq_iff p dotdot, h.0, h.1, h.2)

reverse_cons-append : (x : Text) (ps xs : List Text) → reverse (x ∷ ps) ++ xs ≡ reverse ps ++ x ∷ xs
reverse_cons-append x ps xs =
    ap (λ r. r ++ xs) (reverse-cons x ps) ∙ append_assoc (reverse ps) (x ∷ []) xs

push_all-names_kept : (ps xs : List Text) → All IsName ps → push_all false ps xs ≡ reverse ps ++ xs
unfolding push_all
push_all-names_kept [] xs h = refl
push_all-names_kept (p ∷ ps) xs h =
    rw (push_name p xs h.0) (push_all-names_kept ps (p ∷ xs) h.1)
    ∙ sym (reverse_cons-append p ps xs)

ups_shift : (fs qs : List Text) → dotdot ∷ ups fs ++ qs ≡ ups fs ++ dotdot ∷ qs
ups_shift [] qs = refl
ups_shift (f ∷ fs) qs = ap (λ r. dotdot ∷ r) (ups_shift fs qs)

popped : (f : Text) (xs : List Text) → IsName f → push false dotdot (f ∷ xs) ≡ xs
unfolding push up IsName text_eq
popped f xs h =
    let other : text_eq f dotdot ≡ false = ground (arith, text_eq_iff f dotdot, h.2) in
    rw other refl

-- One ".." for every part goes back to where the parts started.
push_all-ups :
    (fs qs xs : List Text)
    → All IsName fs
    → push_all false (fs ++ (ups fs ++ qs)) xs ≡ push_all false qs xs
unfolding push_all
push_all-ups [] qs xs h = refl
push_all-ups (f ∷ fs) qs xs h =
    ap (push_all false (fs ++ (ups (f ∷ fs) ++ qs))) (push_name f xs h.0)
    ∙ ap (λ r. push_all false (fs ++ r) (f ∷ xs)) (ups_shift fs qs)
    ∙ push_all-ups fs (dotdot ∷ qs) (f ∷ xs) h.1
    ∙ ap (push_all false qs) (popped f xs h.0)

push_all-relative_parts :
    (fs ts xs : List Text)
    → All IsName fs
    → All IsName ts
    → push_all false (fs ++ relative_parts fs ts) xs ≡ reverse ts ++ xs
unfolding relative_parts push_all
push_all-relative_parts [] ts xs hf ht = push_all-names_kept ts xs ht
push_all-relative_parts (f ∷ fs) [] xs hf ht =
    ap (λ r. push_all false ((f ∷ fs) ++ r) xs) (sym (append-nil (ups (f ∷ fs))))
    ∙ push_all-ups (f ∷ fs) [] xs hf
push_all-relative_parts (f ∷ fs) (t ∷ ts) xs hf ht = elim (Bool-cases (text_eq f t)) [
  | inl e ↦
      let same : f ≡ t = ground (arith, text_eq_iff f t) in
      rw e (
        rw (push_name f xs hf.0) (
          push_all-relative_parts fs ts (f ∷ xs) hf.1 ht.1
          ∙ ap (λ r. reverse ts ++ r ∷ xs) same
          ∙ sym (reverse_cons-append t ts xs)))
  | inr e ↦ rw e (push_all-ups (f ∷ fs) (t ∷ ts) xs hf ∙ push_all-names_kept (t ∷ ts) xs ht)
]

-- For lists of parts without an empty one, "." and "..": the relative parts, normalized after those
-- they start from, lead to the target.
pub normalize-relative_parts :
    (fs ts : List Text)
    → All IsName fs
    → All IsName ts
    → normalize_parts false (fs ++ relative_parts fs ts) ≡ ts
unfolding normalize_parts
normalize-relative_parts fs ts hf ht =
    ap reverse (push_all-relative_parts fs ts [] hf ht ∙ append-nil (reverse ts))
    ∙ reverse-reverse ts

-- What is normalized without leave to go above the root consists of names.
pub normalize_parts-names : (ps : List Text) → All IsName (normalize_parts false ps)
unfolding normalize_parts
normalize_parts-names ps = All-reverse IsName (push_all false ps []) (push_all-names ps [] tt)
