-- ===== src/Base/Sort/Unique.antt =====
-- Texts in the order of their code units, each once: the order in which they came is forgotten.
use mathlib.Core.Path.{◌≡◌, refl, sym, ◌∙◌, ap}
use mathlib.Core.Bool.{Bool, true, false, ◌||◌}
use mathlib.Core.List.{List, [], ◌∷◌, ◌++◌}
use native.Mathlib.Omega.{arith}
use grandpa_bob.Base.Tests.{if◌then◌else◌}
use grandpa_bob.Base.Text.{
  Text, text_eq, text_lt, text_eq_iff, text_eq_comm, text_lt_swap, includes, add_member,
}
use grandpa_bob.Base.Sort.{insert, sort}

-- The order of `xs.sort()`: whether `x` comes after `y`.
abbrev pub after : Text → Text → Bool
after x y = text_lt y x

text_lt_trans : (x y z : Text) → text_lt x y ≡ true → text_lt y z ≡ true → text_lt x z ≡ true
unfolding text_lt
text_lt_trans [] [] z h k = ground arith
text_lt_trans [] (b ∷ y) [] h k = ground arith
text_lt_trans [] (b ∷ y) (c ∷ z) h k = refl
text_lt_trans (a ∷ x) [] z h k = ground arith
text_lt_trans (a ∷ x) (b ∷ y) [] h k = ground arith
text_lt_trans (a ∷ x) (b ∷ y) (c ∷ z) h k = ground (arith, text_lt_trans x y z)

text_lt_irrefl : (x : Text) → text_lt x x ≡ false
unfolding text_lt
text_lt_irrefl [] = refl
text_lt_irrefl (a ∷ x) = ground (arith, text_lt_irrefl x)

insert_comm :
    (a b : Text) (xs : List Text)
    → insert after a (insert after b xs) ≡ insert after b (insert after a xs)
unfolding insert
insert_comm a b [] = ground (arith, text_lt_swap a b, text_eq_iff a b, text_lt_irrefl a)
insert_comm a b (y ∷ ys) = ground (
  arith,
  insert_comm a b ys,
  text_eq_iff a b,
  text_eq_iff a y,
  text_eq_iff b y,
  text_lt_swap a b,
  text_lt_swap a y,
  text_lt_swap b y,
  text_lt_trans b y a,
  text_lt_trans a y b,
  text_lt_irrefl a,
)

-- `x` goes into its place, unless it is there.
unfoldable pub insert_new : Text → List Text → List Text
unfolding insert
insert_new x xs = if includes xs x then xs else insert after x xs

includes-insert :
    (x : Text) (xs : List Text) (k : Text)
    → includes (insert after x xs) k ≡ (text_eq x k || includes xs k)
unfolding insert
includes-insert x [] k = refl
includes-insert x (y ∷ ys) k = ground (arith, includes-insert x ys k)

includes-sort : (xs : List Text) (k : Text) → includes (sort after xs) k ≡ includes xs k
unfolding sort
includes-sort [] k = refl
includes-sort (x ∷ xs) k =
    includes-insert x (sort after xs) k ∙ ap (λ b. text_eq x k || b) (includes-sort xs k)

sort-append_one :
    (xs : List Text) (x : Text) → sort after (xs ++ x ∷ []) ≡ insert after x (sort after xs)
unfolding sort
sort-append_one [] x = refl
sort-append_one (y ∷ ys) x =
    ap (insert after y) (sort-append_one ys x) ∙ insert_comm y x (sort after ys)

sort-add_member :
    (x : Text) (xs : List Text) → sort after (add_member x xs) ≡ insert_new x (sort after xs)
unfolding add_member insert_new
sort-add_member x xs = rw (includes-sort xs x) (by_test (includes xs x))
  where
    by_test :
        (b : Bool)
        → sort after (if b then xs else xs ++ x ∷ [])
          ≡ (if b then sort after xs else insert after x (sort after xs))
    by_test true = refl
    by_test false = sort-append_one xs x

insert_new_comm :
    (a b : Text) (xs : List Text) → insert_new a (insert_new b xs) ≡ insert_new b (insert_new a xs)
unfolding insert_new
insert_new_comm a b xs = ground (
  arith,
  includes-insert a xs b,
  includes-insert b xs a,
  text_eq_comm a b,
  text_eq_iff a b,
  insert_comm a b xs,
)

-- `new Set(xs)` with what is there already.
unfoldable pub add_all : List Text → List Text → List Text
unfolding add_member
add_all [] s = s
add_all (x ∷ xs) s = add_all xs (add_member x s)

insert_all : List Text → List Text → List Text
insert_all [] s = s
insert_all (x ∷ xs) s = insert_all xs (insert_new x s)

sort-add_all : (xs s : List Text) → sort after (add_all xs s) ≡ insert_all xs (sort after s)
unfolding add_all insert_all
sort-add_all [] s = refl
sort-add_all (x ∷ xs) s =
    sort-add_all xs (add_member x s) ∙ ap (insert_all xs) (sort-add_member x s)

insert_all-insert_new :
    (xs s : List Text) (x : Text) → insert_all xs (insert_new x s) ≡ insert_new x (insert_all xs s)
unfolding insert_all
insert_all-insert_new [] s x = refl
insert_all-insert_new (y ∷ ys) s x =
    ap (insert_all ys) (insert_new_comm y x s) ∙ insert_all-insert_new ys (insert_new y s) x

insert_all_comm :
    (xs ys s : List Text) → insert_all xs (insert_all ys s) ≡ insert_all ys (insert_all xs s)
unfolding insert_all
insert_all_comm [] ys s = refl
insert_all_comm (x ∷ xs) ys s =
    ap (insert_all xs) (sym (insert_all-insert_new ys s x)) ∙ insert_all_comm xs ys (insert_new x s)

insert_all-append :
    (xs ys s : List Text) → insert_all (xs ++ ys) s ≡ insert_all ys (insert_all xs s)
unfolding insert_all
insert_all-append [] ys s = refl
insert_all-append (x ∷ xs) ys s = insert_all-append xs ys (insert_new x s)

-- Two lists give the same sorted set in either order.
pub sort-add_all_append :
    (xs ys : List Text) → sort after (add_all (xs ++ ys) []) ≡ sort after (add_all (ys ++ xs) [])
sort-add_all_append xs ys =
    sort-add_all (xs ++ ys) []
    ∙ insert_all-append xs ys (sort after [])
    ∙ insert_all_comm ys xs (sort after [])
    ∙ sym (insert_all-append ys xs (sort after []))
    ∙ sym (sort-add_all (ys ++ xs) [])
