-- ===== src/Agent/Scope/Boundary.antt =====
-- The names that a tree may hold, and that scrubbing leaves no other.
use grandpa_bob.Base.{
  ◌≡◌, refl, ◌∙◌, ap, Bool, true, false, not, ◌||◌, ◌&&◌, Option, none, some, List, [], ◌∷◌, map,
  filter, All, Bool-cases, Option-cases, inl, inr, any, is_some, arith,
}
use grandpa_bob.Base.Text.{Text, text_eq, includes}
use grandpa_bob.Agent.Scope.{
  AppLink, nested_names, top_names, child_names, is_parent, TreeToolRule, ScopedTree, Children,
  tree, nil, cons, distinct, may_name, scrub_rule, scrub_list, scrub_rules, scrub_children,
}

pub filter-All :
    {A : Type 0} (P : A → Type 0) (p : A → Bool) (xs : List A) → All P xs → All P (filter p xs)
unfolding filter
filter-All P p [] h = tt
filter-All P p (x ∷ xs) h = elim (Bool-cases (p x)) [
  | inl e ↦ rw e (h.0, filter-All P p xs h.1)
  | inr e ↦ rw e (filter-All P p xs h.1)
]

filter-passes : {A : Type 0} (p : A → Bool) (xs : List A) → All (λ x. p x ≡ true) (filter p xs)
unfolding filter
filter-passes p [] = tt
filter-passes p (x ∷ xs) = elim (Bool-cases (p x)) [
  | inl e ↦ rw e (e, filter-passes p xs)
  | inr e ↦ rw e (filter-passes p xs)
]

pub distinct-All : (P : Text → Type 0) (xs : List Text) → All P xs → All P (distinct xs)
unfolding distinct
distinct-All P [] h = tt
distinct-All P (x ∷ xs) h =
    (h.0, filter-All P (λ y. not (text_eq x y)) (distinct xs) (distinct-All P xs h.1))

-- Whether a name may stand in the tree of `owner`, where `none` is a tree that is no app: it is the
-- name of no app below another one, or of a direct child of the owner, which for `none` is an app at
-- the top.
abbrev pub is_child : Option Text → Option Text → Bool
is_child none none = true
is_child (some s) (some q) = text_eq q s
is_child none (some q) = false
is_child (some s) none = false

unfoldable pub may_stand : List AppLink → Option Text → Text → Bool
may_stand apps owner n =
    not (any (λ a. text_eq a.name n && is_some a.parent) apps)
    || any (λ a. text_eq a.name n && is_child owner a.parent) apps

includes_names :
    (p : AppLink → Bool) (apps : List AppLink) (n : Text)
    → includes (map (λ a. a.name) (filter p apps)) n ≡ any (λ a. text_eq a.name n && p a) apps
unfolding filter
includes_names p [] n = refl
includes_names p (a ∷ apps) n = elim (Bool-cases (p a)) [
  | inl e ↦ rw e (ground (arith, includes_names p apps n))
  | inr e ↦ rw e (ground (arith, includes_names p apps n))
]

any-child :
    (o : Option Text) (q : Option Text → Bool) (n : Text) (apps : List AppLink)
    → ((x : Option Text) → q x ≡ is_child o x)
    → any (λ a. text_eq a.name n && q a.parent) apps
      ≡ any (λ a. text_eq a.name n && is_child o a.parent) apps
any-child o q n [] h = refl
any-child o q n (a ∷ apps) h = rw (h a.parent, any-child o q n apps h) refl

pub may_name_top :
    (apps : List AppLink) (n : Text)
    → may_name (nested_names apps) (top_names apps) n ≡ may_stand apps none n
unfolding may_name nested_names top_names may_stand
may_name_top apps n =
    ap (λ b. not b || includes (top_names apps) n) (includes_names (λ a. is_some a.parent) apps n)
    ∙ ap (λ b. not (any (λ a. text_eq a.name n && is_some a.parent) apps) || b)
        (includes_names (λ a. not (is_some a.parent)) apps n
          ∙ any-child none (λ o. not (is_some o)) n apps
              (λ x. elim x as (λ o. not (is_some o) ≡ is_child none o) [
                | none ↦ refl
                | some q ↦ refl
              ]))

pub includes_kids :
    (apps : List AppLink) (s n : Text)
    → includes (child_names apps s) n
      ≡ any (λ a. text_eq a.name n && is_child (some s) a.parent) apps
unfolding child_names
includes_kids apps s n =
    includes_names (λ a. is_parent s a.parent) apps n
    ∙ any-child (some s) (is_parent s) n apps (λ x. elim x [ none ↦ refl | some q ↦ refl ])

pub may_name_kids :
    (apps : List AppLink) (s n : Text)
    → may_name (nested_names apps) (child_names apps s) n ≡ may_stand apps (some s) n
unfolding may_name nested_names may_stand
may_name_kids apps s n =
    ap (λ b. not b || includes (child_names apps s) n)
      (includes_names (λ a. is_some a.parent) apps n)
    ∙ ap (λ b. not (any (λ a. text_eq a.name n && is_some a.parent) apps) || b)
        (includes_kids apps s n)

module _ (may : Text → Bool) where
  abbrev pub HasAllowed : Option (List Text) → Type 0
  HasAllowed none = Unit
  HasAllowed (some names) = All (λ n. may n ≡ true) names

  abbrev pub AreAllowed : List TreeToolRule → Type 0
  AreAllowed rules = All (λ r. HasAllowed r.value) rules

  abbrev pub IsAllowed : Option (List TreeToolRule) → Type 0
  IsAllowed none = Unit
  IsAllowed (some rules) = AreAllowed rules

  unfoldable mutual
    -- Every name in every rule of the tree and of all trees below it passes the test.
    pub IsScoped : ScopedTree → Type 0
    IsScoped (tree name rules children) = IsAllowed rules × AreScoped children

    pub AreScoped : Children → Type 0
    AreScoped nil = Unit
    AreScoped (cons t ts) = IsScoped t × AreScoped ts

module _ (nested allowed : List Text) where
  abbrev may : Text → Bool
  may n = may_name nested allowed n

  scrub_rule-HasAllowed : (r : TreeToolRule) → HasAllowed may (scrub_rule nested allowed r).value
  unfolding scrub_rule
  scrub_rule-HasAllowed r = elim (Option-cases r.value) [
    | inl e ↦ rw e tt
    | inr (names, e) ↦
        rw e (distinct-All (λ n. may n ≡ true) (filter may names) (filter-passes may names))
  ]

  scrub_list-IsAllowed :
      (rules : Option (List TreeToolRule)) → IsAllowed may (scrub_list nested allowed rules)
  unfolding scrub_list
  scrub_list-IsAllowed none = tt
  scrub_list-IsAllowed (some rules) = every rules
    where
      every : (rs : List TreeToolRule) → AreAllowed may (map (scrub_rule nested allowed) rs)
      every [] = tt
      every (r ∷ rs) = (scrub_rule-HasAllowed r, every rs)

  mutual
    unfolding scrub_rules IsScoped

    pub tree-IsScoped : (t : ScopedTree) → IsScoped may (scrub_rules nested allowed t)
    tree-IsScoped (tree name rules children) =
        (scrub_list-IsAllowed rules, children-AreScoped children)

    children-AreScoped : (ts : Children) → AreScoped may (scrub_children nested allowed ts)
    children-AreScoped nil = tt
    children-AreScoped (cons t ts) = (tree-IsScoped t, children-AreScoped ts)
