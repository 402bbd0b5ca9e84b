-- ===== src/Agent/Scope.antt =====
-- web/src/agent/tree-scope.ts: which tool names a tree may hold. A tree holds a list of trees, so its
-- children are a type of their own.
pub mod Boundary
pub mod Owner
use grandpa_bob.Base.{
  ℕ, Bool, true, false, not, ◌&&◌, ◌||◌, Option, none, some, List, [], ◌∷◌, ◌++◌, map, reverse,
  filter, any, ◌==◌, if◌then◌else◌, is_some, get_or,
}
use grandpa_bob.Base.Text.{Text, text_eq, includes}

pub record AppLink : Type 0 where
  pub name : Text
  pub parent : Option Text

-- `unconditional` says that `cond` is null or missing.
pub record TreeToolRule : Type 0 where
  pub unconditional : Bool
  pub value : Option (List Text)
  pub position : Option ℕ

mutual
  pub data ScopedTree : Type 0 where
    tree : Option Text → Option (List TreeToolRule) → Children → ScopedTree

  pub data Children : Type 0 where
    nil : Children
    cons : ScopedTree → Children → Children

-- `new Set(names)`
unfoldable pub distinct : List Text → List Text
distinct [] = []
distinct (x ∷ xs) = x ∷ filter (λ y. not (text_eq x y)) (distinct xs)

unfoldable pub nested_names : List AppLink → List Text
nested_names apps = map (λ a. a.name) (filter (λ a. is_some a.parent) apps)

abbrev pub is_parent : Text → Option Text → Bool
is_parent p none = false
is_parent p (some q) = text_eq q p

unfoldable pub child_names : List AppLink → Text → List Text
child_names apps parent = map (λ a. a.name) (filter (λ a. is_parent parent a.parent) apps)

unfoldable pub top_names : List AppLink → List Text
top_names apps = map (λ a. a.name) (filter (λ a. not (is_some a.parent)) apps)

module _ (nested allowed : List Text) where
  unfoldable pub may_name : Text → Bool
  may_name name = not (includes nested name) || includes allowed name

  unfoldable pub scrub_rule : TreeToolRule → TreeToolRule
  unfolding distinct may_name
  scrub_rule rule = elim rule.value [
    | none ↦ rule
    | some names ↦ record rule { value = some (distinct (filter may_name names)) }
  ]

  unfoldable pub scrub_list : Option (List TreeToolRule) → Option (List TreeToolRule)
  unfolding scrub_rule
  scrub_list none = none
  scrub_list (some rules) = some (map scrub_rule rules)

  unfoldable mutual
    unfolding scrub_list

    pub scrub_rules : ScopedTree → ScopedTree
    scrub_rules (tree name rules children) = tree name (scrub_list rules) (scrub_children children)

    pub scrub_children : Children → Children
    scrub_children nil = nil
    scrub_children (cons t ts) = cons (scrub_rules t) (scrub_children ts)

-- `name.replace(/_/g, "-")`
unfoldable pub dashed : Text → Text
dashed name = map (λ c. if c == 95 then 45 else c) name

unfoldable pub find_app : (Text → Bool) → List AppLink → Option Text
find_app p [] = none
find_app p (a ∷ apps) = let later = find_app p apps in if p a.name then some a.name else later

-- The name under which the tree is an app, or the empty text. `some none` is a self name of null.
unfoldable pub self_app : List AppLink → Option (Option Text) → Option Text → Text
unfolding find_app dashed
self_app apps (some none) tree_name = []
self_app apps self_name tree_name =
    let given : Text = elim self_name [ some (some n) ↦ n | _ ↦ [] ] in
    let exact = filter (λ n. not (text_eq n [])) (given ∷ get_or tree_name [] ∷ []) in
    let same = find_app (λ n. includes exact n) apps in
    let alike = find_app (λ n. includes (map dashed exact) (dashed n)) apps in
    get_or same (get_or alike [])

unfoldable pub grant : List Text → TreeToolRule → TreeToolRule
unfolding distinct
grant kids rule = record rule { value = some (distinct (get_or rule.value [] ++ kids)) }

-- The last unconditional rule gets the children, on the list with the last rule first.
unfoldable pub grant_open : List Text → List TreeToolRule → List TreeToolRule
unfolding grant
grant_open kids [] = []
grant_open kids (r ∷ rs) =
    let rest = grant_open kids rs in if r.unconditional then grant kids r ∷ rs else r ∷ rest

unfoldable pub merge_kids : List Text → List TreeToolRule → List TreeToolRule
unfolding grant_open distinct
merge_kids kids rules =
    if any (λ r. r.unconditional) rules
    then reverse (grant_open kids (reverse rules))
    else record { unconditional = true; value = some (distinct kids); position = some 0 } ∷ rules

abbrev pub has_names : List Text → Bool
has_names [] = false
has_names (k ∷ ks) = true

unfoldable pub with_kids : List Text → ScopedTree → ScopedTree
unfolding merge_kids
with_kids kids (tree name rules children) =
    if has_names kids
    then tree name (some (merge_kids kids (get_or rules []))) children
    else tree name rules children

abbrev pub name_of : ScopedTree → Option Text
name_of (tree name rules children) = name

unfoldable pub scope_tree_tools : ScopedTree → List AppLink → Option (Option Text) → ScopedTree
unfolding scrub_rules with_kids self_app nested_names child_names top_names
scope_tree_tools def apps self_name =
    let self = self_app apps self_name (name_of def) in
    let is_app = not (text_eq self []) in
    let allowed = if is_app then child_names apps self else top_names apps in
    let scrubbed = scrub_rules (nested_names apps) allowed def in
    if is_app then with_kids (child_names apps self) scrubbed else scrubbed
