-- ===== src/Agent/Scope/Owner.antt =====
-- The app that a tree is, and what the tree may name after it is scoped and granted the app's children.
use grandpa_bob.Base.{
  ◌≡◌, Bool, true, false, not, ◌||◌, Option, none, some, List, [], ◌∷◌, map, filter, get_or,
  if◌then◌else◌,
}
use grandpa_bob.Base.Text.{Text, text_eq, includes}
use grandpa_bob.Agent.Scope.{
  AppLink, ScopedTree, nested_names, top_names, child_names, scrub_rules, with_kids,
}

-- The names that no app has beside `n`: none is meant, or `n` itself.
abbrev pub names_only : List AppLink → Text → Text → Bool
names_only apps n t = text_eq t [] || text_eq t n || not (includes (map (λ a. a.name) apps) t)

-- What the host and the tree say of the app that the tree is: `none` stands for no app.
pub data IsOwner (apps : List AppLink)
    : Option (Option Text) → Option Text → Option Text → Type 0 where
  as_none : {t : Option Text} → IsOwner apps (some none) t none
  as_app :
      {n : Text} {t : Option Text}
      → text_eq n [] ≡ false
      → includes (map (λ a. a.name) apps) n ≡ true
      → names_only apps n (get_or t []) ≡ true
      → IsOwner apps (some (some n)) t (some n)
  as_tree :
      {n : Text}
      → text_eq n [] ≡ false
      → includes (map (λ a. a.name) apps) n ≡ true
      → IsOwner apps none (some n) (some n)

abbrev exact : Text → Text → List Text
exact n t = filter (λ m. not (text_eq m [])) (n ∷ t ∷ [])

-- `scopeTreeTools` for the app that it has found, the empty text where the tree is none.
scoped_as : ScopedTree → List AppLink → Text → ScopedTree
scoped_as def apps self =
    let is_app = not (text_eq self []) in
    let allowed = if is_app then child_names apps self else top_names apps in
    let scrubbed = scrub_rules (nested_names apps) allowed def in
    if is_app then with_kids (child_names apps self) scrubbed else scrubbed
