-- ===== src/Platform/Memory.antt =====
-- web/src/platform/memory.ts: `createMemoryFs`. The map of nodes is the state, and a thrown error is
-- a value. `ensureDir` walks the path, which may end in a separator, and its parents, the deepest
-- first, which is the list that `lineage` gives.
pub mod Written
use grandpa_bob.Base.{
  ℕ, ◌+◌, Bool, true, false, not, ◌&&◌, ◌||◌, Option, none, some, List, [], ◌∷◌, ◌++◌, reverse,
  filter, length, drop, if◌then◌else◌, any,
}
use grandpa_bob.Base.Text.{Text, text_eq, split, starts_with, includes}
use grandpa_bob.Base.Text
use grandpa_bob.Base.JsMap
use grandpa_bob.Base.JsMap.{JsMap}
use grandpa_bob.Platform.Paths.{resolve, dirname, sep, normalize_parts}

pub data Content : Type 0 where
  chars : Text → Content
  bytes : List ℕ → Content

pub data Node : Type 0 where
  file : Content → ℕ → Node
  dir : ℕ → Node

abbrev pub Nodes : Type 0
Nodes = JsMap Node

pub data FsError : Type 0 where
  not_found is_a_directory not_a_directory not_a_file : Text → FsError

pub data Result (A : Type 0) : Type 0 where
  ok : A → Result A
  failed : FsError → Result A

unfoldable pub then_with : {A B : Type 0} → Result A → (A → Result B) → Result B
then_with (ok a) f = f a
then_with (failed e) f = failed e

unfoldable pub absolute : Text → Text
absolute p = resolve (sep ∷ p ∷ [])

-- The paths of a stack of names and of the stacks below it, the root left out.
unfoldable pub lineage : List Text → List Text
lineage [] = []
lineage (x ∷ xs) = (47 ∷ Text.join 47 (reverse (x ∷ xs))) ∷ lineage xs

unfoldable pub make_dirs : ℕ → List Text → Nodes → Result Nodes
make_dirs now [] nodes = ok nodes
make_dirs now (abs ∷ parents) nodes =
    let made = then_with (make_dirs now parents nodes) (λ m. ok (JsMap.set abs (dir now) m)) in
    elim (JsMap.get abs nodes) [
      | none ↦ made
      | some (file c t) ↦ failed (not_a_directory abs)
      | some (dir t) ↦ ok nodes
    ]

unfoldable pub ensure_dir : ℕ → Text → Nodes → Result Nodes
unfolding make_dirs lineage absolute
ensure_dir now p nodes =
    let abs = absolute p in
    let parents = lineage (reverse (normalize_parts false (split 47 (dirname abs)))) in
    if text_eq abs sep then ok nodes else make_dirs now (abs ∷ parents) nodes

unfoldable pub require_dir : Text → Nodes → Option FsError
require_dir abs nodes = elim (JsMap.get abs nodes) [
  | none ↦ some (not_found abs)
  | some (file c t) ↦ some (not_a_directory abs)
  | some (dir t) ↦ none
]

-- `decode` is `TextDecoder`.
unfoldable pub read_node : (List ℕ → Text) → Text → Option Node → Result Text
read_node decode p none = failed (not_found p)
read_node decode p (some (dir t)) = failed (is_a_directory p)
read_node decode p (some (file (chars s) t)) = ok s
read_node decode p (some (file (bytes b) t)) = ok (decode b)

unfoldable pub read_file : (List ℕ → Text) → Text → Nodes → Result Text
unfolding absolute read_node
read_file decode p nodes = read_node decode p (JsMap.get (absolute p) nodes)

unfoldable pub write_file : ℕ → Text → Content → Nodes → Result Nodes
unfolding ensure_dir then_with
write_file now p c nodes =
    let abs = absolute p in
    then_with (ensure_dir now (dirname abs) nodes) (λ m. ok (JsMap.set abs (file c now) m))

abbrev pub mkdir : ℕ → Text → Nodes → Result Nodes
mkdir now p nodes = ensure_dir now p nodes

abbrev first_segment : Text → Text
first_segment rest = elim (split 47 rest) [ [] ↦ [] | w ∷ ws ↦ w ]

abbrev is_dir : Node → Bool
is_dir (dir t) = true
is_dir (file c t) = false

-- The entries below `abs`: each name once, and whether it is a directory.
unfoldable pub list_entries : Text → Text → Nodes → List Text → List (Text × Bool)
list_entries abs prefix [] seen = []
list_entries abs prefix ((key, node) ∷ nodes) seen =
    let rest = drop (length prefix) key in
    let name = first_segment rest in
    let skipped = list_entries abs prefix nodes seen in
    let taken = list_entries abs prefix nodes (name ∷ seen) in
    if text_eq key abs || not (starts_with prefix key) || includes seen name
    then skipped
    else (name, is_dir node || any (λ c. text_eq (c ∷ []) sep) rest) ∷ taken

unfoldable pub readdir : Text → Nodes → Result (List (Text × Bool))
unfolding require_dir list_entries absolute
readdir p nodes =
    let abs = absolute p in
    elim (require_dir abs nodes) [
      | some e ↦ failed e
      | none ↦ ok (list_entries abs (if text_eq abs sep then sep else abs ++ sep) nodes [])
    ]

unfoldable pub stat : Text → Nodes → Result Node
unfolding absolute
stat p nodes = elim (JsMap.get (absolute p) nodes) [ none ↦ failed (not_found p) | some n ↦ ok n ]

unfoldable pub within : Text → Text → Bool
within abs key = text_eq key abs || starts_with (abs ++ sep) key

-- `rm`: the node and all below it.
unfoldable pub rm : Text → Nodes → Result Nodes
unfolding within absolute
rm p nodes =
    let abs = absolute p in
    if JsMap.has abs nodes
    then ok (filter (λ e. not (within abs e.0)) nodes)
    else failed (not_found p)

unfoldable pub moves : Text → Text → Nodes → Nodes
unfolding within
moves src dst [] = []
moves src dst ((key, node) ∷ nodes) =
    let rest = moves src dst nodes in
    if text_eq key src
    then (dst, node) ∷ rest
    else if starts_with (src ++ sep) key
    then (dst ++ drop (length src) key, node) ∷ rest
    else rest

unfoldable pub set_all : Nodes → Nodes → Nodes
set_all [] nodes = nodes
set_all ((key, node) ∷ es) nodes = set_all es (JsMap.set key node nodes)

unfoldable pub rename : ℕ → Text → Text → Nodes → Result Nodes
unfolding moves set_all within absolute ensure_dir then_with
rename now from to nodes =
    let src = absolute from in
    let dst = absolute to in
    if JsMap.has src nodes
    then then_with (ensure_dir now (dirname dst) nodes)
        (λ m. ok (set_all (moves src dst m) (filter (λ e. not (within src e.0)) m)))
    else failed (not_found from)

unfoldable pub copy_file : ℕ → Text → Text → Nodes → Result Nodes
unfolding absolute ensure_dir then_with
copy_file now from to nodes =
    let dst = absolute to in
    elim (JsMap.get (absolute from) nodes) [
      | none ↦ failed (not_found from)
      | some (dir t) ↦ failed (not_a_file from)
      | some (file c t) ↦
          then_with (ensure_dir now (dirname dst) nodes) (λ m. ok (JsMap.set dst (file c t) m))
    ]
