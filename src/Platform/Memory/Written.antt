-- ===== src/Platform/Memory/Written.antt =====
-- What is read after a write and after a removal.
use grandpa_bob.Base.{
  ℕ, ◌≡◌, sym, ap, true, not, none, some, List, [], ◌∷◌, arith, filter, if◌then◌else◌, Bool-cases,
  inl, inr,
}
use grandpa_bob.Base.Text.{Text, text_eq, text_eq_iff}
use grandpa_bob.Base.JsMap
use grandpa_bob.Base.JsMap.{JsMap}
use grandpa_bob.Platform.Paths.{dirname}
use grandpa_bob.Platform.Memory.{
  Content, chars, bytes, Node, file, dir, Nodes, FsError, not_a_directory, stat, Result, ok, failed,
  then_with, absolute, read_file, within, rm,
}

-- What a written content reads as.
abbrev pub read_as : (List ℕ → Text) → Content → Text
read_as decode (chars s) = s
read_as decode (bytes b) = decode b

-- Every node is still there.
abbrev Keeps : Nodes → Nodes → Type 0
Keeps nodes m = (k : Text) (n : Node) → JsMap.get k nodes ≡ some n → JsMap.get k m ≡ some n

abbrev HasHead : List Text → Nodes → Type 0
HasHead [] m = Unit
HasHead (a ∷ ps) m = (t : ℕ) × (JsMap.get a m ≡ some (dir t))

-- The error names a path at which there is a file.
abbrev pub IsBlocked : Nodes → FsError → Type 0
IsBlocked nodes e =
    (a : Text) × (c : Content) × (t : ℕ) × (e ≡ not_a_directory a)
    × (JsMap.get a nodes ≡ some (file c t))

abbrev MakesDirs : List Text → Nodes → Result Nodes → Type 0
MakesDirs ps nodes (ok m) = Keeps nodes m × HasHead ps m
MakesDirs ps nodes (failed e) = IsBlocked nodes e

-- What a write does to the read of its path, to the directory above and to another path.
abbrev pub IsWritten :
    (List ℕ → Text) → Text → Content → Text → Node → Nodes → Result Nodes → Type 0
IsWritten decode p c q n nodes (ok m) =
    (read_file decode p m ≡ ok (read_as decode c))
    × ((t : ℕ) × (stat (dirname (absolute p)) m ≡ ok (dir t)))
    × (stat q m ≡ ok n)
IsWritten decode p c q n nodes (failed e) = IsBlocked nodes e

get-filter-within :
    (abs key : Text) (nodes : Nodes)
    → JsMap.get key (filter (λ e. not (within abs e.0)) nodes)
      ≡ (if within abs key then none else JsMap.get key nodes)
unfolding JsMap.get filter
get-filter-within abs key [] = ground arith
get-filter-within abs key ((k, n) ∷ nodes) = elim (Bool-cases (text_eq k key)) [
  | inl e ↦
      let same : k ≡ key = ground (arith, text_eq_iff k key) in
      let alike : within abs key ≡ within abs k = ap (within abs) (sym same) in
      ground (arith, get-filter-within abs key nodes, e, alike)
  | inr e ↦ ground (arith, get-filter-within abs key nodes, e)
]

-- A removal that succeeds leaves no node at the path or below it, and every other node as it was.
pub get-rm :
    (p key : Text) (nodes : Nodes)
    → JsMap.has (absolute p) nodes ≡ true
    → then_with (rm p nodes) (λ m. ok (JsMap.get key m))
      ≡ ok (if within (absolute p) key then none else JsMap.get key nodes)
unfolding rm then_with
get-rm p key nodes h = rw h (ap ok (get-filter-within (absolute p) key nodes))
