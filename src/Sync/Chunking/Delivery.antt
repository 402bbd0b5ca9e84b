-- ===== src/Sync/Chunking/Delivery.antt =====
-- A sent envelope arrives once and whole.
use grandpa_bob.Base.{
  ℕ, zero, suc, ◌+◌, ◌-◌, ◌*◌, ◌≤◌, ◌<◌, ◌≡◌, refl, sym, ◌∙◌, ap, subst, Bool, true, false, Option,
  none, some, List, [], ◌∷◌, ◌++◌, arith, leb, ◌==◌, get_or, length, take, drop, take-add, take_all,
  Bool-cases, inl, inr,
}
use mathlib.Core.List.{append_assoc, append-nil}
use grandpa_bob.Base.Text.{Text, text_eq, text_eq_refl}
use grandpa_bob.Base.JsMap
use grandpa_bob.Base.JsMap.{JsMap, get-set, delete-set}
use grandpa_bob.Base.JsMap.Size.{delete_absent}
use grandpa_bob.Sync.Chunking.{
  Chunk, chunk, Reassembly, Receiver, concat, deliver, deliver_parsed, accept, fresh, on_frame,
  on_frames, chunks_from, send, ceil_div,
}

concat-append : (ws : List Text) (w : Text) → concat (ws ++ w ∷ []) ≡ concat ws ++ w
unfolding concat
concat-append [] w = append-nil w
concat-append (v ∷ ws) w =
    ap (λ r. v ++ r) (concat-append ws w) ∙ sym (append_assoc v (concat ws) w)

-- Enough chunks for the whole text.
ceil_div_enough : (n max : ℕ) → 0 < max → n ≤ ceil_div n max * max
ceil_div_enough n max h = grind arith

ceil_div_pos : (n max : ℕ) → 0 < max → max < n → 0 < ceil_div n max
ceil_div_pos n max h k = grind arith

abbrev nth : Text → ℕ → Bool → Text → Chunk
nth transfer i last d = record {
  transfer = some transfer;
  seq = some i;
  last = last;
  payload = some d;
}

abbrev read_so_far : List Text → ℕ → Reassembly
read_so_far parts i = record { parts = parts; next = i }

module _ {E : Type 0} (parse : Text → Option E) (transfer : Text)
    (named : text_eq transfer [] ≡ false) (parts : List Text) (i : ℕ) (d : Text) (r : Receiver E)
    (stored : get_or (JsMap.get transfer r.transfers) fresh ≡ read_so_far parts i) where
  chunk_stored : on_frame parse (chunk (nth transfer i false d)) r ≡ record r {
    transfers = JsMap.set transfer (read_so_far (parts ++ d ∷ []) (i + 1)) r.transfers;
  }
  unfolding on_frame accept
  chunk_stored = rw (named, stored) (ground arith)

  chunk_completes :
      (e : E)
      → parse (concat (parts ++ d ∷ [])) ≡ some e
      → on_frame parse (chunk (nth transfer i true d)) r
        ≡ deliver e (record r { transfers = JsMap.delete transfer r.transfers })
  unfolding on_frame accept deliver_parsed
  chunk_completes e reads = rw (named, stored, reads) (ground arith)

-- One more slice of the text.
slice :
    (max i : ℕ) (s : Text) (parts : List Text)
    → concat parts ≡ take (i * max) s
    → concat (parts ++ take max (drop (i * max) s) ∷ []) ≡ take ((i + 1) * max) s
slice max i s parts h =
    let e : (i + 1) * max ≡ i * max + max = grind arith in
    concat-append parts (take max (drop (i * max) s)) ∙ rw (h, e) (sym (take-add (i * max) max s))

module _ {E : Type 0} (parse : Text → Option E) (max : ℕ) (transfer s : Text) (count : ℕ)
    (named : text_eq transfer [] ≡ false) (enough : length s ≤ count * max) (e : E)
    (reads : parse s ≡ some e) where
  rest_arrives :
      (left i : ℕ) (parts : List Text) (r : Receiver E)
      → get_or (JsMap.get transfer r.transfers) fresh ≡ read_so_far parts i
      → concat parts ≡ take (i * max) s
      → i + suc left ≡ count
      → on_frames parse (chunks_from max transfer s count (suc left) i) r
        ≡ deliver e (record r { transfers = JsMap.delete transfer r.transfers })
  unfolding on_frames chunks_from
  rest_arrives zero i parts r st h c =
      let d = take max (drop (i * max) s) in
      let at_end : (i == count - 1) ≡ true = ground arith in
      let all_read : concat (parts ++ d ∷ []) ≡ s =
        slice max i s parts h ∙ take_all ((i + 1) * max) s (grind arith) in
      rw at_end (chunk_completes parse transfer named parts i d r st e (ap parse all_read ∙ reads))
  rest_arrives (suc left) i parts r st h c =
      let d = take max (drop (i * max) s) in
      let more : (i == count - 1) ≡ false = ground arith in
      let r1 : Receiver E = record r {
        transfers = JsMap.set transfer (read_so_far (parts ++ d ∷ []) (i + 1)) r.transfers;
      } in
      rw more (
        ap (on_frames parse (chunks_from max transfer s count (suc left) (i + 1)))
          (chunk_stored parse transfer named parts i d r st)
        ∙ rest_arrives left (i + 1) (parts ++ d ∷ []) r1 (rw get-set (rw (text_eq_refl transfer)))
            (slice max i s parts h) (omega arith)
        ∙ rw delete-set)

-- For a frame limit that is not 0, a transfer id that is not empty and not in use, and an envelope
-- that the codec reads back: the frames that are sent for it, given to the other side in order,
-- deliver exactly that envelope and leave no trace of the transfer.
pub on_frames-send :
    {E : Type 0} (stringify : E → Text) (parse : Text → Option E) (max : ℕ) (transfer : Text)
    (e : E) (r : Receiver E)
    → 0 < max
    → text_eq transfer [] ≡ false
    → JsMap.get transfer r.transfers ≡ none
    → parse (stringify e) ≡ some e
    → on_frames parse (send max stringify transfer e) r ≡ deliver e r
unfolding send on_frames on_frame concat
on_frames-send stringify parse max transfer e r pos named unused reads =
    elim (Bool-cases (leb (length (stringify e)) max)) [
      | inl small ↦ rw small
      | inr large ↦ rw large (
          chunks (ceil_div (length (stringify e)) max) refl
            (ceil_div_pos (length (stringify e)) max pos (ground arith)))
    ]
  where
    chunks :
        (count : ℕ)
        → ceil_div (length (stringify e)) max ≡ count
        → 0 < count
        → on_frames parse (chunks_from max transfer (stringify e) count count 0) r ≡ deliver e r
    chunks zero c p = absurd (omega arith)
    chunks (suc left) c p =
        let n = length (stringify e) in
        let enough : n ≤ suc left * max = subst (λ k. n ≤ k * max) c (ceil_div_enough n max pos) in
        let none_yet : 0 ≡ 0 * max = grind arith in
        let nothing : concat [] ≡ take (0 * max) (stringify e) =
          ap (λ k. take k (stringify e)) none_yet in
        rest_arrives parse max transfer (stringify e) (suc left) named enough e reads left 0 [] r
          (rw unused) nothing (omega arith)
        ∙ ap (λ t. deliver e (record r { transfers = t }))
            (delete_absent transfer r.transfers unused)
