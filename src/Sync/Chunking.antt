-- ===== src/Sync/Chunking.antt =====
-- web/src/sync/chunking.ts: large envelopes as ordered chunks. `E` is the type of envelopes of any
-- other kind; `JSON.stringify` and `JSON.parse` are parameters. `max` is the frame limit, which is
-- `max_frame_chars` in the program.
pub mod Delivery
use grandpa_bob.Base.{
  ℕ, zero, suc, ◌+◌, ◌-◌, ◌*◌, ◌/◌, Bool, true, false, Option, none, some, List, [], ◌∷◌, ◌++◌, ltb,
  leb, ◌==◌, if◌then◌else◌, get_or, length, take, drop,
}
use grandpa_bob.Base.Text.{Text, text_eq}
use grandpa_bob.Base.JsMap
use grandpa_bob.Base.JsMap.{JsMap}

abbrev pub max_frame_chars : ℕ
max_frame_chars = 48 * 1024

pub record Chunk : Type 0 where
  pub transfer : Option Text
  pub seq : Option ℕ
  pub last : Bool
  pub payload : Option Text

pub data Frame (E : Type 0) : Type 0 where
  whole : E → Frame E
  chunk : Chunk → Frame E

pub record Reassembly : Type 0 where
  pub parts : List Text
  pub next : ℕ

abbrev pub fresh : Reassembly
fresh = record { parts = []; next = 0 }

-- `delivered` is what the handler has been called with; there is none until `attached`.
pub record Receiver (E : Type 0) : Type 0 where
  pub attached : Bool
  pub pending : List E
  pub transfers : JsMap Reassembly
  pub delivered : List E

-- `parts.join("")`
unfoldable pub concat : List Text → Text
concat [] = []
concat (w ∷ ws) = w ++ concat ws

-- `Math.ceil(n / max)`
abbrev pub ceil_div : ℕ → ℕ → ℕ
ceil_div n max = (n + (max - 1)) / max

module _ {E : Type 0} where
  unfoldable pub deliver : E → Receiver E → Receiver E
  deliver e r =
      if r.attached
      then record r { delivered = r.delivered ++ e ∷ [] }
      else if ltb (length r.pending) 200
      then record r { pending = r.pending ++ e ∷ [] }
      else r

  -- `onMessage` of the wrapper: a handler is set, and what waits is handed to it.
  unfoldable pub attach : Receiver E → Receiver E
  attach r = record r { attached = true; pending = []; delivered = r.delivered ++ r.pending }

  unfoldable pub deliver_parsed : Option E → Receiver E → Receiver E
  deliver_parsed none r = r
  deliver_parsed (some e) r = deliver e r

  module _ (parse : Text → Option E) where
    -- A chunk with its three fields, against the entry of its transfer.
    unfoldable pub accept : Text → ℕ → Bool → Text → Reassembly → Receiver E → Receiver E
    unfolding deliver_parsed
    accept transfer seq last payload entry r =
        if seq == entry.next
        then (let parts = entry.parts ++ payload ∷ [] in
            if last
            then deliver_parsed (parse (concat parts))
                (record r { transfers = JsMap.delete transfer r.transfers })
            else record r {
              transfers =
                  JsMap.set transfer (record { parts = parts; next = entry.next + 1 }) r.transfers;
            })
        else record r { transfers = JsMap.delete transfer r.transfers }

    on_chunk : Option Text → Option ℕ → Bool → Option Text → Receiver E → Receiver E
    unfolding accept
    on_chunk (some transfer) (some seq) last (some payload) r =
        if text_eq transfer []
        then r
        else accept transfer seq last payload (get_or (JsMap.get transfer r.transfers) fresh) r
    on_chunk _ _ last _ r = r

    unfoldable pub on_frame : Frame E → Receiver E → Receiver E
    unfolding on_chunk
    on_frame (whole e) r = deliver e r
    on_frame (chunk c) r = on_chunk c.transfer c.seq c.last c.payload r

    unfoldable pub on_frames : List (Frame E) → Receiver E → Receiver E
    on_frames [] r = r
    on_frames (f ∷ fs) r = on_frames fs (on_frame f r)

  -- The chunks `i`, `i + 1`, … of `count`, with `left` of them to go.
  unfoldable pub chunks_from : ℕ → Text → Text → ℕ → ℕ → ℕ → List (Frame E)
  chunks_from max transfer s count zero i = []
  chunks_from max transfer s count (suc left) i =
      chunk (record {
        transfer = some transfer;
        seq = some i;
        last = i == count - 1;
        payload = some (take max (drop (i * max) s));
      })
      ∷ chunks_from max transfer s count left (i + 1)

  unfoldable pub send : ℕ → (E → Text) → Text → E → List (Frame E)
  unfolding chunks_from
  send max stringify transfer e =
      let s = stringify e in
      let count = ceil_div (length s) max in
      if leb (length s) max then whole e ∷ [] else chunks_from max transfer s count count 0
