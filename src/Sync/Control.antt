-- ===== src/Sync/Control.antt =====
-- web/src/sync/control-peer.ts: control frames beside the engine's envelopes. `E` is the type of the
-- engine's envelopes, `C` that of control frames, and a handler is known by its name.
pub mod Order
use grandpa_bob.Base.{
  ℕ, Bool, true, false, not, List, [], ◌∷◌, ◌++◌, map, filter, length, ltb, if◌then◌else◌,
}
use grandpa_bob.Base.Text.{Text, text_eq, includes}

pub data Envelope (E C : Type 0) : Type 0 where
  control : C → Envelope E C
  engine : E → Envelope E C

-- `told` and `delivered` are the calls of the control handlers and of the engine's handler.
pub record Link (E C : Type 0) : Type 0 where
  pub attached : Bool
  pub handlers : List Text
  pub buffered : List E
  pub told : List (Text × C)
  pub delivered : List E

module _ {E C : Type 0} where
  unfoldable pub control_peer : Text → Link E C
  control_peer on_control = record {
    attached = false;
    handlers = on_control ∷ [];
    buffered = [];
    told = [];
    delivered = [];
  }

  unfoldable pub on_message : Envelope E C → Link E C → Link E C
  on_message (control c) l = record l { told = l.told ++ map (λ h. (h, c)) l.handlers }
  on_message (engine e) l =
      if l.attached
      then record l { delivered = l.delivered ++ e ∷ [] }
      else if ltb (length l.buffered) 200
      then record l { buffered = l.buffered ++ e ∷ [] }
      else l

  unfoldable pub on_messages : List (Envelope E C) → Link E C → Link E C
  unfolding on_message
  on_messages [] l = l
  on_messages (m ∷ ms) l = on_messages ms (on_message m l)

  -- `onMessage`: the engine's handler is set, and gets what waits.
  unfoldable pub attach_engine : Link E C → Link E C
  attach_engine l = record l {
    attached = true;
    buffered = [];
    delivered = l.delivered ++ l.buffered;
  }

  unfoldable pub on_control : Text → Link E C → Link E C
  on_control h l = if includes l.handlers h then l else record l { handlers = l.handlers ++ h ∷ [] }

  unfoldable pub off_control : Text → Link E C → Link E C
  off_control h l = record l { handlers = filter (λ k. not (text_eq k h)) l.handlers }
