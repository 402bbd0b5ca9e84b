-- ===== src/Sync/Control/Order.antt =====
-- Which envelopes the engine gets, whenever its handler is attached.
use grandpa_bob.Base.{
  ℕ, zero, suc, ◌-◌, ◌≤◌, ◌≡◌, refl, sym, ◌∙◌, ap, true, false, List, [], ◌∷◌, ◌++◌, arith, length,
  length-append, ltb, ltb→lt, take, Bool-cases, inl, inr,
}
use mathlib.Core.List.{append_assoc, append-nil}
use grandpa_bob.Base.Text.{Text}
use grandpa_bob.Sync.Control.{
  Envelope, control, engine, Link, control_peer, on_message, on_messages, attach_engine,
}

take_nil : {A : Type 0} (n : ℕ) → take {A = A} n [] ≡ []
take_nil zero = refl
take_nil (suc n) = refl

module _ {E C : Type 0} where
  unfoldable pub engine_part : List (Envelope E C) → List E
  engine_part [] = []
  engine_part (control c ∷ ms) = engine_part ms
  engine_part (engine e ∷ ms) = e ∷ engine_part ms

  waits :
      (ms : List (Envelope E C)) (l : Link E C)
      → l.attached ≡ false
      → length l.buffered ≤ 200
      → ((on_messages ms l).buffered
          ≡ l.buffered ++ take (200 - length l.buffered) (engine_part ms))
        × ((on_messages ms l).delivered ≡ l.delivered)
  unfolding on_messages on_message engine_part
  waits [] l a h = (
    sym (ap (λ r. l.buffered ++ r) (take_nil (200 - length l.buffered)) ∙ append-nil l.buffered),
    refl,
  )
  waits (control c ∷ ms) l a h = waits ms (on_message (control c) l) a h
  waits (engine e ∷ ms) l a h = elim (Bool-cases (ltb (length l.buffered) 200)) [
    | inl room ↦
        let l' : Link E C = record l { buffered = l.buffered ++ e ∷ [] } in
        let step : on_message (engine e) l ≡ l' = rw (a, room) refl in
        let size = length-append l.buffered (e ∷ []) in
        let rest = waits ms l' a (omega (arith, size, ltb→lt (length l.buffered) 200 room)) in
        let left : 200 - length l.buffered ≡ suc (200 - length l'.buffered) =
          omega (arith, size, ltb→lt (length l.buffered) 200 room) in
        (
          ap (λ q. (on_messages ms q).buffered) step
              ∙ rest.0
              ∙ append_assoc l.buffered (e ∷ []) (take (200 - length l'.buffered) (engine_part ms))
              ∙ ap (λ n. l.buffered ++ take n (e ∷ engine_part ms)) (sym left),
          ap (λ q. (on_messages ms q).delivered) step ∙ rest.1,
        )
    | inr full ↦
        let step : on_message (engine e) l ≡ l = rw (a, full) refl in
        let rest = waits ms l a h in
        let left : 200 - length l.buffered ≡ 0 = ground arith in
        (
          ap (λ q. (on_messages ms q).buffered) step
              ∙ rest.0
              ∙ ap (λ n. l.buffered ++ take n (engine_part ms)) left
              ∙ ap (λ n. l.buffered ++ take n (e ∷ engine_part ms)) (sym left),
          ap (λ q. (on_messages ms q).delivered) step ∙ rest.1,
        )
  ]

  passes :
      (ms : List (Envelope E C)) (l : Link E C)
      → l.attached ≡ true
      → (on_messages ms l).delivered ≡ l.delivered ++ engine_part ms
  unfolding on_messages on_message engine_part
  passes [] l a = sym (append-nil l.delivered)
  passes (control c ∷ ms) l a = passes ms (on_message (control c) l) a
  passes (engine e ∷ ms) l a =
      let l' : Link E C = record l { delivered = l.delivered ++ e ∷ [] } in
      let step : on_message (engine e) l ≡ l' = rw a refl in
      ap (λ q. (on_messages ms q).delivered) step
      ∙ passes ms l' a
      ∙ append_assoc l.delivered (e ∷ []) (engine_part ms)

  -- The engine gets the first 200 of its envelopes that come before its handler is attached, and no
  -- more of them, and then all that come later: in their order and none twice, whatever control frames
  -- stand between them.
  pub on_messages-attach_engine :
      (handler : Text) (early later : List (Envelope E C))
      → (on_messages later (attach_engine (on_messages early (control_peer handler)))).delivered
        ≡ take 200 (engine_part early) ++ engine_part later
  unfolding attach_engine control_peer
  on_messages-attach_engine handler early later =
      let before = waits early (control_peer handler) refl (omega arith) in
      passes later (attach_engine (on_messages early (control_peer handler))) refl
      ∙ rw (before.0, before.1) refl
