-- ===== src/Lease/Beats/Timed/Attempt.antt =====
-- The parts of an attempt keep what holds of the lease over localStorage.
use grandpa_bob.Base.{
  ℕ, ◌+◌, ◌-◌, ◌≤◌, ◌≡◌, ◌≢◌, ◌==◌, inl, inr, ==_iff, refl, sym, ◌∙◌, ap, subst, Bool, true, false,
  ◌||◌, Option, none, some, ltb, if_elim, not_both, Bool-cases, arith, if◌then◌else◌,
}
use grandpa_bob.Base.Text.{Text, text_eq_iff}
use grandpa_bob.Lease.{
  primary, secondary, LeaseRecord, Phase, Tab, idle, looked, wrote, is_primary, is_foreign,
  parse_record, start_retry, attempt_won, attempt_lost, stale_ms, verify_ms, start_heartbeat,
  notify_settled,
}
use grandpa_bob.Lease.Beats.{World, put, look, write, verify}
use grandpa_bob.Lease.Beats.Timed.Invariant.{
  IsSound, TabOk, PhaseOk, Holds, Stands, Unseen, idle_ok, put-IsSound, lost-IsSound,
}

lost_phase : (t : Tab) → (attempt_lost t).phase ≡ idle
unfolding attempt_lost start_retry
lost_phase t =
    if_elim (λ u. u.phase ≡ idle) t.stopped {x = record t { phase = idle }} (λ _. refl) (λ _. refl)

lost_status : (t : Tab) → (attempt_lost t).status ≡ t.status
unfolding attempt_lost start_retry
lost_status t =
    if_elim (λ u. u.status ≡ t.status) t.stopped {x = record t { phase = idle }} (λ _. refl)
      (λ _. refl)

pub retried_phase : (t : Tab) → (start_retry t).phase ≡ t.phase
unfolding start_retry
retried_phase t = if_elim (λ u. u.phase ≡ t.phase) t.stopped {x = t} (λ _. refl) (λ _. refl)

pub retried_status : (t : Tab) → (start_retry t).status ≡ t.status
unfolding start_retry
retried_status t = if_elim (λ u. u.status ≡ t.status) t.stopped {x = t} (λ _. refl) (λ _. refl)

won_phase : (t : Tab) → (attempt_won t).phase ≡ idle
unfolding attempt_won start_heartbeat notify_settled
won_phase t = if_elim (λ u. u.phase ≡ idle) t.stopped {x = won} (λ _. refl) (λ _. refl)
  where
    won : Tab
    won = notify_settled (record t { status = primary; phase = idle })

-- What a read that finds no other's record tells, and what a read finds while a tab holds the lease.
unseen :
    (now : ℕ) (o : Option LeaseRecord) (id : Text)
    → is_foreign id (parse_record o now) ≡ false
    → Unseen o id now
unfolding is_foreign parse_record
unseen now none id h = tt
unseen now (some e) id h = elim (Bool-cases (e.at == 0)) [
  | inl z ↦ inr (inl ((==_iff e.at 0).0 z))
  | inr z ↦ elim (Bool-cases (ltb stale_ms (now - e.at))) [
    | inl l ↦ inr (inr (inl (ground arith)))
    | inr l ↦ inl (ground (arith, text_eq_iff e.holder id))
  ]
]

is_foreign-Holds :
    (now : ℕ) (o : Option LeaseRecord) (id k : Text)
    → Holds now o k
    → id ≢ k
    → is_foreign id (parse_record o now) ≡ true
unfolding is_foreign parse_record
is_foreign-Holds now none id k h d = elim h [ ]
is_foreign-Holds now (some e) id k h d = ground (arith, text_eq_iff e.holder id, h.0, h.1, h.2)

not_foreign_own :
    (now : ℕ) (o : Option LeaseRecord) (id : Text) (s : ℕ)
    → Stands now o id s
    → is_foreign id (parse_record o now) ≡ false
    → Holds now o id
unfolding is_foreign parse_record
not_foreign_own now none id s h f = elim h [ ]
not_foreign_own now (some e) id s h f =
    (ground (arith, text_eq_iff e.holder id, h.0, h.1), h.0, h.1)

-- A tab that has read before another's record was written has written by now itself.
too_late :
    (now : ℕ) (o : Option LeaseRecord) (id k : Text) (r q : ℕ)
    → Stands now o id r
    → Holds now o id
    → PhaseOk now o k (looked q)
    → id ≢ k
    → r + verify_ms ≤ now
    → ⊥
too_late now none id k r q s h u d late = h
too_late now (some e) id k r q s h u d late = elim u.2 [
  | inl x ↦ d (sym h.0 ∙ x)
  | inr (inl z) ↦ h.1 z
  | inr (inr (inl x)) ↦ omega (arith, h.2, u.0, x)
  | inr (inr (inr x)) ↦ omega (arith, x, u.1, s.2 h.0, late)
]

or_second : (a b : Bool) → (a || b) ≡ false → b ≡ false
or_second a b h = ground arith

-- What a tab writes to claim the lease, or to keep it.
abbrev pub refreshed : Text → ℕ → Option LeaseRecord
refreshed id now = some (record { holder = id; at = now })

module _ (w : World) (s : IsSound w) (id : Text) where
  not_primary_phase :
      (p : Phase) → (w.tabs id).phase ≡ p → p ≢ idle → is_primary (w.tabs id).status ≡ false
  not_primary_phase p e n = elim (Bool-cases (is_primary (w.tabs id).status)) [
    | inl h ↦ absurd (n (sym e ∙ ((s.tab_ok id).0 h).1))
    | inr h ↦ h
  ]

  pub others_ok :
      (k : Text)
      → id ≢ k
      → is_primary (w.tabs k).status ≡ false
      → TabOk w.now (refreshed id w.now) k (w.tabs k)
  others_ok k d n = ((λ p. absurd (not_both p n)), by_phase (w.tabs k).phase (s.tab_ok k).1)
    where
      by_phase : (p : Phase) → PhaseOk w.now w.stored k p → PhaseOk w.now (refreshed id w.now) k p
      by_phase idle h = tt
      by_phase (looked r) h = (h.0, h.1, inr (inr (inr h.0)))
      by_phase (wrote r) h =
          (h.0, ((λ z. omega (arith, s.started, z)), omega arith, λ e. absurd (d e)))

  pub look-IsSound : (w.tabs id).phase ≡ idle → IsSound (look id w)
  unfolding look is_primary
  look-IsSound e =
      if_elim IsSound ((w.tabs id).stopped || is_primary (w.tabs id).status) {x = w} (λ _. s)
        (λ n.
          if_elim (λ t. IsSound (put id t w)) (is_foreign id (parse_record w.stored w.now))
            {x = attempt_lost (record (w.tabs id) { status = secondary })} {y = reading}
            (λ _.
              lost-IsSound id _ w s
                (ap is_primary (lost_status (record (w.tabs id) { status = secondary })))
                (lost_phase _))
            (λ f.
              put-IsSound id reading w.stored w s
                (
                  (λ p. absurd (not_both p (or_second _ _ n))),
                  (omega arith, omega arith, unseen w.now w.stored id f),
                )
                (λ k d. s.tab_ok k) (λ k r p. absurd (not_both p (or_second _ _ n)))
                (λ k r p d x.
                  absurd
                    (not_both (is_foreign-Holds w.now w.stored id k ((s.tab_ok k).0 p).0 d) f))))
    where
      reading : Tab
      reading = record (w.tabs id) { phase = looked w.now }

  pub write-IsSound :
      (writable : Bool) (r : ℕ) → (w.tabs id).phase ≡ looked r → IsSound (write id writable w)
  unfolding write is_primary
  write-IsSound writable r e =
      if_elim IsSound writable
        (λ _.
          put-IsSound id waiting (refreshed id w.now) w s
            (
              (λ p. absurd (not_both p n)),
              (omega arith, ((λ z. omega (arith, s.started, z)), omega arith, λ _. refl)),
            )
            (λ k d. others_ok k d (none_primary k)) (λ k q p. absurd (not_both p n))
            (λ k q p d x. absurd cc))
        (λ _.
          lost-IsSound id _ w s (ap is_primary (lost_status (w.tabs id)) ∙ n)
            (lost_phase (w.tabs id)))
    where
      waiting : Tab
      waiting = record (w.tabs id) { phase = wrote w.now }

      n : is_primary (w.tabs id).status ≡ false
      n = not_primary_phase (looked r) e cc

      none_primary : (k : Text) → is_primary (w.tabs k).status ≡ false
      none_primary k = elim (Bool-cases (is_primary (w.tabs k).status)) [
        | inl p ↦ absurd (s.none_looks k id r p e)
        | inr h ↦ h
      ]

  pub verify-IsSound :
      (r : ℕ) → (w.tabs id).phase ≡ wrote r → r + verify_ms ≤ w.now → IsSound (verify id w)
  unfolding verify is_primary
  verify-IsSound r e late =
      if_elim (λ t. IsSound (put id t w)) (w.tabs id).stopped {x = attempt_lost (w.tabs id)}
        {y = checked}
        (λ _.
          lost-IsSound id _ w s (ap is_primary (lost_status (w.tabs id)) ∙ n)
            (lost_phase (w.tabs id)))
        (λ _.
          if_elim (λ t. IsSound (put id t w)) (is_foreign id (parse_record w.stored w.now))
            {x = attempt_lost (record (w.tabs id) { status = secondary })}
            {y = attempt_won (w.tabs id)}
            (λ _.
              lost-IsSound id _ w s
                (ap is_primary (lost_status (record (w.tabs id) { status = secondary })))
                (lost_phase (record (w.tabs id) { status = secondary })))
            (λ f.
              put-IsSound id (attempt_won (w.tabs id)) w.stored w s
                (
                  (λ _. (not_foreign_own w.now w.stored id r stands f, won_phase (w.tabs id))),
                  idle_ok w.now w.stored id _ (won_phase (w.tabs id)),
                )
                (λ k d. s.tab_ok k) (λ k q p x. nobody_reads k q x f)
                (λ k q p d x. absurd (idle_looked q (sym (won_phase (w.tabs id)) ∙ x)))))
    where
      checked : Tab
      checked =
          if is_foreign id (parse_record w.stored w.now)
          then attempt_lost (record (w.tabs id) { status = secondary })
          else attempt_won (w.tabs id)

      n : is_primary (w.tabs id).status ≡ false
      n = not_primary_phase (wrote r) e cc

      stands : Stands w.now w.stored id r
      stands = (subst (PhaseOk w.now w.stored id) e (s.tab_ok id).1).1

      wrote_looked : (a b : ℕ) → wrote a ≡ looked b → ⊥
      wrote_looked a b h = cc

      nobody_reads :
          (k : Text) (q : ℕ)
          → (w.tabs k).phase ≡ looked q
          → is_foreign id (parse_record w.stored w.now) ≢ false
      nobody_reads k q x f =
          let read : PhaseOk w.now w.stored k (looked q) =
            subst (PhaseOk w.now w.stored k) x (s.tab_ok k).1 in
          too_late w.now w.stored id k r q stands (not_foreign_own w.now w.stored id r stands f)
            read (λ d. wrote_looked r q (sym e ∙ ap (λ j. (w.tabs j).phase) d ∙ x)) late

      idle_looked : (q : ℕ) → idle ≡ looked q → ⊥
      idle_looked q x = cc
