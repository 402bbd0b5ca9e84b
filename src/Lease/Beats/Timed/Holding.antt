-- ===== src/Lease/Beats/Timed/Holding.antt =====
-- The beat, the ways to give the lease up and the clock keep what holds of the lease over localStorage.
use grandpa_bob.Base.{
  ℕ, ◌+◌, ◌≤◌, ◌≡◌, ◌≢◌, inl, inr, refl, sym, ◌∙◌, ap, subst, Bool, true, false, not, ◌||◌, Option,
  none, some, if_elim, not_both, Bool-cases, arith, if◌then◌else◌,
}
use grandpa_bob.Base.Text.{Text, text_eq, text_eq_iff}
use grandpa_bob.Lease.{
  secondary, free, LeaseRecord, Phase, Tab, idle, looked, wrote, is_primary, is_foreign,
  parse_record, start_retry, stale_ms,
}
use grandpa_bob.Lease.Beats.{World, put, beat, yield_to, release, retry, advance, marked}
use grandpa_bob.Lease.Beats.Timed.{IsPrimary, NoneWaits, Timely}
use grandpa_bob.Lease.Beats.Timed.Invariant.{
  IsSound, TabOk, PhaseOk, Holds, Stands, idle_ok, put-IsSound, lost-IsSound, primary_unique,
}
use grandpa_bob.Lease.Beats.Timed.Attempt.{
  refreshed, others_ok, look-IsSound, retried_phase, retried_status,
}

module _ (w : World) (s : IsSound w) (id : Text) where
  -- A change of the timers alone.
  kept-IsSound :
      (t : Tab) → t.status ≡ (w.tabs id).status → t.phase ≡ (w.tabs id).phase → IsSound (put id t w)
  kept-IsSound t e f =
      put-IsSound id t w.stored w s
        (
          (λ p. (
            ((s.tab_ok id).0 (ap is_primary (sym e) ∙ p)).0,
            f ∙ ((s.tab_ok id).0 (ap is_primary (sym e) ∙ p)).1,
          )),
          subst (PhaseOk w.now w.stored id) (sym f) (s.tab_ok id).1,
        )
        (λ k d. s.tab_ok k) (λ k r p. s.none_looks id k r (ap is_primary (sym e) ∙ p))
        (λ k r p d x. s.none_looks k id r p (sym f ∙ x))

  others_secondary : IsPrimary w id → (k : Text) → id ≢ k → is_primary (w.tabs k).status ≡ false
  others_secondary p k d = elim (Bool-cases (is_primary (w.tabs k).status)) [
    | inl q ↦ absurd (d (primary_unique w s id k p q))
    | inr h ↦ h
  ]

  refreshed-IsSound : IsPrimary w id → IsSound (record w { stored = refreshed id w.now })
  refreshed-IsSound p = record {
    started = s.started;
    tab_ok = λ k. elim (Bool-cases (text_eq id k)) [
      | inl h ↦
          subst (λ j. TabOk w.now (refreshed id w.now) j (w.tabs j)) ((text_eq_iff id k).0 h)
            (
              (λ _.
                  ((refl, (λ z. omega (arith, s.started, z)), omega arith), ((s.tab_ok id).0 p).1)),
              idle_ok w.now (refreshed id w.now) id (w.tabs id).phase ((s.tab_ok id).0 p).1,
            )
      | inr h ↦
          others_ok w s id k (λ e. absurd (ground (arith, text_eq_iff id k)))
            (others_secondary p k (λ e. absurd (ground (arith, text_eq_iff id k))))
    ];
    none_looks = s.none_looks;
  }

  pub beat-IsSound : (writable : Bool) → IsSound (beat id writable w)
  unfolding beat is_primary
  beat-IsSound writable =
      if_elim IsSound ((w.tabs id).stopped || not (is_primary (w.tabs id).status))
        {x = put id silenced w} {y = going} (λ _. kept-IsSound silenced refl refl)
        (λ n.
          if_elim IsSound (is_foreign id (parse_record w.stored w.now))
            {x = put id (start_retry demoted) w} {y = writing}
            (λ _.
              lost-IsSound id (start_retry demoted) w s (ap is_primary (retried_status demoted))
                (retried_phase demoted ∙ ((s.tab_ok id).0 (is_first n)).1))
            (λ _. if_elim IsSound writable {y = w} (λ _. refreshed-IsSound (is_first n)) (λ _. s)))
    where
      silenced : Tab
      silenced = record (w.tabs id) { beating = false }

      demoted : Tab
      demoted = record (w.tabs id) { status = secondary }

      writing : World
      writing = if writable then record w { stored = refreshed id w.now } else w

      going : World
      going =
          if is_foreign id (parse_record w.stored w.now)
          then put id (start_retry demoted) w
          else writing

      is_first :
          ((w.tabs id).stopped || not (is_primary (w.tabs id).status)) ≡ false → IsPrimary w id
      is_first h = ground arith

  -- The release mark, while no attempt waits.
  marked_ok :
      IsPrimary w id
      → NoneWaits w
      → (writable : Bool) (k : Text) → id ≢ k
      → TabOk w.now (marked id writable w.stored) k (w.tabs k)
  unfolding marked
  marked_ok p quiet writable k d =
      if_elim (λ o. TabOk w.now o k (w.tabs k)) writable
        (λ _. ((λ q. absurd (not_both q (others_secondary p k d))), by_phase (w.tabs k).phase refl))
        (λ _. s.tab_ok k)
    where
      by_phase :
          (f : Phase)
          → (w.tabs k).phase ≡ f
          → PhaseOk w.now (some (record { holder = id; at = 0 })) k f
      by_phase idle e = tt
      by_phase (looked r) e = absurd (s.none_looks id k r p e)
      by_phase (wrote r) e = absurd (quiet k r e)

  given_up-IsSound :
      (t : Tab) (writable : Bool)
      → IsPrimary w id
      → NoneWaits w
      → is_primary t.status ≡ false
      → t.phase ≡ idle
      → IsSound (put id t (record w { stored = marked id writable w.stored }))
  given_up-IsSound t writable p quiet n i =
      put-IsSound id t (marked id writable w.stored) w s
        ((λ q. absurd (not_both q n)), idle_ok w.now (marked id writable w.stored) id t.phase i)
        (marked_ok p quiet writable) (λ k r q. absurd (not_both q n))
        (λ k r q d x. idle_looked r (sym i ∙ x))
    where
      idle_looked : (q : ℕ) → idle ≡ looked q → ⊥
      idle_looked q x = cc

  pub yield_to-IsSound : (writable : Bool) → NoneWaits w → IsSound (yield_to id writable w)
  unfolding yield_to is_primary
  yield_to-IsSound writable quiet =
      if_elim IsSound (not (is_primary (w.tabs id).status)) {x = w} {y = yielded} (λ _. s)
        (λ h.
          given_up-IsSound (start_retry left) writable (holds h) quiet
            (ap is_primary (retried_status left))
            (retried_phase left ∙ ((s.tab_ok id).0 (holds h)).1))
    where
      left : Tab
      left = record (w.tabs id) { beating = false; status = secondary }

      yielded : World
      yielded = put id (start_retry left) (record w { stored = marked id writable w.stored })

      holds : not (is_primary (w.tabs id).status) ≡ false → IsPrimary w id
      holds h = ground arith

  pub release-IsSound : (writable : Bool) → NoneWaits w → IsSound (release id writable w)
  unfolding release is_primary
  release-IsSound writable quiet =
      if_elim (λ o. IsSound (put id gone (record w { stored = o }))) (is_primary (w.tabs id).status)
        (λ p. given_up-IsSound gone writable p quiet refl ((s.tab_ok id).0 p).1)
        (λ _.
          put-IsSound id gone w.stored w s ((λ q. absurd (not_both q refl)), (s.tab_ok id).1)
            (λ k d. s.tab_ok k) (λ k r q. absurd (not_both q refl))
            (λ k r p d x. s.none_looks k id r p x))
    where
      gone : Tab
      gone = record (w.tabs id) { stopped = true; retrying = false; beating = false; status = free }

  pub retry-IsSound : (w.tabs id).phase ≡ idle → IsSound (retry id w)
  unfolding retry
  retry-IsSound e =
      if_elim IsSound ((w.tabs id).stopped || is_primary (w.tabs id).status)
        (λ _. kept-IsSound (record (w.tabs id) { retrying = false }) refl refl)
        (λ _. look-IsSound w s id e)

pub advance-IsSound : (d : ℕ) (w : World) → Timely d w → IsSound w → IsSound (advance d w)
unfolding advance
advance-IsSound d w t s = record {
  started = omega (arith, s.started);
  tab_ok = λ k. (
    (λ p. (later_holds k w.stored (t.fresh k (inl p)) ((s.tab_ok k).0 p).0, ((s.tab_ok k).0 p).1)),
    by_phase k (w.tabs k).phase refl,
  );
  none_looks = s.none_looks;
}
  where
    later_holds :
        (k : Text) (o : Option LeaseRecord)
        → ((e : LeaseRecord) → o ≡ some e → w.now + d ≤ e.at + stale_ms)
        → Holds w.now o k
        → Holds (w.now + d) o k
    later_holds k none f h = elim h [ ]
    later_holds k (some e) f h = (h.0, h.1, f e refl)

    later_stands :
        (k : Text) (r : ℕ) (o : Option LeaseRecord)
        → ((e : LeaseRecord) → o ≡ some e → w.now + d ≤ e.at + stale_ms)
        → Stands w.now o k r
        → Stands (w.now + d) o k r
    later_stands k r none f h = elim h [ ]
    later_stands k r (some e) f h = (h.0, f e refl, h.2)

    by_phase : (k : Text) (p : Phase) → (w.tabs k).phase ≡ p → PhaseOk (w.now + d) w.stored k p
    by_phase k idle e = tt
    by_phase k (looked r) e =
        let h : PhaseOk w.now w.stored k (looked r) =
          subst (PhaseOk w.now w.stored k) e (s.tab_ok k).1 in
        (omega (arith, h.0), t.prompt k r e, h.2)
    by_phase k (wrote r) e =
        let h : PhaseOk w.now w.stored k (wrote r) =
          subst (PhaseOk w.now w.stored k) e (s.tab_ok k).1 in
        (omega (arith, h.0), later_stands k r w.stored (t.fresh k (inr (r, e))) h.1)
