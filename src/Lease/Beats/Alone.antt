-- ===== src/Lease/Beats/Alone.antt =====
-- A tab that tries alone gets the lease if it is free.
use grandpa_bob.Base.{
  ℕ, ◌+◌, ◌==◌, leb, ◌≡◌, refl, ◌∙◌, ap, Bool, true, false, not, ◌||◌, ◌&&◌, Option, none, some,
  arith, if◌then◌else◌, if_elim, not_both,
}
use grandpa_bob.Base.Text.{Text, text_eq, text_eq_refl}
use grandpa_bob.Lease.{
  LeaseRecord, Tab, idle, looked, primary, secondary, is_primary, is_foreign, parse_record,
  attempt_won, attempt_lost, start_retry, start_heartbeat, notify_settled,
}
use grandpa_bob.Lease.Beats.{World, put, look, write, verify, go_on, attempt}

put_own : (id : Text) (t : Tab) (w : World) → (put id t w).tabs id ≡ t
unfolding put
put_own id t w = rw text_eq_refl refl

own_not_foreign :
    (id : Text) (at now : ℕ)
    → is_foreign id (parse_record (some (record { holder = id; at = at })) now) ≡ false
unfolding is_foreign parse_record
own_not_foreign id at now = ground (arith, text_eq_refl id)

won_status : (t : Tab) → is_primary (attempt_won t).status ≡ true
unfolding attempt_won start_heartbeat notify_settled is_primary
won_status t = if_elim (λ u. is_primary u.status ≡ true) t.stopped {x = won} (λ _. refl) (λ _. refl)
  where
    won : Tab
    won = notify_settled (record t { status = primary; phase = idle })

lost : (t : Tab) → is_primary t.status ≡ false → is_primary (attempt_lost t).status ≡ false
unfolding attempt_lost start_retry
lost t h =
    if_elim (λ u. is_primary u.status ≡ false) t.stopped {x = record t { phase = idle }} (λ _. h)
      (λ _. h)

lost_idle : (t : Tab) → (attempt_lost t).phase ≡ idle
unfolding attempt_lost start_retry
lost_idle t =
    if_elim (λ u. u.phase ≡ idle) t.stopped {x = record t { phase = idle }} (λ _. refl) (λ _. refl)

-- The read of a tab that may try.
choice : Text → World → Tab
choice id w =
    if is_foreign id (parse_record w.stored w.now)
    then attempt_lost (record (w.tabs id) { status = secondary })
    else record (w.tabs id) { phase = looked w.now }

looks :
    (id : Text) (w : World)
    → ((w.tabs id).stopped || is_primary (w.tabs id).status) ≡ false
    → look id w ≡ put id (choice id w) w
unfolding look choice
looks id w h =
    if_elim (λ u. u ≡ put id (choice id w) w) ((w.tabs id).stopped || is_primary (w.tabs id).status)
      {x = w} (λ k. absurd (not_both k h)) (λ _. refl)

verify_wins :
    (id : Text) (w : World)
    → (w.tabs id).stopped ≡ false
    → is_foreign id (parse_record w.stored w.now) ≡ false
    → is_primary ((verify id w).tabs id).status ≡ true
unfolding verify
verify_wins id w h f =
    ap (λ t. is_primary t.status) (put_own id _ w)
    ∙ if_elim (λ t. is_primary t.status ≡ true) (w.tabs id).stopped {x = attempt_lost (w.tabs id)}
        (λ k. absurd (not_both k h))
        (λ _.
          if_elim (λ t. is_primary t.status ≡ true) (is_foreign id (parse_record w.stored w.now))
            {x = attempt_lost (record (w.tabs id) { status = secondary })}
            (λ k. absurd (not_both k f)) (λ _. won_status (w.tabs id)))

won :
    (id : Text) (d : ℕ) (w : World) (r : ℕ)
    → (w.tabs id).stopped ≡ false
    → is_primary ((go_on (looked r) id true d w).tabs id).status ≡ true
unfolding go_on write
won id d w r h =
    verify_wins id (record (write id true w) { now = w.now + d })
      (ap (λ t. t.stopped) (put_own id _ w) ∙ h) (own_not_foreign id w.now (w.now + d))

won_or_lost :
    (id : Text) (d : ℕ) (w : World)
    → (w.tabs id).stopped ≡ false
    → is_primary ((go_on (choice id w).phase id true d (put id (choice id w) w)).tabs id).status
      ≡ not (is_foreign id (parse_record w.stored w.now))
unfolding choice go_on is_primary
won_or_lost id d w h = cases (is_foreign id (parse_record w.stored w.now))
  where
    pick : Bool → Tab
    pick b =
        if b
        then attempt_lost (record (w.tabs id) { status = secondary })
        else record (w.tabs id) { phase = looked w.now }

    cases :
        (b : Bool)
        → is_primary ((go_on (pick b).phase id true d (put id (pick b) w)).tabs id).status ≡ not b
    cases true =
        ap (λ p. is_primary ((go_on p id true d (put id (pick true) w)).tabs id).status)
          (lost_idle _)
        ∙ ap (λ t. is_primary t.status) (put_own id (pick true) w)
        ∙ lost (record (w.tabs id) { status = secondary }) refl
    cases false =
        won id d (put id (pick false) w) w.now (ap (λ t. t.stopped) (put_own id (pick false) w) ∙ h)

-- A record of another holder that is no release mark and at most 6 s old.
unfoldable pub in_force : Text → ℕ → Option LeaseRecord → Bool
in_force id now none = false
in_force id now (some r) = not (text_eq r.holder id) && not (r.at == 0) && leb now (r.at + 6000)

foreign-parse_record :
    (id : Text) (now : ℕ) (o : Option LeaseRecord)
    → is_foreign id (parse_record o now) ≡ in_force id now o
unfolding is_foreign parse_record in_force
foreign-parse_record id now none = refl
foreign-parse_record id now (some r) = ground arith

-- An attempt of a tab that is neither stopped nor primary, with no other tab in between and a storage
-- that can be written: however long the pause is, the tab is primary afterwards exactly if no record
-- of another tab was stored, or that record is a release mark or older than 6 s.
pub attempt-in_force :
    (id : Text) (d : ℕ) (w : World)
    → ((w.tabs id).stopped || is_primary (w.tabs id).status) ≡ false
    → is_primary ((attempt id true d w).tabs id).status ≡ not (in_force id w.now w.stored)
unfolding attempt
attempt-in_force id d w h =
    ap (λ u. is_primary ((go_on (u.tabs id).phase id true d u).tabs id).status) (looks id w h)
    ∙ ap (λ t. is_primary ((go_on t.phase id true d (put id (choice id w) w)).tabs id).status)
        (put_own id (choice id w) w)
    ∙ won_or_lost id d w (running h)
    ∙ ap not (foreign-parse_record id w.now w.stored)
  where
    running :
        ((w.tabs id).stopped || is_primary (w.tabs id).status) ≡ false → (w.tabs id).stopped ≡ false
    running k = ground arith
