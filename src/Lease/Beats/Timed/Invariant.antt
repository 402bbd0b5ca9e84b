-- ===== src/Lease/Beats/Timed/Invariant.antt =====
-- What holds of the lease over localStorage between the steps.
use grandpa_bob.Base.{
  ℕ, ◌+◌, ◌≤◌, ◌<◌, ◌≡◌, ◌≢◌, ◌⊎◌, sym, ◌∙◌, subst, true, false, Option, none, some, if_elim,
  not_both, arith,
}
use grandpa_bob.Base.Text.{Text, text_eq, text_eq_iff}
use grandpa_bob.Lease.{
  LeaseRecord, Phase, Tab, idle, looked, wrote, is_primary, stale_ms, verify_ms,
}
use grandpa_bob.Lease.Beats.{World, put}
use grandpa_bob.Lease.Beats.Timed.{IsPrimary}

-- The stored record of a tab that is primary.
abbrev pub Holds : ℕ → Option LeaseRecord → Text → Type 0
Holds now none id = ⊥
Holds now (some e) id = (e.holder ≡ id) × (e.at ≢ 0) × (now ≤ e.at + stale_ms)

-- There is a record in force, and the tab's own is the one it wrote.
abbrev pub Stands : ℕ → Option LeaseRecord → Text → ℕ → Type 0
Stands now none id s = ⊥
Stands now (some e) id s = (e.at ≢ 0) × (now ≤ e.at + stale_ms) × (e.holder ≡ id → e.at ≡ s)

-- A record that a tab has not seen as another's when it read at the time `r`.
abbrev pub Unseen : Option LeaseRecord → Text → ℕ → Type 0
Unseen none id r = Unit
Unseen (some e) id r = (e.holder ≡ id) ⊎ ((e.at ≡ 0) ⊎ ((e.at + stale_ms < r) ⊎ (r ≤ e.at)))

abbrev pub PhaseOk : ℕ → Option LeaseRecord → Text → Phase → Type 0
PhaseOk now o id idle = Unit
PhaseOk now o id (looked r) = (r ≤ now) × (now < r + verify_ms) × Unseen o id r
PhaseOk now o id (wrote s) = (s ≤ now) × Stands now o id s

abbrev pub TabOk : ℕ → Option LeaseRecord → Text → Tab → Type 0
TabOk now o id t =
    (is_primary t.status ≡ true → Holds now o id × (t.phase ≡ idle)) × PhaseOk now o id t.phase

pub record IsSound (w : World) : Type 0 where
  pub started : 0 < w.now
  pub tab_ok : (id : Text) → TabOk w.now w.stored id (w.tabs id)
  pub none_looks : (id other : Text) (r : ℕ) → IsPrimary w id → (w.tabs other).phase ≢ looked r

-- To look at every tab after one is replaced.
pub put_elim :
    (P : Text → Tab → Type 0) (id : Text) (t : Tab) (w : World)
    → P id t
    → ((k : Text) → id ≢ k → P k (w.tabs k))
    → (k : Text) → P k ((put id t w).tabs k)
unfolding put
put_elim P id t w p others k =
    if_elim (P k) (text_eq id k) (λ h. subst (λ j. P j t) ((text_eq_iff id k).0 h) p)
      (λ h. others k (λ e. absurd (differ e h)))
  where
    differ : id ≡ k → text_eq id k ≡ false → ⊥
    differ e h = ground (arith, text_eq_iff id k)

-- A tab that is primary is the only one.
pub primary_unique :
    (w : World) → IsSound w → (id other : Text) → IsPrimary w id → IsPrimary w other → id ≡ other
primary_unique w s id other p q = same w.stored ((s.tab_ok id).0 p).0 ((s.tab_ok other).0 q).0
  where
    same : (o : Option LeaseRecord) → Holds w.now o id → Holds w.now o other → id ≡ other
    same none h k = elim h [ ]
    same (some e) h k = sym h.0 ∙ k.0

pub idle_ok :
    (now : ℕ) (o : Option LeaseRecord) (id : Text) (p : Phase) → p ≡ idle → PhaseOk now o id p
idle_ok now o id idle e = tt
idle_ok now o id (looked r) e = absurd cc
idle_ok now o id (wrote s) e = absurd cc

-- A tab and the record are replaced at once.
pub put-IsSound :
    (id : Text) (t : Tab) (o : Option LeaseRecord) (w : World)
    → IsSound w
    → TabOk w.now o id t
    → ((k : Text) → id ≢ k → TabOk w.now o k (w.tabs k))
    → ((k : Text) (r : ℕ) → is_primary t.status ≡ true → (w.tabs k).phase ≢ looked r)
    → ((k : Text) (r : ℕ) → IsPrimary w k → id ≢ k → t.phase ≢ looked r)
    → IsSound (put id t (record w { stored = o }))
unfolding put
put-IsSound id t o w s ok frame n1 n2 = record {
  started = s.started;
  tab_ok = put_elim (TabOk w.now o) id t (record w { stored = o }) ok frame;
  none_looks =
      put_elim
        (λ k u.
          (other : Text) (r : ℕ) → is_primary u.status ≡ true → (after.tabs other).phase ≢ looked r)
        id t (record w { stored = o })
        (λ other r p.
          put_elim (λ j v. v.phase ≢ looked r) id t (record w { stored = o })
            (λ e. not_idle r (sym (ok.0 p).1 ∙ e)) (λ j d. n1 j r p) other)
        (λ k d other r p.
          put_elim (λ j v. v.phase ≢ looked r) id t (record w { stored = o }) (n2 k r p d)
            (λ j d'. s.none_looks k j r p) other);
}
  where
    after : World
    after = put id t (record w { stored = o })

    not_idle : (r : ℕ) → idle ≡ looked r → ⊥
    not_idle r e = cc

-- A tab ends its attempt without the lease, or loses it.
pub lost-IsSound :
    (id : Text) (t : Tab) (w : World)
    → IsSound w
    → is_primary t.status ≡ false
    → t.phase ≡ idle
    → IsSound (put id t w)
lost-IsSound id t w s n i =
    put-IsSound id t w.stored w s
      ((λ p. absurd (not_both p n)), idle_ok w.now w.stored id t.phase i) (λ k d. s.tab_ok k)
      (λ k r p. absurd (not_both p n)) (λ k r p d e. not_idle r (sym i ∙ e))
  where
    not_idle : (r : ℕ) → idle ≡ looked r → ⊥
    not_idle r e = cc
