-- ===== src/Agent/Watchdog/Report.antt =====
-- Which runs a check reports, for a callback that leaves the runs alone.
use grandpa_bob.Base.{
  ℕ, ◌-◌, leb, ◌≡◌, refl, sym, ◌∙◌, ap, subst, Bool, false, none, List, [], ◌∷◌, ◌++◌, arith,
  if◌then◌else◌, Bool-cases, inl, inr,
}
use mathlib.Core.List.{append_assoc}
use grandpa_bob.Base.Text.{Text, text_eq, text_eq_refl, text_eq_comm}
use grandpa_bob.Base.JsMap
use grandpa_bob.Base.JsMap.{JsMap, get-delete}
use grandpa_bob.Base.JsMap.Size.{HasUniqueKeys, delete_absent, delete-HasUniqueKeys}
use grandpa_bob.Agent.Watchdog.{LiveRun, Runs, is_stale, check_each, check}

abbrev pub leave : LiveRun → Runs → Runs
leave run runs = runs

key_apart :
    (j k : Text) (run : LiveRun) (before rest : Runs)
    → JsMap.get j (before ++ (k, run) ∷ rest) ≡ none
    → text_eq j k ≡ false
unfolding JsMap.get
key_apart j k run [] rest h = ground (arith, text_eq_comm j k)
key_apart j k run ((i, w) ∷ before) rest h = key_apart j k run before rest (ground arith)

delete_middle :
    (k : Text) (run : LiveRun) (before rest : Runs)
    → HasUniqueKeys (before ++ (k, run) ∷ rest)
    → JsMap.delete k (before ++ (k, run) ∷ rest) ≡ before ++ rest
unfolding JsMap.delete
delete_middle k run [] rest u = rw (text_eq_refl k) (delete_absent k rest u.0)
delete_middle k run ((j, w) ∷ before) rest u =
    rw (key_apart j k run before rest u.0)
      (ap (λ r. (j, w) ∷ r) (delete_middle k run before rest u.1))

module _ (limit now : ℕ) where
  -- Silent for the limit.
  unfoldable pub late : LiveRun → Bool
  late run = leb limit (now - run.last_activity_at)

  is_stale_lem : (run : LiveRun) → is_stale limit now run ≡ late run
  unfolding is_stale late
  is_stale_lem run = ground arith

  -- The runs that a check leaves.
  unfoldable pub active : Runs → Runs
  unfolding late
  active [] = []
  active ((k, run) ∷ runs) = let rest = active runs in if late run then rest else (k, run) ∷ rest

  unfoldable pub overdue : Runs → List LiveRun
  unfolding late
  overdue [] = []
  overdue ((k, run) ∷ runs) = let rest = overdue runs in if late run then run ∷ rest else rest

  -- The loop over a snapshot that is the second part of the runs.
  check_each_lem :
      (before snapshot : Runs)
      → HasUniqueKeys (before ++ snapshot)
      → check_each leave limit now snapshot (before ++ snapshot)
        ≡ (overdue snapshot, before ++ active snapshot)
  unfolding check_each overdue active
  check_each_lem before [] u = refl
  check_each_lem before ((k, run) ∷ snapshot) u = elim (Bool-cases (late run)) [
    | inl e ↦
        let gone = delete_middle k run before snapshot u in
        let left : HasUniqueKeys (before ++ snapshot) =
          subst HasUniqueKeys gone (delete-HasUniqueKeys k (before ++ (k, run) ∷ snapshot) u) in
        let rest =
          ap (check_each leave limit now snapshot) gone ∙ check_each_lem before snapshot left in
        rw (is_stale_lem run, e) (ap (λ r. (run ∷ r.0, r.1)) rest)
    | inr e ↦
        let moved = append_assoc before ((k, run) ∷ []) snapshot in
        rw (is_stale_lem run, e)
          (ap (check_each leave limit now snapshot) (sym moved)
            ∙ check_each_lem (before ++ (k, run) ∷ []) snapshot (subst HasUniqueKeys (sym moved) u)
            ∙ ap (λ r. (overdue snapshot, r))
                (append_assoc before ((k, run) ∷ []) (active snapshot)))
  ]

  overdue-active : (runs : Runs) → overdue (active runs) ≡ []
  unfolding overdue active
  overdue-active [] = refl
  overdue-active ((k, run) ∷ runs) = elim (Bool-cases (late run)) [
    | inl e ↦ rw e (overdue-active runs)
    | inr e ↦ rw e (rw e (overdue-active runs))
  ]

  active-HasUniqueKeys : (runs : Runs) → HasUniqueKeys runs → HasUniqueKeys (active runs)
  unfolding active JsMap.get
  active-HasUniqueKeys [] u = tt
  active-HasUniqueKeys ((k, run) ∷ runs) u = elim (Bool-cases (late run)) [
    | inl e ↦ rw e (active-HasUniqueKeys runs u.1)
    | inr e ↦ rw e (still_absent k runs u.0, active-HasUniqueKeys runs u.1)
  ]
    where
      still_absent : (j : Text) (m : Runs) → JsMap.get j m ≡ none → JsMap.get j (active m) ≡ none
      still_absent j [] h = refl
      still_absent j ((i, w) ∷ m) h = elim (Bool-cases (text_eq i j)) [
        | inl x ↦ ground arith
        | inr x ↦ elim (Bool-cases (late w)) [
          | inl l ↦ rw l (still_absent j m (ground arith))
          | inr l ↦ rw l (rw x (still_absent j m (ground arith)))
        ]
      ]

  -- For runs with unique keys and a callback that leaves the runs alone: a check reports exactly the
  -- runs that have been silent for the limit, in their order, and keeps exactly the others; a second
  -- check at the same time reports nothing.
  pub check-check :
      (runs : Runs)
      → HasUniqueKeys runs
      → (check leave limit now runs ≡ (overdue runs, active runs))
        × ((check leave limit now (check leave limit now runs).1).0 ≡ [])
  unfolding check
  check-check runs u =
      let first : check leave limit now runs ≡ (overdue runs, active runs) =
        check_each_lem [] runs u in
      (
        first,
        ap (λ r. (check leave limit now r.1).0) first
            ∙ ap (λ r. r.0) (check_each_lem [] (active runs) (active-HasUniqueKeys runs u))
            ∙ overdue-active runs,
      )
