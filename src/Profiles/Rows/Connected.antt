-- ===== src/Profiles/Rows/Connected.antt =====
-- The list of paired devices shows the connected ones first, the newest contact first, and each once.
use grandpa_bob.Base.{
  ◌+◌, ◌≡◌, refl, ◌∙◌, ap, Bool, true, false, not, ◌&&◌, ◌||◌, List, [], ◌∷◌, map, length, arith,
  if_elim, ltb, all,
}
use grandpa_bob.Base.Js.{Js}
use grandpa_bob.Base.Sort.{insert, sort}
use grandpa_bob.Profiles.Store.{PeerSyncStore}
use grandpa_bob.Profiles.Rows.{PairedDeviceRow, device_row, device_after, paired_devices, seen_at}

module _ (js : Js) where
  -- `a` may stand above `b`.
  unfoldable pub may_precede : PairedDeviceRow → PairedDeviceRow → Bool
  may_precede a b =
      (a.online && not b.online)
      || ((not (not a.online && b.online))
          && not (ltb (seen_at js a.last_seen) (seen_at js b.last_seen)))

  unfoldable pub IsRanked : List PairedDeviceRow → Type 0
  IsRanked [] = Unit
  IsRanked (a ∷ rest) = (all (may_precede a) rest ≡ true) × IsRanked rest

  may_precede_trans :
      (a b c : PairedDeviceRow)
      → may_precede a b ≡ true
      → may_precede b c ≡ true
      → may_precede a c ≡ true
  unfolding may_precede
  may_precede_trans a b c h k = ground arith

  not_after : (a b : PairedDeviceRow) → device_after js a b ≡ false → may_precede a b ≡ true
  unfolding may_precede device_after
  not_after a b h = ground arith

  is_after : (a b : PairedDeviceRow) → device_after js a b ≡ true → may_precede b a ≡ true
  unfolding may_precede device_after
  is_after a b h = ground arith

  all-insert :
      (p : PairedDeviceRow → Bool) (x : PairedDeviceRow) (xs : List PairedDeviceRow)
      → all p (insert (device_after js) x xs) ≡ (p x && all p xs)
  unfolding insert
  all-insert p x [] = refl
  all-insert p x (y ∷ ys) = ground (arith, all-insert p x ys)

  all_trans :
      (a b : PairedDeviceRow) (xs : List PairedDeviceRow)
      → may_precede a b ≡ true
      → all (may_precede b) xs ≡ true
      → all (may_precede a) xs ≡ true
  all_trans a b [] h k = refl
  all_trans a b (x ∷ xs) h k = ground (arith, may_precede_trans a b x, all_trans a b xs)

  insert-IsRanked :
      (x : PairedDeviceRow) (xs : List PairedDeviceRow)
      → IsRanked xs
      → IsRanked (insert (device_after js) x xs)
  unfolding insert IsRanked
  insert-IsRanked x [] r = (refl, tt)
  insert-IsRanked x (y ∷ ys) r =
      if_elim IsRanked (device_after js x y) {x = y ∷ insert (device_after js) x ys}
        {y = x ∷ y ∷ ys}
        (λ h.
          (all-insert (may_precede y) x ys ∙ both (is_after x y h) r.0, insert-IsRanked x ys r.1))
        (λ h. (both (not_after x y h) (all_trans x y ys (not_after x y h) r.0), r))
    where
      both : {p q : Bool} → p ≡ true → q ≡ true → (p && q) ≡ true
      both h k = ground arith

  sort-IsRanked : (xs : List PairedDeviceRow) → IsRanked (sort (device_after js) xs)
  unfolding sort IsRanked
  sort-IsRanked [] = tt
  sort-IsRanked (x ∷ xs) = insert-IsRanked x (sort (device_after js) xs) (sort-IsRanked xs)

  all-sort :
      (p : PairedDeviceRow → Bool) (xs : List PairedDeviceRow)
      → all p (sort (device_after js) xs) ≡ all p xs
  unfolding sort
  all-sort p [] = refl
  all-sort p (x ∷ xs) =
      all-insert p x (sort (device_after js) xs) ∙ ap (λ b. p x && b) (all-sort p xs)

  length-insert :
      (x : PairedDeviceRow) (xs : List PairedDeviceRow)
      → length (insert (device_after js) x xs) ≡ length xs + 1
  unfolding insert
  length-insert x [] = refl
  length-insert x (y ∷ ys) = ground (arith, length-insert x ys)

  length-sort : (xs : List PairedDeviceRow) → length (sort (device_after js) xs) ≡ length xs
  unfolding sort
  length-sort [] = refl
  length-sort (x ∷ xs) = omega (arith, length-insert x (sort (device_after js) xs), length-sort xs)

  -- In the list of paired devices a device that is connected stands above every one that is not, and
  -- among the rest a later contact above an earlier one; the list has as many rows as the store has
  -- devices, and a test holds of all rows exactly if it holds of the rows of all devices.
  pub paired_devices-IsRanked :
      (store : PeerSyncStore) (p : PairedDeviceRow → Bool)
      → IsRanked (paired_devices js store)
        × (length (paired_devices js store) ≡ length (map (λ e. device_row js e.1) store.peers))
        × (all p (paired_devices js store) ≡ all p (map (λ e. device_row js e.1) store.peers))
  unfolding paired_devices
  paired_devices-IsRanked store p =
      let rows : List PairedDeviceRow = map (λ e. device_row js e.1) store.peers in
      (sort-IsRanked rows, length-sort rows, all-sort p rows)
