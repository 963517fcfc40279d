-- ===== src/Versioning/Store/Laws.antt =====
-- The version store against the history of configurations: a list, newest first, of at most as many
-- versions as the store keeps.
use the_redirector.Base.{
  ℕ, zero, suc, ◌+◌, ◌≤◌, ◌<◌, ◌≡◌, refl, sym, ap, subst, ◌∙◌, ◌⊎◌, inl, inr, false, Option, none,
  some, List, [], ◌∷◌, length, take, find, Bytes, ℤ, pos, pos_part, ltb_ℤ, ◌==◌, if◌then◌else◌,
  arith, Bool-cases, ==_iff,
}
use the_redirector.Base.Ring.{
  Holds, Slots, at, put-Holds, new_ring-Holds, entries_from_lem, slot_zero,
}
use the_redirector.Config.{Config}
use the_redirector.Versioning.Changes.{Outside}
use the_redirector.Versioning.Store.{
  ConfigVersion, Store, new_store, current, find_version, get, list, previous, store_version,
  changes_since, added_version, add, rolled_back, rollback,
}

ne_of_== : (a b : ℕ) → (a == b) ≡ false → (a < b) ⊎ (b < a)
ne_of_== a b h = ground arith

abbrev pub History : Type 0 → Type 0 → Type 0
History R F = List (ConfigVersion R F)

module _ {R F : Type 0} where
  -- The numbers of the versions count down from the one below the bound.
  abbrev pub Numbered : ℕ → History R F → Type 0
  Numbered n [] = Unit
  Numbered n (v ∷ h) = (v.version + 1 ≡ n) × Numbered v.version h

  pub record IsStore (s : Store R F) (h : History R F) : Type 0 where
    pub ring : Holds s.ring h
    pub numbered : Numbered s.next_version h

  abbrev pub head? : History R F → Option (ConfigVersion R F)
  head? [] = none
  head? (v ∷ h) = some v

  abbrev pub second? : History R F → Option (ConfigVersion R F)
  second? [] = none
  second? (v ∷ h) = head? h

  take_all : (h : History R F) (n : ℕ) → length h ≤ n → take n h ≡ h
  take_all [] zero le = refl
  take_all [] (suc n) le = refl
  take_all (v ∷ h) zero le = absurd (omega arith)
  take_all (v ∷ h) (suc n) le = ap (λ t. v ∷ t) (take_all h n (omega arith))

  find_version_lem :
      (s : Store R F) (version i : ℕ) (h : History R F) (n : ℕ)
      → Slots s.ring i h
      → length h ≡ n
      → find_version s version i n ≡ find (λ v. v.version == version) h
  unfolding find_version at
  find_version_lem s version i [] zero sl e = refl
  find_version_lem s version i [] (suc n) sl e = absurd (omega arith)
  find_version_lem s version i (v ∷ h) zero sl e = absurd (omega arith)
  find_version_lem s version i (v ∷ h) (suc n) sl e =
      ground (arith, sl.0, find_version_lem s version (i + 1) h n sl.1 (omega arith))

  current_lem : (s : Store R F) (h : History R F) → IsStore s h → current s ≡ head? h
  unfolding current
  current_lem s [] v = ground (arith, v.ring.counted)
  current_lem s (a ∷ h) v =
      ground
        (arith, v.ring.counted, v.ring.slots.0, slot_zero s.ring.size s.ring.current v.ring.newest)

  previous_lem : (s : Store R F) (h : History R F) → IsStore s h → previous s ≡ second? h
  unfolding previous at
  previous_lem s [] v = ground (arith, v.ring.counted)
  previous_lem s (a ∷ []) v = ground (arith, v.ring.counted)
  previous_lem s (a ∷ b ∷ h) v = ground (arith, v.ring.counted, v.ring.slots.1.0)

  -- What the readers say of a store is what the history holds: List returns it, Current its first and
  -- Previous its second version, and Get the first with the number.
  pub readers_refine :
      (s : Store R F) (h : History R F)
      → IsStore s h
      → (list s ≡ h)
        × (current s ≡ head? h)
        × (previous s ≡ second? h)
        × ((version : ℕ) → get s version ≡ find (λ v. v.version == version) h)
  unfolding list get
  readers_refine s h v = (
    entries_from_lem s.ring 0 s.ring.count h v.ring.slots (omega (arith, v.ring.counted))
        ∙ take_all h s.ring.count (omega (arith, v.ring.counted)),
    current_lem s h v,
    previous_lem s h v,
    λ version. find_version_lem s version 0 h s.ring.count v.ring.slots v.ring.counted,
  )

  Numbered-take : (n k : ℕ) (h : History R F) → Numbered n h → Numbered n (take k h)
  Numbered-take n zero h v = tt
  Numbered-take n (suc k) [] v = tt
  Numbered-take n (suc k) (a ∷ h) v = (v.0, Numbered-take a.version k h v.1)

  store_version-IsStore :
      (s : Store R F) (h : History R F) (v : ConfigVersion R F)
      → v.version ≡ s.next_version
      → IsStore s h
      → IsStore (store_version s v) (take s.ring.size (v ∷ h))
  unfolding store_version
  store_version-IsStore s h v e w = record {
    ring = put-Holds s.ring v h w.ring;
    numbered =
        Numbered-take (s.next_version + 1) s.ring.size (v ∷ h)
          (ap (λ n. n + 1) e, subst (λ n. Numbered n h) (sym e) w.numbered);
  }

  -- A new store is empty and keeps the number of versions that it was asked for, or 10 where that is
  -- below 1.
  pub new_store-IsStore :
      (max_versions : ℤ)
      → IsStore (new_store max_versions) []
        × ((new_store {R = R} {F = F} max_versions).ring.size
            ≡ (if ltb_ℤ max_versions (pos 1) then 10 else pos_part max_versions))
  unfolding new_store
  new_store-IsStore n = (record { ring = new_ring-Holds _ (ground arith); numbered = tt }, refl)

  module _ (outside : Outside F) where
    -- In a store that holds a history: Add records the configuration under the next number, with
    -- the changes since the version that was current, in front of the history, of which it keeps
    -- what fits.
    pub add_refines :
        (s : Store R F) (h : History R F) (now : ℕ) (cfg : Config R F) (source : Bytes)
        → IsStore s h
        → let (v, s') = add outside s now cfg source in
          IsStore s' (take s.ring.size (v ∷ h))
          × (v.version ≡ s.next_version)
          × (v.config ≡ cfg)
          × (v.rules_count ≡ length cfg.rules)
          × (v.changes ≡ changes_since outside (head? h) cfg)
          × (s'.next_version ≡ s.next_version + 1)
    unfolding add store_version
    add_refines s h now cfg source w = (
      store_version-IsStore s h (added_version outside s now cfg source) refl w,
      refl,
      refl,
      refl,
      ap (λ o. changes_since outside o cfg) (current_lem s h w),
      refl,
    )

    -- In a store that holds a history: Rollback to a number that is not in it returns nothing and
    -- changes nothing.
    pub rollback_missing :
        (s : Store R F) (h : History R F) (now version : ℕ)
        → IsStore s h
        → find (λ v. v.version == version) h ≡ none
        → rollback outside s now version ≡ (none, s)
    unfolding rollback
    rollback_missing s h now version w missed =
        rw ((readers_refine s h w).3 version ∙ missed, rollback)

    -- In a store that holds a history: Rollback to a version of it puts its configuration in front
    -- again, as a new version under the next number, with the changes since the version that was
    -- current.
    pub rollback_found :
        (s : Store R F) (h : History R F) (now version : ℕ) (v : ConfigVersion R F)
        → IsStore s h
        → find (λ v. v.version == version) h ≡ some v
        → let r = rolled_back outside s now v in
          ((rollback outside s now version).0 ≡ some r)
          × IsStore (rollback outside s now version).1 (take s.ring.size (r ∷ h))
          × (r.version ≡ s.next_version)
          × (r.config ≡ v.config)
          × (r.changes ≡ changes_since outside (head? h) v.config)
    unfolding rollback store_version
    rollback_found s h now version v w hit =
        let found = (readers_refine s h w).3 version in
        (
          rw (found ∙ hit, rollback),
          rw (found ∙ hit, rollback)
              (store_version-IsStore s h (rolled_back outside s now v) refl w),
          refl,
          refl,
          ap (λ o. changes_since outside o v.config) (current_lem s h w),
        )

  find-Numbered :
      (n k : ℕ) (h : History R F)
      → Numbered n h
      → k < n
      → n ≤ k + length h
      → (v : ConfigVersion R F) × (find (λ v. v.version == k) h ≡ some v) × (v.version ≡ k)
  find-Numbered n k [] w lt le = absurd (omega arith)
  find-Numbered n k (v ∷ h) w lt le = elim (Bool-cases (v.version == k)) [
    | inl same ↦ (v, rw same, (==_iff v.version k).0 same)
    | inr differ ↦ rw differ (
        find-Numbered v.version k h w.1 (omega (arith, w.0, ne_of_== v.version k differ))
          (omega (arith, w.0)))
  ]

  find-Numbered-none :
      (n k : ℕ) (h : History R F)
      → Numbered n h
      → (n ≤ k) ⊎ (k + length h < n)
      → find (λ v. v.version == k) h ≡ none
  find-Numbered-none n k [] w out = refl
  find-Numbered-none n k (v ∷ h) w out = ground (arith, w.0, find-Numbered-none v.version k h w.1)

  -- In a store that holds a history: Get finds each of the last numbers that were given out, as
  -- many as the store holds versions.
  pub get_kept :
      (s : Store R F) (h : History R F) (k : ℕ)
      → IsStore s h
      → k < s.next_version
      → s.next_version ≤ k + s.ring.count
      → (v : ConfigVersion R F) × (get s k ≡ some v) × (v.version ≡ k)
  get_kept s h k w lt le =
      let (v, e, n) =
        find-Numbered s.next_version k h w.numbered lt (omega (arith, w.ring.counted)) in
      (v, (readers_refine s h w).3 k ∙ e, n)

  -- In a store that holds a history: Get finds no number that was not given out, and none that is
  -- older than as many as the store holds versions.
  pub get_dropped :
      (s : Store R F) (h : History R F) (k : ℕ)
      → IsStore s h
      → (s.next_version ≤ k) ⊎ (k + s.ring.count < s.next_version)
      → get s k ≡ none
  get_dropped s h k w out =
      (readers_refine s h w).3 k
      ∙ find-Numbered-none s.next_version k h w.numbered
          (subst (λ c. (s.next_version ≤ k) ⊎ (k + c < s.next_version)) (sym w.ring.counted) out)
