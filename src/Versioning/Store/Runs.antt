-- ===== src/Versioning/Store/Runs.antt =====
-- A version store under any sequence of loads and rollbacks.
use the_redirector.Base.{
  ℕ, ◌≤◌, ◌≡◌, refl, sym, subst, ◌∙◌, inl, inr, Option-cases, Option, List, [], ◌∷◌, length, find,
  take, Bytes, ℤ, ◌==◌, arith, pos, ltb_ℤ, pos_part, if◌then◌else◌,
}
use the_redirector.Base.Ring.{put}
use the_redirector.Config.{Config}
use the_redirector.Versioning.Changes.{Outside}
use the_redirector.Versioning.Store.{
  Store, ConfigVersion, new_store, add, rollback, list, added_version, rolled_back, store_version,
}
use the_redirector.Versioning.Store.Laws.{
  History, Numbered, IsStore, readers_refine, add_refines, rollback_missing, rollback_found,
  new_store-IsStore,
}

-- What the server does to its store: it adds a configuration that it loaded from a source, or rolls
-- back to a number, each at a time.
pub data Op (R F : Type 0) : Type 0 where
  load : ℕ → Config R F → Bytes → Op R F
  roll : ℕ → ℕ → Op R F

module _ {R F : Type 0} (outside : Outside F) where
  pub step : Store R F → Op R F → Store R F
  step s (load now cfg source) = (add outside s now cfg source).1
  step s (roll now version) = (rollback outside s now version).1

  unfoldable pub run : Store R F → List (Op R F) → Store R F
  unfolding step
  run s [] = s
  run s (op ∷ ops) = run (step s op) ops

  size-rollback :
      (s : Store R F) (now version : ℕ) → (rollback outside s now version).1.ring.size ≡ s.ring.size
  unfolding rollback store_version put
  size-rollback s now version = ground arith

  step-IsStore :
      (s : Store R F) (h : History R F) (op : Op R F)
      → IsStore s h
      → (h' : History R F) × IsStore (step s op) h' × ((step s op).ring.size ≡ s.ring.size)
  unfolding step add store_version put
  step-IsStore s h (load now cfg source) w =
      let v = added_version outside s now cfg source in
      (take s.ring.size (v ∷ h), (add_refines outside s h now cfg source w).0, refl)
  step-IsStore s h (roll now version) w = elim (Option-cases (find (λ v. v.version == version) h)) [
    | inl missed ↦ (
      h,
      subst (λ (p : Option (ConfigVersion R F) × Store R F). IsStore p.1 h)
          (sym (rollback_missing outside s h now version w missed)) w,
      size-rollback s now version,
    )
    | inr (v, hit) ↦ (
      take s.ring.size (rolled_back outside s now v ∷ h),
      (rollback_found outside s h now version v w hit).1,
      size-rollback s now version,
    )
  ]

  run-IsStore :
      (s : Store R F) (h : History R F) (ops : List (Op R F))
      → IsStore s h
      → (h' : History R F) × IsStore (run s ops) h' × ((run s ops).ring.size ≡ s.ring.size)
  unfolding run
  run-IsStore s h [] w = (h, w, refl)
  run-IsStore s h (op ∷ ops) w =
      let (h1, w1, same) = step-IsStore s h op w in
      let (h2, w2, same') = run-IsStore (step s op) h1 ops w1 in (h2, w2, same' ∙ same)

  -- After any loads and rollbacks, a store that was made for `n` versions lists at most that many (10
  -- where `n` is below 1), under numbers that count down by one from the last that was given out.
  pub run-list :
      (n : ℤ) (ops : List (Op R F))
      → Numbered (run (new_store n) ops).next_version (list (run (new_store n) ops))
        × (length (list (run (new_store n) ops)) ≤ (if ltb_ℤ n (pos 1) then 10 else pos_part n))
  run-list n ops =
      let (empty, size) = new_store-IsStore {R = R} {F = F} n in
      let (h, w, same) = run-IsStore (new_store n) [] ops empty in
      let listed = (readers_refine (run (new_store n) ops) h w).0 in
      (
        subst (Numbered (run (new_store n) ops).next_version) (sym listed) w.numbered,
        subst (λ (l : History R F). length l ≤ (if ltb_ℤ n (pos 1) then 10 else pos_part n))
            (sym listed) (omega (arith, w.ring.fits, w.ring.counted, same, size)),
      )
