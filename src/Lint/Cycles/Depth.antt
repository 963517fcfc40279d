-- ===== src/Lint/Cycles/Depth.antt =====
-- The depth-first search of findCycles (internal/lint/lint.go) keeps its colors true.
use the_redirector.Base.{
  ℕ, zero, suc, ◌<◌, ◌≡◌, ◌≢◌, refl, sym, ap, ◌∙◌, subst, inl, inr, Option, some, List, [], ◌∷◌,
  ◌++◌, Memᴰ, All, All-mem, All-get, Bytes, length, get_elem?-set_self, get_elem?-set_ne, get_elem?,
  set, arith, Option-cases, some_injective,
}
use the_redirector.Lint.Cycles.{
  Color, white, gray, black, Found, color_of, extract_cycle, keep_cycle, visit, blacken, dfs,
}
use the_redirector.Lint.Cycles.Coloring.{
  get_elem?-length, color_of-get_elem?, mem-extract_cycle, none_ne, colors_ne, safe, IsSearched,
  Searches, Searches-refl, Searches-trans, keep_cycle-Searches, grayed, blackened,
}

module _ (adj : ℕ → List ℕ) (key : List ℕ → Bytes) where
  -- What a search by depth does, on a white node.
  abbrev pub DoesSearch : ℕ → (ℕ → List ℕ → Found → Option Found) → Type 0
  DoesSearch n search =
      (v : ℕ) (stack : List ℕ) (s t : Found)
      → get_elem? s.color v ≡ some white
      → IsSearched adj key n stack s
      → search v stack s ≡ some t
      → Searches adj key n stack s t × (get_elem? t.color v ≡ some black)

  visit-Searches :
      (n : ℕ) (search : ℕ → List ℕ → Found → Option Found)
      → DoesSearch n search
      → (vs stack : List ℕ) (s t : Found) → All (λ v. v < n) vs
      → IsSearched adj key n stack s
      → visit adj key search vs stack s ≡ some t
      → Searches adj key n stack s t
        × (t.cycles ≡ [] → All (λ v. get_elem? t.color v ≡ some black) vs)
  unfolding visit
  visit-Searches n search does [] stack s t inside valid h = (
    subst (Searches adj key n stack s) (some_injective h) (Searches-refl adj key n stack s valid),
    λ clean. tt,
  )
  visit-Searches n search does (v ∷ vs) stack s t inside valid h =
      go (color_of s v) refl (λ r. visit-Searches n search does vs stack r t inside.1)
    where
      there : (c : Color) → color_of s v ≡ c → get_elem? s.color v ≡ some c
      there c e = color_of-get_elem? s v c (omega (arith, valid.sized, inside.0)) e

      both :
          (r : Found)
          → Searches adj key n stack s r
          → (r.cycles ≡ [] → get_elem? r.color v ≡ some black)
          → Searches adj key n stack r t
            × (t.cycles ≡ [] → All (λ v. get_elem? t.color v ≡ some black) vs)
          → Searches adj key n stack s t
            × (t.cycles ≡ [] → All (λ v. get_elem? t.color v ≡ some black) (v ∷ vs))
      both r first done rest = (
        Searches-trans adj key n stack s r t first rest.0,
        λ clean. (rest.0.kept v (done (rest.0.grown clean)), rest.1 clean),
      )

      go :
          (c : Color)
          → color_of s v ≡ c
          → ((r : Found)
              → IsSearched adj key n stack r
              → visit adj key search vs stack r ≡ some t
              → Searches adj key n stack r t
                × (t.cycles ≡ [] → All (λ v. get_elem? t.color v ≡ some black) vs))
          → Searches adj key n stack s t
            × (t.cycles ≡ [] → All (λ v. get_elem? t.color v ≡ some black) (v ∷ vs))
      go black e rest =
          both s (Searches-refl adj key n stack s valid) (λ clean. there black e)
            (rest s valid (rw (e, visit) at h))
      go gray e rest =
          let r : Found = keep_cycle key (extract_cycle stack v) s in
          let keeps =
            keep_cycle-Searches adj key n stack s (extract_cycle stack v) valid
              (mem-extract_cycle stack v (valid.grays v (there gray e))) in
          both r keeps.0 (λ clean. absurd (keeps.1 clean))
            (rest r keeps.0.valid (rw (e, visit) at h))
      go white e rest = elim (Option-cases (search v stack s)) [
        | inl missing ↦ absurd (none_ne (rw (e, missing, visit) at h))
        | inr (r, ended) ↦
            let inner = does v stack s r (there white e) valid ended in
            both r inner.0 (λ clean. inner.1) (rest r inner.0.valid (rw (e, ended, visit) at h))
      ]

  module _ (n : ℕ) (inside : (u v : ℕ) → Memᴰ v (adj u) → v < n) where
    pub dfs-DoesSearch : (depth : ℕ) → DoesSearch n (dfs adj key depth)
    unfolding dfs blacken
    dfs-DoesSearch zero u stack s t is_w valid h = absurd (none_ne h)
    dfs-DoesSearch (suc depth) u stack s t is_w valid h =
        let s' : Found = record s { color = set s.color u gray } in
        elim (Option-cases (visit adj key (dfs adj key depth) (adj u) (stack ++ u ∷ []) s')) [
          | inl missing ↦ absurd (none_ne (rw missing at h))
          | inr (r, ended) ↦
              after r
                (visit-Searches n (dfs adj key depth) (dfs-DoesSearch depth) (adj u)
                  (stack ++ u ∷ []) s' r (All-mem _ (adj u) (λ v m. inside u v m))
                  (grayed adj key n u stack s valid) ended)
                (some_injective (rw ended at h))
        ]
      where
        still :
            (r : Found)
            → Searches adj key n (stack ++ u ∷ []) (record s { color = set s.color u gray }) r
            → (v : ℕ) → get_elem? s.color v ≡ some black
            → get_elem? (set r.color u black) v ≡ some black
        still r done v h =
            let apart : u ≢ v =
              λ same. colors_ne.1 (some_injective (sym is_w ∙ ap (get_elem? s.color) same ∙ h)) in
            get_elem?-set_ne r.color black apart
            ∙ done.kept v (get_elem?-set_ne s.color gray apart ∙ h)

        u_black : (r : Found) → length r.color ≡ n → get_elem? (set r.color u black) u ≡ some black
        u_black r sized =
            get_elem?-set_self r.color u black
              (omega (arith, sized, valid.sized, get_elem?-length s.color u white is_w))

        after :
            (r : Found)
            → Searches adj key n (stack ++ u ∷ []) (record s { color = set s.color u gray }) r
              × (r.cycles ≡ [] → All (λ v. get_elem? r.color v ≡ some black) (adj u))
            → record r { color = set r.color u black } ≡ t
            → Searches adj key n stack s t × (get_elem? t.color u ≡ some black)
        after r done e =
            subst (λ x. Searches adj key n stack s x × (get_elem? x.color u ≡ some black)) e
              (
                record {
                  valid = blackened adj key n u stack r done.0.valid (λ clean.
                      safe (λ v m.
                        done.0.valid.blacks clean v (All-get _ v (adj u) (done.1 clean) m)));
                  kept = still r done.0;
                  grown = done.0.grown;
                },
                u_black r done.0.valid.sized,
              )
