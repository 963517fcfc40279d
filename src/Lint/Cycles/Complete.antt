-- ===== src/Lint/Cycles/Complete.antt =====
-- The search of findCycles (internal/lint/lint.go) misses no graph with a cycle.
use the_redirector.Base.{
  ℕ, zero, suc, ◌+◌, ◌≤◌, ◌<◌, ◌≡◌, ◌↔◌, refl, subst, inl, inr, Option, some, List, [], ◌∷◌, Memᴰ,
  All, Bytes, length, length-replicate, replicate, get_elem?, ◌==◌, ==_iff, arith, Bool-cases,
  Option-cases, some_injective,
}
use the_redirector.Lint.Cycles.{
  neighbours, Color, white, gray, black, Found, color_of, dfs, search_from, find_cycles,
}
use the_redirector.Lint.Cycles.Search.{IsWalk, IsCycle, find_cycles-AreCycles}
use the_redirector.Lint.Cycles.Coloring.{
  color_of-get_elem?, none_ne, colors_ne, IsSafe, safe, IsSafe-open, IsSearched, Searches,
  Searches-refl, Searches-trans,
}
use the_redirector.Config.{Engine, Rule}
use the_redirector.Lint.Cycles.Graph.{neighbours_iff}
use the_redirector.Lint.Cycles.Depth.{dfs-DoesSearch}

module _ (adj : ℕ → List ℕ) (key : List ℕ → Bytes) where
  module _ (n : ℕ) (inside : (u v : ℕ) → Memᴰ v (adj u) → v < n) where
    search_from-Searches :
        (depth i left : ℕ) (s t : Found)
        → i + left ≤ n
        → IsSearched adj key n [] s
        → search_from adj key depth i left s ≡ some t
        → Searches adj key n [] s t
          × (t.cycles ≡ [] → (v : ℕ) → i ≤ v → v < i + left → get_elem? t.color v ≡ some black)
    unfolding search_from
    search_from-Searches depth i zero s t le valid h = (
      subst (Searches adj key n [] s) (some_injective h) (Searches-refl adj key n [] s valid),
      λ clean v lo hi. absurd (omega (arith, lo, hi)),
    )
    search_from-Searches depth i (suc left) s t le valid h =
        go (color_of s i) refl
          (λ r valid' h'. search_from-Searches depth (i + 1) left r t (omega (arith, le)) valid' h')
      where
        there : (c : Color) → color_of s i ≡ c → get_elem? s.color i ≡ some c
        there c e = color_of-get_elem? s i c (omega (arith, valid.sized, le)) e

        both :
            (r : Found)
            → Searches adj key n [] s r
            → get_elem? r.color i ≡ some black
            → Searches adj key n [] r t
              × (t.cycles ≡ []
                  → (v : ℕ) → i + 1 ≤ v
                  → v < i + 1 + left
                  → get_elem? t.color v ≡ some black)
            → Searches adj key n [] s t
              × (t.cycles ≡ []
                  → (v : ℕ) → i ≤ v
                  → v < i + suc left
                  → get_elem? t.color v ≡ some black)
        both r first done rest = (Searches-trans adj key n [] s r t first rest.0, all_black)
          where
            all_black :
                t.cycles ≡ []
                → (v : ℕ) → i ≤ v
                → v < i + suc left
                → get_elem? t.color v ≡ some black
            all_black clean v lo hi = elim (Bool-cases (i == v)) [
              | inl same ↦
                  subst (λ x. get_elem? t.color x ≡ some black) ((==_iff i v).0 same)
                    (rest.0.kept i done)
              | inr differ ↦ rest.1 clean v (ground (arith, lo, differ)) (omega (arith, hi))
            ]

        go :
            (c : Color)
            → color_of s i ≡ c
            → ((r : Found)
                → IsSearched adj key n [] r
                → search_from adj key depth (i + 1) left r ≡ some t
                → Searches adj key n [] r t
                  × (t.cycles ≡ []
                      → (v : ℕ) → i + 1 ≤ v
                      → v < i + 1 + left
                      → get_elem? t.color v ≡ some black))
            → Searches adj key n [] s t
              × (t.cycles ≡ []
                  → (v : ℕ) → i ≤ v
                  → v < i + suc left
                  → get_elem? t.color v ≡ some black)
        go black e rest =
            both s (Searches-refl adj key n [] s valid) (there black e)
              (rest s valid (rw (e, search_from) at h))
        go gray e rest = elim (valid.grays i (there gray e)) [ ]
        go white e rest = elim (Option-cases (dfs adj key depth i [] s)) [
          | inl missing ↦ absurd (none_ne (rw (e, missing, search_from) at h))
          | inr (r, ended) ↦
              let inner =
                dfs-DoesSearch adj key n inside depth i [] s r (there white e) valid ended in
              both r inner.0 inner.1 (rest r inner.0.valid (rw (e, ended, search_from) at h))
        ]

    abbrev at_start : Found
    at_start = record { color = replicate n white; cycles = []; seen = [] }

    at_start-IsSearched : IsSearched adj key n [] at_start
    at_start-IsSearched = record {
      sized = length-replicate n white;
      grays = λ v h. absurd (colors_ne.0 (all_white n v gray h));
      blacks = λ clean v h. absurd (colors_ne.1 (all_white n v black h));
      unseen = λ clean. refl;
    }
      where
        all_white : (m v : ℕ) (c : Color) → get_elem? (replicate m white) v ≡ some c → white ≡ c
        all_white zero v c h = absurd (none_ne h)
        all_white (suc m) zero c h = some_injective h
        all_white (suc m) (suc v) c h = all_white m v c h

    find_cycles_iff : (find_cycles adj key n ≡ some []) ↔ ((c : List ℕ) → ¬ IsCycle adj key c)
    unfolding find_cycles
    find_cycles_iff = (none_found, none_there (find_cycles-AreCycles adj key n))
      where
        all_safe :
            (t : Found)
            → t.cycles ≡ []
            → Searches adj key n [] at_start t
              × (t.cycles ≡ [] → (v : ℕ) → 0 ≤ v → v < 0 + n → get_elem? t.color v ≡ some black)
            → (u : ℕ) → IsSafe adj key u
        all_safe t clean done u = safe (λ v m.
            done.0.valid.blacks clean v
              (done.1 clean v (omega arith) (omega (arith, inside u v m))))

        none_found : find_cycles adj key n ≡ some [] → (c : List ℕ) → ¬ IsCycle adj key c
        none_found h c cycle = elim (Option-cases (search_from adj key n 0 n at_start)) [
          | inl missing ↦ absurd (none_ne (rw (missing, find_cycles) at h))
          | inr (t, ended) ↦
              let done =
                search_from-Searches n 0 n at_start t (omega arith) at_start-IsSearched ended in
              IsSafe-open adj key cycle.node
                (all_safe t (some_injective (rw (ended, find_cycles) at h)) done cycle.node)
                cycle.between (subst (IsWalk adj key) cycle.closed cycle.walk)
        ]

        none_there :
            (cs : List (List ℕ)) × (find_cycles adj key n ≡ some cs) × All (IsCycle adj key) cs
            → ((c : List ℕ) → ¬ IsCycle adj key c)
            → find_cycles adj key n ≡ some []
        none_there ([], h, cycles) acyclic = h
        none_there (c ∷ cs, h, cycles) acyclic = absurd (acyclic c cycles.0)

-- Over the graph of a list of rules, findCycles returns no cycle exactly when there is no walk along
-- the graph's edges that ends where it starts.
pub find_cycles-neighbours_iff :
    {R : Type 0} (engine : Engine R) (local : Bytes → Option Bytes) (key : List ℕ → Bytes)
    (rules : List (Rule R))
    → (find_cycles (neighbours engine local rules) key (length rules) ≡ some [])
      ↔ ((c : List ℕ) → ¬ IsCycle (neighbours engine local rules) key c)
find_cycles-neighbours_iff {R} engine local key rules =
    find_cycles_iff (neighbours engine local rules) key (length rules) in_rules
  where
    in_list : (l : List (Rule R)) (v : ℕ) (r : Rule R) → get_elem? l v ≡ some r → v < length l
    in_list [] v r h = absurd (none_ne h)
    in_list (x ∷ l) zero r h = omega arith
    in_list (x ∷ l) (suc v) r h = omega (arith, in_list l v r h)

    in_rules : (u v : ℕ) → Memᴰ v (neighbours engine local rules u) → v < length rules
    in_rules u v m =
        let edge = (neighbours_iff engine local rules u v).0 m in
        in_list rules v edge.target edge.to
