-- ===== src/Lint/Cycles/Search.antt =====
-- The search of findCycles (internal/lint/lint.go) ends within its bound, and what it finds are cycles.
use the_redirector.Base.{
  ℕ, zero, suc, ◌+◌, ◌≤◌, ◌≡◌, ◌≢◌, refl, sym, ap, ◌∙◌, subst, inl, inr, Option, none, some, List,
  [], ◌∷◌, ◌++◌, Memᴰ, All, All-append, All-mem, Bytes, has_key, replicate, get_elem?, set, ◌==◌,
  ==_iff, arith, Bool-cases, Option-cases, some_injective,
}
use the_redirector.Lint.Cycles.{
  Color, white, gray, black, Found, color_of, extract_cycle, keep_cycle, visit, blacken, dfs,
  cycles_of, search_from, find_cycles,
}

-- The number of white nodes.
is_white : Color → ℕ
is_white white = 1
is_white gray = 0
is_white black = 0

pub whites : List Color → ℕ
whites [] = 0
whites (c ∷ l) = is_white c + whites l

whites-set_gray :
    (l : List Color) (u : ℕ) → get_elem? l u ≡ some white → suc (whites (set l u gray)) ≡ whites l
unfolding whites is_white
whites-set_gray [] u h = absurd (ground arith)
whites-set_gray (c ∷ l) zero h =
    subst (λ x. suc (0 + whites l) ≡ is_white x + whites l) (sym (some_injective h)) (omega arith)
whites-set_gray (c ∷ l) (suc u) h = omega (arith, whites-set_gray l u h)

whites-set_black : (l : List Color) (u : ℕ) → whites (set l u black) ≤ whites l
unfolding whites is_white
whites-set_black [] u = omega arith
whites-set_black (c ∷ l) zero = omega arith
whites-set_black (c ∷ l) (suc u) = omega (arith, whites-set_black l u)

whites-replicate : (n : ℕ) → whites (replicate n white) ≡ n
unfolding whites is_white
whites-replicate zero = refl
whites-replicate (suc n) = omega (arith, whites-replicate n)

white-color_of : (s : Found) (u : ℕ) → color_of s u ≡ white → get_elem? s.color u ≡ some white
white-color_of s u h = elim (Option-cases (get_elem? s.color u)) [
  | inl outside ↦ absurd (black_ne (sym (ap shown outside) ∙ h))
  | inr (c, at) ↦ at ∙ ap some (sym (ap shown at) ∙ h)
]
  where
    shown : Option Color → Color
    shown o = elim o [ none ↦ black | some c ↦ c ]

    black_ne : black ≢ white
    black_ne e = cc

module _ (adj : ℕ → List ℕ) (key : List ℕ → Bytes) where
  -- Each node of the list but the last has the next as a neighbour.
  abbrev pub IsWalk : List ℕ → Type 0
  IsWalk [] = Unit
  IsWalk (x ∷ []) = Unit
  IsWalk (x ∷ y ∷ l) = Memᴰ y (adj x) × IsWalk (y ∷ l)

  -- A walk that ends where it starts.
  pub record IsCycle (c : List ℕ) : Type 0 where
    pub node : ℕ
    pub between : List ℕ
    pub closed : c ≡ node ∷ between ++ node ∷ []
    pub walk : IsWalk c

  IsWalk-tail : (x : ℕ) (l : List ℕ) → IsWalk (x ∷ l) → IsWalk l
  IsWalk-tail x [] w = tt
  IsWalk-tail x (y ∷ l) w = w.1

  pub IsWalk-snoc :
      (l : List ℕ) (u v : ℕ)
      → IsWalk (l ++ u ∷ [])
      → Memᴰ v (adj u)
      → IsWalk ((l ++ u ∷ []) ++ v ∷ [])
  IsWalk-snoc [] u v w e = (e, tt)
  IsWalk-snoc (x ∷ []) u v w e = (w.0, (e, tt))
  IsWalk-snoc (x ∷ y ∷ l) u v w e = (w.0, IsWalk-snoc (y ∷ l) u v w.1 e)

  extract_cycle-IsCycle :
      (stack : List ℕ) (v : ℕ) (c : List ℕ)
      → IsWalk (stack ++ v ∷ [])
      → extract_cycle stack v ≡ some c
      → IsCycle c
  unfolding extract_cycle
  extract_cycle-IsCycle [] v c w h = absurd (ground arith)
  extract_cycle-IsCycle (x ∷ l) v c w h = elim (Bool-cases (x == v)) [
    | inl same ↦ subst IsCycle (some_injective (rw (same, extract_cycle) at h)) (record {
      node = v;
      between = l;
      closed = ap (λ n. n ∷ l ++ v ∷ []) ((==_iff x v).0 same);
      walk = w;
    })
    | inr differ ↦
        extract_cycle-IsCycle l v c (IsWalk-tail x (l ++ v ∷ []) w)
          (rw (differ, extract_cycle) at h)
  ]

  -- All cycles that were found are cycles.
  abbrev pub AreCycles : Found → Type 0
  AreCycles s = All IsCycle s.cycles

  keep_cycle-AreCycles :
      (s : Found) (o : Option (List ℕ))
      → ((c : List ℕ) → o ≡ some c → IsCycle c)
      → AreCycles s
      → AreCycles (keep_cycle key o s) × (whites (keep_cycle key o s).color ≡ whites s.color)
  unfolding keep_cycle
  keep_cycle-AreCycles s none cycle w = (w, refl)
  keep_cycle-AreCycles s (some c) cycle w = elim (Bool-cases (has_key s.seen (key c))) [
    | inl known ↦ rw (known, keep_cycle) (w, refl)
    | inr fresh ↦
        rw (fresh, keep_cycle) (All-append IsCycle s.cycles (c ∷ []) w (cycle c refl, tt), refl)
  ]

  -- The search ends, with cycles only, and no more white nodes than before.
  pub record Ends (s : Found) (o : Option Found) : Type 0 where
    pub end : Found
    pub ends : o ≡ some end
    pub fewer : whites end.color ≤ whites s.color
    pub cycles : AreCycles end

  -- A search by its depth, on a white node that continues a walk.
  abbrev IsSearch : ℕ → (ℕ → List ℕ → Found → Option Found) → Type 0
  IsSearch depth search =
      (v : ℕ) (stack : List ℕ) (s : Found)
      → get_elem? s.color v ≡ some white
      → whites s.color ≤ depth
      → IsWalk (stack ++ v ∷ [])
      → AreCycles s
      → Ends s (search v stack s)

  Ends-later :
      (s t : Found) (o : Option Found) → whites t.color ≤ whites s.color → Ends t o → Ends s o
  Ends-later s t o le e = record {
    end = e.end;
    ends = e.ends;
    fewer = omega (arith, le, e.fewer);
    cycles = e.cycles;
  }

  visit-Ends :
      (depth : ℕ) (search : ℕ → List ℕ → Found → Option Found)
      → IsSearch depth search
      → (vs stack : List ℕ) (s : Found) → whites s.color ≤ depth
      → All (λ v. IsWalk (stack ++ v ∷ [])) vs
      → AreCycles s
      → Ends s (visit adj key search vs stack s)
  unfolding visit
  visit-Ends depth search searches [] stack s le walks w = record {
    end = s;
    ends = refl;
    fewer = omega arith;
    cycles = w;
  }
  visit-Ends depth search searches (v ∷ vs) stack s le walks w =
      go (color_of s v) refl
        (λ t le' w'. visit-Ends depth search searches vs stack t le' walks.1 w')
    where
      go :
          (c : Color)
          → color_of s v ≡ c
          → ((t : Found)
              → whites t.color ≤ depth
              → AreCycles t
              → Ends t (visit adj key search vs stack t))
          → Ends s (visit adj key search (v ∷ vs) stack s)
      go black e rest = rw (e, visit) (rest s le w)
      go gray e rest =
          let kept =
            keep_cycle-AreCycles s (extract_cycle stack v)
              (λ c h. extract_cycle-IsCycle stack v c walks.0 h) w in
          rw (e, visit)
            (Ends-later s _ _ (omega (arith, kept.1))
              (rest (keep_cycle key (extract_cycle stack v) s) (omega (arith, kept.1, le)) kept.0))
      go white e rest =
          let inner = searches v stack s (white-color_of s v e) le walks.0 w in
          rw (e, inner.ends, visit)
            (Ends-later s inner.end _ inner.fewer
              (rest inner.end (omega (arith, inner.fewer, le)) inner.cycles))

  dfs-Ends : (depth : ℕ) → IsSearch depth (dfs adj key depth)
  unfolding dfs blacken
  dfs-Ends zero v stack s is_w le walk w =
      absurd (omega (arith, whites-set_gray s.color v is_w, le))
  dfs-Ends (suc depth) v stack s is_w le walk w =
      let grayed = whites-set_gray s.color v is_w in
      let inner =
        visit-Ends depth (dfs adj key depth) (dfs-Ends depth) (adj v) (stack ++ v ∷ [])
          (record s { color = set s.color v gray }) (omega (arith, grayed, le))
          (All-mem _ (adj v) (λ u m. IsWalk-snoc stack v u walk m)) w in
      rw inner.ends (record {
        end = record inner.end { color = set inner.end.color v black };
        ends = refl;
        fewer = omega (arith, whites-set_black inner.end.color v, inner.fewer, grayed);
        cycles = inner.cycles;
      })

  search_from-Ends :
      (depth i left : ℕ) (s : Found)
      → whites s.color ≤ depth
      → AreCycles s
      → Ends s (search_from adj key depth i left s)
  unfolding search_from
  search_from-Ends depth i zero s le w = record {
    end = s;
    ends = refl;
    fewer = omega arith;
    cycles = w;
  }
  search_from-Ends depth i (suc left) s le w =
      go (color_of s i) refl (λ t le' w'. search_from-Ends depth (i + 1) left t le' w')
    where
      go :
          (c : Color)
          → color_of s i ≡ c
          → ((t : Found)
              → whites t.color ≤ depth
              → AreCycles t
              → Ends t (search_from adj key depth (i + 1) left t))
          → Ends s (search_from adj key depth i (suc left) s)
      go black e rest = rw (e, search_from) (rest s le w)
      go gray e rest = rw (e, search_from) (rest s le w)
      go white e rest =
          let inner = dfs-Ends depth i [] s (white-color_of s i e) le tt w in
          rw (e, inner.ends, search_from)
            (Ends-later s inner.end _ inner.fewer
              (rest inner.end (omega (arith, inner.fewer, le)) inner.cycles))

  Ends-cycles :
      (s : Found) (o : Option Found)
      → Ends s o
      → (cs : List (List ℕ)) × (cycles_of o ≡ some cs) × All IsCycle cs
  Ends-cycles s o e = (e.end.cycles, ap cycles_of e.ends, e.cycles)

  -- The depth of as many calls as there are rules is enough, and each list that is found is a walk
  -- along the neighbours that ends where it starts.
  pub find_cycles-AreCycles :
      (n : ℕ) → (cs : List (List ℕ)) × (find_cycles adj key n ≡ some cs) × All IsCycle cs
  unfolding find_cycles
  find_cycles-AreCycles n = Ends-cycles _ _ (
      search_from-Ends n 0 n (record { color = replicate n white; cycles = []; seen = [] })
        (omega (arith, whites-replicate n)) tt)
