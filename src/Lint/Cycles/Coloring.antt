-- ===== src/Lint/Cycles/Coloring.antt =====
-- The colors of the search of findCycles (internal/lint/lint.go): what each step keeps of them.
use the_redirector.Base.{
  ℕ, zero, suc, ◌<◌, ◌≡◌, ◌≢◌, ◌⊎◌, refl, sym, ap, ◌∙◌, subst, inl, inr, true, false, Option, none,
  some, List, [], ◌∷◌, ◌++◌, Memᴰ, Bytes, has_key, length, length-set, get_elem?, set, ◌==◌,
  ==_refl, arith, Bool-cases, some_injective,
}
use mathlib.Core.List.Memᴰ
use the_redirector.Lint.Cycles.{
  Color, white, gray, black, Found, color_of, extract_cycle, keep_cycle,
}
use the_redirector.Lint.Cycles.Search.{IsWalk, IsWalk-snoc}

-- What stands at an index after a change is the new color there, and the old one elsewhere.
get_elem?-set_cases :
    (l : List Color) (u v : ℕ) (c d : Color)
    → get_elem? (set l u c) v ≡ some d
    → ((u ≡ v) × (c ≡ d)) ⊎ ((u ≢ v) × (get_elem? l v ≡ some d))
get_elem?-set_cases [] u v c d h = absurd (ground arith)
get_elem?-set_cases (x ∷ l) zero zero c d h = inl (refl, some_injective h)
get_elem?-set_cases (x ∷ l) zero (suc v) c d h = inr ((λ e. omega (arith, e)), h)
get_elem?-set_cases (x ∷ l) (suc u) zero c d h = inr ((λ e. omega (arith, e)), h)
get_elem?-set_cases (x ∷ l) (suc u) (suc v) c d h = elim (get_elem?-set_cases l u v c d h) [
  | inl (same, color) ↦ inl (ap suc same, color)
  | inr (differ, at) ↦ inr ((λ e. differ (omega (arith, e))), at)
]

pub get_elem?-length : (l : List Color) (u : ℕ) (c : Color) → get_elem? l u ≡ some c → u < length l
get_elem?-length [] u c h = absurd (ground arith)
get_elem?-length (x ∷ l) zero c h = omega arith
get_elem?-length (x ∷ l) (suc u) c h = omega (arith, get_elem?-length l u c h)

pub color_of-get_elem? :
    (s : Found) (u : ℕ) (c : Color)
    → u < length s.color
    → color_of s u ≡ c
    → get_elem? s.color u ≡ some c
color_of-get_elem? s u c inside h = go s.color u inside h
  where
    go :
        (l : List Color) (u : ℕ)
        → u < length l
        → elim (get_elem? l u) [ none ↦ black | some c ↦ c ] ≡ c
        → get_elem? l u ≡ some c
    go [] u inside h = elim inside [ ]
    go (x ∷ l) zero inside h = ap some h
    go (x ∷ l) (suc u) inside h = go l u (omega (arith, inside)) h

pub mem-extract_cycle : (stack : List ℕ) (v : ℕ) → Memᴰ v stack → extract_cycle stack v ≢ none
unfolding extract_cycle
mem-extract_cycle [] v m h = elim m [ ]
mem-extract_cycle (x ∷ l) v (Memᴰ.head e) h = absurd (ground (arith, e, h, ==_refl x))
mem-extract_cycle (x ∷ l) v (Memᴰ.tail m) h = elim (Bool-cases (x == v)) [
  | inl same ↦ absurd (ground (arith, h, same))
  | inr differ ↦ mem-extract_cycle l v m (rw (differ, extract_cycle) at h)
]

true_ne : true ≢ false
true_ne e = cc

pub none_ne : {A : Type 0} {x : A} → none ≢ some x
none_ne e = cc

snoc_ne : (l : List (List ℕ)) (c : List ℕ) → (l ++ c ∷ []) ≢ []
snoc_ne [] c e = absurd (ground arith)
snoc_ne (x ∷ l) c e = absurd (ground arith)

pub colors_ne : (white ≢ gray) × (white ≢ black) × (gray ≢ black)
colors_ne = ((λ e. cc), (λ e. cc), (λ e. cc))

module _ (adj : ℕ → List ℕ) (key : List ℕ → Bytes) where
  -- No walk from the node is endless.
  pub data IsSafe : ℕ → Type 0 where
    safe : {u : ℕ} → ((v : ℕ) → Memᴰ v (adj u) → IsSafe v) → IsSafe u

  pub IsSafe-open : (x : ℕ) → IsSafe x → (l : List ℕ) → ¬ IsWalk adj key (x ∷ l ++ x ∷ [])
  IsSafe-open x (safe next) [] w = IsSafe-open x (next x w.0) [] w
  IsSafe-open x (safe next) (y ∷ l) w =
      IsSafe-open y (next y w.0) (l ++ x ∷ []) (IsWalk-snoc adj key (y ∷ l) x y w.1 w.0)

  -- The gray nodes are on the stack, and as long as no cycle was found, the black ones are safe.
  pub record IsSearched (n : ℕ) (stack : List ℕ) (s : Found) : Type 0 where
    pub sized : length s.color ≡ n
    pub grays : (v : ℕ) → get_elem? s.color v ≡ some gray → Memᴰ v stack
    pub blacks : s.cycles ≡ [] → (v : ℕ) → get_elem? s.color v ≡ some black → IsSafe v
    pub unseen : s.cycles ≡ [] → s.seen ≡ []

  pub record Searches (n : ℕ) (stack : List ℕ) (s t : Found) : Type 0 where
    pub valid : IsSearched n stack t
    pub kept : (v : ℕ) → get_elem? s.color v ≡ some black → get_elem? t.color v ≡ some black
    pub grown : t.cycles ≡ [] → s.cycles ≡ []

  pub Searches-refl :
      (n : ℕ) (stack : List ℕ) (s : Found) → IsSearched n stack s → Searches n stack s s
  Searches-refl n stack s valid = record { valid = valid; kept = λ v h. h; grown = λ h. h }

  pub Searches-trans :
      (n : ℕ) (stack : List ℕ) (r s t : Found)
      → Searches n stack r s
      → Searches n stack s t
      → Searches n stack r t
  Searches-trans n stack r s t a b = record {
    valid = b.valid;
    kept = λ v h. b.kept v (a.kept v h);
    grown = λ h. a.grown (b.grown h);
  }

  pub keep_cycle-Searches :
      (n : ℕ) (stack : List ℕ) (s : Found) (o : Option (List ℕ))
      → IsSearched n stack s
      → o ≢ none
      → Searches n stack s (keep_cycle key o s) × ((keep_cycle key o s).cycles ≢ [])
  unfolding keep_cycle has_key
  keep_cycle-Searches n stack s none valid found = absurd (found refl)
  keep_cycle-Searches n stack s (some c) valid found = elim (Bool-cases (has_key s.seen (key c))) [
    | inl known ↦
        rw (known, keep_cycle)
          (Searches-refl n stack s valid, λ clean. known_ne (valid.unseen clean) known)
    | inr fresh ↦
        rw (fresh, keep_cycle)
          (
            record {
              valid = record {
                sized = valid.sized;
                grays = valid.grays;
                blacks = λ clean. absurd (snoc_ne s.cycles c clean);
                unseen = λ clean. absurd (snoc_ne s.cycles c clean);
              };
              kept = λ v h. h;
              grown = λ clean. absurd (snoc_ne s.cycles c clean);
            },
            snoc_ne s.cycles c,
          )
  ]
    where
      known_ne : s.seen ≡ [] → has_key s.seen (key c) ≢ true
      known_ne empty e = absurd (true_ne (sym (rw empty at e)))

  pub grayed :
      (n u : ℕ) (stack : List ℕ) (s : Found)
      → IsSearched n stack s
      → IsSearched n (stack ++ u ∷ []) (record s { color = set s.color u gray })
  grayed n u stack s valid = record {
    sized = length-set s.color u gray ∙ valid.sized;
    grays = still_gray;
    blacks = still_black;
    unseen = valid.unseen;
  }
    where
      still_gray : (v : ℕ) → get_elem? (set s.color u gray) v ≡ some gray → Memᴰ v (stack ++ u ∷ [])
      still_gray v h = elim (get_elem?-set_cases s.color u v gray gray h) [
        | inl (same, color) ↦ Memᴰ.append_right stack (Memᴰ.head (sym same))
        | inr (differ, at) ↦ Memᴰ.append_left (u ∷ []) (valid.grays v at)
      ]

      still_black :
          s.cycles ≡ [] → (v : ℕ) → get_elem? (set s.color u gray) v ≡ some black → IsSafe v
      still_black clean v h = elim (get_elem?-set_cases s.color u v gray black h) [
        | inl (same, color) ↦ absurd (colors_ne.2 color)
        | inr (differ, at) ↦ valid.blacks clean v at
      ]

  pub blackened :
      (n u : ℕ) (stack : List ℕ) (r : Found)
      → IsSearched n (stack ++ u ∷ []) r
      → (r.cycles ≡ [] → IsSafe u)
      → IsSearched n stack (record r { color = set r.color u black })
  blackened n u stack r valid done = record {
    sized = length-set r.color u black ∙ valid.sized;
    grays = still_gray;
    blacks = still_black;
    unseen = valid.unseen;
  }
    where
      last : {v : ℕ} → u ≢ v → Memᴰ v (u ∷ []) → Memᴰ v stack
      last differ (Memᴰ.head e) = absurd (differ (sym e))
      last differ (Memᴰ.tail m) = elim m [ ]

      still_gray : (v : ℕ) → get_elem? (set r.color u black) v ≡ some gray → Memᴰ v stack
      still_gray v h = elim (get_elem?-set_cases r.color u v black gray h) [
        | inl (same, color) ↦ absurd (colors_ne.2 (sym color))
        | inr (differ, at) ↦ elim (Memᴰ.append_cases stack (valid.grays v at)) [
          | inl m ↦ m
          | inr m ↦ last differ m
        ]
      ]

      still_black :
          r.cycles ≡ [] → (v : ℕ) → get_elem? (set r.color u black) v ≡ some black → IsSafe v
      still_black clean v h = elim (get_elem?-set_cases r.color u v black black h) [
        | inl (same, color) ↦ subst IsSafe same (done clean)
        | inr (differ, at) ↦ valid.blacks clean v at
      ]
