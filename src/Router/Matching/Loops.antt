-- ===== src/Router/Matching/Loops.antt =====
-- The loops of matchPrefix, matchRegex and of the exact lookup, each against the rules that it reads.
use the_redirector.Base.{
  ◌≡◌, refl, sym, subst, ◌↔◌, ◌⊎◌, inl, inr, Bool, true, false, ◌&&◌, Option, none, some, List, [],
  ◌∷◌, ◌++◌, ◌∙◌, false≢true, if◌then◌else◌, Memᴰ, Bytes, All, is_empty, Option-cases, Bool-cases,
  arith, has_prefix, has_prefix_iff, =s_iff,
}
use mathlib.Core.List.Memᴰ
use the_redirector.Config.{Engine, MatchType, Rule}
use the_redirector.Router.{host_fits, match_prefix, captures_of, rule_captures, match_regex}
use the_redirector.Router.Categories.{of_type, only_if, has_exact_key, last_exact}

is_empty_iff : (s : Bytes) → (is_empty s ≡ true) ↔ (s ≡ [])
is_empty_iff [] = (λ _. refl, λ _. refl)
is_empty_iff (c ∷ s) = (λ h. cc, λ h. cc)

module _ {R : Type 0} where
  -- A rule with no host serves every host.
  abbrev pub HostFits : Rule R → Bytes → Type 0
  HostFits r host = (r.match.host ≡ []) ⊎ (r.match.host ≡ host)

  pub host_fits_iff : (r : Rule R) (host : Bytes) → (host_fits r host ≡ true) ↔ HostFits r host
  host_fits_iff r host = ground (arith, is_empty_iff r.match.host, =s_iff r.match.host host)

  abbrev pub PrefixMatches : Rule R → Bytes → Bytes → Type 0
  PrefixMatches r host path = HostFits r host × ((rest : Bytes) × (path ≡ r.match.path ++ rest))

  prefix_test_iff :
      (r : Rule R) (host path : Bytes)
      → ((host_fits r host && has_prefix path r.match.path) ≡ true) ↔ PrefixMatches r host path
  prefix_test_iff r host path = (
    λ h. (
      (host_fits_iff r host).0 (ground arith),
      (has_prefix_iff path r.match.path).0 (ground arith),
    ),
    λ h. ground (arith, (host_fits_iff r host).1 h.0, (has_prefix_iff path r.match.path).1 h.1),
  )

  pub match_prefix_sound :
      (rs : List (Rule R)) (host path : Bytes) {r : Rule R}
      → match_prefix rs host path ≡ some r
      → Memᴰ r rs × PrefixMatches r host path
  unfolding match_prefix
  match_prefix_sound [] host path h = cc
  match_prefix_sound (s ∷ rs) host path {r} h =
      elim (Bool-cases (host_fits s host && has_prefix path s.match.path)) [
        | inl hit ↦
            let same : s ≡ r = ground arith in
            (
              Memᴰ.head (sym same),
              subst (λ x. PrefixMatches x host path) same ((prefix_test_iff s host path).0 hit),
            )
        | inr miss ↦ let (m, p) = match_prefix_sound rs host path (rw miss at h) in (Memᴰ.tail m, p)
      ]

  pub match_prefix_complete :
      (rs : List (Rule R)) (host path : Bytes)
      → match_prefix rs host path ≡ none
      → All (λ r. ¬ PrefixMatches r host path) rs
  unfolding match_prefix
  match_prefix_complete [] host path h = tt
  match_prefix_complete (s ∷ rs) host path h =
      elim (Bool-cases (host_fits s host && has_prefix path s.match.path)) [
        | inl hit ↦ absurd (ground arith)
        | inr miss ↦ (
          λ p. absurd (ground (arith, (prefix_test_iff s host path).1 p)),
          match_prefix_complete rs host path (rw miss at h),
        )
      ]

  mem-only_if : (b : Bool) (s : Rule R) {r : Rule R} → Memᴰ r (only_if b s) → (r ≡ s) × (b ≡ true)
  mem-only_if true s (Memᴰ.head e) = (e, refl)
  mem-only_if true s (Memᴰ.tail m) = elim m [ ]
  mem-only_if false s m = elim m [ ]

  pub mem-of_type :
      (p : MatchType → Bool) (rs : List (Rule R)) {r : Rule R}
      → Memᴰ r (of_type p rs)
      → Memᴰ r rs × (p r.match.type ≡ true)
  unfolding of_type
  mem-of_type p [] m = elim m [ ]
  mem-of_type p (s ∷ rs) m = elim (Memᴰ.append_cases (only_if (p s.match.type) s) m) [
    | inl h ↦
        let (same, passed) = mem-only_if (p s.match.type) s h in
        (Memᴰ.head same, subst (λ x. p x.match.type ≡ true) (sym same) passed)
    | inr t ↦ let (m', passed) = mem-of_type p rs t in (Memᴰ.tail m', passed)
  ]

  pub All-of_type :
      (P : Rule R → Type 0) (p : MatchType → Bool) (rs : List (Rule R))
      → All P (of_type p rs)
      → All (λ r. p r.match.type ≡ true → P r) rs
  unfolding of_type
  All-of_type P p [] h = tt
  All-of_type P p (s ∷ rs) h = elim (Bool-cases (p s.match.type)) [
    | inl pass ↦
        let h' : P s × All P (of_type p rs) = rw pass at h in (λ _. h'.0, All-of_type P p rs h'.1)
    | inr fail ↦
        ((λ pass. absurd (false≢true (sym fail ∙ pass))), All-of_type P p rs (rw fail at h))
  ]

  pub last_exact_sound :
      (found : Option (Rule R)) (key : Bytes) (rs : List (Rule R)) {r : Rule R}
      → last_exact found key rs ≡ some r
      → (found ≡ some r) ⊎ (Memᴰ r rs × (has_exact_key key r ≡ true))
  unfolding last_exact
  last_exact_sound found key [] h = inl h
  last_exact_sound found key (s ∷ rs) {r} h =
      elim (last_exact_sound (if has_exact_key key s then some s else found) key rs h) [
        | inr (m, k) ↦ inr (Memᴰ.tail m, k)
        | inl e ↦ elim (Bool-cases (has_exact_key key s)) [
          | inl hit ↦
              let same : s ≡ r = ground arith in
              inr (Memᴰ.head (sym same), subst (λ x. has_exact_key key x ≡ true) same hit)
          | inr miss ↦ inl (rw miss at e)
        ]
      ]

  pub last_exact_complete :
      (found : Option (Rule R)) (key : Bytes) (rs : List (Rule R))
      → last_exact found key rs ≡ none
      → (found ≡ none) × All (λ r. has_exact_key key r ≡ false) rs
  unfolding last_exact
  last_exact_complete found key [] h = (h, tt)
  last_exact_complete found key (s ∷ rs) h =
      ground (arith, last_exact_complete (if has_exact_key key s then some s else found) key rs)

module _ {R : Type 0} (engine : Engine R) where
  abbrev pub PatternMatches : Rule R → Bytes → Bytes → List Bytes → Type 0
  PatternMatches r host path groups = HostFits r host × (rule_captures engine r path ≡ some groups)

  pub match_regex_sound :
      (rs : List (Rule R)) (host path : Bytes) {r : Rule R} {caps : List Bytes}
      → match_regex engine rs host path ≡ some (r, caps)
      → Memᴰ r rs
        × ((groups : List Bytes) × PatternMatches r host path groups × (caps ≡ captures_of groups))
  unfolding match_regex
  match_regex_sound [] host path h = cc
  match_regex_sound (s ∷ rs) host path {r} {caps} h = elim (Bool-cases (host_fits s host)) [
    | inr other_host ↦
        let (m, p) = match_regex_sound rs host path (rw other_host at h) in (Memᴰ.tail m, p)
    | inl fits ↦ elim (Option-cases (rule_captures engine s path)) [
      | inl missed ↦ let (m, p) = match_regex_sound rs host path (ground arith) in (Memᴰ.tail m, p)
      | inr (groups, found) ↦
          let same : s ≡ r = ground arith in
          (
            Memᴰ.head (sym same),
            (
              groups,
              subst (λ x. PatternMatches x host path groups) same
                  ((host_fits_iff s host).0 fits, found),
              ground arith,
            ),
          )
    ]
  ]

  pub match_regex_complete :
      (rs : List (Rule R)) (host path : Bytes)
      → match_regex engine rs host path ≡ none
      → All (λ r. ¬ ((groups : List Bytes) × PatternMatches r host path groups)) rs
  unfolding match_regex
  match_regex_complete [] host path h = tt
  match_regex_complete (s ∷ rs) host path h = elim (Bool-cases (host_fits s host)) [
    | inr other_host ↦ (
      λ p. false≢true (sym other_host ∙ (host_fits_iff s host).1 p.1.0),
      match_regex_complete rs host path (rw other_host at h),
    )
    | inl fits ↦ elim (Option-cases (rule_captures engine s path)) [
      | inl missed ↦ (λ p. absurd (ground arith), match_regex_complete rs host path (ground arith))
      | inr (groups, found) ↦ absurd (ground arith)
    ]
  ]
