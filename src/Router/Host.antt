-- ===== src/Router/Host.antt =====
-- The host allowlist (IsAllowedHost and stripPort of internal/router/router.go) and how it agrees
-- with Match, which compares the host with its port.
use the_redirector.Base.{
  ◌≡◌, refl, sym, ◌≢◌, ◌⊎◌, inl, inr, Bool, true, false, none, some, List, [], ◌∷◌, ◌++◌, Memᴰ,
  Bytes, lit, All, All-get, All-map, ℕ, any_of_mem, any-eq-false_iff, any, is_empty, arith, ◌∙◌,
  contains_byte, cut_last_byte, has_prefix, =s_iff,
}
use the_redirector.Base.Sort.{sort_stable-perm, perm-memᴰ, All-perm}
use mathlib.Core.List.Permᴰ
use the_redirector.Config.{Engine, Rule}
use the_redirector.Router.{rule_less, sorted, new, strip_port, is_allowed_host, match}
use the_redirector.Router.Keys.{NoSlash, StartsSlash}
use the_redirector.Router.Categories.{names_host, new-any_host, new-hosts}
use the_redirector.Router.Matching.{IsPlain, Serves, host_of_Serves, match-IsAnswer, match-none_iff}

-- No colon and no bracket.
abbrev pub IsBare : Bytes → Type 0
IsBare = All (λ c. (c ≢ b':') × (c ≢ b'[') × (c ≢ b']'))

IsBare-contains :
    (s : Bytes)
    → IsBare s
    → (contains_byte s 58 ≡ false) × (contains_byte s 91 ≡ false) × (contains_byte s 93 ≡ false)
unfolding contains_byte
IsBare-contains [] h = (refl, refl, refl)
IsBare-contains (c ∷ s) h = ground (arith, IsBare-contains s h.1)

cut_last_byte-none : (s : Bytes) → IsBare s → cut_last_byte s 58 ≡ none
unfolding cut_last_byte
cut_last_byte-none [] h = refl
cut_last_byte-none (c ∷ s) h = ground (arith, cut_last_byte-none s h.1)

cut_last_byte-port : (s p : Bytes) → IsBare p → cut_last_byte (s ++ (lit ":" ++ p)) 58 ≡ some (s, p)
unfolding cut_last_byte
cut_last_byte-port [] p h = rw (cut_last_byte-none p h)
cut_last_byte-port (c ∷ s) p h = rw (cut_last_byte-port s p h)

contains_byte-port :
    (s p : Bytes)
    → IsBare s
    → IsBare p
    → (contains_byte (s ++ (lit ":" ++ p)) 91 ≡ false)
      × (contains_byte (s ++ (lit ":" ++ p)) 93 ≡ false)
unfolding contains_byte
contains_byte-port [] p hs hp = ground (arith, IsBare-contains p hp)
contains_byte-port (c ∷ s) p hs hp = ground (arith, contains_byte-port s p hs.1 hp)

-- A host with no colon is left as it is, and the port behind a bare host is taken off.
pub strip_port_bare : (h : Bytes) → IsBare h → strip_port h ≡ h
unfolding strip_port
strip_port_bare h bare = ground (arith, cut_last_byte-none h bare)

no_bracket : (s p : Bytes) → IsBare s → has_prefix (s ++ (lit ":" ++ p)) (lit "[") ≡ false
unfolding has_prefix
no_bracket [] p h = refl
no_bracket (c ∷ s) p h = ground arith

pub strip_port-port : (h p : Bytes) → IsBare h → IsBare p → strip_port (h ++ (lit ":" ++ p)) ≡ h
unfolding strip_port
strip_port-port h p hh hp = ground (
  arith,
  cut_last_byte-port h p hp,
  no_bracket h p hh,
  contains_byte-port h p hh hp,
  IsBare-contains h hh,
)

module _ {R : Type 0} (rules : List (Rule R)) where
  -- The allowlist reads the rules, in whatever order they stand.
  any_in_sorted :
      (p : Rule R → Bool) {r : Rule R} → Memᴰ r rules → p r ≡ true → any p (sorted rules) ≡ true
  any_in_sorted p m h =
      any_of_mem p (sorted rules) (perm-memᴰ (Permᴰ.symm (sort_stable-perm rule_less rules)) m) h

  none_in_sorted : (p : Rule R → Bool) → All (λ r. p r ≡ false) rules → any p (sorted rules) ≡ false
  none_in_sorted p h =
      (any-eq-false_iff p (sorted rules)).1
        (All-perm _ (Permᴰ.symm (sort_stable-perm rule_less rules)) h)

  allowed_of_any :
      (host : Bytes) {r : Rule R}
      → Memᴰ r rules
      → r.match.host ≡ []
      → is_allowed_host (new rules) host ≡ true
  unfolding is_allowed_host
  allowed_of_any host {r} m e =
      let open_host = new-any_host rules ∙ any_in_sorted (λ x. is_empty x.match.host) m (rw e) in
      ground arith

  allowed_of_host :
      (host : Bytes) {r : Rule R}
      → Memᴰ r rules
      → r.match.host ≢ []
      → r.match.host ≡ strip_port host
      → is_allowed_host (new rules) host ≡ true
  unfolding is_allowed_host
  allowed_of_host host {r} m ne e =
      let named =
        new-hosts rules (strip_port host)
        ∙ any_in_sorted (names_host (strip_port host)) m (names r ne e) in
      ground arith
    where
      names :
          (r : Rule R)
          → r.match.host ≢ []
          → r.match.host ≡ strip_port host
          → names_host (strip_port host) r ≡ true
      names r ne e = ground (arith, =s_iff r.match.host (strip_port host))

  allowed_of_fit :
      (host : Bytes) {r : Rule R}
      → IsBare host
      → Memᴰ r rules
      → (r.match.host ≡ []) ⊎ (r.match.host ≡ host)
      → is_allowed_host (new rules) host ≡ true
  allowed_of_fit host bare m (inl empty) = allowed_of_any host m empty
  allowed_of_fit [] bare m (inr same) = allowed_of_any [] m same
  allowed_of_fit (c ∷ s) bare m (inr same) =
      allowed_of_host (c ∷ s) m (λ e. cc) (same ∙ sym (strip_port_bare (c ∷ s) bare))

  -- With plain exact rules, a host that has no colon, bracket or slash, and a path that begins with a
  -- slash: a request that Match has a rule for is never turned away by the allowlist.
  pub match-is_allowed_host :
      (engine : Engine R) (host path : Bytes)
      → All IsPlain rules
      → IsBare host
      → NoSlash host
      → StartsSlash path
      → {r : Rule R} {caps : List Bytes} → match engine (new rules) host path ≡ some (r, caps)
      → is_allowed_host (new rules) host ≡ true
  match-is_allowed_host engine host path plain bare no_slash slash {r} {caps} h =
      let (m, serves, _) = match-IsAnswer engine rules host path plain no_slash slash h in
      allowed_of_fit host bare m (host_of_Serves engine r.match.type r host path caps serves)

append-ne_self : (h : Bytes) (c : ℕ) (p : Bytes) → h ≢ h ++ c ∷ p
append-ne_self [] c p e = cc
append-ne_self (d ∷ h) c p e = append-ne_self h c p (cons-eq_tail e)
  where
    cons-eq_tail : d ∷ h ≡ d ∷ (h ++ c ∷ p) → h ≡ h ++ c ∷ p
    cons-eq_tail e = cc

first_mem : {A : Type 0} (xs : List A) → xs ≢ [] → (x : A) × Memᴰ x xs
first_mem [] ne = absurd (ne refl)
first_mem (x ∷ xs) ne = (x, Memᴰ.head refl)

module _ {R : Type 0} (rules : List (Rule R)) where
  -- With plain rules that all name the bare host `h`, and a path that begins with a slash: a request
  -- for `h` with a port passes the allowlist, and then Match has no rule for it.
  pub ported_host-unmatched :
      (engine : Engine R) (h port path : Bytes)
      → rules ≢ []
      → All (λ r. r.match.host ≡ h) rules
      → h ≢ []
      → IsBare h
      → IsBare port
      → All IsPlain rules
      → NoSlash (h ++ (lit ":" ++ port))
      → StartsSlash path
      → (is_allowed_host (new rules) (h ++ (lit ":" ++ port)) ≡ true)
        × (match engine (new rules) (h ++ (lit ":" ++ port)) path ≡ none)
  ported_host-unmatched engine h port path some_rule hosts ne bh bp plain ns sp =
      let (r, m) = first_mem rules some_rule in
      let named = All-get (λ (x : Rule R). x.match.host ≡ h) r rules hosts m in
      (
        allowed_of_host rules (h ++ (lit ":" ++ port)) m (λ e. ne (sym named ∙ e))
            (named ∙ sym (strip_port-port h port bh bp)),
        (match-none_iff engine rules (h ++ (lit ":" ++ port)) path plain ns sp).1
            (All-map rules (λ s host caps serves. refute s host caps serves) hosts),
      )
    where
      refute :
          (s : Rule R)
          → s.match.host ≡ h
          → (caps : List Bytes) → ¬ Serves engine s.match.type s (h ++ (lit ":" ++ port)) path caps
      refute s host caps serves =
          elim (host_of_Serves engine s.match.type s (h ++ (lit ":" ++ port)) path caps serves) [
            | inl empty ↦ ne (sym host ∙ empty)
            | inr same ↦ append-ne_self h 58 port (sym host ∙ same)
          ]

  -- With rules that all name a host, none of them the bare host `h`: a request for `h` with a port is
  -- turned away, also where a rule names that very host and port.
  pub ported_host-rejected :
      (h port : Bytes)
      → All (λ r. (r.match.host ≢ []) × (r.match.host ≢ h)) rules
      → IsBare h
      → IsBare port
      → is_allowed_host (new rules) (h ++ (lit ":" ++ port)) ≡ false
  unfolding is_allowed_host
  ported_host-rejected h port hosts bh bp =
      let closed =
        new-any_host rules
        ∙ none_in_sorted rules (λ x. is_empty x.match.host)
            (All-map rules (λ r ne. non_empty r.match.host ne.0) hosts) in
      let unnamed =
        new-hosts rules h
        ∙ none_in_sorted rules (names_host h) (All-map rules (λ r ne. unnamed_by r ne.1) hosts) in
      ground (arith, strip_port-port h port bh bp)
    where
      non_empty : (s : Bytes) → s ≢ [] → is_empty s ≡ false
      non_empty [] ne = absurd (ne refl)
      non_empty (c ∷ s) ne = refl

      unnamed_by : (r : Rule R) → r.match.host ≢ h → names_host h r ≡ false
      unnamed_by r ne = ground (arith, =s_iff r.match.host h)
