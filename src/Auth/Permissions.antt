-- ===== src/Auth/Permissions.antt =====
-- Which permissions cover which (internal/auth/auth.go).
use the_redirector.Base.{
  ◌≡◌, refl, sym, ◌↔◌, ◌⊎◌, inl, inr, Bool, true, false, ◌&&◌, ◌||◌, List, [], ◌∷◌, Memᴰ, lit, ◌=s◌,
  =s_iff, =s_refl, arith, Bool-cases, false≢true, subst,
}
use the_redirector.Auth.{Permission, Principal, covers, any_covers, has_permission}

-- The hierarchy of the permissions: admin is above all, write above read and reload, and
-- stats:write above stats:read.
pub data Covers : Permission → Permission → Type 0 where
  same : (p : Permission) → Covers p p
  admin : (p : Permission) → Covers (lit "admin") p
  write_read : Covers (lit "write") (lit "read")
  write_reload : Covers (lit "write") (lit "reload")
  stats_read : Covers (lit "stats:write") (lit "stats:read")

||-cases : (a b : Bool) → (a || b) ≡ true → (a ≡ true) ⊎ (b ≡ true)
||-cases true b h = inl refl
||-cases false b h = inr h

&&-cases : (a b : Bool) → (a && b) ≡ true → (a ≡ true) × (b ≡ true)
&&-cases true b h = (refl, h)
&&-cases false b h = absurd (false≢true h)

Covers-of_eq : (g p h q : Permission) → (g =s h) ≡ true → (p =s q) ≡ true → Covers h q → Covers g p
Covers-of_eq g p h q e k c =
    subst (λ x. Covers x p) (sym ((=s_iff g h).0 e))
      (subst (λ x. Covers h x) (sym ((=s_iff p q).0 k)) c)

covers_sound : (g p : Permission) → covers g p ≡ true → Covers g p
unfolding covers
covers_sound g p h = elim (||-cases _ (g =s lit "stats:write" && p =s lit "stats:read") h) [
  | inr h1 ↦
      let (e, k) = &&-cases (g =s lit "stats:write") _ h1 in
      Covers-of_eq g p (lit "stats:write") (lit "stats:read") e k stats_read
  | inl h1 ↦ elim (||-cases _ (g =s lit "write" && (p =s lit "read" || p =s lit "reload")) h1) [
    | inr h2 ↦
        let (e, h3) = &&-cases (g =s lit "write") _ h2 in
        elim (||-cases (p =s lit "read") _ h3) [
          | inl k ↦ Covers-of_eq g p (lit "write") (lit "read") e k write_read
          | inr k ↦ Covers-of_eq g p (lit "write") (lit "reload") e k write_reload
        ]
    | inl h2 ↦ elim (||-cases (g =s lit "admin") (g =s p) h2) [
      | inl e ↦ Covers-of_eq g p (lit "admin") p e (=s_refl p) (admin p)
      | inr e ↦ Covers-of_eq g p p p e (=s_refl p) (same p)
    ]
  ]
]

or_true : (a b c : Bool) → (((a || true) || b) || c) ≡ true
or_true true b c = refl
or_true false b c = refl

covers_complete : (g p : Permission) → Covers g p → covers g p ≡ true
unfolding covers ◌=s◌
covers_complete g p (same q) = rw (=s_refl q) (or_true _ _ _)
covers_complete g p (admin q) = refl
covers_complete g p write_read = refl
covers_complete g p write_reload = refl
covers_complete g p stats_read = refl

any_covers_sound :
    (gs : List Permission) (p : Permission)
    → any_covers gs p ≡ true
    → (g : Permission) × Memᴰ g gs × Covers g p
unfolding any_covers
any_covers_sound [] p h = absurd (false≢true h)
any_covers_sound (g ∷ gs) p h = elim (Bool-cases (covers g p)) [
  | inl hit ↦ (g, Memᴰ.head refl, covers_sound g p hit)
  | inr miss ↦ let (k, m, c) = any_covers_sound gs p (rw miss at h) in (k, Memᴰ.tail m, c)
]

any_covers_complete :
    (gs : List Permission) (g p : Permission) → Memᴰ g gs → Covers g p → any_covers gs p ≡ true
unfolding any_covers
any_covers_complete [] g p m c = elim m [ ]
any_covers_complete (x ∷ gs) g p (Memᴰ.head e) c =
    rw (covers_complete x p (subst (λ y. Covers y p) e c))
any_covers_complete (x ∷ gs) g p (Memᴰ.tail m) c = ground (arith, any_covers_complete gs g p m c)

-- A principal has a permission exactly when one of those granted to it covers it in the hierarchy.
pub has_permission_iff :
    (p : Principal) (perm : Permission)
    → (has_permission p perm ≡ true)
      ↔ ((granted : Permission) × Memᴰ granted p.permissions × Covers granted perm)
unfolding has_permission
has_permission_iff p perm =
    (any_covers_sound p.permissions perm, λ h. any_covers_complete p.permissions h.0 perm h.1 h.2)
