-- ===== src/Auth/Access.antt =====
-- Who reaches a handler behind the middleware (internal/auth/middleware.go).
use the_redirector.Base.{
  ◌≡◌, refl, sym, ap, ◌∙◌, ◌↔◌, inl, inr, Bool, true, false, Option, none, some, List, [], ◌∷◌,
  ◌++◌, Bytes, All, arith, Bool-cases, subst, ok, err, Result-cases,
}
use the_redirector.Auth.{
  AuthError, Permission, Principal, has_permission, Request, Authenticator, Network, Middleware,
  handled, send_unauthorized, send_forbidden, keep_error, try_authenticators, authenticate,
  bypasses, wrap, require_permission,
}

module _ {I : Type 0} where
  -- The authenticator turns the request down.
  abbrev pub Refuses : Request I → Authenticator I → Type 0
  Refuses r a = (e : AuthError) × (a.authenticate r ≡ err e)

  -- The first authenticator of the list that does not turn the request down accepts it as `p`.
  pub record FirstAccepts (all : List (Authenticator I)) (r : Request I) (p : Principal)
      : Type 0 where
    pub before : List (Authenticator I)
    pub accepting : Authenticator I
    pub after : List (Authenticator I)
    pub parts : all ≡ before ++ accepting ∷ after
    pub refused : All (Refuses r) before
    pub accepted : accepting.authenticate r ≡ ok p

module _ {I : Type 0} (r : Request I) where
  accepts_sound :
      (all : List (Authenticator I)) (last : Option AuthError) (p : Principal)
      → try_authenticators all r last ≡ ok p
      → FirstAccepts all r p
  unfolding try_authenticators
  accepts_sound [] last p h = absurd (ground arith)
  accepts_sound (a ∷ rest) last p h = elim (Result-cases (a.authenticate r)) [
    | inr (q, e) ↦ record {
      before = [];
      accepting = a;
      after = rest;
      parts = refl;
      refused = tt;
      accepted = e ∙ rw e at h;
    }
    | inl (x, e) ↦
        let found = accepts_sound rest (keep_error last x) p (rw e at h) in
        record {
          before = a ∷ found.before;
          accepting = found.accepting;
          after = found.after;
          parts = ap (λ t. a ∷ t) found.parts;
          refused = ((x, e), found.refused);
          accepted = found.accepted;
        }
  ]

  accepts_complete :
      (before : List (Authenticator I)) (a : Authenticator I) (after : List (Authenticator I))
      (last : Option AuthError) (p : Principal)
      → All (Refuses r) before
      → a.authenticate r ≡ ok p
      → try_authenticators (before ++ a ∷ after) r last ≡ ok p
  unfolding try_authenticators
  accepts_complete [] a after last p refused e = rw e
  accepts_complete (b ∷ before) a after last p refused e =
      rw refused.0.1 (accepts_complete before a after (keep_error last refused.0.0) p refused.1 e)

module _ {I N : Type 0} where
  -- The request is accepted as `p` exactly when the first authenticator that does not turn it down
  -- accepts it as `p`.
  pub authenticate_iff :
      (m : Middleware I N) (r : Request I) (p : Principal)
      → (authenticate m r ≡ ok p) ↔ FirstAccepts m.authenticators r p
  unfolding authenticate
  authenticate_iff m r p = (
    accepts_sound r m.authenticators none p,
    λ f.
        subst (λ l. try_authenticators l r none ≡ ok p) (sym f.parts)
          (accepts_complete r f.before f.accepting f.after none p f.refused f.accepted),
  )

  -- A request reaches what is behind both Wrap and RequirePermission.
  pub data Reaches (network : Network I N) (m : Middleware I N) (perm : Permission) (r : Request I)
      : Request I → Type 0 where
    bypassing : bypasses network m r ≡ true → Reaches network m perm r r
    permitted :
        (p : Principal)
        → bypasses network m r ≡ false
        → authenticate m r ≡ ok p
        → has_permission p perm ≡ true
        → Reaches network m perm r (record r { principal = some p })

  -- The bypass does not look at the principal.
  bypasses-principal :
      (network : Network I N) (m : Middleware I N) (r : Request I) (p : Principal) {b : Bool}
      → bypasses network m r ≡ b
      → bypasses network m (record r { principal = some p }) ≡ b
  bypasses-principal network m r p e = e

  reached :
      {network : Network I N} {m : Middleware I N} {perm : Permission} {r : Request I}
      (r' : Request I)
      → Reaches network m perm r r'
      → wrap network m (require_permission network m handled perm) r ≡ handled r'
  unfolding wrap require_permission
  reached r' (bypassing b) = rw b
  reached {network} {m} {r = r} r' (permitted p b accepted has) =
      rw (b, accepted, bypasses-principal network m r p b, has)

  -- A handler behind Wrap and RequirePermission handles a request exactly when authentication is
  -- off or the client's address is allowed, and then it gets the request as it came, or when the
  -- request is accepted as a principal with the permission, and then it gets the request with this
  -- principal.
  pub wrap-require_permission :
      (network : Network I N) (m : Middleware I N) (perm : Permission) (r r' : Request I)
      → (wrap network m (require_permission network m handled perm) r ≡ handled r')
        ↔ Reaches network m perm r r'
  unfolding wrap require_permission
  wrap-require_permission network m perm r r' = (
    λ h. elim (Bool-cases (bypasses network m r)) [
      | inl b ↦ subst (Reaches network m perm r) (handled_injective (rw b at h)) (bypassing b)
      | inr b ↦ elim (Result-cases (authenticate m r)) [
        | inl (e, refused) ↦ absurd (unauthorized_ne_handled (rw (b, refused) at h))
        | inr (p, accepted) ↦ elim (Bool-cases (has_permission p perm)) [
          | inl has ↦
              subst (Reaches network m perm r)
                (handled_injective (rw (b, accepted, bypasses-principal network m r p b, has) at h))
                (permitted p b accepted has)
          | inr lacks ↦ absurd (
              forbidden_ne_handled
                (rw (b, accepted, bypasses-principal network m r p b, lacks) at h))
        ]
      ]
    ],
    reached r',
  )
    where
      handled_injective : {A : Type 0} {x y : A} → handled x ≡ handled y → x ≡ y
      handled_injective e = cc

      unauthorized_ne_handled :
          {A : Type 0} {e : AuthError} {l : List Bytes} {x : A}
          → send_unauthorized e l ≡ handled x
          → ⊥
      unauthorized_ne_handled e = cc

      forbidden_ne_handled :
          {A : Type 0} {q : Permission} {x : A} → send_forbidden q ≡ handled x → ⊥
      forbidden_ne_handled e = cc
