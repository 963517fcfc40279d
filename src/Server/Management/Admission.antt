-- ===== src/Server/Management/Admission.antt =====
-- Which requests reach an endpoint of the management interface (internal/server/server.go).
use the_redirector.Base.{
  ◌≡◌, refl, sym, ◌∙◌, ap, ◌↔◌, ◌≢◌, ◌⊎◌, inl, inr, true, false, Option, none, some, Bytes, subst,
  ok, err, arith, Bool-cases, Option-cases, List, Result-cases,
}
use the_redirector.Auth.{
  AuthError, Permission, Principal, has_permission, Request, Network, Middleware, Reply, handled,
  send_unauthorized, wrap, authenticate, reject, is_ip_allowed, bypasses,
}
use the_redirector.Server.Management.{
  Endpoint, route, guard_of, Served, endpoint, refusal, guarded, handle_management, serve,
}

module _ {I N : Type 0} (network : Network I N) (m : Middleware I N) where
  -- Whom an endpoint admits: without a guard, every client whose address is allowed and everyone who
  -- authenticates; with a guard, whoever authenticates as a principal with the permission, from an
  -- address that is not allowed.
  pub data Admits (r : Request I) : Option Permission → Type 0 where
    by_address : is_ip_allowed network m.allowed_ips r.remote_ip ≡ true → Admits r none
    by_login :
        (p : Principal)
        → is_ip_allowed network m.allowed_ips r.remote_ip ≡ false
        → authenticate m r ≡ ok p
        → Admits r none
    by_permission :
        (p : Principal) (perm : Permission)
        → is_ip_allowed network m.allowed_ips r.remote_ip ≡ false
        → authenticate m r ≡ ok p
        → has_permission p perm ≡ true
        → Admits r (some perm)

  handled_injective : {A : Type 0} {x y : A} → handled x ≡ handled y → x ≡ y
  handled_injective e = cc

  endpoint_injective : {e f : Endpoint} → endpoint e ≡ endpoint f → e ≡ f
  endpoint_injective e = cc

  rejected_ne :
      {x : AuthError} {l : List Bytes} {s : Served} → send_unauthorized x l ≡ handled s → ⊥
  rejected_ne e = cc

  module _ (on : m.config.enabled ≡ true) where
    -- Without a principal, a guard lets nothing pass.
    guarded_anonymous :
        (r : Request I) (e f : Endpoint) (g : Option Permission)
        → r.principal ≡ none
        → guarded (some m) r e g ≡ endpoint f
        → (e ≡ f) × (g ≡ none)
    unfolding guarded refusal
    guarded_anonymous r e f none np h = (endpoint_injective h, refl)
    guarded_anonymous r e f (some perm) np h = absurd (ground (arith, rw (on, np) at h))

    -- A guard lets a principal pass that has its permission.
    guarded_principal :
        (r : Request I) (p : Principal) (e f : Endpoint) (g : Option Permission)
        → r.principal ≡ some p
        → guarded (some m) r e g ≡ endpoint f
        → (e ≡ f)
          × ((g ≡ none) ⊎ ((perm : Permission) × (g ≡ some perm) × (has_permission p perm ≡ true)))
    unfolding guarded refusal
    guarded_principal r p e f none np h = (endpoint_injective h, inl refl)
    guarded_principal r p e f (some perm) np h = elim (Bool-cases (has_permission p perm)) [
      | inl has ↦ (endpoint_injective (rw (on, np, has) at h), inr (perm, refl, has))
      | inr lacks ↦ absurd (ground (arith, rw (on, np, lacks) at h))
    ]

    guarded_passes :
        (r : Request I) (p : Principal) (e : Endpoint) (perm : Permission)
        → r.principal ≡ some p
        → has_permission p perm ≡ true
        → guarded (some m) r e (some perm) ≡ endpoint e
    unfolding guarded refusal
    guarded_passes r p e perm np has = rw (on, np, has)

    guarded_open : (r : Request I) (e : Endpoint) → guarded (some m) r e none ≡ endpoint e
    unfolding guarded
    guarded_open r e = refl

    handled_at :
        (path : Bytes) (r : Request I) (f : Endpoint)
        → handle_management (some m) path r ≡ endpoint f
        → (e : Endpoint) × (route path ≡ some e) × (guarded (some m) r e (guard_of e) ≡ endpoint f)
    unfolding handle_management
    handled_at path r f h = elim (Option-cases (route path)) [
      | inl missed ↦ absurd (ground (arith, rw (missed, handle_management) at h))
      | inr (e, q) ↦ (e, q, rw (q, handle_management) at h)
    ]

    handled_of :
        (path : Bytes) (r : Request I) (e : Endpoint)
        → route path ≡ some e
        → guarded (some m) r e (guard_of e) ≡ endpoint e
        → handle_management (some m) path r ≡ endpoint e
    unfolding handle_management
    handled_of path r e q h = rw (q, handle_management) h

    bypasses-on :
        (r : Request I) → bypasses network m r ≡ is_ip_allowed network m.allowed_ips r.remote_ip
    bypasses-on r = rw on

    open_serve :
        (path : Bytes) (r : Request I)
        → serve network (some m) path r
          ≡ wrap network m (λ r'. handled (handle_management (some m) path r')) r
    unfolding serve
    open_serve path r = rw on

    wrap_allowed :
        {A : Type 0} (h : Request I → Reply A) (r : Request I)
        → is_ip_allowed network m.allowed_ips r.remote_ip ≡ true
        → wrap network m h r ≡ h r
    unfolding wrap
    wrap_allowed h r a = rw (bypasses-on r ∙ a)

    wrap_refused :
        {A : Type 0} (h : Request I → Reply A) (r : Request I) (x : AuthError)
        → is_ip_allowed network m.allowed_ips r.remote_ip ≡ false
        → authenticate m r ≡ err x
        → wrap network m h r ≡ reject m x
    unfolding wrap
    wrap_refused h r x a e = rw (bypasses-on r ∙ a, e)

    wrap_refused_ne :
        (h : Request I → Reply Served) (r : Request I) (x : AuthError) {s : Served}
        → is_ip_allowed network m.allowed_ips r.remote_ip ≡ false
        → authenticate m r ≡ err x
        → wrap network m h r ≢ handled s
    unfolding reject
    wrap_refused_ne h r x a e w = rejected_ne (sym (wrap_refused h r x a e) ∙ w)

    wrap_accepted :
        {A : Type 0} (h : Request I → Reply A) (r : Request I) (p : Principal)
        → is_ip_allowed network m.allowed_ips r.remote_ip ≡ false
        → authenticate m r ≡ ok p
        → wrap network m h r ≡ h (record r { principal = some p })
    unfolding wrap
    wrap_accepted h r p a e = rw (bypasses-on r ∙ a, e)

    -- With authentication on, a request that carries no principal reaches an endpoint exactly when its
    -- path is the endpoint's and the endpoint admits it: one without a guard (the three public ones) admits
    -- the allowed addresses and everyone who authenticates, and one with a guard admits who
    -- authenticates as a principal with the permission and has an address that is not allowed.
    pub serve_iff :
        (path : Bytes) (r : Request I) (e : Endpoint)
        → r.principal ≡ none
        → (serve network (some m) path r ≡ handled (endpoint e))
          ↔ ((route path ≡ some e) × Admits r (guard_of e))
    serve_iff path r e np = (
      λ h. elim (Bool-cases (is_ip_allowed network m.allowed_ips r.remote_ip)) [
        | inl a ↦
            anonymous a (handled_injective (sym (wrap_allowed _ r a) ∙ sym (open_serve path r) ∙ h))
        | inr a ↦ elim (Result-cases (authenticate m r)) [
          | inl (x, refused) ↦
              absurd (wrap_refused_ne _ r x a refused (sym (open_serve path r) ∙ h))
          | inr (p, accepted) ↦ logged_in p a accepted (
              handled_injective
                (sym (wrap_accepted _ r p a accepted) ∙ sym (open_serve path r) ∙ h))
        ]
      ],
      λ (q, admitted). open_serve path r ∙ reaches q (guard_of e) refl admitted,
    )
      where
        anonymous :
            is_ip_allowed network m.allowed_ips r.remote_ip ≡ true
            → handle_management (some m) path r ≡ endpoint e
            → (route path ≡ some e) × Admits r (guard_of e)
        anonymous a h =
            let (e', q, g) = handled_at path r e h in
            let (same, unguarded) = guarded_anonymous r e' e (guard_of e') np g in
            (q ∙ ap some same, subst (Admits r) (sym unguarded ∙ ap guard_of same) (by_address a))

        logged_in :
            (p : Principal)
            → is_ip_allowed network m.allowed_ips r.remote_ip ≡ false
            → authenticate m r ≡ ok p
            → handle_management (some m) path (record r { principal = some p }) ≡ endpoint e
            → (route path ≡ some e) × Admits r (guard_of e)
        logged_in p a accepted h =
            let (e', q, g) = handled_at path (record r { principal = some p }) e h in
            let (same, guard) =
              guarded_principal (record r { principal = some p }) p e' e (guard_of e') refl g in
            (
              q ∙ ap some same,
              elim guard [
                | inl unguarded ↦
                    subst (Admits r) (sym unguarded ∙ ap guard_of same) (by_login p a accepted)
                | inr (perm, guards, has) ↦
                    subst (Admits r) (sym guards ∙ ap guard_of same)
                      (by_permission p perm a accepted has)
              ],
            )

        reaches :
            route path ≡ some e
            → (g : Option Permission) → guard_of e ≡ g
            → Admits r g
            → wrap network m (λ r'. handled (handle_management (some m) path r')) r
              ≡ handled (endpoint e)
        reaches q none same (by_address a) =
            wrap_allowed _ r a
            ∙ ap handled (handled_of path r e q (ap (guarded (some m) r e) same ∙ guarded_open r e))
        reaches q none same (by_login p a accepted) =
            wrap_accepted _ r p a accepted
            ∙ ap handled (
                handled_of path _ e q (
                  ap (guarded (some m) (record r { principal = some p }) e) same
                  ∙ guarded_open _ e))
        reaches q (some perm) same (by_permission p asked a accepted has) =
            wrap_accepted _ r p a accepted
            ∙ ap handled (
                handled_of path _ e q (
                  ap (guarded (some m) (record r { principal = some p }) e) same
                  ∙ guarded_passes (record r { principal = some p }) p e _ refl has))
