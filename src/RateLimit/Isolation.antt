-- ===== src/RateLimit/Isolation.antt =====
-- What a request can change in the limiter (internal/ratelimit/ratelimit.go), and what decides on it.
use the_redirector.Base.{
  ℕ, ◌≡◌, refl, ap, ◌∙◌, ◌≢◌, inl, inr, Bool, true, false, not, Option, none, some, Bytes, Dict,
  lookup, insert, lookup-insert, arith, Bool-cases, Option-cases, =s_iff, if◌then◌else◌,
}
use the_redirector.RateLimit.{
  Outside, Request, Limiter, get_client_ip, is_exempt, allow, check_global, check_path, check_ip,
  path_limiter, path_key, limiter_at, check_found, IpLimiter, Verdict, scope_per_ip, deny,
  scope_global, scope_path, ip_bucket,
}

lookup-insert_ne :
    {V : Type 0} (m : Dict V) (k j : Bytes) (v : V) → k ≢ j → lookup (insert m k v) j ≡ lookup m j
lookup-insert_ne m k j v ne = ground (arith, lookup-insert m k j v, =s_iff k j)

-- What one request may touch: the bucket of one address and that of one pattern.
abbrev SameBut :
    {F N B H : Type 0} → Limiter F N B H → Limiter F N B H → Bytes → Option Bytes → Type 0
SameBut l l' ip key =
    ((j : Bytes) → ip ≢ j → lookup l'.ip_limiters j ≡ lookup l.ip_limiters j)
    × ((j : Bytes) → key ≢ some j → lookup l'.path_limiters j ≡ lookup l.path_limiters j)

limiter_at-key :
    {B : Type 0} (m : Dict B) (o : Option Bytes) {k : Bytes} {b : B}
    → limiter_at m o ≡ some (k, b)
    → o ≡ some k
unfolding limiter_at
limiter_at-key m none h = cc
limiter_at-key m (some key) {k} {b} h = elim (Option-cases (lookup m key)) [
  | inl e ↦ absurd (none_ne_some (rw (e, limiter_at) at h))
  | inr (b1, e) ↦ ap some (key_eq (rw (e, limiter_at) at h))
]
  where
    none_ne_some : {A : Type 0} {a : A} → none ≡ some a → ⊥
    none_ne_some e = cc

    key_eq :
        {A C : Type 0} {x y : A} {c d : C}
        → ◌≡◌ {A = Option (A × C)} (some (x, c)) (some (y, d))
        → x ≡ y
    key_eq e = cc

module _ {F I N B H : Type 0} (outside : Outside F I N B) where
  check_ip-SameBut :
      (l : Limiter F N B H) (now : ℕ) (ip : Bytes) (key : Option Bytes)
      → SameBut l (check_ip outside l now ip).1 ip key
  unfolding check_ip
  check_ip-SameBut l now ip key = elim (Bool-cases (outside.positive l.cfg.per_ip_rps)) [
    | inr off ↦ rw off ((λ j ne. refl), λ j ne. refl)
    | inl on ↦ rw on (
        after (outside.take_token (ip_bucket outside l ip) now).0 (record {
          bucket = (outside.take_token (ip_bucket outside l ip) now).1;
          last_access = now;
        }))
  ]
    where
      after :
          (pass : Bool) (limiter : IpLimiter B)
          → let l' = record l { ip_limiters = insert l.ip_limiters ip limiter } in
            let verdict : Verdict F N B H =
              if pass then (true, l', none) else deny l' scope_per_ip in
            SameBut l verdict.1 ip key
      after true limiter = ((λ j ne. lookup-insert_ne l.ip_limiters ip j limiter ne), λ j ne. refl)
      after false limiter = ((λ j ne. lookup-insert_ne l.ip_limiters ip j limiter ne), λ j ne. refl)

  check_found-SameBut :
      (o : Option (Bytes × B)) (l : Limiter F N B H) (now : ℕ) (ip : Bytes) (key : Option Bytes)
      → ((k : Bytes) (b : B) → o ≡ some (k, b) → key ≡ some k)
      → SameBut l (check_found outside o l now ip).1 ip key
  unfolding check_found
  check_found-SameBut none l now ip key named = check_ip-SameBut l now ip key
  check_found-SameBut (some (k, b)) l now ip key named =
      after (outside.take_token b now).0 (outside.take_token b now).1
    where
      other : (j : Bytes) → key ≢ some j → k ≢ j
      other j ne e = ne (named k b refl ∙ ap some e)

      after :
          (pass : Bool) (bucket : B)
          → let l' = record l { path_limiters = insert l.path_limiters k bucket } in
            SameBut l (if pass then check_ip outside l' now ip else deny l' scope_path).1 ip key
      after true bucket =
          let same =
            check_ip-SameBut (record l { path_limiters = insert l.path_limiters k bucket }) now ip
              key in
          (same.0, λ j ne. same.1 j ne ∙ lookup-insert_ne l.path_limiters k j bucket (other j ne))
      after false bucket =
          ((λ j ne. refl), λ j ne. lookup-insert_ne l.path_limiters k j bucket (other j ne))

  check_path-SameBut :
      (l : Limiter F N B H) (now : ℕ) (p ip : Bytes)
      → SameBut l (check_path outside l now p ip).1 ip (path_key outside l.path_limiters p)
  unfolding check_path path_limiter
  check_path-SameBut l now p ip =
      check_found-SameBut (path_limiter outside l.path_limiters p) l now ip
        (path_key outside l.path_limiters p)
        (λ k b h. limiter_at-key l.path_limiters (path_key outside l.path_limiters p) h)

  check_global-SameBut :
      (o : Option B) (l : Limiter F N B H) (now : ℕ) (p ip : Bytes)
      → SameBut l (check_global outside o l now p ip).1 ip (path_key outside l.path_limiters p)
  unfolding check_global
  check_global-SameBut none l now p ip = check_path-SameBut l now p ip
  check_global-SameBut (some b) l now p ip =
      after (outside.take_token b now).0 (outside.take_token b now).1
    where
      after :
          (pass : Bool) (bucket : B)
          → let l' = record l { global_limiter = some bucket } in
            SameBut l
              (if pass then check_path outside l' now p ip else deny l' scope_global).1
              ip
              (path_key outside l.path_limiters p)
      after true bucket = check_path-SameBut (record l { global_limiter = some bucket }) now p ip
      after false bucket = ((λ j ne. refl), λ j ne. refl)

  allow-SameBut :
      (l : Limiter F N B H) (now : ℕ) (r : Request I)
      → let l' = (allow outside l now r).1 in
        ((j : Bytes)
          → outside.ip_text (get_client_ip outside l.cfg.trust_proxy r) ≢ j
          → lookup l'.ip_limiters j ≡ lookup l.ip_limiters j)
        × ((j : Bytes)
            → path_key outside l.path_limiters r.path ≢ some j
            → lookup l'.path_limiters j ≡ lookup l.path_limiters j)
  unfolding allow
  allow-SameBut l now r =
      after l.cfg.enabled
        (is_exempt outside l.exempt_nets (get_client_ip outside l.cfg.trust_proxy r))
    where
      after :
          (on exempt : Bool)
          → let ip = outside.ip_text (get_client_ip outside l.cfg.trust_proxy r) in
            let verdict : Verdict F N B H =
              if not on
              then (true, l, none)
              else if exempt
              then (true, l, none)
              else check_global outside l.global_limiter l now r.path ip in
            SameBut l verdict.1 ip (path_key outside l.path_limiters r.path)
      after false exempt = ((λ j ne. refl), λ j ne. refl)
      after true true = ((λ j ne. refl), λ j ne. refl)
      after true false =
          check_global-SameBut l.global_limiter l now r.path
            (outside.ip_text (get_client_ip outside l.cfg.trust_proxy r))

  -- A request leaves alone the bucket of every client address but the one it is counted under.
  pub allow-ip_limiters :
      (l : Limiter F N B H) (now : ℕ) (r : Request I) (j : Bytes)
      → outside.ip_text (get_client_ip outside l.cfg.trust_proxy r) ≢ j
      → lookup (allow outside l now r).1.ip_limiters j ≡ lookup l.ip_limiters j
  allow-ip_limiters l now r j ne = (allow-SameBut l now r).0 j ne

  -- A request leaves alone the bucket of every pattern but the one that is chosen for its path.
  pub allow-path_limiters :
      (l : Limiter F N B H) (now : ℕ) (r : Request I) (j : Bytes)
      → path_key outside l.path_limiters r.path ≢ some j
      → lookup (allow outside l now r).1.path_limiters j ≡ lookup l.path_limiters j
  allow-path_limiters l now r j ne = (allow-SameBut l now r).1 j ne

  -- Where the proxy is not trusted, the headers of a request have no say in its verdict, in the state
  -- that it leaves, or in who is told.
  pub allow-headers :
      (l : Limiter F N B H) (now : ℕ) (r : Request I) (forwarded_for real_ip : Bytes)
      → l.cfg.trust_proxy ≡ false
      → allow outside l now (record r { forwarded_for = forwarded_for; real_ip = real_ip })
        ≡ allow outside l now r
  unfolding allow get_client_ip
  allow-headers l now r forwarded_for real_ip untrusted = rw untrusted
