-- ===== src/RateLimit.antt =====
-- internal/ratelimit/ratelimit.go: the limiter. A token bucket of golang.org/x/time/rate is a value
-- of a type `B`, asked at a time, which returns the verdict and the bucket behind it; so a limiter
-- is a state that each request returns anew. A callback is a value of a type `H`; a call returns
-- whom it tells.
pub mod Isolation
use the_redirector.Base.{
  ℕ, ◌-◌, Bool, true, false, ◌&&◌, not, Option, none, some, List, [], ◌∷◌, ◌++◌, map, Bytes, lit,
  is_empty, ◌=s◌, Dict, lookup, insert, has_key, has_prefix, cut_byte, reverse, ltb, ◌==◌,
  if◌then◌else◌, ℤ,
}

pub record PathLimit (F : Type 0) : Type 0 where
  pub path : Bytes
  pub rps : F
  pub burst : ℤ

pub record Config (F : Type 0) : Type 0 where
  pub enabled : Bool
  pub global_rps : F
  pub global_burst : ℤ
  pub per_ip_rps : F
  pub per_ip_burst : ℤ
  pub path_limits : List (PathLimit F)
  pub cleanup_interval : ℕ
  pub ip_ttl : ℕ
  pub trust_proxy : Bool
  pub exempt_ips : List Bytes

-- What the package takes from outside.
pub record Outside (F I N B : Type 0) : Type 0 where
  -- rate.NewLimiter, and Allow at a time
  pub new_bucket : F → ℤ → B
  pub take_token : B → ℕ → Bool × B
  -- x > 0 on float64
  pub positive : F → Bool
  pub parse_cidr : Bytes → Option N
  pub parse_ip : Bytes → Option I
  pub is_v4 : I → Bool
  pub masked : I → ℕ → ℕ → N
  pub contains : N → I → Bool
  pub ip_text : I → Bytes
  -- The keys of a map in the order in which `range` visits them.
  pub range_keys : List Bytes → List Bytes

-- The headers are empty where they are missing.
pub record Request (I : Type 0) : Type 0 where
  pub path : Bytes
  pub forwarded_for : Bytes
  pub real_ip : Bytes
  pub remote_ip : I

pub record IpLimiter (B : Type 0) : Type 0 where
  pub bucket : B
  pub last_access : ℕ

pub data Scope : Type 0 where
  scope_global scope_path scope_per_ip : Scope

pub record Limiter (F N B H : Type 0) : Type 0 where
  pub cfg : Config F
  pub global_limiter : Option B
  pub ip_limiters : Dict (IpLimiter B)
  pub path_limiters : Dict B
  pub exempt_nets : List N
  pub on_limited : Option H

-- The prefix of a pattern that ends with a star.
unfoldable pub star_prefix : Bytes → Option Bytes
star_prefix pattern = elim (reverse pattern) [
  | [] ↦ none
  | c ∷ s ↦ if c == b'*' then some (reverse s) else none
]

abbrev pub covers_path : Bytes → Bytes → Bool
covers_path path pattern = elim (star_prefix pattern) [
  | none ↦ false
  | some prefix ↦ has_prefix path prefix
]

-- The loop of getPathLimiter over the patterns.
unfoldable pub first_cover : Bytes → List Bytes → Option Bytes
first_cover path [] = none
first_cover path (pattern ∷ rest) =
    if covers_path path pattern then some pattern else first_cover path rest

-- The first address of X-Forwarded-For.
first_address : Bytes → Bytes
first_address xff = elim (cut_byte xff b',') [ none ↦ xff | some (first, _) ↦ first ]

-- Of two lookups, the first that finds something.
abbrev pub or_else : {A : Type 0} → Option A → Option A → Option A
or_else none y = y
or_else (some a) y = some a

-- Whether the request passes, the limiter behind it, and the callback that is told of a scope.
abbrev pub Verdict : Type 0 → Type 0 → Type 0 → Type 0 → Type 0
Verdict F N B H = Bool × Limiter F N B H × Option (H × Scope)

abbrev pub deny : {F N B H : Type 0} → Limiter F N B H → Scope → Verdict F N B H
deny l scope = (false, l, elim l.on_limited [ none ↦ none | some h ↦ some (h, scope) ])

pub limiter_at : {B : Type 0} → Dict B → Option Bytes → Option (Bytes × B)
limiter_at m none = none
limiter_at m (some key) = elim (lookup m key) [ none ↦ none | some b ↦ some (key, b) ]

module _ {F I N B : Type 0} (outside : Outside F I N B) where
  header_ip : Bytes → Option I
  header_ip text = if is_empty text then none else outside.parse_ip text

  -- getClientIP
  unfoldable pub get_client_ip : Bool → Request I → I
  unfolding header_ip first_address
  get_client_ip trust_proxy r =
      if trust_proxy
      then elim (or_else
          (if is_empty r.forwarded_for
            then none
            else outside.parse_ip (first_address r.forwarded_for))
          (header_ip r.real_ip)) [ some ip ↦ ip | none ↦ r.remote_ip ]
      else r.remote_ip

  -- isExempt
  unfoldable pub is_exempt : List N → I → Bool
  is_exempt [] ip = false
  is_exempt (net ∷ nets) ip = if outside.contains net ip then true else is_exempt nets ip

  exempt_net : Bytes → Option N
  exempt_net text = elim (outside.parse_cidr text) [
    | some net ↦ some net
    | none ↦ elim (outside.parse_ip text) [
      | none ↦ none
      | some ip ↦
          some (if outside.is_v4 ip then outside.masked ip 32 32 else outside.masked ip 128 128)
    ]
  ]

  parse_exempt : List N → List Bytes → List N
  unfolding exempt_net
  parse_exempt nets [] = nets
  parse_exempt nets (text ∷ texts) = elim (exempt_net text) [
    | none ↦ parse_exempt nets texts
    | some net ↦ parse_exempt (nets ++ net ∷ []) texts
  ]

  new_paths : Dict B → List (PathLimit F) → Dict B
  new_paths m [] = m
  new_paths m (p ∷ ps) = new_paths (insert m p.path (outside.new_bucket p.rps p.burst)) ps

  -- New, of a configuration that is not nil
  unfoldable pub new : {H : Type 0} → Config F → Limiter F N B H
  unfolding parse_exempt new_paths
  new cfg = record {
    cfg = cfg;
    global_limiter =
        if outside.positive cfg.global_rps
        then some (outside.new_bucket cfg.global_rps cfg.global_burst)
        else none;
    ip_limiters = [];
    path_limiters = new_paths [] cfg.path_limits;
    exempt_nets = parse_exempt [] cfg.exempt_ips;
    on_limited = none;
  }

  -- The key of the limiter that getPathLimiter returns.
  unfoldable pub path_key : Dict B → Bytes → Option Bytes
  path_key m path =
      if has_key m path
      then some path
      else first_cover path (outside.range_keys (map (λ (e : Bytes × B). e.0) m))

  -- getPathLimiter
  unfoldable pub path_limiter : Dict B → Bytes → Option (Bytes × B)
  unfolding limiter_at
  path_limiter m path = limiter_at m (path_key m path)

  module _ {H : Type 0} where
    -- getIPLimiter
    unfoldable pub ip_bucket : Limiter F N B H → Bytes → B
    ip_bucket l ip = elim (lookup l.ip_limiters ip) [
      | some limiter ↦ limiter.bucket
      | none ↦ outside.new_bucket l.cfg.per_ip_rps l.cfg.per_ip_burst
    ]

    pub check_ip : Limiter F N B H → ℕ → Bytes → Verdict F N B H
    check_ip l now ip =
        if outside.positive l.cfg.per_ip_rps
        then (let (pass, bucket) = outside.take_token (ip_bucket l ip) now in
            let l' = record l {
              ip_limiters = insert l.ip_limiters ip (record { bucket = bucket; last_access = now });
            } in
            if pass then (true, l', none) else deny l' scope_per_ip)
        else (true, l, none)

    -- The path check of Allow, with the limiter that was found for the path.
    pub check_found : Option (Bytes × B) → Limiter F N B H → ℕ → Bytes → Verdict F N B H
    check_found none l now ip = check_ip l now ip
    check_found (some (key, b)) l now ip =
        let (pass, bucket) = outside.take_token b now in
        let l' = record l { path_limiters = insert l.path_limiters key bucket } in
        let rest = check_ip l' now ip in if pass then rest else deny l' scope_path

    pub check_path : Limiter F N B H → ℕ → Bytes → Bytes → Verdict F N B H
    unfolding check_found
    check_path l now path ip = check_found (path_limiter l.path_limiters path) l now ip

    -- The global check, with the global limiter if there is one.
    pub check_global : Option B → Limiter F N B H → ℕ → Bytes → Bytes → Verdict F N B H
    unfolding check_path
    check_global none l now path ip = check_path l now path ip
    check_global (some b) l now path ip =
        let (pass, bucket) = outside.take_token b now in
        let l' = record l { global_limiter = some bucket } in
        let rest = check_path l' now path ip in if pass then rest else deny l' scope_global

    -- Allow
    unfoldable pub allow : Limiter F N B H → ℕ → Request I → Verdict F N B H
    unfolding check_global
    allow l now r =
        let ip = get_client_ip l.cfg.trust_proxy r in
        if not l.cfg.enabled
        then (true, l, none)
        else if is_exempt l.exempt_nets ip
        then (true, l, none)
        else check_global l.global_limiter l now r.path (outside.ip_text ip)

    -- SetOnLimited
    unfoldable pub set_on_limited : Limiter F N B H → H → Limiter F N B H
    set_on_limited l h = record l { on_limited = some h }

  fresh_entries : ℕ → ℕ → Dict (IpLimiter B) → Dict (IpLimiter B)
  fresh_entries now ttl [] = []
  fresh_entries now ttl ((ip, limiter) ∷ m) =
      let rest = fresh_entries now ttl m in
      if ltb ttl (now - limiter.last_access) then rest else (ip, limiter) ∷ rest

  -- cleanup
  unfoldable pub cleanup : {H : Type 0} → Limiter F N B H → ℕ → Limiter F N B H
  unfolding fresh_entries
  cleanup l now = record l { ip_limiters = fresh_entries now l.cfg.ip_ttl l.ip_limiters }
