-- ===== src/Syncer/Service/Setup.antt =====
-- What New of internal/syncer/syncer.go sets up.
use the_redirector.Base.{
  ℕ, suc, ◌+◌, ◌≡◌, inl, inr, refl, sym, ap, ◌∙◌, subst, Bool, true, false, ◌&&◌, Option, none,
  List, [], ◌∷◌, ◌++◌, map, length, All, Bytes, is_empty, format_nat, ◌==◌, arith, Bool-cases,
  Option-cases, ok, >>=-eq-ok, ok_injective,
}
use the_redirector.Syncer.Merge.{SourceConfig, MergeConfig}
use the_redirector.Syncer.Push.{TargetConfig}
use the_redirector.Syncer.Service.{
  Config, Syncer, new_syncer, name_sources, named, create_sources, with_timeout, with_resolution,
}

-- What New fills in of a configuration, and what it leaves as it is.
pub record IsSetUp {R F S : Type 0} (cfg : Config) (s : Syncer R F S) : Type 0 where
  pub resolution : is_empty s.cfg.merge.conflict_resolution ≡ false
  pub sources :
      All
        (λ c.
          (is_empty c.name ≡ false) × ((s.cfg.merge.require_prefix && is_empty c.prefix) ≡ false))
        s.cfg.sources
  pub targets : All (λ t. (t.timeout == 0) ≡ false) s.cfg.targets
  pub created : length s.sources ≡ length s.cfg.sources
  pub given :
      (s.cfg.sync_interval ≡ cfg.sync_interval)
      × (s.cfg.retry_attempts ≡ cfg.retry_attempts)
      × (s.cfg.retry_delay ≡ cfg.retry_delay)
      × (s.cfg.merge.require_prefix ≡ cfg.merge.require_prefix)
      × (length s.cfg.sources ≡ length cfg.sources)
      × (length s.cfg.targets ≡ length cfg.targets)
  pub unused :
      (s.current_config ≡ none) × (s.last_report ≡ none) × (s.sync_count ≡ 0) × (s.sync_errors ≡ 0)

filled : (s : Bytes) (b : ℕ) (t : Bytes) → is_empty (s ++ b ∷ t) ≡ false
filled [] b t = refl
filled (a ∷ s) b t = refl

named_lem :
    (i : ℕ) (c : SourceConfig)
    → (is_empty (named i c).name ≡ false) × ((named i c).prefix ≡ c.prefix)
unfolding named
named_lem i c = elim (Bool-cases (is_empty c.name)) [
  | inl bare ↦ rw (bare, named) (filled c.type 45 (format_nat i), refl)
  | inr full ↦ (
    ap (λ (d : SourceConfig). is_empty d.name) (same full) ∙ full,
    ap (λ (d : SourceConfig). d.prefix) (same full),
  )
]
  where
    same : is_empty c.name ≡ false → named i c ≡ c
    same full = rw full refl

named-sources :
    (require_prefix : Bool) (i : ℕ) (cs ds : List SourceConfig)
    → name_sources require_prefix i cs ≡ ok ds
    → All (λ c. (is_empty c.name ≡ false) × ((require_prefix && is_empty c.prefix) ≡ false)) ds
unfolding name_sources
named-sources require_prefix i [] ds h = subst (All _) (ok_injective h) tt
named-sources require_prefix i (c ∷ cs) ds h =
    elim (Bool-cases (require_prefix && is_empty c.prefix)) [
      | inl bare ↦ absurd (ground (arith, rw (bare, name_sources) at h))
      | inr fine ↦
          let (es, e, rest) =
            >>=-eq-ok (name_sources require_prefix (i + 1) cs) _ (rw (fine, name_sources) at h) in
          subst (All _) (ok_injective rest) (
            (let (name, prefix) = named_lem i c in
                (name, ap (λ p. require_prefix && is_empty p) prefix ∙ fine)),
            named-sources require_prefix (i + 1) cs es e,
          )
    ]

with_timeout-set : (t : TargetConfig) → ((with_timeout t).timeout == 0) ≡ false
unfolding with_timeout
with_timeout-set t = elim (Bool-cases (t.timeout == 0)) [
  | inl unset_time ↦ ap (λ (u : TargetConfig). u.timeout == 0) (filled_in unset_time)
  | inr full ↦ ap (λ (u : TargetConfig). u.timeout == 0) (same full) ∙ full
]
  where
    filled_in : (t.timeout == 0) ≡ true → with_timeout t ≡ record t { timeout = 10000000000 }
    filled_in e = rw e refl

    same : (t.timeout == 0) ≡ false → with_timeout t ≡ t
    same full = rw full refl

with_timeout-targets :
    (ts : List TargetConfig) → All (λ t. (t.timeout == 0) ≡ false) (map with_timeout ts)
unfolding with_timeout
with_timeout-targets [] = tt
with_timeout-targets (t ∷ ts) = (with_timeout-set t, with_timeout-targets ts)

with_resolution_lem :
    (m : MergeConfig)
    → (is_empty (with_resolution m).conflict_resolution ≡ false)
      × ((with_resolution m).require_prefix ≡ m.require_prefix)
unfolding with_resolution
with_resolution_lem m = elim (Bool-cases (is_empty m.conflict_resolution)) [
  | inl bare ↦ rw (bare, with_resolution) (refl, refl)
  | inr full ↦ (
    ap (λ (n : MergeConfig). is_empty n.conflict_resolution) (same full) ∙ full,
    ap (λ (n : MergeConfig). n.require_prefix) (same full),
  )
]
  where
    same : is_empty m.conflict_resolution ≡ false → with_resolution m ≡ m
    same full = rw full refl

module _ {S : Type 0} (create : SourceConfig → Option S) where
  length-create_sources :
      (cs : List SourceConfig) (made : List S)
      → create_sources create cs ≡ ok made
      → length made ≡ length cs
  unfolding create_sources
  length-create_sources [] made h = ap length (sym (ok_injective h))
  length-create_sources (c ∷ cs) made h = elim (Option-cases (create c)) [
    | inl failed ↦ absurd (ground (arith, rw (failed, create_sources) at h))
    | inr (x, done) ↦
        let (more, e, rest) =
          >>=-eq-ok (create_sources create cs) _ (rw (done, create_sources) at h) in
        ap length (sym (ok_injective rest)) ∙ ap suc (length-create_sources cs more e)
  ]

  length-name_sources :
      (require_prefix : Bool) (i : ℕ) (cs ds : List SourceConfig)
      → name_sources require_prefix i cs ≡ ok ds
      → length ds ≡ length cs
  unfolding name_sources
  length-name_sources require_prefix i [] ds h = ap length (sym (ok_injective h))
  length-name_sources require_prefix i (c ∷ cs) ds h =
      elim (Bool-cases (require_prefix && is_empty c.prefix)) [
        | inl bare ↦ absurd (ground (arith, rw (bare, name_sources) at h))
        | inr fine ↦
            let (es, e, rest) =
              >>=-eq-ok (name_sources require_prefix (i + 1) cs) _ (rw (fine, name_sources) at h) in
            ap length (sym (ok_injective rest))
            ∙ ap suc (length-name_sources require_prefix (i + 1) cs es e)
      ]

  length-with_timeout : (ts : List TargetConfig) → length (map with_timeout ts) ≡ length ts
  length-with_timeout [] = refl
  length-with_timeout (t ∷ ts) = ap suc (length-with_timeout ts)

  -- Where New returns a syncer, a resolution is set, every source has a name, and a prefix if prefixes
  -- are required, every target has a timeout other than 0, and every source was created. There are as
  -- many sources and targets as were given; whether prefixes are required, the interval of syncs, and
  -- the number and the delay of retries are as given. There is no configuration and no report yet, and
  -- no sync and no error is counted.
  pub new_syncer-IsSetUp :
      {R F : Type 0} (cfg : Config) (s : Syncer R F S)
      → new_syncer create cfg ≡ ok s
      → IsSetUp cfg s
  unfolding new_syncer
  new_syncer-IsSetUp cfg s h =
      let (ds, e, h') = >>=-eq-ok (name_sources cfg.merge.require_prefix 0 cfg.sources) _ h in
      let (made, e', rest) = >>=-eq-ok (create_sources create ds) _ h' in
      subst (IsSetUp cfg) (ok_injective rest) (record {
        resolution = (with_resolution_lem cfg.merge).0;
        sources =
            subst
              (λ b. All (λ c. (is_empty c.name ≡ false) × ((b && is_empty c.prefix) ≡ false)) ds)
              (sym (with_resolution_lem cfg.merge).1)
              (named-sources cfg.merge.require_prefix 0 cfg.sources ds e);
        targets = with_timeout-targets cfg.targets;
        created = length-create_sources ds made e';
        given = (
          refl,
          refl,
          refl,
          (with_resolution_lem cfg.merge).1,
          length-name_sources cfg.merge.require_prefix 0 cfg.sources ds e,
          length-with_timeout cfg.targets,
        );
        unused = (refl, refl, refl, refl);
      })
