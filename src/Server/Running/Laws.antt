-- ===== src/Server/Running/Laws.antt =====
-- The configuration that is in use, over the life of a server (internal/server/server.go).
use the_redirector.Base.{
  ℕ, suc, ◌<◌, ◌≡◌, refl, sym, ap, subst, ◌⊎◌, inl, inr, Option, none, some, List, [], ◌∷◌, Bytes,
  take, find, ℤ, pos, pos_part, ltb_ℤ, ◌==◌, ok, Bool-cases, Option-cases, >>=-eq-ok, zero,
  is_empty, arith, ok_injective, some_injective, Result-cases,
}
use the_redirector.Router as Routes
use the_redirector.Config as Configuration
use the_redirector.Config.Load.{LoadError, load_directory}
use the_redirector.Versioning.Store.{ConfigVersion, Store, get, add, rollback, added_version}
use the_redirector.Versioning.Store.Laws.{
  History, IsStore, add_refines, rollback_found, rollback_missing, new_store-IsStore,
}
use the_redirector.Server.Running.{
  Environment, Server, new_server, new_auth, record_config, reload_config, reload_with, swap_config,
  record_reload,
}
use the_redirector.Server.Running.Handlers.{
  Call, handle_rollback, handle_rollback_from, handle_reload, rollback_to, rollback_reply,
  use_version, reload_reply,
}

-- A list that keeps something keeps its head.
pub take-cons :
    {A : Type 0} (n : ℕ) (a : A) (l : List A) → 0 < n → (l' : List A) × (take n (a ∷ l) ≡ a ∷ l')
take-cons zero a l h = absurd (omega (arith, h))
take-cons (suc n) a l h = (take n l, refl)

module _ {R F I N B D H : Type 0} where
  -- The router is that of the configuration in use, which is that of the newest version of the
  -- store's history.
  pub record IsServer (s : Server R F I N B D H) : Type 0 where
    pub newest : ConfigVersion R F
    pub older : History R F
    pub stored : IsStore s.version_store (newest ∷ older)
    pub in_use : newest.config ≡ s.cfg
    pub routes : s.router ≡ Routes.new s.cfg.rules

  module _ (env : Environment R F I N B) where
    -- What is recorded becomes the newest version.
    pub record_config-stored :
        (s : Server R F I N B D H) (h : History R F) (now : ℕ) (cfg : Configuration.Config R F)
        (path type source : Bytes)
        → IsStore s.version_store h
        → (older : History R F) × IsStore
            (record_config env s now cfg path type source).version_store
            (added_version env.versions s.version_store now cfg path ∷ older)
    unfolding record_config add
    record_config-stored s h now cfg path type source w =
        let v = added_version env.versions s.version_store now cfg path in
        let (older, kept) = take-cons s.version_store.ring.size v h w.ring.positive in
        (
          older,
          subst (IsStore _) kept (add_refines env.versions s.version_store h now cfg path w).0,
        )

    record_config-IsServer :
        (s : Server R F I N B D H) (h : History R F) (now : ℕ) (cfg : Configuration.Config R F)
        (path type source : Bytes)
        → IsStore s.version_store h
        → cfg ≡ s.cfg
        → s.router ≡ Routes.new s.cfg.rules
        → IsServer (record_config env s now cfg path type source)
    unfolding record_config
    record_config-IsServer s h now cfg path type source w same routes =
        let (older, stored) = record_config-stored s h now cfg path type source w in
        record {
          newest = added_version env.versions s.version_store now cfg path;
          older = older;
          stored = stored;
          in_use = same;
          routes = routes;
        }

    pub new_server-IsServer :
        (counter : H) (now : ℕ) (cfg : Configuration.Config R F) (path : Bytes)
        (s : Server R F I N B D H)
        → new_server env counter now cfg path ≡ ok s
        → IsServer s
    unfolding new_server
    new_server-IsServer counter now cfg path s h =
        let (auth, made, rest) = >>=-eq-ok (new_auth env cfg.auth) _ h in
        subst IsServer (ok_injective rest)
          (record_config-IsServer _ [] now cfg path _ _ (new_store-IsStore (pos 10)).0 refl refl)

    reload_config-IsServer :
        (s : Server R F I N B D H) (now : ℕ) (path : Bytes)
        → IsServer s
        → IsServer (reload_config env s now path).1
    unfolding reload_config reload_with record_reload swap_config
    reload_config-IsServer s now path w =
        elim (Result-cases (load_directory env.engine env.files path)) [
          | inl (e, failed) ↦ rw failed w
          | inr (cfg, loaded) ↦ rw loaded (
              record_config-IsServer (swap_config s cfg) (w.newest ∷ w.older) now cfg path _ _
                w.stored refl refl)
        ]

    use_version-IsServer :
        (s : Server R F I N B D H) (now : ℕ) (call : Call) (v : ConfigVersion R F)
        (store : Store R F) (n : ℕ) (h : History R F)
        → 0 < n
        → IsStore store (take n (v ∷ h))
        → IsServer (use_version env s now call v store)
    unfolding use_version
    use_version-IsServer s now call v store n h positive w =
        let (older, kept) = take-cons n v h positive in
        record {
          newest = v;
          older = older;
          stored = subst (IsStore store) kept w;
          in_use = refl;
          routes = refl;
        }

    rollback_reply-IsServer :
        (s : Server R F I N B D H) (now : ℕ) (call : Call) (target : ℤ)
        (result : Option (ConfigVersion R F) × Store R F)
        → IsServer s
        → ((result.0 ≡ none) × (result.1 ≡ s.version_store))
          ⊎ ((v : ConfigVersion R F) × (n : ℕ) × (h : History R F) × (result.0 ≡ some v)
              × (0 < n)
              × IsStore result.1 (take n (v ∷ h)))
        → IsServer (rollback_reply env s now call target result).1
    unfolding rollback_reply
    rollback_reply-IsServer s now call target (none, store) w (inl (e, same)) = record {
      newest = w.newest;
      older = w.older;
      stored = subst (λ st. IsStore st (w.newest ∷ w.older)) (sym same) w.stored;
      in_use = w.in_use;
      routes = w.routes;
    }
    rollback_reply-IsServer s now call target (none, store) w (inr (v, n, h, e, positive, stored)) =
        absurd (ground arith)
    rollback_reply-IsServer s now call target (some u, store) w (inl (e, same)) =
        absurd (ground arith)
    rollback_reply-IsServer s now call target (some u, store) w
          (inr (v, n, h, e, positive, stored)) =
        use_version-IsServer s now call u store n h positive
          (subst (λ x. IsStore store (take n (x ∷ h))) (some_injective (sym e)) stored)

    rollback-cases :
        (s : Server R F I N B D H) (now version : ℕ)
        → IsServer s
        → let result = rollback env.versions s.version_store now version in
          ((result.0 ≡ none) × (result.1 ≡ s.version_store))
          ⊎ ((v : ConfigVersion R F) × (n : ℕ) × (h : History R F) × (result.0 ≡ some v)
              × (0 < n)
              × IsStore result.1 (take n (v ∷ h)))
    rollback-cases s now version w =
        let h = w.newest ∷ w.older in
        elim (Option-cases (find (λ (v : ConfigVersion R F). v.version == version) h)) [
          | inl missed ↦
              let e = rollback_missing env.versions s.version_store h now version w.stored missed in
              inl (
                ap (λ (r : Option (ConfigVersion R F) × Store R F). r.0) e,
                ap (λ (r : Option (ConfigVersion R F) × Store R F). r.1) e,
              )
          | inr (v, hit) ↦
              let found =
                rollback_found env.versions s.version_store h now version v w.stored hit in
              inr (_, s.version_store.ring.size, h, found.0, w.stored.ring.positive, found.1)
        ]

    rollback_to-IsServer :
        (s : Server R F I N B D H) (now : ℕ) (call : Call) (target : ℤ)
        → IsServer s
        → IsServer (rollback_to env s.version_store s now call target).1
    unfolding rollback_to
    rollback_to-IsServer s now call target w = elim (Bool-cases (ltb_ℤ target (pos 1))) [
      | inl low ↦ rw low w
      | inr high ↦ elim (Option-cases (get s.version_store (pos_part target))) [
        | inl missed ↦ rw (high, missed) w
        | inr (v, hit) ↦
            rw (high, hit)
              (rollback_reply-IsServer s now call target _ w
                (rollback-cases s now (pos_part target) w))
      ]
    ]

    pub handle_rollback-IsServer :
        (s : Server R F I N B D H) (now : ℕ) (call : Call)
        → IsServer s
        → IsServer (handle_rollback env s now call).1
    unfolding handle_rollback handle_rollback_from
    handle_rollback-IsServer s now call w = elim (Bool-cases call.is_post) [
      | inr other_method ↦ rw other_method w
      | inl post ↦ elim (Option-cases (env.parse_version call.body)) [
        | inl unread ↦ rw (post, unread) w
        | inr (target, read) ↦ rw (post, read) (rollback_to-IsServer s now call target w)
      ]
    ]

    server-reload_reply :
        (r : Option LoadError × Server R F I N B D H) → (reload_reply env r).1 ≡ r.1
    unfolding reload_reply
    server-reload_reply (none, s) = refl
    server-reload_reply (some e, s) = refl

    pub handle_reload-IsServer :
        (s : Server R F I N B D H) (now : ℕ) (call : Call)
        → IsServer s
        → IsServer (handle_reload env s now call).1
    unfolding handle_reload
    handle_reload-IsServer s now call w = elim (Bool-cases call.is_post) [
      | inr other_method ↦ rw other_method w
      | inl post ↦ elim (Bool-cases (is_empty s.config_path)) [
        | inl unset_path ↦ rw (post, unset_path) w
        | inr path ↦
            rw (post, path, server-reload_reply (reload_config env s now s.config_path))
              (reload_config-IsServer s now s.config_path w)
      ]
    ]
