-- ===== src/Server/Running/Overlap.antt =====
-- Two reloads at once (ReloadConfig of internal/server/server.go): each takes the lock for the swap
-- of the configuration only, so the other may come between its swap and its record.
use the_redirector.Base.{ℕ, ◌≡◌, refl, ◌∙◌, Bytes, lit, some, ◌∷◌}
use the_redirector.Config as Configuration
use the_redirector.Versioning.Store.{ConfigVersion, current, added_version}
use the_redirector.Versioning.Store.Laws.{History, IsStore, readers_refine}
use the_redirector.Server.Running.{Environment, Server, swap_config, record_reload, record_config}
use the_redirector.Server.Running.Laws.{IsServer, record_config-stored}

module _ {R F I N B D H : Type 0} (env : Environment R F I N B) where
  record_reload-stored :
      (s : Server R F I N B D H) (h : History R F) (now : ℕ) (c : Configuration.Config R F)
      (path : Bytes)
      → IsStore s.version_store h
      → (v : ConfigVersion R F) × (older : History R F) × IsStore
          (record_reload env s now c path).version_store
          (v ∷ older)
        × (v.config ≡ c)
  unfolding record_reload
  record_reload-stored s h now c path w =
      let (older, stored) =
        record_config-stored env s h now c path (lit "config_reloaded") (lit "reload") w in
      (added_version env.versions s.version_store now c path, older, stored, refl)

  record_twice :
      (s : Server R F I N B D H) (h : History R F) (now later : ℕ) (c d : Configuration.Config R F)
      (path : Bytes)
      → IsStore s.version_store h
      → let s' = record_reload env (record_reload env s now c path) later d path in
        (v : ConfigVersion R F) × (current s'.version_store ≡ some v) × (v.config ≡ d)
  record_twice s h now later c d path w =
      let (u, older, stored, same) = record_reload-stored s h now c path w in
      let (v, older', stored', same') =
        record_reload-stored (record_reload env s now c path) (u ∷ older) later d path stored in
      (v, (readers_refine _ _ stored').1, same')

  cfg-record_reload :
      (s : Server R F I N B D H) (now : ℕ) (c : Configuration.Config R F) (path : Bytes)
      → (record_reload env s now c path).cfg ≡ s.cfg
  unfolding record_reload record_config
  cfg-record_reload s now c path = refl

  -- Behind two reloads that swap in `c` and then `d`, the configuration in use is `d`, and the
  -- current version is the one that is recorded last: `d` where the records come in the order of the
  -- swaps, but `c` where they come the other way round.
  pub swap_config-record_reload :
      (s : Server R F I N B D H) (now later : ℕ) (c d : Configuration.Config R F) (path : Bytes)
      → IsServer s
      → let swapped = swap_config (swap_config s c) d in
        let in_order = record_reload env (record_reload env swapped now c path) later d path in
        let crossed = record_reload env (record_reload env swapped now d path) later c path in
        (in_order.cfg ≡ d)
        × (crossed.cfg ≡ d)
        × ((v : ConfigVersion R F) × (current in_order.version_store ≡ some v) × (v.config ≡ d))
        × ((v : ConfigVersion R F) × (current crossed.version_store ≡ some v) × (v.config ≡ c))
  unfolding swap_config
  swap_config-record_reload s now later c d path w = (
    cfg-record_reload _ later d path ∙ cfg-record_reload _ now c path,
    cfg-record_reload _ later c path ∙ cfg-record_reload _ now d path,
    record_twice _ (w.newest ∷ w.older) now later c d path w.stored,
    record_twice _ (w.newest ∷ w.older) now later d c path w.stored,
  )
