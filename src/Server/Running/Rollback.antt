-- ===== src/Server/Running/Rollback.antt =====
-- handleRollback of internal/server/server.go: what it does with a version that the store has, and
-- that it changes nothing where it turns a request down.
use the_redirector.Base.{
  ℕ, lit, ◌≡◌, refl, sym, ap, ◌∙◌, inl, inr, true, false, Option, none, some, ◌∷◌, take, subst, ℤ,
  pos, pos_part, ltb_ℤ, Bool-cases, Option-cases,
}
use the_redirector.Router as Routes
use the_redirector.Versioning.Changes.{Outside}
use the_redirector.Versioning.Store.{
  ConfigVersion, Store, current, get, rollback, rolled_back, store_version,
}
use the_redirector.Versioning.Store.Laws.{IsStore, readers_refine, rollback_found}
use the_redirector.Server.Running.{Environment, Server}
use the_redirector.Server.Running.Handlers.{
  Call, HttpReply, error, rolled_back_to, handle_rollback, handle_rollback_from, rollback_to,
  rollback_reply, use_version,
}
use the_redirector.Server.Running.Laws.{IsServer, take-cons}

module _ {R F : Type 0} (outside : Outside F) where
  rollback-get :
      (s : Store R F) (now version : ℕ) (v : ConfigVersion R F)
      → get s version ≡ some v
      → rollback outside s now version
        ≡ (some (rolled_back outside s now v), store_version s (rolled_back outside s now v))
  unfolding rollback
  rollback-get s now version v e = rw (e, rollback)

  rollback_missing :
      (s : Store R F) (now version : ℕ)
      → get s version ≡ none
      → rollback outside s now version ≡ (none, s)
  unfolding rollback
  rollback_missing s now version e = rw (e, rollback)

module _ {R F I N B D H : Type 0} (env : Environment R F I N B) where
  rollback_to-get :
      (s : Server R F I N B D H) (now : ℕ) (call : Call) (target : ℤ) (v : ConfigVersion R F)
      → ltb_ℤ target (pos 1) ≡ false
      → (seen : Store R F) (u : ConfigVersion R F) → get seen (pos_part target) ≡ some u
      → get s.version_store (pos_part target) ≡ some v
      → let r = rolled_back env.versions s.version_store now v in
        rollback_to env seen s now call target ≡ (
          (200, rolled_back_to target r.version r.rules_count),
          use_version env s now call r (store_version s.version_store r),
        )
  unfolding rollback_to rollback_reply
  rollback_to-get s now call target v high seen u was e =
      rw (high, was, rollback_to)
        (ap (rollback_reply env s now call target)
          (rollback-get env.versions s.version_store now (pos_part target) v e))

  -- Of a request that is a POST and names a version that the store has: the configuration of this
  -- version is in use again, with its router, and is the current version, under the next number; the
  -- reply names both numbers.
  pub handle_rollback_found :
      (s : Server R F I N B D H) (now : ℕ) (call : Call) (target : ℤ) (v : ConfigVersion R F)
      → IsServer s
      → call.is_post ≡ true
      → env.parse_version call.body ≡ some target
      → ltb_ℤ target (pos 1) ≡ false
      → get s.version_store (pos_part target) ≡ some v
      → let (reply, s') = handle_rollback env s now call in
        (reply ≡ (200, rolled_back_to target s.version_store.next_version v.rules_count))
        × (s'.cfg ≡ v.config)
        × (s'.router ≡ Routes.new v.config.rules)
        × ((u : ConfigVersion R F) × (current s'.version_store ≡ some u)
            × (u.config ≡ v.config)
            × (u.version ≡ s.version_store.next_version))
  unfolding handle_rollback handle_rollback_from use_version
  handle_rollback_found s now call target v w post read high hit =
      let h = w.newest ∷ w.older in
      let r = rolled_back env.versions s.version_store now v in
      let found =
        rollback_found env.versions s.version_store h now (pos_part target) v w.stored
          (sym ((readers_refine s.version_store h w.stored).3 (pos_part target)) ∙ hit) in
      let (older, kept) = take-cons s.version_store.ring.size r h w.stored.ring.positive in
      let stored =
        subst
          (λ (p : Option (ConfigVersion R F) × Store R F).
            IsStore p.1 (take s.version_store.ring.size (r ∷ h)))
          (rollback-get env.versions s.version_store now (pos_part target) v hit) found.1 in
      rw (post, read, rollback_to-get s now call target v high s.version_store v hit hit)
        (refl, refl, refl, (r, (readers_refine _ _ (subst (IsStore _) kept stored)).1, refl, refl))

  -- What becomes of a request, by what it says and by the two stores.
  pub data RollbackOutcome (seen : Store R F) (s : Server R F I N B D H) (call : Call)
      (reply : HttpReply D) (s' : Server R F I N B D H) : Type 0 where
    wrong_method :
        call.is_post ≡ false → reply.0 ≡ 405 → s' ≡ s → RollbackOutcome seen s call reply s'
    unreadable :
        call.is_post ≡ true
        → env.parse_version call.body ≡ none
        → reply.0 ≡ 400
        → s' ≡ s
        → RollbackOutcome seen s call reply s'
    too_low :
        (target : ℤ)
        → call.is_post ≡ true
        → env.parse_version call.body ≡ some target
        → ltb_ℤ target (pos 1) ≡ true
        → reply.0 ≡ 400
        → s' ≡ s
        → RollbackOutcome seen s call reply s'
    unknown :
        (target : ℤ)
        → call.is_post ≡ true
        → env.parse_version call.body ≡ some target
        → ltb_ℤ target (pos 1) ≡ false
        → get seen (pos_part target) ≡ none
        → reply.0 ≡ 404
        → s' ≡ s
        → RollbackOutcome seen s call reply s'
    gone :
        (target : ℤ) (u : ConfigVersion R F)
        → call.is_post ≡ true
        → env.parse_version call.body ≡ some target
        → ltb_ℤ target (pos 1) ≡ false
        → get seen (pos_part target) ≡ some u
        → get s.version_store (pos_part target) ≡ none
        → reply.0 ≡ 500
        → s' ≡ s
        → RollbackOutcome seen s call reply s'
    done :
        (target : ℤ) (u v : ConfigVersion R F)
        → call.is_post ≡ true
        → env.parse_version call.body ≡ some target
        → ltb_ℤ target (pos 1) ≡ false
        → get seen (pos_part target) ≡ some u
        → get s.version_store (pos_part target) ≡ some v
        → reply ≡ (200, rolled_back_to target s.version_store.next_version v.rules_count)
        → s'.cfg ≡ v.config
        → s'.router ≡ Routes.new v.config.rules
        → RollbackOutcome seen s call reply s'

  rollback_to-RollbackOutcome :
      (seen : Store R F) (s : Server R F I N B D H) (now : ℕ) (call : Call) (target : ℤ)
      → call.is_post ≡ true
      → env.parse_version call.body ≡ some target
      → let (reply, s') = rollback_to env seen s now call target in
        RollbackOutcome seen s call reply s'
  unfolding rollback_to rollback_reply use_version
  rollback_to-RollbackOutcome seen s now call target post read =
      elim (Bool-cases (ltb_ℤ target (pos 1))) [
        | inl low ↦ rw (low, rollback_to) (too_low target post read low refl refl)
        | inr high ↦ elim (Option-cases (get seen (pos_part target))) [
          | inl missed ↦
              rw (high, missed, rollback_to) (unknown target post read high missed refl refl)
          | inr (u, was) ↦ elim (Option-cases (get s.version_store (pos_part target))) [
            | inl lost ↦
                rw
                  (
                    high,
                    was,
                    rollback_missing env.versions s.version_store now (pos_part target) lost,
                    rollback_to,
                  )
                  (gone target u post read high was lost refl refl)
            | inr (v, hit) ↦
                rw (rollback_to-get s now call target v high seen u was hit)
                  (done target u v post read high was hit refl refl refl)
          ]
        ]
      ]

  -- Whatever other requests do between the two steps of handleRollback, Get and Rollback: a request
  -- that is no POST gets 405, a body that cannot be read or a version below 1 gets 400, a version
  -- that the store did not have at Get gets 404, one that it lost before Rollback gets 500, and in
  -- these cases the server is not changed; in all others the reply is 200 with both version numbers,
  -- and the configuration of the version at Rollback is in use with its router.
  pub handle_rollback_from-RollbackOutcome :
      (seen : Store R F) (s : Server R F I N B D H) (now : ℕ) (call : Call)
      → let (reply, s') = handle_rollback_from env seen s now call in
        RollbackOutcome seen s call reply s'
  unfolding handle_rollback_from
  handle_rollback_from-RollbackOutcome seen s now call = elim (Bool-cases call.is_post) [
    | inr other_method ↦ of_equal (other other_method) (wrong_method other_method refl refl)
    | inl post ↦ elim (Option-cases (env.parse_version call.body)) [
      | inl unread ↦ of_equal (unread_reply post unread) (unreadable post unread refl refl)
      | inr (target, read) ↦
          of_equal (sent_on target post read)
            (rollback_to-RollbackOutcome seen s now call target post read)
    ]
  ]
    where
      of_equal :
          {r t : HttpReply D × Server R F I N B D H}
          → r ≡ t
          → RollbackOutcome seen s call t.0 t.1
          → RollbackOutcome seen s call r.0 r.1
      of_equal e = subst (λ x. RollbackOutcome seen s call x.0 x.1) (sym e)

      other :
          call.is_post ≡ false
          → handle_rollback_from env seen s now call
            ≡ ((405, error (lit "method not allowed, use POST")), s)
      other e = rw e refl

      unread_reply :
          call.is_post ≡ true
          → env.parse_version call.body ≡ none
          → handle_rollback_from env seen s now call
            ≡ ((400, error (lit "invalid request body")), s)
      unread_reply e f = rw (e, f) refl

      sent_on :
          (target : ℤ)
          → call.is_post ≡ true
          → env.parse_version call.body ≡ some target
          → handle_rollback_from env seen s now call ≡ rollback_to env seen s now call target
      sent_on target e f = rw (e, f) refl
