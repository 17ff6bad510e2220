-- ===== src/Watch/Handle/Adds.antt =====
-- internal/watch/service.go: the watches that AddWatch accepts.
use open_light.Base.{Bool, true, ◌≡◌, arith}
use open_light.Base.Int.{ℤ, pos, ◌<ℤ◌, ◌≤ℤ◌}
use open_light.Base.Text.{Text}
use open_light.Errors.{Result, ok, err}
use open_light.Models.{Watch, WatchKind, service_down, clear}
use open_light.Watch.World.{World, store, draw, lift, ◌>>=◌}
use open_light.Watch.Env.{Env}
use open_light.Watch.Spec.{AddSpec}
use open_light.Watch.Spec.Parse.{parse_add_spec}
use open_light.Watch.Spec.Validate.{validate_spec}
use open_light.Watch.Repository.{create_watch}
use open_light.Watch.Handle.{service_listed, validate_target, new_watch, add_watch}

module _ (env : Env) where
  -- What a watch of a kind may look at: a service of the allow list.
  unfoldable pub is_reachable : WatchKind → Text → Bool
  is_reachable service_down target = service_listed target env.service_targets
  is_reachable _ target = true

  validate_target-is_reachable :
      (kind : WatchKind) (target : Text)
      → validate_target env kind target ≡ ok tt
      → is_reachable kind target ≡ true
  unfolding is_reachable validate_target
  validate_target-is_reachable kind target h = ground arith

  validate_spec-bounds :
      (spec : AddSpec)
      → validate_spec env.num spec ≡ ok tt
      → (pos 0 <ℤ spec.duration) × (pos 0 ≤ℤ spec.cooldown)
  unfolding validate_spec
  validate_spec-bounds spec h = ground arith

  module _ (chat user : ℤ) where
    -- A watch that AddWatch returns has a positive duration and no negative cooldown, belongs to the
    -- chat and the user that asked, is enabled and without an alert, and, if it looks at a service,
    -- that service is on the allow list.
    pub add_watch-is_reachable :
        (raw : Text) (w : World) {watch : Watch}
        → (add_watch env chat user raw w).0 ≡ ok watch
        → (pos 0 <ℤ watch.duration)
          × (pos 0 ≤ℤ watch.cooldown)
          × (watch.chat_id ≡ chat)
          × (watch.user_id ≡ user)
          × (watch.enabled ≡ true)
          × (watch.incident_state ≡ clear)
          × (is_reachable watch.kind watch.target ≡ true)
    unfolding add_watch create_watch store draw new_watch
    add_watch-is_reachable raw w {watch} h = by_spec (parse_add_spec env.num raw) h
      where
        by_spec :
            (s : Result AddSpec)
            → ((lift s >>= (λ spec. lift (validate_target env spec.kind spec.target) >>= (λ _.
                  lift (validate_spec env.num spec)
                  >>= (λ _. create_watch (new_watch env chat user spec)))))
                w).0
              ≡ ok watch
            → (pos 0 <ℤ watch.duration)
              × (pos 0 ≤ℤ watch.cooldown)
              × (watch.chat_id ≡ chat)
              × (watch.user_id ≡ user)
              × (watch.enabled ≡ true)
              × (watch.incident_state ≡ clear)
              × (is_reachable watch.kind watch.target ≡ true)
        by_spec (err e) h = cc
        by_spec (ok spec) h =
            let t = validate_target-is_reachable spec.kind spec.target in
            let b = validate_spec-bounds spec in ground arith
